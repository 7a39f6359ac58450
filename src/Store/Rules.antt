-- ===== src/Store/Rules.antt =====
-- Rule fires, the per-mission taint and the expected-rule gate of internal/store/store.go.
use falco_ctf_app.Prelude.{
  ℕ, suc, ◌-◌, ◌*◌, String, Bool, true, false, ◌&&◌, List, [], ◌∷◌, ◌++◌, map, Option, none, some,
  ◌==◌, string_eq, leb, ltb, if◌then◌else◌, keep, contains,
}
use falco_ctf_app.Prelude.Maps.{Map, lookup, insert, delete, delete_where}
use falco_ctf_app.Prelude.RuleSets.{add_rule, set_of}
use falco_ctf_app.Prelude.Sort.{sort, string_le}
use falco_ctf_app.Store.State.{
  solve_key, solve_eq, RuleKey, rule_eq, RuleFire, Store, Action, exec, staged, update, pure, ◌>>◌,
  insert_or_ignore,
}

abbrev pub rule_key : String → String → String → RuleKey
rule_key u c r = record { user = u; challenge = c; rule = r }

-- RetentionSeconds, in nanoseconds.
abbrev pub retention : ℕ
retention = 300 * 1000000000

abbrev count_of : Option ℕ → ℕ
count_of none = 0
count_of (some n) = n

abbrev pub fires_of : Option (List RuleFire) → List RuleFire
fires_of none = []
fires_of (some fires) = fires

-- A cutoff before time 0 keeps everything, which is what the truncated `-` gives.
abbrev pub recent : ℕ → RuleFire → Bool
recent cutoff f = leb cutoff f.at

unfoldable pub record_rule_fire : String → String → ℕ → Action ℕ
record_rule_fire user rule at s =
    let count = suc (count_of (lookup user s.mem.events_per_user)) in
    let fires = fires_of (lookup user s.mem.rule_fires) ++ record { rule = rule; at = at } ∷ [] in
    let kept = keep (recent (at - retention)) fires in
    (do
      update (λ m. record m {
        events_per_user = insert user count m.events_per_user;
        rule_fires = insert user kept m.rule_fires;
      })
      pure count)
      s

unfoldable pub recent_rule_fires : String → ℕ → ℕ → Store → List RuleFire
recent_rule_fires user now window s =
    keep (recent (now - window)) (fires_of (lookup user s.mem.rule_fires))

-- The `seen` set of RecentFiresMatching.
unfoldable pub seen_rules :
    ℕ → List String → List RuleFire → Map String (Unit {0}) → Map String (Unit {0})
seen_rules cutoff rules [] seen = seen
seen_rules cutoff rules (f ∷ fires) seen = seen_rules cutoff rules fires (
    if ltb f.at cutoff then seen else if contains rules f.rule then insert f.rule tt seen else seen)

unfoldable pub recent_fires_matching : String → List String → ℕ → ℕ → Store → List String
unfolding seen_rules
recent_fires_matching user rules now window s =
    sort string_le (
      map (λ e. e.0) (seen_rules (now - window) rules (fires_of (lookup user s.mem.rule_fires)) []))

-- The memory is written first and stays written if the statement fails.
unfoldable pub mark_dirty : String → String → String → String → Action (Unit {0})
mark_dirty user challenge rule at = do
  update (λ m. record m { dirty_rules = add_rule (solve_key user challenge) rule m.dirty_rules })
  exec (λ t. record t {
    evade_dirty = insert_or_ignore (rule_key user challenge rule) at t.evade_dirty;
  })

unfoldable pub dirty_rules : String → String → Store → List String
dirty_rules user challenge s =
    sort string_le (set_of (lookup (solve_key user challenge) s.mem.dirty_rules))

unfoldable pub record_expected_rule_fire : String → String → String → String → Action (Unit {0})
record_expected_rule_fire user challenge rule at = do
  update (λ m. record m {
    expected_rule_fire = add_rule (solve_key user challenge) rule m.expected_rule_fire;
  })
  exec (λ t. record t {
    expected_rule_fire = insert_or_ignore (rule_key user challenge rule) at t.expected_rule_fire;
  })

abbrev pub nonempty {ℓ} : {A : Type ℓ} → List A → Bool
nonempty [] = false
nonempty (_ ∷ _) = true

unfoldable pub has_expected_rule_fire : String → String → Store → Bool
has_expected_rule_fire user challenge s =
    nonempty (set_of (lookup (solve_key user challenge) s.mem.expected_rule_fire))

-- DELETE … WHERE user = ? AND challenge = ? over a table with one row for each rule.
abbrev pub delete_mission : String → String → Map RuleKey String → Map RuleKey String
delete_mission u c = delete_where (λ k. k.user == u && k.challenge == c)

-- One transaction for both tables; the expected-rule gate is left alone.
unfoldable pub reset_dirty : String → String → Action (Unit {0})
reset_dirty user challenge = do
  staged
  staged
  staged
  exec (λ t. record t {
    evade_dirty = delete_mission user challenge t.evade_dirty;
    exfil = delete (solve_key user challenge) t.exfil;
  })
  update (λ m. record m {
    dirty_rules = delete (solve_key user challenge) m.dirty_rules;
    exfil = delete (solve_key user challenge) m.exfil;
  })
