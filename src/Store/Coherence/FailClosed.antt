-- ===== src/Store/Coherence/FailClosed.antt =====
-- What a failing disk cannot do: no taint and no solve is ever on disk and unknown to the memory
-- that grades, whichever statements fail.
use falco_ctf_app.Prelude.{
  suc, String, Bool, true, false, ◌≡◌, ◌⊎◌, inl, inr, none, some, List, [], ◌∷◌, arith, All,
  string_eq, Bool-cases, if◌then◌else◌,
}
use falco_ctf_app.Prelude.Maps.{lookup, has, lookup-insert}
use falco_ctf_app.Prelude.RuleSets.{has_rule, add_rule, has_rule-add_rule, has_rule-delete}
use falco_ctf_app.Prelude.Results.{Result-cases}
use falco_ctf_app.Store.State.{
  SolveKey, solve_key, solve_eq, rule_eq, Memory, Tables, Store, insert_or_ignore,
}
use falco_ctf_app.Store.Solves.{mark_solved, record_exfil}
use falco_ctf_app.Store.Reveals.{record_hint_view, set_step_check}
use falco_ctf_app.Store.Profiles.{set_display_name, set_profile, reset_profile}
use falco_ctf_app.Store.Rules.{
  rule_key, mark_dirty, record_expected_rule_fire, reset_dirty, record_rule_fire,
}
use falco_ctf_app.Store.Lifecycle.{run_all, reset_statements, reset, cleared}
use falco_ctf_app.Store.Coherence.Relation.{has-delete_mission}
use falco_ctf_app.Store.Coherence.Histories.{
  Write, solve, check, profile, taint, clean, clear, perform, run, wiped, reset-wiped,
}

pub record Known (m : Memory) (t : Tables) : Type 0 where
  pub solves : (k : SolveKey) → has k t.solved ≡ true → has k m.solved ≡ true
  pub taints :
      (u c r : String)
      → has (rule_key u c r) t.evade_dirty ≡ true
      → has_rule (solve_key u c) r m.dirty_rules ≡ true

abbrev pub IsKnown : Store → Type 0
IsKnown s = Known s.mem s.db

solve-Known : (u c at : String) (s : Store) → IsKnown s → IsKnown (mark_solved u c at s).1
unfolding mark_solved
solve-Known u c at s h = record {
  solves = λ k p. ground (
    arith,
    h.solves k,
    lookup-insert (solve_key u c) k at s.mem.solved,
    lookup-insert (solve_key u c) k at s.db.solved,
  );
  taints = λ v d q p. ground (arith, h.taints v d q);
}

-- The memory holds the taint before the statement runs, so its failure loses nothing.
marked-Known :
    (u c r at : String) {m : Memory} {t : Tables}
    → Known m t
    → (b : Bool)
    → Known
        (record m { dirty_rules = add_rule (solve_key u c) r m.dirty_rules })
        (if b
          then t
          else record t { evade_dirty = insert_or_ignore (rule_key u c r) at t.evade_dirty })
marked-Known u c r at {m} {t} h true = record {
  solves = h.solves;
  taints = λ v d q p. rw has_rule-add_rule (ground (arith, h.taints v d q));
}
marked-Known u c r at {m} {t} h false = record {
  solves = h.solves;
  taints = λ v d q p. rw has_rule-add_rule (
      ground
        (arith, h.taints v d q, lookup-insert (rule_key u c r) (rule_key v d q) at t.evade_dirty));
}

pub taint-Known : (u c r at : String) (s : Store) → IsKnown s → IsKnown (mark_dirty u c r at s).1
unfolding mark_dirty
taint-Known u c r at s h = elim (Bool-cases (s.faulty s.statements)) [
  | inl bad ↦ rw bad (marked-Known u c r at h true)
  | inr good ↦ rw good (marked-Known u c r at h false)
]

clean-Known : (u c : String) (s : Store) → IsKnown s → IsKnown (reset_dirty u c s).1
unfolding reset_dirty
clean-Known u c s h = record {
  solves = λ k p. ground (arith, h.solves k);
  taints = λ v d q p. ground (
    arith,
    h.taints v d q,
    has-delete_mission u c v d q s.db.evade_dirty,
    has_rule-delete (solve_key u c) (solve_key v d) q s.mem.dirty_rules,
  );
}

-- A statement that keeps a relation of memory and tables, as each DELETE of a reset does.
abbrev pub Keeps : (Memory → Tables → Type 0) → (Tables → Tables) → Type 0
Keeps P f = (m : Memory) (t : Tables) → P m t → P m (f t)

pub run_all-keeps :
    (P : Memory → Tables → Type 0) (fs : List (String × (Tables → Tables)))
    → All (λ e. Keeps P e.1) fs
    → (s : Store) → P s.mem s.db
    → P (run_all fs s).1.mem (run_all fs s).1.db
unfolding run_all
run_all-keeps P [] _ s h = h
run_all-keeps P ((stage, f) ∷ fs) (keeps, rest) s h = elim (Bool-cases (s.faulty s.statements)) [
  | inl bad ↦ rw bad h
  | inr good ↦ rw good (
      run_all-keeps P fs rest (record s { db = f s.db; statements = suc s.statements })
        (keeps s.mem s.db h))
]

reset_statements-shrink : All (λ e. Keeps Known e.1) reset_statements
unfolding lookup
reset_statements-shrink = (
  λ m t h. record { solves = λ k p. cc; taints = h.taints },
  (
    λ m t h. record { solves = h.solves; taints = h.taints },
    (
      λ m t h. record { solves = h.solves; taints = h.taints },
      (
        λ m t h. record { solves = h.solves; taints = h.taints },
        (
          λ m t h. record { solves = h.solves; taints = λ u c r p. cc },
          (λ m t h. record { solves = h.solves; taints = h.taints }, tt),
        ),
      ),
    ),
  ),
)

-- A reset either ran all its statements, or stopped before the memory was cleared.
pub reset-cases :
    (s : Store)
    → (((reset s).1.mem ≡ cleared s.mem) × ((reset s).1.db ≡ wiped s.db))
      ⊎ ((reset s).1 ≡ (run_all reset_statements s).1)
reset-cases s = elim (Result-cases (reset s).0) [
  | inl (n, done) ↦ inl (reset-wiped s done)
  | inr (e, failed) ↦ inr (unfold reset in ground arith)
]

reset-Known : (s : Store) → IsKnown s → IsKnown (reset s).1
reset-Known s h = elim (reset-cases s) [
  | inl (mem, db) ↦
      rw (mem, db) (unfold lookup in record { solves = λ k p. cc; taints = λ u c r p. cc })
  | inr stopped ↦ rw stopped (run_all-keeps Known reset_statements reset_statements-shrink s h)
]

-- Any call, with any of its statements failing, leaves every solve and taint on disk known.
pub perform-Known : (w : Write) (s : Store) → IsKnown s → IsKnown (perform w s).1
unfolding perform record_exfil record_hint_view set_step_check set_display_name set_profile
    reset_profile record_expected_rule_fire record_rule_fire
perform-Known (solve u c at) s h = solve-Known u c at s h
perform-Known (taint u c r at) s h = taint-Known u c r at s h
perform-Known (clean u c) s h = clean-Known u c s h
perform-Known clear s h = reset-Known s h
perform-Known (check u c i true at) s h = record {
  solves = λ k p. ground (arith, h.solves k);
  taints = λ v d q p. ground (arith, h.taints v d q);
}
perform-Known (profile u none none at) s h = h
perform-Known (profile u (some n) none at) s h = record {
  solves = λ k p. ground (arith, h.solves k);
  taints = λ v d q p. ground (arith, h.taints v d q);
}
perform-Known w s h = record {
  solves = λ k p. ground (arith, h.solves k);
  taints = λ v d q p. ground (arith, h.taints v d q);
}

-- If every solve and every taint in the tables is in the maps that grade, then this holds after
-- any history, whichever statements failed.
pub run-Known : (ws : List Write) (s : Store) → IsKnown s → IsKnown (run ws s)
unfolding run
run-Known [] s h = h
run-Known (w ∷ ws) s h = run-Known ws (perform w s).1 (perform-Known w s h)
