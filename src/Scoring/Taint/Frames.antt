-- ===== src/Scoring/Taint/Frames.antt =====
-- What each store method does to the taint and to the solve of one mission.
use falco_ctf_app.Prelude.{
  String, true, false, ◌&&◌, ◌≡◌, refl, inl, inr, Option, none, some, List, [], ◌∷◌, arith, ◌==◌,
  string_eq, Bool-cases,
}
use falco_ctf_app.Prelude.Maps.{lookup, lookup-insert}
use falco_ctf_app.Prelude.RuleSets.{RuleSet, set_of, rule_in, has_rule, add_rule, has_rule-add_rule}
use falco_ctf_app.Prelude.Sort.{sort, length-sort, string_le}
use falco_ctf_app.Store.State.{solve_key, solve_eq, Store}
use falco_ctf_app.Store.Solves.{mark_solved, is_solved, record_exfil}
use falco_ctf_app.Store.Rules.{mark_dirty, dirty_rules, record_expected_rule_fire, nonempty}

-- A forbidden rule has tainted the mission, and the mission is not solved.
pub record Blocked (u c r : String) (s : Store) : Type 0 where
  pub tainted : has_rule (solve_key u c) r s.mem.dirty_rules ≡ true
  pub unsolved : is_solved u c s ≡ false

nonempty-sort : (xs : List String) → nonempty xs ≡ true → nonempty (sort string_le xs) ≡ true
nonempty-sort xs h = ground (arith, length-sort string_le xs)

nonempty-set_of :
    (o : Option RuleSet) (r : String) → rule_in o r ≡ true → nonempty (set_of o) ≡ true
unfolding lookup
nonempty-set_of none r h = cc
nonempty-set_of (some []) r h = cc
nonempty-set_of (some (e ∷ set)) r h = refl

module _ {u c r : String} {s : Store} (b : Blocked u c r s) where
  pub dirty_rules_of_Blocked : nonempty (dirty_rules u c s) ≡ true
  unfolding dirty_rules
  dirty_rules_of_Blocked =
      nonempty-sort (set_of (lookup (solve_key u c) s.mem.dirty_rules))
        (nonempty-set_of (lookup (solve_key u c) s.mem.dirty_rules) r b.tainted)

  -- A solve of another mission or of another participant.
  pub mark_solved-Blocked :
      (v d at : String) → (v == u && d == c) ≡ false → Blocked u c r (mark_solved v d at s).1
  unfolding mark_solved is_solved
  mark_solved-Blocked v d at other = record {
    tainted = ground (arith, b.tainted);
    unsolved =
        ground (arith, b.unsolved, lookup-insert (solve_key v d) (solve_key u c) at s.mem.solved);
  }

  pub mark_dirty-Blocked : (v d q at : String) → Blocked u c r (mark_dirty v d q at s).1
  unfolding mark_dirty is_solved
  mark_dirty-Blocked v d q at = elim (Bool-cases (s.faulty s.statements)) [
    | inl bad ↦ rw bad (record { tainted = still; unsolved = b.unsolved })
    | inr good ↦ rw good (record { tainted = still; unsolved = b.unsolved })
  ]
    where
      still : has_rule (solve_key u c) r (add_rule (solve_key v d) q s.mem.dirty_rules) ≡ true
      still = rw has_rule-add_rule (ground (arith, b.tainted))

  pub record_expected_rule_fire-Blocked :
      (v d q at : String) → Blocked u c r (record_expected_rule_fire v d q at s).1
  unfolding record_expected_rule_fire is_solved
  record_expected_rule_fire-Blocked v d q at = record {
    tainted = ground (arith, b.tainted);
    unsolved = ground (arith, b.unsolved);
  }

  pub record_exfil-Blocked : (v d flag at : String) → Blocked u c r (record_exfil v d flag at s).1
  unfolding record_exfil is_solved
  record_exfil-Blocked v d flag at = record {
    tainted = ground (arith, b.tainted);
    unsolved = ground (arith, b.unsolved);
  }
