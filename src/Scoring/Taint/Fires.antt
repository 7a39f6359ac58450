-- ===== src/Scoring/Taint/Fires.antt =====
-- What a rule fire does to the taint, on the graded path and on the overflow path.
use falco_ctf_app.Prelude.{
  String, true, false, ◌≡◌, refl, sym, ◌∙◌, inl, inr, Option, none, some, List, [], ◌∷◌, arith,
  string_eq, ==_refl, Bool-cases,
}
use falco_ctf_app.Prelude.Maps.{Map, lookup}
use falco_ctf_app.Prelude.RuleSets.{RuleSet, has_rule, add_rule, has_rule-add_rule}
use falco_ctf_app.Identity.{valid_seat}
use falco_ctf_app.Catalog.{ids, IsLoaded}
use falco_ctf_app.Store.State.{SolveKey, solve_key, solve_eq, Store}
use falco_ctf_app.Store.Solves.{mark_solved, is_solved}
use falco_ctf_app.Store.Rules.{mark_dirty, record_expected_rule_fire}
use falco_ctf_app.Scoring.Grader.{
  Grader, expects_fire, triggered, taint_target, taint_with, taint_on_overflow,
  mark_dirty_on_rule_fire, record_fires, evaluate_triggers, on_rule_fire,
}
use falco_ctf_app.Scoring.Mission.{taint_target_lem}
use falco_ctf_app.Scoring.Taint.Frames.{Blocked}
use falco_ctf_app.Scoring.Taint.Calls.{evaluate_triggers-Blocked, record_fires-Blocked}
use falco_ctf_app.Scoring.Taint.NeverSolved.{Call, calls, calls-Blocked}

-- The taint of a fire, with no store and no disk: the rule is added to the target's set.
abbrev pub tainted_sets :
    Option String → String → String → Map SolveKey RuleSet → Map SolveKey RuleSet
tainted_sets none user rule sets = sets
tainted_sets (some c) user rule sets = add_rule (solve_key user c) rule sets

dirty-taint_with :
    (target : Option String) (user rule at : String) (s : Store)
    → (taint_with target user rule at s).1.mem.dirty_rules
      ≡ tainted_sets target user rule s.mem.dirty_rules
unfolding mark_dirty
dirty-taint_with none user rule at s = refl
dirty-taint_with (some c) user rule at s = ground arith

dirty-record_expected :
    (u c q at : String) (s : Store)
    → (record_expected_rule_fire u c q at s).1.mem.dirty_rules ≡ s.mem.dirty_rules
unfolding record_expected_rule_fire
dirty-record_expected u c q at s = ground arith

dirty-mark_solved :
    (u c at : String) (s : Store) → (mark_solved u c at s).1.mem.dirty_rules ≡ s.mem.dirty_rules
unfolding mark_solved
dirty-mark_solved u c at s = ground arith

dirty-record_fires :
    (g : Grader) (u q at : String) (cids : List String) (s : Store)
    → (record_fires g u q at cids s).1.mem.dirty_rules ≡ s.mem.dirty_rules
unfolding record_fires
dirty-record_fires g u q at [] s = refl
dirty-record_fires g u q at (d ∷ rest) s = elim (Bool-cases (expects_fire (lookup d g.cat) q)) [
  | inl fires ↦ rw fires (
      dirty-record_fires g u q at rest (record_expected_rule_fire u d q at s).1
      ∙ dirty-record_expected u d q at s)
  | inr quiet ↦ rw quiet (dirty-record_fires g u q at rest s)
]

dirty-evaluate_triggers :
    (g : Grader) (u q at : String) (cids : List String) (s : Store)
    → (evaluate_triggers g u q at cids s).1.mem.dirty_rules ≡ s.mem.dirty_rules
unfolding evaluate_triggers
dirty-evaluate_triggers g u q at [] s = refl
dirty-evaluate_triggers g u q at (d ∷ rest) s = elim (Bool-cases (triggered (lookup d g.cat) q)) [
  | inl fires ↦
      rw fires (
        dirty-evaluate_triggers g u q at rest (mark_solved u d at s).1 ∙ dirty-mark_solved u d at s)
  | inr quiet ↦ rw quiet (dirty-evaluate_triggers g u q at rest s)
]

-- A rule fire of a seat adds the rule to the taints of the mission that taint_target names, if it
-- names one, and changes no other taint, whichever statements fail.
pub dirty-on_rule_fire :
    (g : Grader) (u q a b d : String) (s : Store)
    → valid_seat u ≡ true
    → (on_rule_fire g u q a b d s).1.mem.dirty_rules
      ≡ tainted_sets (taint_target g u q s) u q s.mem.dirty_rules
unfolding on_rule_fire mark_dirty_on_rule_fire
dirty-on_rule_fire g u q a b d s seat = rw seat (
    dirty-evaluate_triggers g u q d (ids g.cat) _
    ∙ dirty-record_fires g u q b (ids g.cat) _
    ∙ dirty-taint_with (taint_target g u q s) u q a s)

-- For a seat, a rate-limited fire of a rule leaves the same taints as a graded fire of it.
pub overflow_taints_alike :
    (g : Grader) (u q at a b d : String) (s : Store)
    → valid_seat u ≡ true
    → (taint_on_overflow g u q at s).1.mem.dirty_rules
      ≡ (on_rule_fire g u q a b d s).1.mem.dirty_rules
unfolding taint_on_overflow
overflow_taints_alike g u q at a b d s seat =
    rw seat (
      dirty-taint_with (taint_target g u q s) u q at s
      ∙ sym (dirty-on_rule_fire g u q a b d s seat))

mark_dirty_self :
    (u c q at : String) (s : Store)
    → is_solved u c s ≡ false
    → Blocked u c q (mark_dirty u c q at s).1
unfolding mark_dirty is_solved
mark_dirty_self u c q at s todo = elim (Bool-cases (s.faulty s.statements)) [
  | inl bad ↦ rw bad (record { tainted = marked; unsolved = todo })
  | inr good ↦ rw good (record { tainted = marked; unsolved = todo })
]
  where
    marked : has_rule (solve_key u c) q (add_rule (solve_key u c) q s.mem.dirty_rules) ≡ true
    marked = rw has_rule-add_rule (ground (arith, ==_refl u, ==_refl c, ==_refl q))

-- The fire of a forbidden rule blocks the current mission, also when no statement succeeds.
pub on_rule_fire-Blocked :
    (g : Grader) (u q a b d : String) (s : Store) {c : String}
    → valid_seat u ≡ true
    → taint_target g u q s ≡ some c
    → Blocked u c q (on_rule_fire g u q a b d s).1
unfolding on_rule_fire mark_dirty_on_rule_fire
on_rule_fire-Blocked g u q a b d s {c} seat h =
    let t = taint_target_lem g u q s h in
    rw (seat, h)
      (evaluate_triggers-Blocked g t.challenge u q d (ids g.cat) _ t.found t.evade
        (record_fires-Blocked g u q b (ids g.cat) _ (mark_dirty_self u c q a s t.unsolved)))

pub taint_on_overflow-Blocked :
    (g : Grader) (u q at : String) (s : Store) {c : String}
    → valid_seat u ≡ true
    → taint_target g u q s ≡ some c
    → Blocked u c q (taint_on_overflow g u q at s).1
unfolding taint_on_overflow
taint_on_overflow-Blocked g u q at s {c} seat h =
    let t = taint_target_lem g u q s h in rw (seat, h) (mark_dirty_self u c q at s t.unsolved)

-- In a catalog whose challenges stand under their own ids: when a forbidden rule fires for a seat
-- on its current evade mission, that mission stays unsolved for the seat through any later
-- sequence of rule fires, overflows, submissions, receipts, detect submissions and sweeps by
-- anyone, whichever statements fail.
pub fired_mission-unsolved :
    (g : Grader) (u q a b d : String) (s : Store) {c : String} (xs : List Call)
    → IsLoaded g.cat
    → valid_seat u ≡ true
    → taint_target g u q s ≡ some c
    → is_solved u c (calls g xs (on_rule_fire g u q a b d s).1) ≡ false
fired_mission-unsolved g u q a b d s xs loaded seat h =
    let t = taint_target_lem g u q s h in
    (calls-Blocked g t.challenge t.found t.evade loaded xs _
      (on_rule_fire-Blocked g u q a b d s seat h)).unsolved
