-- ===== src/Scoring/Grader.antt =====
-- internal/scoreboard/scoring/scoring.go: the grader, over the store of internal/store. Each
-- reading of the clock that a method makes is an argument of it, as the formatted time.
use falco_ctf_app.Prelude.{
  String, Bool, true, false, ◌&&◌, Option, none, some, List, [], ◌∷◌, ◌==◌, string_eq, contains,
  if◌then◌else◌,
}
use falco_ctf_app.Prelude.Maps.{Map, lookup, has, insert}
use falco_ctf_app.Prelude.Int.{ℤ}
use falco_ctf_app.Prelude.Results.{Result, ok, err}
use falco_ctf_app.Identity.{valid_seat}
use falco_ctf_app.Catalog.{Challenge, Catalog, ids}
use falco_ctf_app.Store.State.{Store, Failure}
use falco_ctf_app.Store.Solves.{mark_solved, is_solved}
use falco_ctf_app.Store.Rules.{mark_dirty, record_expected_rule_fire}
use falco_ctf_app.Scoring.Points.{PointsPolicy, default_points_policy, normalise, penalty_for}

-- ErrInvalidUser, or the error of a store method.
pub data GraderError : Type 0 where
  invalid_user : GraderError
  store_error : Failure → GraderError

pub record Grader : Type 0 where
  pub cat : Catalog
  pub points : PointsPolicy
  pub order : List String
  pub scoring_rules : Map String (Unit {0})

abbrev pub add_rules : List String → Map String (Unit {0}) → Map String (Unit {0})
add_rules [] m = m
add_rules (r ∷ rs) m = add_rules rs (insert r tt m)

-- The two inner loops of New, for every challenge.
unfoldable pub collect_rules : Catalog → Map String (Unit {0}) → Map String (Unit {0})
collect_rules [] m = m
collect_rules ((_, ch) ∷ cat) m =
    collect_rules cat (add_rules ch.expected_rules (add_rules ch.forbidden_rules m))

unfoldable pub new : Catalog → Grader
unfolding collect_rules
new cat = record {
  cat = cat;
  points = default_points_policy;
  order = [];
  scoring_rules = collect_rules cat [];
}

abbrev pub with_points : PointsPolicy → Grader → Grader
with_points p g = record g { points = p }

abbrev pub with_order : List String → Grader → Grader
with_order order g = record g { order = order }

unfoldable pub affects_scoring : Grader → String → Bool
affects_scoring g rule = has rule g.scoring_rules

unfoldable pub points : Grader → PointsPolicy
points g = normalise g.points

unfoldable pub hint_penalty_for : Grader → ℤ → ℤ
hint_penalty_for g idx = penalty_for (normalise g.points) idx

-- CurrentMission: "" where every mission is solved.
unfoldable pub first_unsolved : List String → Catalog → (String → Bool) → String
first_unsolved [] cat solved = ""
first_unsolved (id ∷ order) cat solved =
    let rest = first_unsolved order cat solved in
    if has id cat then if solved id then rest else id else rest

abbrev pub order_of : List String → Catalog → List String
order_of [] cat = ids cat
order_of (id ∷ order) cat = id ∷ order

unfoldable pub current_mission : Grader → String → Store → String
unfolding first_unsolved
current_mission g user s = first_unsolved (order_of g.order g.cat) g.cat (λ id. is_solved user id s)

abbrev pub taints : String → Challenge → Bool
taints rule ch = ch.type == "evade" && contains ch.forbidden_rules rule

unfoldable pub taint_target : Grader → String → String → Store → Option String
unfolding current_mission
taint_target g user rule s =
    let cur = current_mission g user s in
    if cur == "" then none else elim (lookup cur g.cat) [
      | none ↦ none
      | some ch ↦ if taints rule ch then some cur else none
    ]

abbrev pub taint_with :
    Option String → String → String → String → Store → Result Failure (Unit {0}) × Store
taint_with none user rule at s = (ok tt, s)
taint_with (some cur) user rule at s = mark_dirty user cur rule at s

abbrev pub name_of : Option String → String
name_of none = ""
name_of (some cur) = cur

-- The tainted mission stands beside the error; "" is none.
unfoldable pub taint_on_overflow :
    Grader → String → String → String → Store → (String × Option GraderError) × Store
unfolding taint_target
taint_on_overflow g user rule at s =
    if valid_seat user
    then (let target = taint_target g user rule s in
        let (r, s') = taint_with target user rule at s in
        ((name_of target, elim r [ ok _ ↦ none | err e ↦ some (store_error e) ]), s'))
    else (("", some invalid_user), s)

unfoldable pub mark_dirty_on_rule_fire :
    Grader → String → String → String → Store → Result Failure (Unit {0}) × Store
unfolding taint_target
mark_dirty_on_rule_fire g user rule at s = taint_with (taint_target g user rule s) user rule at s

abbrev pub cons_err : {A : Type 0} → Result Failure A → List Failure → List Failure
cons_err (ok _) errs = errs
cons_err (err e) errs = e ∷ errs

abbrev pub expects_fire : Option Challenge → String → Bool
expects_fire none rule = false
expects_fire (some ch) rule =
    ch.type == "evade" && ch.require_expected_rule_fire && contains ch.expected_rules rule

-- The loop over the sorted ids; an error is kept and the loop goes on.
unfoldable pub record_fires :
    Grader → String → String → String → List String → Store → List Failure × Store
record_fires g user rule at [] s = ([], s)
record_fires g user rule at (cid ∷ rest) s =
    let (r, s') =
      (if expects_fire (lookup cid g.cat) rule
        then record_expected_rule_fire user cid rule at s
        else (ok tt, s)) in
    let (errs, s'') = record_fires g user rule at rest s' in (cons_err r errs, s'')

pub record TriggerResult : Type 0 where
  pub challenge : String
  pub newly : Bool

abbrev pub triggered : Option Challenge → String → Bool
triggered none rule = false
triggered (some ch) rule = ch.type == "trigger" && contains ch.expected_rules rule

abbrev pub cons_result :
    String → Option (Result Failure Bool) → List TriggerResult → List TriggerResult
cons_result cid (some (ok newly)) results = record { challenge = cid; newly = newly } ∷ results
cons_result cid _ results = results

abbrev pub cons_failure : Option (Result Failure Bool) → List Failure → List Failure
cons_failure (some (err e)) errs = e ∷ errs
cons_failure _ errs = errs

abbrev pub solve_if : Bool → String → String → String → Store → Option (Result Failure Bool) × Store
solve_if false user cid at s = (none, s)
solve_if true user cid at s = let (r, s') = mark_solved user cid at s in (some r, s')

-- The loop of evaluateTrigger: every matching trigger challenge is marked, one after another.
unfoldable pub evaluate_triggers :
    Grader
    → String
    → String
    → String
    → List String
    → Store
    → (List TriggerResult × List Failure) × Store
evaluate_triggers g user rule at [] s = (([], []), s)
evaluate_triggers g user rule at (cid ∷ rest) s =
    let (r, s') = solve_if (triggered (lookup cid g.cat) rule) user cid at s in
    let ((results, errs), s'') = evaluate_triggers g user rule at rest s' in
    ((cons_result cid r results, cons_failure r errs), s'')

pub record RuleFireOutcome : Type 0 where
  pub results : List TriggerResult
  pub taint_err : Option Failure
  pub expected_fire_err : List Failure
  pub trigger_err : List Failure

abbrev pub error_of : {A : Type 0} → Result Failure A → Option Failure
error_of (ok _) = none
error_of (err e) = some e

-- Taint first, then the expected-rule gate, then the triggers; an error of one stops none of the
-- others. The three times are the three readings of the clock.
unfoldable pub on_rule_fire :
    Grader
    → String
    → String
    → String
    → String
    → String
    → Store
    → Result GraderError RuleFireOutcome × Store
unfolding mark_dirty_on_rule_fire record_fires evaluate_triggers
on_rule_fire g user rule at_taint at_fire at_solve s =
    if valid_seat user
    then (let (tainted, s₁) = mark_dirty_on_rule_fire g user rule at_taint s in
        let (fire_errs, s₂) = record_fires g user rule at_fire (ids g.cat) s₁ in
        let ((results, errs), s₃) = evaluate_triggers g user rule at_solve (ids g.cat) s₂ in
        (
          ok (record {
            results = results;
            taint_err = error_of tainted;
            expected_fire_err = fire_errs;
            trigger_err = errs;
          }),
          s₃,
        ))
    else (err invalid_user, s)
