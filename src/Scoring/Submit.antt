-- ===== src/Scoring/Submit.antt =====
-- The submissions and the exfil receipts of internal/scoreboard/scoring/scoring.go.
use falco_ctf_app.Prelude.{
  zero, String, Bool, true, false, not, ◌&&◌, Option, none, some, List, [], ◌==◌, string_eq,
  if◌then◌else◌,
}
use falco_ctf_app.Prelude.Maps.{lookup}
use falco_ctf_app.Prelude.Int.{ℤ, pos, ltb_ℤ}
use falco_ctf_app.Prelude.Results.{Result, ok, err}
use falco_ctf_app.Identity.{valid_seat}
use falco_ctf_app.Catalog.{Challenge}
use falco_ctf_app.Store.State.{Store, Failure}
use falco_ctf_app.Store.Solves.{mark_solved, record_exfil, has_exfil}
use falco_ctf_app.Store.Rules.{dirty_rules, has_expected_rule_fire, nonempty}
use falco_ctf_app.Scoring.Grader.{Grader, GraderError, invalid_user, store_error}

pub data EvadeStatus : Type 0 where
  unknown_challenge not_evade_type wrong_flag forbidden_fired : EvadeStatus
  expected_rule_fire_required exfil_required solved : EvadeStatus

pub record EvadeOutcome : Type 0 where
  pub status : EvadeStatus
  pub offending : List String
  pub newly : Bool

abbrev pub evade_status : EvadeStatus → EvadeOutcome
evade_status status = record { status = status; offending = []; newly = false }

abbrev pub evade_result : Result Failure Bool → Result GraderError EvadeOutcome
evade_result (ok newly) = ok (record { status = solved; offending = []; newly = newly })
evade_result (err e) = err (store_error e)

abbrev pub solved_outcome : Result Failure Bool × Store → Result GraderError EvadeOutcome × Store
solved_outcome r = (evade_result r.0, r.1)

-- The gates after the flag, in their order: taint, expected-rule fire, exfil.
unfoldable pub evaluate_clean :
    String → Challenge → String → String → Store → Result GraderError EvadeOutcome × Store
evaluate_clean user ch flag at s =
    let offending = dirty_rules user ch.id s in
    if nonempty offending
    then (ok (record { status = forbidden_fired; offending = offending; newly = false }), s)
    else if ch.require_expected_rule_fire && not (has_expected_rule_fire user ch.id s)
    then (ok (evade_status expected_rule_fire_required), s)
    else if ch.require_exfil && not (has_exfil user ch.id flag s)
    then (ok (evade_status exfil_required), s)
    else solved_outcome (mark_solved user ch.id at s)

abbrev pub submit_to :
    Option Challenge → String → String → String → Store → Result GraderError EvadeOutcome × Store
submit_to none user flag at s = (ok (evade_status unknown_challenge), s)
submit_to (some ch) user flag at s =
    if not (ch.type == "evade")
    then (ok (evade_status not_evade_type), s)
    else if not (flag == ch.expected_flag)
    then (ok (evade_status wrong_flag), s)
    else evaluate_clean user ch flag at s

unfoldable pub submit_evade :
    Grader → String → String → String → String → Store → Result GraderError EvadeOutcome × Store
submit_evade g user cid flag at s =
    if valid_seat user then submit_to (lookup cid g.cat) user flag at s else (err invalid_user, s)

pub data ExfilStatus : Type 0 where
  unknown_challenge not_required recorded invalid_user_status : ExfilStatus

abbrev pub receipt_error : Result Failure (Unit {0}) → Option GraderError
receipt_error (ok _) = none
receipt_error (err e) = some (store_error e)

abbrev pub receipt_outcome :
    Result Failure (Unit {0}) × Store → (ExfilStatus × Option GraderError) × Store
receipt_outcome r = ((recorded, receipt_error r.0), r.1)

abbrev pub record_to :
    Option Challenge
    → String
    → String
    → String
    → String
    → Store
    → (ExfilStatus × Option GraderError) × Store
record_to none user cid flag at s = ((ExfilStatus.unknown_challenge, none), s)
record_to (some ch) user cid flag at s =
    if not ch.require_exfil
    then ((not_required, none), s)
    else receipt_outcome (record_exfil user cid flag at s)

-- Grader.RecordExfil.
unfoldable pub record_receipt :
    Grader → String → String → String → String → Store → (ExfilStatus × Option GraderError) × Store
record_receipt g user cid flag at s =
    if valid_seat user
    then record_to (lookup cid g.cat) user cid flag at s
    else ((invalid_user_status, some invalid_user), s)

-- The reply of a DetectRunner: an error, or the two counts and whether the condition was invalid.
pub record Grading : Type 0 where
  pub evasion_fires : ℤ
  pub benign_fires : ℤ
  pub invalid : Bool

pub data DetectStatus : Type 0 where
  unknown_challenge not_detect_type invalid_condition missed_evasion false_positive solved :
      DetectStatus

pub record DetectOutcome : Type 0 where
  pub status : DetectStatus
  pub evasion_fires : ℤ
  pub benign_fires : ℤ
  pub newly : Bool

abbrev pub detect_status : DetectStatus → DetectOutcome
detect_status status = record {
  status = status;
  evasion_fires = pos 0;
  benign_fires = pos 0;
  newly = false;
}

abbrev pub is_zero : ℤ → Bool
is_zero (pos zero) = true
is_zero _ = false

-- The runner's error, or the grader's.
pub data DetectError : Type 0 where
  runner_error : String → DetectError
  grader_error : GraderError → DetectError

abbrev pub detect_result : Grading → Result Failure Bool → Result DetectError DetectOutcome
detect_result v (ok newly) = ok (record {
  status = DetectStatus.solved;
  evasion_fires = v.evasion_fires;
  benign_fires = v.benign_fires;
  newly = newly;
})
detect_result v (err e) = err (grader_error (store_error e))

abbrev pub detect_solved :
    Grading → Result Failure Bool × Store → Result DetectError DetectOutcome × Store
detect_solved v r = (detect_result v r.0, r.1)

abbrev pub judge :
    Result String Grading
    → Challenge
    → String
    → String
    → Store
    → Result DetectError DetectOutcome × Store
judge (err e) ch user at s = (err (runner_error e), s)
judge (ok v) ch user at s =
    if v.invalid
    then (ok (detect_status invalid_condition), s)
    else if is_zero v.evasion_fires
    then (ok (record (detect_status missed_evasion) { benign_fires = v.benign_fires }), s)
    else if ltb_ℤ (pos 0) v.benign_fires
    then (
      ok (record (detect_status false_positive) {
        evasion_fires = v.evasion_fires;
        benign_fires = v.benign_fires;
      }),
      s,
    )
    else detect_solved v (mark_solved user ch.id at s)

abbrev pub detect_to :
    Option Challenge
    → (String → String → Result String Grading)
    → String
    → String
    → String
    → String
    → Store
    → Result DetectError DetectOutcome × Store
detect_to none grade user cid condition at s =
    (ok (detect_status DetectStatus.unknown_challenge), s)
detect_to (some ch) grade user cid condition at s =
    if not (ch.type == "detect")
    then (ok (detect_status not_detect_type), s)
    else judge (grade cid condition) ch user at s

-- `grade` is the DetectRunner, which the grader gets from its caller.
unfoldable pub submit_detect :
    Grader
    → (String → String → Result String Grading)
    → String
    → String
    → String
    → String
    → Store
    → Result DetectError DetectOutcome × Store
submit_detect g grade user cid condition at s =
    if valid_seat user
    then detect_to (lookup cid g.cat) grade user cid condition at s
    else (err (grader_error invalid_user), s)
