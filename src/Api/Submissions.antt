-- ===== src/Api/Submissions.antt =====
-- The two routes that the collector forwards to: submit and exfilInternal of
-- internal/scoreboard/api/api.go. The decoded body is part of the request; audit lines are left out.
use falco_ctf_app.Prelude.{
  ℕ, String, string_eq, not, ◌||◌, Option, none, some, List, ◌∷◌, ◌==◌, if◌then◌else◌,
}
use falco_ctf_app.Prelude.Results.{Result, ok, err}
use falco_ctf_app.Prelude.Text.{Text}
use falco_ctf_app.Identity.{valid_seat}
use falco_ctf_app.Catalog.{Challenge, Catalog}
use falco_ctf_app.Store.State.{Store}
use falco_ctf_app.Store.Profiles.{display_name}
use falco_ctf_app.Scoring.Grader.{Grader, GraderError, invalid_user, store_error}
use falco_ctf_app.Scoring.Submit.{
  EvadeStatus, EvadeOutcome, wrong_flag, forbidden_fired, expected_rule_fire_required,
  exfil_required, solved, submit_evade, ExfilStatus, record_receipt,
}
use falco_ctf_app.Ingest.Events.{has_proxy_identity_header, is_json_content_type}
use falco_ctf_app.Api.Gates.{trimmed, challenge}

pub record FlagBody : Type 0 where
  pub user : String
  pub flag : String

-- `body` is none where the decoder fails.
pub record FlagRequest : Type 0 where
  pub cid : String
  pub header_keys : List Text
  pub media_type : Option String
  pub body : Option FlagBody

pub data FlagError : Type 0 where
  no_such_challenge not_an_evade exfil_not_accepted malformed_body no_user no_user_or_flag :
      FlagError
  user_is_no_seat solve_not_recorded exfil_not_recorded browser_path not_json : FlagError

-- A grader's answer without a case in the handler's switch has no body.
pub data FlagAnswer : Type 0 where
  flag_error : ℕ → FlagError → FlagAnswer
  flag_mismatch : FlagAnswer
  not_evaded : List String → String → FlagAnswer
  not_proven : String → FlagAnswer
  not_exfiltrated : String → String → FlagAnswer
  solved_as : String → String → FlagAnswer
  receipt_taken : String → FlagAnswer
  no_answer : FlagAnswer

-- The counters SubmissionsTotal and SolvesTotal.
pub data FlagCount : Type 0 where
  submission : String → String → FlagCount
  evade_solve : String → FlagCount

pub record FlagHandler : Type 0 where
  pub cat : Catalog
  pub grader : Grader
  pub store : Store
  pub counts : List FlagCount

abbrev pub counted : FlagCount → FlagHandler → FlagHandler
counted c h = record h { counts = c ∷ h.counts }

abbrev pub answer_status :
    EvadeStatus → String → String → EvadeOutcome → FlagHandler → FlagAnswer × FlagHandler
answer_status wrong_flag user cid out h = (flag_mismatch, counted (submission cid "wrong_flag") h)
answer_status forbidden_fired user cid out h =
    (not_evaded out.offending user, counted (submission cid "not_evaded") h)
answer_status expected_rule_fire_required user cid out h =
    (not_proven user, counted (submission cid "not_proven") h)
answer_status exfil_required user cid out h =
    (not_exfiltrated user cid, counted (submission cid "not_exfiltrated") h)
answer_status solved user cid out h = (
  solved_as user (display_name user h.store),
  counted (submission cid "solved") (if out.newly then counted (evade_solve cid) h else h),
)
answer_status _ user cid out h = (no_answer, h)

abbrev pub answer_graded :
    String → String → Result GraderError EvadeOutcome → FlagHandler → FlagAnswer × FlagHandler
answer_graded user cid (err invalid_user) h =
    (flag_error 400 user_is_no_seat, counted (submission cid "bad_request") h)
answer_graded user cid (err (store_error _)) h = (flag_error 500 solve_not_recorded, h)
answer_graded user cid (ok out) h = answer_status out.status user cid out h

abbrev pub grade_flag : String → String → String → String → FlagHandler → FlagAnswer × FlagHandler
grade_flag user cid flag at h =
    let (r, s) = submit_evade h.grader user cid flag at h.store in
    answer_graded user cid r (record h { store = s })

abbrev pub submit_body : String → Option FlagBody → String → FlagHandler → FlagAnswer × FlagHandler
submit_body cid none at h =
    (flag_error 400 malformed_body, counted (submission cid "bad_request") h)
submit_body cid (some b) at h =
    if trimmed b.user == ""
    then (flag_error 400 no_user, counted (submission cid "bad_request") h)
    else if not (valid_seat (trimmed b.user))
    then (flag_error 400 user_is_no_seat, counted (submission cid "bad_request") h)
    else grade_flag (trimmed b.user) cid (trimmed b.flag) at h

abbrev pub submit_challenge :
    FlagRequest → Option Challenge → String → FlagHandler → FlagAnswer × FlagHandler
submit_challenge r none at h =
    (flag_error 404 no_such_challenge, counted (submission "_unknown" "unknown_challenge") h)
submit_challenge r (some ch) at h =
    if not (ch.type == "evade")
    then (flag_error 400 not_an_evade, counted (submission r.cid "not_evade") h)
    else submit_body r.cid r.body at h

unfoldable pub submit : FlagRequest → String → FlagHandler → FlagAnswer × FlagHandler
submit r at h = submit_challenge r (challenge h.cat r.cid) at h

abbrev pub answer_receipt :
    String → (ExfilStatus × Option GraderError) × Store → FlagHandler → FlagAnswer × FlagHandler
answer_receipt user ((status, some invalid_user), s) h =
    (flag_error 400 user_is_no_seat, record h { store = s })
answer_receipt user ((status, some (store_error _)), s) h =
    (flag_error 500 exfil_not_recorded, record h { store = s })
answer_receipt user ((status, none), s) h = (receipt_taken user, record h { store = s })

abbrev pub exfil_body : String → Option FlagBody → String → FlagHandler → FlagAnswer × FlagHandler
exfil_body cid none at h = (flag_error 400 malformed_body, h)
exfil_body cid (some b) at h =
    if trimmed b.user == "" || trimmed b.flag == ""
    then (flag_error 400 no_user_or_flag, h)
    else if not (valid_seat (trimmed b.user))
    then (flag_error 400 user_is_no_seat, h)
    else answer_receipt (trimmed b.user)
        (record_receipt h.grader (trimmed b.user) cid (trimmed b.flag) at h.store) h

abbrev pub exfil_challenge :
    FlagRequest → Option Challenge → String → FlagHandler → FlagAnswer × FlagHandler
exfil_challenge r none at h = (flag_error 404 no_such_challenge, h)
exfil_challenge r (some ch) at h =
    if not ch.require_exfil
    then (flag_error 400 exfil_not_accepted, h)
    else exfil_body r.cid r.body at h

unfoldable pub exfil_internal : FlagRequest → String → FlagHandler → FlagAnswer × FlagHandler
exfil_internal r at h =
    if has_proxy_identity_header r.header_keys
    then (flag_error 403 browser_path, h)
    else if not (is_json_content_type r.media_type)
    then (flag_error 415 not_json, h)
    else exfil_challenge r (challenge h.cat r.cid) at h
