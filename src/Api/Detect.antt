-- ===== src/Api/Detect.antt =====
-- submitDetect of internal/scoreboard/api/api.go. A grading runs outside the handler while its slot is
-- taken, so the handler is two steps: the gates up to the slot, and what follows the runner's reply,
-- which ends with the slot's release. `pending` holds the gradings that run. The decoded body is part
-- of the request; audit lines and the deadline of a grading are left out.
pub mod Slots
pub mod Solved
use Prim.Native.String.{len}
use falco_ctf_app.Prelude.{
  ℕ, zero, suc, ◌-◌, ◌*◌, String, string_eq, Bool, true, false, not, Option, none, some, List, [],
  ◌∷◌, ◌++◌, ◌==◌, ltb, length, if◌then◌else◌,
}
use falco_ctf_app.Prelude.Int.{ℤ}
use falco_ctf_app.Prelude.Maps.{Map}
use falco_ctf_app.Prelude.Results.{Result, ok, err}
use falco_ctf_app.Prelude.Text.{Text, text}
use falco_ctf_app.Identity.{valid_seat}
use falco_ctf_app.Catalog.{Challenge, Catalog}
use falco_ctf_app.Store.State.{Store}
use falco_ctf_app.Store.Profiles.{display_name}
use falco_ctf_app.Scoring.Grader.{Grader, GraderError, invalid_user}
use falco_ctf_app.Scoring.Submit
use falco_ctf_app.Scoring.Submit.{
  Grading, DetectStatus, DetectOutcome, DetectError, grader_error, invalid_condition,
  missed_evasion, false_positive, submit_detect,
}
use falco_ctf_app.Api.Gates.{Reason, Gate, self_or_admin_gate, self_or_admin, trimmed, challenge}

pub record DetectBody : Type 0 where
  pub user : String
  pub condition : String

pub record DetectRequest : Type 0 where
  pub cid : String
  pub email : Text
  pub body : Option DetectBody

-- A grading that the runner has not answered.
pub record Job : Type 0 where
  pub user : String
  pub cid : String
  pub condition : String

pub data DetectFailure : Type 0 where
  not_enabled no_such_challenge not_a_detect malformed_body no_user user_is_no_seat : DetectFailure
  not_allowed no_condition condition_too_large too_many_in_flight not_graded : DetectFailure

pub data DetectAnswer : Type 0 where
  detect_error : ℕ → DetectFailure → DetectAnswer
  invalid : DetectAnswer
  missed : ℤ → ℤ → DetectAnswer
  too_broad : ℤ → ℤ → DetectAnswer
  solved_by : ℤ → ℤ → String → String → DetectAnswer

-- The counters SubmissionsTotal and SolvesTotal.
pub data DetectCount : Type 0 where
  submission : String → String → DetectCount
  detect_solve : String → DetectCount

-- `enabled` is whether a runner is wired; `inflight` is the number of tokens in the channel.
pub record DetectHandler : Type 0 where
  pub cat : Catalog
  pub grader : Grader
  pub store : Store
  pub admin_set : Map Text (Unit {0})
  pub email_domain : Text
  pub enabled : Bool
  pub inflight_cap : ℕ
  pub inflight : ℕ
  pub pending : List Job
  pub denials : List (Gate × Reason)
  pub counts : List DetectCount

abbrev pub max_condition_bytes : ℕ
max_condition_bytes = 4 * 1024

abbrev pub counted : DetectCount → DetectHandler → DetectHandler
counted c h = record h { counts = c ∷ h.counts }

abbrev pub refuse :
    ℕ → DetectFailure → String → String → DetectHandler → Option DetectAnswer × DetectHandler
refuse status e label outcome h =
    (some (detect_error status e), counted (submission label outcome) h)

-- The non-blocking acquisition: none where the grading has begun.
abbrev pub acquire : Job → DetectHandler → Option DetectAnswer × DetectHandler
acquire job h =
    if ltb h.inflight h.inflight_cap
    then (none, record h { inflight = suc h.inflight; pending = h.pending ++ job ∷ [] })
    else refuse 429 too_many_in_flight job.cid "rate_limited" h

abbrev pub with_condition :
    String → String → String → DetectHandler → Option DetectAnswer × DetectHandler
with_condition cid user condition h =
    if condition == ""
    then refuse 400 no_condition cid "bad_request" h
    else if ltb max_condition_bytes (len condition)
    then refuse 400 condition_too_large cid "bad_request" h
    else acquire (record { user = user; cid = cid; condition = condition }) h

abbrev pub permitted :
    Option Reason
    → DetectHandler
    → Option DetectAnswer × DetectHandler
    → Option DetectAnswer × DetectHandler
permitted none h next = next
permitted (some reason) h next = (
  some (detect_error 403 not_allowed),
  record h { denials = (self_or_admin_gate, reason) ∷ h.denials },
)

abbrev pub with_user :
    String → Text → DetectBody → DetectHandler → Option DetectAnswer × DetectHandler
with_user cid email b h =
    let user = trimmed b.user in
    if user == ""
    then refuse 400 no_user cid "bad_request" h
    else if not (valid_seat user)
    then refuse 400 user_is_no_seat cid "bad_request" h
    else permitted (self_or_admin h.admin_set h.email_domain email (text user)) h
        (with_condition cid user (trimmed b.condition) h)

abbrev pub with_body :
    String → Text → Option DetectBody → DetectHandler → Option DetectAnswer × DetectHandler
with_body cid email none h = refuse 400 malformed_body cid "bad_request" h
with_body cid email (some b) h = with_user cid email b h

abbrev pub with_challenge :
    DetectRequest → Option Challenge → DetectHandler → Option DetectAnswer × DetectHandler
with_challenge r none h = refuse 404 no_such_challenge "_unknown" "unknown_challenge" h
with_challenge r (some ch) h =
    if not (ch.type == "detect")
    then refuse 400 not_a_detect r.cid "not_detect" h
    else with_body r.cid r.email r.body h

-- The handler up to the call of the grader.
unfoldable pub begin_detect : DetectRequest → DetectHandler → Option DetectAnswer × DetectHandler
begin_detect r h =
    if not h.enabled
    then (some (detect_error 503 not_enabled), h)
    else with_challenge r (challenge h.cat r.cid) h

-- An outcome without a case in the handler's switch has no body.
abbrev pub answer_detect :
    DetectStatus → Job → DetectOutcome → DetectHandler → Option DetectAnswer × DetectHandler
answer_detect invalid_condition job out h =
    (some invalid, counted (submission job.cid "detect_invalid") h)
answer_detect missed_evasion job out h = (
  some (missed out.evasion_fires out.benign_fires),
  counted (submission job.cid "detect_missed") h,
)
answer_detect false_positive job out h = (
  some (too_broad out.evasion_fires out.benign_fires),
  counted (submission job.cid "detect_false_positive") h,
)
answer_detect DetectStatus.solved job out h = (
  some (solved_by out.evasion_fires out.benign_fires job.user (display_name job.user h.store)),
  counted (submission job.cid "solved") (if out.newly then counted (detect_solve job.cid) h else h),
)
answer_detect _ job out h = (none, h)

abbrev pub answer_job :
    Job → Result DetectError DetectOutcome → DetectHandler → Option DetectAnswer × DetectHandler
answer_job job (err (grader_error invalid_user)) h =
    refuse 400 user_is_no_seat job.cid "bad_request" h
answer_job job (err _) h = (some (detect_error 500 not_graded), h)
answer_job job (ok out) h = answer_detect out.status job out h

-- The grader with the runner's reply, the answer, and the deferred release of the slot.
abbrev pub grade_job :
    Job → Result String Grading → String → DetectHandler → Option DetectAnswer × DetectHandler
grade_job job reply at h =
    let (r, s) = submit_detect h.grader (λ _ _. reply) job.user job.cid job.condition at h.store in
    let (answer, h') = answer_job job r (record h { store = s }) in
    (answer, record h' { inflight = h'.inflight - 1 })

abbrev pub kept_before : Job → Option (Job × List Job) → Option (Job × List Job)
kept_before job none = none
kept_before job (some (found, others)) = some (found, job ∷ others)

abbrev pub take : ℕ → List Job → Option (Job × List Job)
take n [] = none
take zero (job ∷ rest) = some (job, rest)
take (suc n) (job ∷ rest) = kept_before job (take n rest)

abbrev pub finish :
    Option (Job × List Job)
    → Result String Grading
    → String
    → DetectHandler
    → Option DetectAnswer × DetectHandler
finish none reply at h = (none, h)
finish (some (job, others)) reply at h = grade_job job reply at (record h { pending = others })

-- The runner's reply to the n-th grading that runs.
unfoldable pub finish_detect :
    ℕ → Result String Grading → String → DetectHandler → Option DetectAnswer × DetectHandler
finish_detect n reply at h = finish (take n h.pending) reply at h
