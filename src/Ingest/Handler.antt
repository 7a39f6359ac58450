-- ===== src/Ingest/Handler.antt =====
-- Handler and receive of internal/scoreboard/ingest/ingest.go. A metric is the list of its
-- increments; log lines are left out, but not the token that an audit line takes.
use falco_ctf_app.Prelude.{
  ℕ, String, not, ◌&&◌, Option, none, some, List, [], ◌∷◌, ◌++◌, ◌==◌, string_eq, if◌then◌else◌,
}
use falco_ctf_app.Prelude.Text.{Text, text, text_eq}
use falco_ctf_app.Prelude.Results.{Result, ok, err}
use falco_ctf_app.Store.State.{Store, Failure}
use falco_ctf_app.Store.Rules.{record_rule_fire}
use falco_ctf_app.Scoring.Grader.{
  Grader, GraderError, invalid_user, store_error, TriggerResult, RuleFireOutcome, affects_scoring,
  on_rule_fire, taint_on_overflow,
}
use falco_ctf_app.RateLimit.Floats.{Floats}
use falco_ctf_app.RateLimit.Limiter.{Limiter, new_limiter, allow}
use falco_ctf_app.Ingest.Events.{
  FalcoEvent, Request, SecretMode, off, warn, enforce, has_proxy_identity_header,
  is_json_content_type, checks, secret_matched, or_empty, workspace_user, is_challenge_image,
  below_minimum,
}

-- An increment of a counter, with its label.
pub data Increment : Type 0 where
  received : String → Increment
  secret_mismatch : SecretMode → Increment
  rate_limited : String → Increment
  scoring_overflowed : String → Increment
  trigger_solved : String → Increment

pub data Body : Type 0 where
  error : String → Body
  ignored : String → Body
  accepted : String → String → Body

pub record Answer : Type 0 where
  pub status : ℕ
  pub retry_after : Option ℕ
  pub body : Body

-- An event past every gate but the limiters.
pub record Fire : Type 0 where
  pub ns : String
  pub user : String
  pub rule : String

pub data Admission : Type 0 where
  refused : Answer → Admission
  admitted : Fire → Admission

-- The readings of the clock for one request: by a participant's limiter, by the audit limiter, for
-- the rule fire, and by the three writes of the grader.
pub record Clock : Type 0 where
  pub limiter : ℕ
  pub audit : ℕ
  pub receipt : ℕ
  pub taint : String
  pub expected : String
  pub solve : String

abbrev pub reply : ℕ → Body → Answer
reply status body = record { status = status; retry_after = none; body = body }

abbrev pub too_many_requests : Answer
too_many_requests = record {
  status = 429;
  retry_after = some 1;
  body = error "rate limit exceeded";
}

abbrev pub not_a_workspace : Answer
not_a_workspace = reply 200 (ignored "not a ctf workspace event")

-- The gates that look at the request alone come after the two header gates.
unfoldable pub attribute : FalcoEvent → Admission
attribute ev = elim (workspace_user ev) [
  | none ↦ refused not_a_workspace
  | some user ↦
      if not (is_challenge_image (or_empty ev.container_image_repository))
      then refused (reply 200 (ignored "not a challenge container"))
      else if below_minimum ev.priority
      then refused (reply 200 (ignored "below minimum priority"))
      else admitted (record { ns = or_empty ev.k8s_ns_name; user = user; rule = ev.rule })
]

pub record Handler (fl : Floats) : Type 0 where
  pub store : Store
  pub grader : Grader
  pub observe_limiter : Limiter fl String
  pub scoring_limiter : Limiter fl String
  pub audit_limiter : Limiter fl Text
  pub shared_secret : String
  pub secret_mode : SecretMode
  pub metrics : List Increment

module _ (fl : Floats) where
  abbrev pub count : Increment → Handler fl → Handler fl
  count i h = record h { metrics = i ∷ h.metrics }

  abbrev pub with_limits : fl.F → fl.F → fl.F → fl.F → fl.F → fl.F → Handler fl → Handler fl
  with_limits observe_rate observe_burst score_rate score_burst audit_rate audit_burst h =
      record h {
        observe_limiter = new_limiter fl observe_rate observe_burst;
        scoring_limiter = new_limiter fl score_rate score_burst;
        audit_limiter = new_limiter fl audit_rate audit_burst;
      }

  unfoldable pub audit : String → String → Clock → Handler fl → Handler fl
  audit class ns c h = record h {
    audit_limiter = (allow fl (text class ++ text "/" ++ text ns) c.audit h.audit_limiter).1;
  }

  abbrev pub attributed : Admission → Handler fl → Admission × Handler fl
  attributed (refused a) h = (refused a, count (received "ignored") h)
  attributed (admitted f) h = (admitted f, h)

  abbrev pub decode_gates : Option FalcoEvent → Handler fl → Admission × Handler fl
  decode_gates none h =
      (refused (reply 400 (error "invalid request body")), count (received "decode_error") h)
  decode_gates (some ev) h = attributed (attribute ev) h

  abbrev pub content_gates : Request → Handler fl → Admission × Handler fl
  content_gates r h = if is_json_content_type r.media_type then decode_gates r.body h else (
    refused (reply 415 (error "content type must be application/json")),
    count (received "unsupported_media_type") h,
  )

  abbrev pub on_mismatch : SecretMode → Request → Handler fl → Admission × Handler fl
  on_mismatch off r h = content_gates r h
  on_mismatch warn r h = content_gates r h
  on_mismatch enforce r h = (refused (reply 401 (error "invalid or missing shared secret")), h)

  -- The gates of receive up to the limiters, in their order.
  unfoldable pub admit : Request → Handler fl → Admission × Handler fl
  admit r h =
      if has_proxy_identity_header r.header_keys
      then (refused (reply 403 (error "forbidden")), count (received "forbidden") h)
      else if checks h.secret_mode && not (secret_matched r.shared_secret h.shared_secret)
      then on_mismatch h.secret_mode r (count (secret_mismatch h.secret_mode) h)
      else content_gates r h

  unfoldable pub grader_refused : Clock → Handler fl → Answer × Handler fl
  grader_refused c h = (
    not_a_workspace,
    count (received "ignored")
        (record h { audit_limiter = (allow fl (text "grader_refused") c.audit h.audit_limiter).1 }),
  )

  abbrev pub overflow_label : String → String
  overflow_label tainted = if tainted == "" then "overflow_skipped" else "overflow_tainted"

  abbrev pub overflow_answer :
      Clock → Fire → String → Option GraderError → Handler fl → Answer × Handler fl
  overflow_answer c f tainted (some invalid_user) h = grader_refused c h
  overflow_answer c f tainted (some (store_error _)) h = (
    reply 500 (error "could not persist taint"),
    count (received "taint_error")
        (audit "scoring_overflow" f.ns c (count (scoring_overflowed f.ns) h)),
  )
  overflow_answer c f tainted none h = (
    reply 200 (accepted f.user f.rule),
    count (received (overflow_label tainted))
        (audit "scoring_overflow" f.ns c (count (scoring_overflowed f.ns) h)),
  )

  unfoldable pub scoring_overflow : Clock → Fire → Handler fl → Answer × Handler fl
  unfolding audit grader_refused
  scoring_overflow c f h =
      let ((tainted, e), s) = taint_on_overflow h.grader f.user f.rule c.taint h.store in
      overflow_answer c f tainted e (record h { store = s })

  abbrev pub count_solves : List TriggerResult → Handler fl → Handler fl
  count_solves [] h = h
  count_solves (r ∷ rs) h =
      count_solves rs (if r.newly then count (trigger_solved r.challenge) h else h)

  abbrev pub taint_answer : Fire → Option Failure → Handler fl → Answer × Handler fl
  taint_answer f (some _) h =
      (reply 500 (error "could not persist taint"), count (received "taint_error") h)
  taint_answer f none h = (reply 200 (accepted f.user f.rule), count (received "accepted") h)

  abbrev pub graded_answer :
      Clock → Fire → Result GraderError RuleFireOutcome → Handler fl → Answer × Handler fl
  graded_answer c f (err invalid_user) h = grader_refused c h
  graded_answer c f (err (store_error _)) h =
      (reply 500 (error "could not record rule fire"), count (received "store_error") h)
  graded_answer c f (ok res) h = taint_answer f res.taint_err (count_solves res.results h)

  abbrev pub recorded_answer : Clock → Fire → Result Failure ℕ → Handler fl → Answer × Handler fl
  recorded_answer c f (err _) h =
      (reply 500 (error "could not record rule fire"), count (received "store_error") h)
  recorded_answer c f (ok _) h =
      let (r, s) = on_rule_fire h.grader f.user f.rule c.taint c.expected c.solve h.store in
      graded_answer c f r (record h { store = s })

  -- Past the limiters: the feed, then the grader.
  unfoldable pub record_fire : Clock → Fire → Handler fl → Answer × Handler fl
  unfolding grader_refused
  record_fire c f h =
      let (r, s) = record_rule_fire f.user f.rule c.receipt h.store in
      recorded_answer c f r (record h { store = s })

  unfoldable pub drop_observation : Clock → Fire → Handler fl → Answer × Handler fl
  unfolding audit
  drop_observation c f h = (
    too_many_requests,
    audit "observation_dropped" f.ns c
        (count (received "rate_limited") (count (rate_limited f.ns) h)),
  )

  abbrev pub limit_scoring : Clock → Fire → Handler fl → Answer × Handler fl
  limit_scoring c f h =
      let (allowed, l) = allow fl f.user c.limiter h.scoring_limiter in
      let h' = record h { scoring_limiter = l } in
      if allowed then record_fire c f h' else scoring_overflow c f h'

  abbrev pub limit_observation : Clock → Fire → Handler fl → Answer × Handler fl
  limit_observation c f h =
      let (allowed, l) = allow fl f.user c.limiter h.observe_limiter in
      let h' = record h { observe_limiter = l } in
      if allowed then record_fire c f h' else drop_observation c f h'

  unfoldable pub limit : Clock → Fire → Handler fl → Answer × Handler fl
  unfolding record_fire scoring_overflow drop_observation
  limit c f h =
      if affects_scoring h.grader f.rule then limit_scoring c f h else limit_observation c f h

  abbrev pub answer_admission : Clock → Admission × Handler fl → Answer × Handler fl
  answer_admission c (refused a, h) = (a, h)
  answer_admission c (admitted f, h) = limit c f h

  unfoldable pub receive : Clock → Request → Handler fl → Answer × Handler fl
  unfolding admit limit
  receive c r h = answer_admission c (admit r h)
