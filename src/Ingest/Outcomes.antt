-- ===== src/Ingest/Outcomes.antt =====
-- What receive counts, and which answers leave an event unrecorded.
use falco_ctf_app.Prelude.{
  ℕ, suc, String, ◌≡◌, refl, ap, inl, inr, not, ◌&&◌, Option, none, some, List, [], ◌∷◌, ◌==◌,
  nat_eq, string_eq, if◌then◌else◌, Bool-cases, Option-cases,
}
use falco_ctf_app.Prelude.Results.{Result, ok, err}
use falco_ctf_app.Store.State.{Failure}
use falco_ctf_app.Scoring.Grader.{
  GraderError, invalid_user, store_error, TriggerResult, RuleFireOutcome, affects_scoring,
}
use falco_ctf_app.RateLimit.Floats.{Floats}
use falco_ctf_app.RateLimit.Limiter.{allow}
use falco_ctf_app.Ingest.Events.{
  FalcoEvent, Request, SecretMode, off, warn, enforce, has_proxy_identity_header,
  is_json_content_type, checks, secret_matched,
}
use falco_ctf_app.Ingest.Gates.{refusal_status, refusal_status-attribute}
use falco_ctf_app.Ingest.Handler.{
  Handler, Clock, Answer, Fire, Increment, Admission, attributed, received, refused, admitted,
  attribute, decode_gates, content_gates, on_mismatch, admit, count_solves, overflow_answer,
  graded_answer, recorded_answer, record_fire, scoring_overflow, drop_observation, grader_refused,
  audit, limit, answer_admission, receive,
}

-- The value of FalcoEventsReceived over all its labels.
abbrev pub outcomes : List Increment → ℕ
outcomes [] = 0
outcomes (received _ ∷ is) = suc (outcomes is)
outcomes (_ ∷ is) = outcomes is

-- One more, but for the refusal of a secret.
abbrev pub counted_once : ℕ → ℕ → ℕ
counted_once status n = if status == 401 then n else suc n

module _ (fl : Floats) where
  abbrev Counted : Answer × Handler fl → Handler fl → Type 0
  Counted (a, h') h = outcomes h'.metrics ≡ counted_once a.status (outcomes h.metrics)

  outcomes-count_solves :
      (rs : List TriggerResult) (h : Handler fl)
      → outcomes (count_solves fl rs h).metrics ≡ outcomes h.metrics
  outcomes-count_solves [] h = refl
  outcomes-count_solves (r ∷ rs) h = elim (Bool-cases r.newly) [
    | inl new ↦ rw new (outcomes-count_solves rs _)
    | inr old ↦ rw old (outcomes-count_solves rs h)
  ]

  graded_answer-Counted :
      (c : Clock) (f : Fire) (r : Result GraderError RuleFireOutcome) (h : Handler fl)
      → Counted (graded_answer fl c f r h) h
  unfolding grader_refused
  graded_answer-Counted c f (err invalid_user) h = refl
  graded_answer-Counted c f (err (store_error _)) h = refl
  graded_answer-Counted c f (ok res) h = elim (Option-cases res.taint_err) [
    | inl fine ↦ rw fine (ap suc (outcomes-count_solves res.results h))
    | inr (e, failed) ↦ rw failed (ap suc (outcomes-count_solves res.results h))
  ]

  recorded_answer-Counted :
      (c : Clock) (f : Fire) (r : Result Failure ℕ) (h : Handler fl)
      → Counted (recorded_answer fl c f r h) h
  recorded_answer-Counted c f (err _) h = refl
  recorded_answer-Counted c f (ok _) h = graded_answer-Counted c f _ _

  overflow_answer-Counted :
      (c : Clock) (f : Fire) (tainted : String) (e : Option GraderError) (h : Handler fl)
      → Counted (overflow_answer fl c f tainted e h) h
  unfolding grader_refused audit
  overflow_answer-Counted c f tainted (some invalid_user) h = refl
  overflow_answer-Counted c f tainted (some (store_error _)) h = refl
  overflow_answer-Counted c f tainted none h = refl

  limit-Counted : (c : Clock) (f : Fire) (h : Handler fl) → Counted (limit fl c f h) h
  unfolding limit record_fire scoring_overflow drop_observation audit
  limit-Counted c f h = elim (Bool-cases (affects_scoring h.grader f.rule)) [
    | inl scoring ↦ elim (Bool-cases (allow fl f.user c.limiter h.scoring_limiter).0) [
      | inl free ↦ rw (scoring, free) (recorded_answer-Counted c f _ _)
      | inr full ↦ rw (scoring, full) (overflow_answer-Counted c f _ _ _)
    ]
    | inr other ↦ elim (Bool-cases (allow fl f.user c.limiter h.observe_limiter).0) [
      | inl free ↦ rw (other, free) (recorded_answer-Counted c f _ _)
      | inr full ↦ rw (other, full) refl
    ]
  ]

  attributed-Counted :
      (c : Clock) (a : Admission) (h : Handler fl)
      → refusal_status a ≡ 200
      → Counted (answer_admission fl c (attributed fl a h)) h
  attributed-Counted c (refused a) h e = rw e refl
  attributed-Counted c (admitted f) h e = limit-Counted c f h

  decode_gates-Counted :
      (c : Clock) (body : Option FalcoEvent) (h : Handler fl)
      → Counted (answer_admission fl c (decode_gates fl body h)) h
  decode_gates-Counted c none h = refl
  decode_gates-Counted c (some ev) h =
      attributed-Counted c (attribute ev) h (refusal_status-attribute ev)

  content_gates-Counted :
      (c : Clock) (r : Request) (h : Handler fl)
      → Counted (answer_admission fl c (content_gates fl r h)) h
  content_gates-Counted c r h = elim (Bool-cases (is_json_content_type r.media_type)) [
    | inl json ↦ rw json (decode_gates-Counted c r.body h)
    | inr other ↦ rw other refl
  ]

  on_mismatch-Counted :
      (c : Clock) (mode : SecretMode) (r : Request) (h : Handler fl)
      → Counted (answer_admission fl c (on_mismatch fl mode r h)) h
  on_mismatch-Counted c off r h = content_gates-Counted c r h
  on_mismatch-Counted c warn r h = content_gates-Counted c r h
  on_mismatch-Counted c enforce r h = refl

  -- Every request increments FalcoEventsReceived exactly once, under one label, unless it is
  -- answered 401; then it does not increment it at all.
  pub outcomes-receive :
      (c : Clock) (r : Request) (h : Handler fl)
      → outcomes (receive fl c r h).1.metrics
        ≡ counted_once (receive fl c r h).0.status (outcomes h.metrics)
  unfolding receive admit
  outcomes-receive c r h = elim (Bool-cases (has_proxy_identity_header r.header_keys)) [
    | inl browser ↦ rw browser refl
    | inr internal ↦
        elim (Bool-cases
          (checks h.secret_mode && not (secret_matched r.shared_secret h.shared_secret))) [
            | inl wrong ↦ rw (internal, wrong) (on_mismatch-Counted c h.secret_mode r _)
            | inr right ↦ rw (internal, right) (content_gates-Counted c r h)
          ]
  ]
