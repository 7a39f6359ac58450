-- ===== src/Ingest/Refusals.antt =====
-- The requests of receive that leave no trace but in the metrics, and those that a limiter drops.
use falco_ctf_app.Prelude.{
  ℕ, String, ◌≡◌, ◌⊎◌, refl, ap, ◌∙◌, inl, inr, Bool, true, false, ◌||◌, Option, none, some, ◌==◌,
  nat_eq, string_eq, arith, Bool-cases, Option-cases,
}
use falco_ctf_app.Prelude.Results.{Result, ok, err}
use falco_ctf_app.Store.State.{Failure}
use falco_ctf_app.Store.Rules.{record_rule_fire}
use falco_ctf_app.Scoring.Grader.{
  GraderError, invalid_user, store_error, RuleFireOutcome, affects_scoring, on_rule_fire,
  taint_on_overflow,
}
use falco_ctf_app.Ingest.Gates.{Gated, admit-Gated, silent, rule_of}
use falco_ctf_app.RateLimit.Floats.{Floats}
use falco_ctf_app.RateLimit.Limiter.{allow}
use falco_ctf_app.Ingest.Events.{FalcoEvent, Request}
use falco_ctf_app.Ingest.Handler.{
  Handler, Clock, Fire, Admission, refused, admitted, admit, overflow_answer, graded_answer,
  recorded_answer, record_fire, scoring_overflow, drop_observation, grader_refused, audit, limit,
  answer_admission, receive,
}

-- Past the gates and the limiters an event is answered 200 or 500.
abbrev is_processed : ℕ → Bool
is_processed s = s == 200 || s == 500

-- The answers of the gates that stand before the attribution of an event.
abbrev pub is_refusal : ℕ → Bool
is_refusal s = s == 400 || s == 401 || s == 403 || s == 415

module _ (fl : Floats) where
  graded_answer_status :
      (c : Clock) (f : Fire) (r : Result GraderError RuleFireOutcome) (h : Handler fl)
      → is_processed (graded_answer fl c f r h).0.status ≡ true
  unfolding grader_refused
  graded_answer_status c f (err invalid_user) h = refl
  graded_answer_status c f (err (store_error _)) h = refl
  graded_answer_status c f (ok res) h = elim (Option-cases res.taint_err) [
    | inl fine ↦ rw fine refl
    | inr (e, failed) ↦ rw failed refl
  ]

  recorded_answer_status :
      (c : Clock) (f : Fire) (r : Result Failure ℕ) (h : Handler fl)
      → is_processed (recorded_answer fl c f r h).0.status ≡ true
  recorded_answer_status c f (err _) h = refl
  recorded_answer_status c f (ok _) h =
      let (r, s) = on_rule_fire h.grader f.user f.rule c.taint c.expected c.solve h.store in
      graded_answer_status c f r (record h { store = s })

  overflow_answer_status :
      (c : Clock) (f : Fire) (tainted : String) (e : Option GraderError) (h : Handler fl)
      → is_processed (overflow_answer fl c f tainted e h).0.status ≡ true
  unfolding grader_refused
  overflow_answer_status c f tainted (some invalid_user) h = refl
  overflow_answer_status c f tainted (some (store_error _)) h = refl
  overflow_answer_status c f tainted none h = refl

  record_fire_status :
      (c : Clock) (f : Fire) (h : Handler fl) → is_processed (record_fire fl c f h).0.status ≡ true
  unfolding record_fire
  record_fire_status c f h =
      let (r, s) = record_rule_fire f.user f.rule c.receipt h.store in
      recorded_answer_status c f r (record h { store = s })

  scoring_overflow_status :
      (c : Clock) (f : Fire) (h : Handler fl)
      → is_processed (scoring_overflow fl c f h).0.status ≡ true
  unfolding scoring_overflow
  scoring_overflow_status c f h =
      let ((tainted, e), s) = taint_on_overflow h.grader f.user f.rule c.taint h.store in
      overflow_answer_status c f tainted e (record h { store = s })

  -- What a limiter drops: an observation, which reaches no store.
  record Dropped (f : Fire) (h h' : Handler fl) : Type 0 where
    unscored : affects_scoring h.grader f.rule ≡ false
    unwritten : h'.store ≡ h.store

  -- Past the gates, the answer is 200 or 500, or an observation is dropped with 429.
  limit_status :
      (c : Clock) (f : Fire) (h : Handler fl)
      → (is_processed (limit fl c f h).0.status ≡ true)
        ⊎ (((limit fl c f h).0.status ≡ 429) × Dropped f h (limit fl c f h).1)
  unfolding limit drop_observation audit
  limit_status c f h = elim (Bool-cases (affects_scoring h.grader f.rule)) [
    | inl scoring ↦ elim (Bool-cases (allow fl f.user c.limiter h.scoring_limiter).0) [
      | inl free ↦ rw (scoring, free) (inl (record_fire_status c f _))
      | inr full ↦ rw (scoring, full) (inl (scoring_overflow_status c f _))
    ]
    | inr other ↦ elim (Bool-cases (allow fl f.user c.limiter h.observe_limiter).0) [
      | inl free ↦ rw (other, free) (inl (record_fire_status c f _))
      | inr full ↦ rw (other, full) (inr (refl, record { unscored = other; unwritten = refl }))
    ]
  ]

  answer_admission-Unrecorded :
      (c : Clock) (body : Option FalcoEvent) (h : Handler fl) (p : Admission × Handler fl)
      → Gated fl body h p
      → is_refusal (answer_admission fl c p).0.status ≡ true
      → silent fl (answer_admission fl c p).1 ≡ silent fl h
  answer_admission-Unrecorded c body h (refused a, h') g e = g.1
  answer_admission-Unrecorded c body h (admitted f, h') g e = elim (limit_status c f h') [
    | inl done ↦ absurd (ground (arith, done, e))
    | inr (dropped, _) ↦ absurd (ground (arith, dropped, e))
  ]

  -- A request that is answered 400, 401, 403 or 415 leaves the store, the grader and the three
  -- limiters as they were: it changes nothing but metrics.
  pub receive_refused :
      (c : Clock) (r : Request) (h : Handler fl)
      → is_refusal (receive fl c r h).0.status ≡ true
      → silent fl (receive fl c r h).1 ≡ silent fl h
  unfolding receive
  receive_refused c r h = answer_admission-Unrecorded c r.body h (admit fl r h) (admit-Gated fl r h)

  -- An observation: no challenge expects or forbids the rule.
  pub record IsObservation (r : Request) (h : Handler fl) : Type 0 where
    pub rule : String
    pub decoded : rule_of r.body ≡ some rule
    pub unscored : affects_scoring h.grader rule ≡ false

  answer_admission-IsObservation :
      (c : Clock) (r : Request) (h : Handler fl) (p : Admission × Handler fl)
      → Gated fl r.body h p
      → (answer_admission fl c p).0.status ≡ 429
      → IsObservation r h × ((answer_admission fl c p).1.store ≡ h.store)
  answer_admission-IsObservation c r h (refused a, h') g e = absurd (ground (arith, g.0, e))
  answer_admission-IsObservation c r h (admitted f, h') g e = elim (limit_status c f h') [
    | inl done ↦ absurd (ground (arith, done, e))
    | inr (_, d) ↦ (
      record {
        rule = f.rule;
        decoded = g.0.0;
        unscored = rw (ap (λ k. k.grader) g.1) at d.unscored;
      },
      d.unwritten ∙ ap (λ k. k.store) g.1,
    )
  ]

  -- A request that is answered 429 carries a rule that no challenge expects or forbids, and leaves
  -- the store as it was: an event that matters to scoring is never dropped.
  pub receive_too_many :
      (c : Clock) (r : Request) (h : Handler fl)
      → (receive fl c r h).0.status ≡ 429
      → IsObservation r h × ((receive fl c r h).1.store ≡ h.store)
  unfolding receive
  receive_too_many c r h = answer_admission-IsObservation c r h (admit fl r h) (admit-Gated fl r h)
