-- ===== src/Ingest/Stores.antt =====
-- What a request that has passed the gates of receive does to the store.
use falco_ctf_app.Prelude.{
  String, ◌≡◌, refl, inl, inr, ◌⊎◌, false, Option, none, some, List, [], ◌∷◌, nat_eq, string_eq,
  Bool-cases, Option-cases,
}
use falco_ctf_app.Prelude.Results.{Result, ok, err}
use falco_ctf_app.Store.Rules.{record_rule_fire}
use falco_ctf_app.Scoring.Grader.{
  GraderError, invalid_user, store_error, TriggerResult, RuleFireOutcome, affects_scoring,
  on_rule_fire, taint_on_overflow,
}
use falco_ctf_app.RateLimit.Floats.{Floats}
use falco_ctf_app.RateLimit.Limiter.{allow}
use falco_ctf_app.Ingest.Handler.{
  Handler, Clock, Answer, Fire, count_solves, not_a_workspace, overflow_answer, graded_answer,
  record_fire, scoring_overflow, drop_observation, grader_refused, audit, limit,
}

module _ (fl : Floats) where
  -- The answer after the grader is only an answer.
  abbrev pub Kept : Answer × Handler fl → Handler fl → Type 0
  Kept (a, h') h = (h'.store ≡ h.store) × (h'.grader ≡ h.grader)

  count_solves-Kept :
      (rs : List TriggerResult) (h : Handler fl) (a : Answer) → Kept (a, count_solves fl rs h) h
  count_solves-Kept [] h a = (refl, refl)
  count_solves-Kept (r ∷ rs) h a = elim (Bool-cases r.newly) [
    | inl new ↦ rw new (count_solves-Kept rs _ a)
    | inr old ↦ rw old (count_solves-Kept rs h a)
  ]

  graded_answer-Kept :
      (c : Clock) (f : Fire) (r : Result GraderError RuleFireOutcome) (h : Handler fl)
      → Kept (graded_answer fl c f r h) h
  unfolding grader_refused
  graded_answer-Kept c f (err invalid_user) h = (refl, refl)
  graded_answer-Kept c f (err (store_error _)) h = (refl, refl)
  graded_answer-Kept c f (ok res) h = elim (Option-cases res.taint_err) [
    | inl fine ↦ rw fine (count_solves-Kept res.results h not_a_workspace)
    | inr (e, failed) ↦ rw failed (count_solves-Kept res.results h not_a_workspace)
  ]

  overflow_answer-Kept :
      (c : Clock) (f : Fire) (tainted : String) (e : Option GraderError) (h : Handler fl)
      → Kept (overflow_answer fl c f tainted e h) h
  unfolding grader_refused audit
  overflow_answer-Kept c f tainted (some invalid_user) h = (refl, refl)
  overflow_answer-Kept c f tainted (some (store_error _)) h = (refl, refl)
  overflow_answer-Kept c f tainted none h = (refl, refl)

  -- The store that record_fire leaves.
  record_fire-store :
      (c : Clock) (f : Fire) (h : Handler fl)
      → Kept (record_fire fl c f h) (record h {
        store =
            (on_rule_fire h.grader f.user f.rule c.taint c.expected c.solve
              (record_rule_fire f.user f.rule c.receipt h.store).1).1;
      })
  unfolding record_fire record_rule_fire
  record_fire-store c f h =
      let s = (record_rule_fire f.user f.rule c.receipt h.store).1 in
      let (r, s') = on_rule_fire h.grader f.user f.rule c.taint c.expected c.solve s in
      graded_answer-Kept c f r (record h { store = s' })

  scoring_overflow-store :
      (c : Clock) (f : Fire) (h : Handler fl)
      → Kept
          (scoring_overflow fl c f h)
          (record h { store = (taint_on_overflow h.grader f.user f.rule c.taint h.store).1 })
  unfolding scoring_overflow
  scoring_overflow-store c f h =
      let ((tainted, e), s) = taint_on_overflow h.grader f.user f.rule c.taint h.store in
      overflow_answer-Kept c f tainted e (record h { store = s })

  -- Past the gates an event is graded, or its taint alone is, or it is an observation.
  pub limit-store :
      (c : Clock) (f : Fire) (h : Handler fl)
      → Kept (limit fl c f h) (record h {
        store =
            (on_rule_fire h.grader f.user f.rule c.taint c.expected c.solve
              (record_rule_fire f.user f.rule c.receipt h.store).1).1;
      })
        ⊎ (Kept
              (limit fl c f h)
              (record h { store = (taint_on_overflow h.grader f.user f.rule c.taint h.store).1 })
            ⊎ ((affects_scoring h.grader f.rule ≡ false) × Kept (limit fl c f h) h))
  unfolding limit drop_observation audit
  limit-store c f h = elim (Bool-cases (affects_scoring h.grader f.rule)) [
    | inl scoring ↦
        let (allowed, l) = allow fl f.user c.limiter h.scoring_limiter in
        elim (Bool-cases (allow fl f.user c.limiter h.scoring_limiter).0) [
          | inl free ↦
              rw (scoring, free) (inl (record_fire-store c f (record h { scoring_limiter = l })))
          | inr full ↦
              rw (scoring, full)
                (inr (inl (scoring_overflow-store c f (record h { scoring_limiter = l }))))
        ]
    | inr other ↦
        let (allowed, l) = allow fl f.user c.limiter h.observe_limiter in
        elim (Bool-cases (allow fl f.user c.limiter h.observe_limiter).0) [
          | inl free ↦
              rw (other, free) (inl (record_fire-store c f (record h { observe_limiter = l })))
          | inr full ↦ rw (other, full) (inr (inr (refl, (refl, refl))))
        ]
  ]

  pub limit-grader : (c : Clock) (f : Fire) (h : Handler fl) → (limit fl c f h).1.grader ≡ h.grader
  limit-grader c f h = elim (limit-store c f h) [
    | inl graded ↦ graded.1
    | inr (inl over) ↦ over.1
    | inr (inr (_, same)) ↦ same.1
  ]
