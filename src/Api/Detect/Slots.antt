-- ===== src/Api/Detect/Slots.antt =====
-- The slots of the gradings that run, whatever the order of requests and replies.
use Prim.Native.String.{len}
use falco_ctf_app.Prelude.{
  ℕ, zero, suc, ◌≤◌, ◌≡◌, refl, ap, sym, ◌∙◌, inl, inr, String, string_eq, Bool, true, false, not,
  Option, none, some, List, [], ◌∷◌, ◌==◌, ltb, length, length-append, arith, if◌then◌else◌,
  Bool-cases, Option-cases,
}
use falco_ctf_app.Prelude.Results.{Result, ok, err}
use falco_ctf_app.Identity.{valid_seat}
use falco_ctf_app.Catalog.{Challenge}
use falco_ctf_app.Scoring.Grader.{invalid_user, store_error}
use falco_ctf_app.Scoring.Submit.{
  Grading, DetectStatus, DetectOutcome, DetectError, runner_error, grader_error, submit_detect,
}
use falco_ctf_app.Api.Gates.{Reason, trimmed, challenge}
use falco_ctf_app.Api.Detect.{
  DetectBody, DetectRequest, Job, DetectAnswer, DetectHandler, acquire, with_condition, permitted,
  with_challenge, begin_detect, answer_detect, answer_job, take, finish_detect, max_condition_bytes,
}

-- A slot is taken for each grading that runs and for no other, within the cap.
pub record Held (cap : ℕ) (h : DetectHandler) : Type 0 where
  pub fixed : h.inflight_cap ≡ cap
  pub taken : h.inflight ≡ length h.pending
  pub bounded : h.inflight ≤ cap

module _ (cap : ℕ) where
  Held-if :
      (b : Bool) (x y : Option DetectAnswer × DetectHandler)
      → Held cap x.1
      → Held cap y.1
      → Held cap (if b then x else y).1
  Held-if true x y p q = p
  Held-if false x y p q = q

  -- Counters and denials stand apart from the slots.
  same_slots :
      (h h' : DetectHandler)
      → Held cap h
      → h'.inflight_cap ≡ h.inflight_cap
      → h'.inflight ≡ h.inflight
      → h'.pending ≡ h.pending
      → Held cap h'
  same_slots h h' x a b c = record {
    fixed = a ∙ x.fixed;
    taken = b ∙ x.taken ∙ ap length (sym c);
    bounded = omega (arith, x.bounded);
  }

  acquire-Held : (job : Job) (h : DetectHandler) → Held cap h → Held cap (acquire job h).1
  acquire-Held job h x = elim (Bool-cases (ltb h.inflight h.inflight_cap)) [
    | inl room ↦ rw room (record {
      fixed = x.fixed;
      taken = omega (arith, x.taken, length-append h.pending (job ∷ []));
      bounded = ground (arith, x.fixed);
    })
    | inr full ↦ rw full (same_slots h _ x refl refl refl)
  ]

  with_condition-Held :
      (cid user condition : String) (h : DetectHandler)
      → Held cap h
      → Held cap (with_condition cid user condition h).1
  with_condition-Held cid user condition h x =
      Held-if (condition == "") _ _ (same_slots h _ x refl refl refl) (
        Held-if (ltb max_condition_bytes (len condition)) _ _ (same_slots h _ x refl refl refl)
          (acquire-Held _ h x))

  permitted-Held :
      (o : Option Reason) (h : DetectHandler) (next : Option DetectAnswer × DetectHandler)
      → Held cap h
      → Held cap next.1
      → Held cap (permitted o h next).1
  permitted-Held none h next x y = y
  permitted-Held (some reason) h next x y = same_slots h _ x refl refl refl

  with_challenge-Held :
      (r : DetectRequest) (b : Option DetectBody) (o : Option Challenge) (h : DetectHandler)
      → Held cap h
      → Held cap (with_challenge (record r { body = b }) o h).1
  with_challenge-Held r b none h x = same_slots h _ x refl refl refl
  with_challenge-Held r none (some ch) h x =
      Held-if (not (ch.type == "detect")) _ _ (same_slots h _ x refl refl refl)
        (same_slots h _ x refl refl refl)
  with_challenge-Held r (some b) (some ch) h x =
      Held-if (not (ch.type == "detect")) _ _ (same_slots h _ x refl refl refl) (
        Held-if (trimmed b.user == "") _ _ (same_slots h _ x refl refl refl) (
          Held-if (not (valid_seat (trimmed b.user))) _ _ (same_slots h _ x refl refl refl) (
            permitted-Held _ h _ x
              (with_condition-Held r.cid (trimmed b.user) (trimmed b.condition) h x))))

  begin_detect-Held :
      (r : DetectRequest) (h : DetectHandler) → Held cap h → Held cap (begin_detect r h).1
  unfolding begin_detect
  begin_detect-Held r h x =
      Held-if (not h.enabled) _ _ x (with_challenge-Held r r.body (challenge h.cat r.cid) h x)

  answer_detect-Held :
      (st : DetectStatus) (job : Job) (out : DetectOutcome) (h : DetectHandler)
      → ((answer_detect st job out h).1.inflight_cap ≡ h.inflight_cap)
        × ((answer_detect st job out h).1.inflight ≡ h.inflight)
        × ((answer_detect st job out h).1.pending ≡ h.pending)
  answer_detect-Held DetectStatus.unknown_challenge job out h = (refl, refl, refl)
  answer_detect-Held DetectStatus.solved job out h = ground arith
  answer_detect-Held _ job out h = (refl, refl, refl)

  answer_job-Held :
      (job : Job) (r : Result DetectError DetectOutcome) (h : DetectHandler)
      → ((answer_job job r h).1.inflight_cap ≡ h.inflight_cap)
        × ((answer_job job r h).1.inflight ≡ h.inflight)
        × ((answer_job job r h).1.pending ≡ h.pending)
  answer_job-Held job (ok out) h = answer_detect-Held out.status job out h
  answer_job-Held job (err (runner_error e)) h = (refl, refl, refl)
  answer_job-Held job (err (grader_error invalid_user)) h = (refl, refl, refl)
  answer_job-Held job (err (grader_error (store_error e))) h = (refl, refl, refl)

  left_of : Option (Job × List Job) → ℕ
  left_of none = 0
  left_of (some (job, others)) = length others

  length-take :
      (n : ℕ) (jobs : List Job) (job : Job) (others : List Job)
      → take n jobs ≡ some (job, others)
      → length jobs ≡ suc (length others)
  unfolding left_of
  length-take n [] job others e = absurd (ground arith)
  length-take zero (j ∷ rest) job others e = ap suc (ap left_of e)
  length-take (suc n) (j ∷ rest) job others e = elim (Option-cases (take n rest)) [
    | inl gone ↦ absurd (ground (arith, rw gone at e))
    | inr ((found, kept), t) ↦ ap suc (length-take n rest found kept t ∙ ap left_of (rw t at e))
  ]

  finish_detect-Held :
      (n : ℕ) (reply : Result String Grading) (at : String) (h : DetectHandler)
      → Held cap h
      → Held cap (finish_detect n reply at h).1
  unfolding finish_detect
  finish_detect-Held n reply at h x = elim (Option-cases (take n h.pending)) [
    | inl none_left ↦ rw none_left x
    | inr ((job, others), t) ↦
        let graded =
          submit_detect h.grader (λ _ _. reply) job.user job.cid job.condition at h.store in
        let a = answer_job-Held job graded.0 (record h { pending = others; store = graded.1 }) in
        rw t (record {
          fixed = a.0 ∙ x.fixed;
          taken = omega (arith, a.1, x.taken, length-take n h.pending job others t, ap length a.2);
          bounded = omega (arith, a.1, x.bounded);
        })
  ]

pub data Event : Type 0 where
  arrive : DetectRequest → Event
  reply : ℕ → Result String Grading → String → Event

unfoldable pub step : Event → DetectHandler → DetectHandler
step (arrive r) h = (begin_detect r h).1
step (reply n r at) h = (finish_detect n r at h).1

unfoldable pub run : List Event → DetectHandler → DetectHandler
unfolding step
run [] h = h
run (e ∷ es) h = run es (step e h)

-- Over any sequence of requests and of the runner's replies, in any order and whatever the replies
-- are, the slots that are taken are as many as the gradings that run, and never more than the cap:
-- each path that ends a grading gives its slot back.
pub run-Held : (cap : ℕ) (es : List Event) (h : DetectHandler) → Held cap h → Held cap (run es h)
unfolding run step
run-Held cap [] h x = x
run-Held cap (arrive r ∷ es) h x = run-Held cap es _ (begin_detect-Held cap r h x)
run-Held cap (reply n r at ∷ es) h x = run-Held cap es _ (finish_detect-Held cap n r at h x)
