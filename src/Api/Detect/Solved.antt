-- ===== src/Api/Detect/Solved.antt =====
-- A detect answer that says solved.
use falco_ctf_app.Prelude.{
  ℕ, ◌≡◌, refl, ap, ◌∙◌, inl, inr, String, string_eq, Bool, true, false, Option, none, some, List,
  ◌==◌, ==_refl, arith, Bool-cases, Option-cases,
}
use falco_ctf_app.Prelude.Int.{ℤ, pos, ltb_ℤ}
use falco_ctf_app.Prelude.Maps.{lookup, has, lookup-insert}
use falco_ctf_app.Prelude.Results.{Result, ok, err, ok_inj}
use falco_ctf_app.Identity.{valid_seat}
use falco_ctf_app.Catalog.{Challenge}
use falco_ctf_app.Store.State.{solve_key, solve_eq, Store, Failure}
use falco_ctf_app.Store.Solves.{mark_solved, is_solved}
use falco_ctf_app.Scoring.Grader.{invalid_user, store_error}
use falco_ctf_app.Scoring.Submit.{
  Grading, DetectStatus, DetectOutcome, DetectError, runner_error, grader_error, is_zero,
  detect_solved, judge, detect_to, submit_detect,
}
use falco_ctf_app.Api.Detect.{
  Job, solved_by, DetectHandler, answer_job, answer_detect, take, finish_detect,
}

-- The runner's verdict fired on the attack and not on the benign traffic, and the solve of the
-- job's challenge is in the store that is left.
pub record IsDetected (job : Job) (reply : Result String Grading) (h h' : DetectHandler)
    : Type 0 where
  pub verdict : Grading
  pub challenge : Challenge
  pub replied : reply ≡ ok verdict
  pub compiled : verdict.invalid ≡ false
  pub fired : is_zero verdict.evasion_fires ≡ false
  pub quiet : ltb_ℤ (pos 0) verdict.benign_fires ≡ false
  pub seat : valid_seat job.user ≡ true
  pub found : lookup job.cid h.grader.cat ≡ some challenge
  pub detect : challenge.type ≡ "detect"
  pub recorded : is_solved job.user challenge.id h'.store ≡ true

mark_solved_ok :
    (user cid at : String) (s : Store) (b : Bool)
    → (mark_solved user cid at s).0 ≡ ok b
    → is_solved user cid (mark_solved user cid at s).1 ≡ true
unfolding mark_solved is_solved
mark_solved_ok user cid at s b e = elim (Bool-cases (has (solve_key user cid) s.mem.solved)) [
  | inl before ↦ rw before before
  | inr fresh ↦ elim (Bool-cases (s.faulty s.statements)) [
    | inl bad ↦ absurd (ground (arith, rw (fresh, bad) at e))
    | inr good ↦
        rw (fresh, good)
          (ground (
            arith,
            lookup-insert (solve_key user cid) (solve_key user cid) at s.mem.solved,
            ==_refl (solve_key user cid),
          ))
  ]
]

answer_detect_solved :
    (st : DetectStatus) (job : Job) (out : DetectOutcome) (h : DetectHandler) (e b : ℤ)
    (user name : String)
    → (answer_detect st job out h).0 ≡ some (solved_by e b user name)
    → st ≡ DetectStatus.solved
answer_detect_solved DetectStatus.solved job out h e b user name a = refl
answer_detect_solved _ job out h e b user name a = cc

answer_job_solved :
    (job : Job) (r : Result DetectError DetectOutcome) (h : DetectHandler) (e b : ℤ)
    (user name : String)
    → (answer_job job r h).0 ≡ some (solved_by e b user name)
    → (out : DetectOutcome) × (r ≡ ok out) × (out.status ≡ DetectStatus.solved)
answer_job_solved job (ok out) h e b user name a =
    (out, refl, answer_detect_solved out.status job out h e b user name a)
answer_job_solved job (err (runner_error x)) h e b user name a = cc
answer_job_solved job (err (grader_error invalid_user)) h e b user name a = cc
answer_job_solved job (err (grader_error (store_error x))) h e b user name a = cc

-- The same of the grader's step from the runner's reply.
record IsJudged (reply : Result String Grading) (ch : Challenge) (user at : String) (s : Store)
    : Type 0 where
  verdict : Grading
  replied : reply ≡ ok verdict
  compiled : verdict.invalid ≡ false
  fired : is_zero verdict.evasion_fires ≡ false
  quiet : ltb_ℤ (pos 0) verdict.benign_fires ≡ false
  recorded : is_solved user ch.id (judge reply ch user at s).1 ≡ true

marked :
    (v : Grading) (r : Result Failure Bool × Store) (out : DetectOutcome)
    → (detect_solved v r).0 ≡ ok out
    → (b : Bool) × (r.0 ≡ ok b)
marked v (ok b, s) out e = (b, refl)
marked v (err x, s) out e = cc

judge_solved :
    (reply : Result String Grading) (ch : Challenge) (user at : String) (s : Store)
    (out : DetectOutcome)
    → (judge reply ch user at s).0 ≡ ok out
    → out.status ≡ DetectStatus.solved
    → IsJudged reply ch user at s
judge_solved (err x) ch user at s out e d = cc
judge_solved (ok v) ch user at s out e d = elim (Bool-cases v.invalid) [
  | inl a ↦ absurd (ground (arith, rw a at e))
  | inr a ↦ elim (Bool-cases (is_zero v.evasion_fires)) [
    | inl b ↦ absurd (ground (arith, rw (a, b) at e))
    | inr b ↦ elim (Bool-cases (ltb_ℤ (pos 0) v.benign_fires)) [
      | inl c ↦ absurd (ground (arith, rw (a, b, c) at e))
      | inr c ↦
          let (m, f) = marked v (mark_solved user ch.id at s) out (rw (a, b, c) at e) in
          record {
            verdict = v;
            replied = refl;
            compiled = a;
            fired = b;
            quiet = c;
            recorded = rw (a, b, c) (mark_solved_ok user ch.id at s m f);
          }
    ]
  ]
]

answer_detect-store :
    (st : DetectStatus) (job : Job) (out : DetectOutcome) (h : DetectHandler)
    → (answer_detect st job out h).1.store ≡ h.store
answer_detect-store DetectStatus.unknown_challenge job out h = refl
answer_detect-store DetectStatus.solved job out h = ground arith
answer_detect-store _ job out h = refl

answer_job-store :
    (job : Job) (r : Result DetectError DetectOutcome) (h : DetectHandler)
    → (answer_job job r h).1.store ≡ h.store
answer_job-store job (ok out) h = answer_detect-store out.status job out h
answer_job-store job (err (runner_error e)) h = refl
answer_job-store job (err (grader_error invalid_user)) h = refl
answer_job-store job (err (grader_error (store_error e))) h = refl

detect_to_solved :
    (o : Option Challenge) (job : Job) (reply : Result String Grading) (at : String) (s : Store)
    (out : DetectOutcome)
    → (detect_to o (λ _ _. reply) job.user job.cid job.condition at s).0 ≡ ok out
    → out.status ≡ DetectStatus.solved
    → (ch : Challenge) × (o ≡ some ch)
      × (ch.type ≡ "detect")
      × IsJudged reply ch job.user at s
      × ((detect_to o (λ _ _. reply) job.user job.cid job.condition at s).1
          ≡ (judge reply ch job.user at s).1)
detect_to_solved none job reply at s out e d = absurd (ground (arith, ok_inj e))
detect_to_solved (some ch) job reply at s out e d = elim (Bool-cases (ch.type == "detect")) [
  | inr other ↦ absurd (ground (arith, ok_inj (rw other at e)))
  | inl same ↦ (
    ch,
    refl,
    (string_eq.beq_iff ch.type "detect").0 same,
    judge_solved reply ch job.user at s out (rw same at e) d,
    rw same refl,
  )
]

-- An answer of solved to a grading is given only for a job that was running, when the runner's reply
-- to it compiled, fired on the attack and not on the benign traffic, for a seat and a detect
-- challenge of the catalog; and then the solve is in the store.
pub finish_detect_solved :
    (n : ℕ) (reply : Result String Grading) (at : String) (h : DetectHandler) (e b : ℤ)
    (user name : String)
    → (finish_detect n reply at h).0 ≡ some (solved_by e b user name)
    → (job : Job) × (others : List Job) × (take n h.pending ≡ some (job, others))
      × IsDetected job reply h (finish_detect n reply at h).1
unfolding finish_detect submit_detect
finish_detect_solved n reply at h e b user name a = elim (Option-cases (take n h.pending)) [
  | inl gone ↦ absurd (ground (arith, rw gone at a))
  | inr ((job, others), t) ↦ elim (Bool-cases (valid_seat job.user)) [
    | inr refused ↦ absurd (ground (arith, rw (t, refused) at a))
    | inl seat ↦
        let graded =
          detect_to (lookup job.cid h.grader.cat) (λ _ _. reply) job.user job.cid job.condition at
            h.store in
        let h' = record h { pending = others; store = graded.1 } in
        let (out, r, d) = answer_job_solved job graded.0 h' e b user name (rw (t, seat) at a) in
        let (ch, found, type, j, left) =
          detect_to_solved (lookup job.cid h.grader.cat) job reply at h.store out r d in
        (
          job,
          others,
          t,
          rw (t, seat)
              (record {
                verdict = j.verdict;
                challenge = ch;
                replied = j.replied;
                compiled = j.compiled;
                fired = j.fired;
                quiet = j.quiet;
                seat = seat;
                found = found;
                detect = type;
                recorded =
                    ap (is_solved job.user ch.id) (answer_job-store job graded.0 h' ∙ left)
                    ∙ j.recorded;
              }),
        )
  ]
]
