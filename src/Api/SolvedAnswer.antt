-- ===== src/Api/SolvedAnswer.antt =====
-- What an answer of the two flag routes promises.
use falco_ctf_app.Prelude.{
  ◌≡◌, refl, ap, inl, inr, String, string_eq, true, ◌||◌, Option, none, some, ◌==◌, ==_refl, arith,
  Bool-cases,
}
use falco_ctf_app.Prelude.Maps.{insert, lookup, lookup-insert}
use falco_ctf_app.Prelude.Results.{Result, ok, err}
use falco_ctf_app.Identity.{valid_seat}
use falco_ctf_app.Catalog.{Challenge}
use falco_ctf_app.Store.State.{Store, Failure, solve_key, solve_eq}
use falco_ctf_app.Store.Solves.{record_exfil, has_exfil}
use falco_ctf_app.Scoring.Grader.{Grader, GraderError, invalid_user, store_error}
use falco_ctf_app.Scoring.Submit.{
  EvadeStatus, EvadeOutcome, unknown_challenge, not_evade_type, wrong_flag, forbidden_fired,
  expected_rule_fire_required, exfil_required, solved, submit_evade, record_receipt,
  receipt_outcome,
}
use falco_ctf_app.Scoring.Accept.{IsAccepted, submit_evade_sound}
use falco_ctf_app.Ingest.Events.{has_proxy_identity_header, is_json_content_type}
use falco_ctf_app.Api.Gates.{trimmed, challenge, valid_challenge_id}
use falco_ctf_app.Api.Submissions.{
  FlagBody, FlagRequest, FlagHandler, solved_as, receipt_taken, answer_status, answer_graded,
  grade_flag, submit_body, submit_challenge, submit, answer_receipt, exfil_body, exfil_challenge,
  exfil_internal,
}

answer_status_solved :
    (st : EvadeStatus) (user cid : String) (out : EvadeOutcome) (h : FlagHandler) {u n : String}
    → (answer_status st user cid out h).0 ≡ solved_as u n
    → (st ≡ solved) × (u ≡ user)
answer_status_solved wrong_flag user cid out h e = absurd (ground (arith, e))
answer_status_solved forbidden_fired user cid out h e = absurd (ground (arith, e))
answer_status_solved expected_rule_fire_required user cid out h e = absurd (ground (arith, e))
answer_status_solved exfil_required user cid out h e = absurd (ground (arith, e))
answer_status_solved solved user cid out h e = (refl, cc e)
answer_status_solved unknown_challenge user cid out h e = absurd (ground (arith, e))
answer_status_solved not_evade_type user cid out h e = absurd (ground (arith, e))

answer_graded_solved :
    (user cid : String) (r : Result GraderError EvadeOutcome) (h : FlagHandler) {u n : String}
    → (answer_graded user cid r h).0 ≡ solved_as u n
    → (out : EvadeOutcome) × ((r ≡ ok out) × ((out.status ≡ solved) × (u ≡ user)))
answer_graded_solved user cid (err invalid_user) h e = absurd (ground (arith, e))
answer_graded_solved user cid (err (store_error _)) h e = absurd (ground (arith, e))
answer_graded_solved user cid (ok out) h e =
    (out, (refl, answer_status_solved out.status user cid out h e))

-- The body of the request meets every gate of the grader.
pub record IsDeserved (r : FlagRequest) (h : FlagHandler) (user : String) : Type 0 where
  pub body : FlagBody
  pub decoded : r.body ≡ some body
  pub accepted : IsAccepted h.grader (trimmed body.user) r.cid (trimmed body.flag) h.store
  pub same : user ≡ trimmed body.user

grade_flag_solved :
    (r : FlagRequest) (b : FlagBody) (at : String) (h : FlagHandler) {u n : String}
    → r.body ≡ some b
    → (grade_flag (trimmed b.user) r.cid (trimmed b.flag) at h).0 ≡ solved_as u n
    → IsDeserved r h u
grade_flag_solved r b at h decoded e =
    let (res, s) = submit_evade h.grader (trimmed b.user) r.cid (trimmed b.flag) at h.store in
    let (out, (graded, (done, same))) =
      answer_graded_solved (trimmed b.user) r.cid res (record h { store = s }) e in
    record {
      body = b;
      decoded = decoded;
      accepted =
          submit_evade_sound h.grader (trimmed b.user) r.cid (trimmed b.flag) at h.store graded
            done;
      same = same;
    }

submit_body_solved :
    (r : FlagRequest) (body : Option FlagBody) (at : String) (h : FlagHandler) {u n : String}
    → r.body ≡ body
    → (submit_body r.cid body at h).0 ≡ solved_as u n
    → IsDeserved r h u
submit_body_solved r none at h decoded e = absurd (ground (arith, e))
submit_body_solved r (some b) at h decoded e = elim (Bool-cases (trimmed b.user == "")) [
  | inl blank ↦ absurd (ground (arith, rw blank at e))
  | inr named ↦ elim (Bool-cases (valid_seat (trimmed b.user))) [
    | inr odd ↦ absurd (ground (arith, rw (named, odd) at e))
    | inl seat ↦ grade_flag_solved r b at h decoded (rw (named, seat) at e)
  ]
]

submit_challenge_solved :
    (r : FlagRequest) (ch : Option Challenge) (at : String) (h : FlagHandler) {u n : String}
    → (submit_challenge r ch at h).0 ≡ solved_as u n
    → IsDeserved r h u
submit_challenge_solved r none at h e = absurd (ground (arith, e))
submit_challenge_solved r (some ch) at h e = elim (Bool-cases (ch.type == "evade")) [
  | inr other ↦ absurd (ground (arith, rw other at e))
  | inl evade ↦ submit_body_solved r r.body at h refl (rw evade at e)
]

-- When the submit route answers that a mission is solved, the body of the request names a seat and
-- the mission's flag, and at that moment the seat is untainted on the mission, has fired an expected
-- rule where the mission requires it, and has sent that flag where the mission requires it; the
-- answer is for that seat.
pub submit_solved :
    (r : FlagRequest) (at : String) (h : FlagHandler) {user name : String}
    → (submit r at h).0 ≡ solved_as user name
    → IsDeserved r h user
unfolding submit
submit_solved r at h e = submit_challenge_solved r (challenge h.cat r.cid) at h e

record_exfil_lem :
    (user cid flag at : String) (s : Store)
    → (record_exfil user cid flag at s).0 ≡ ok tt
    → has_exfil user cid flag (record_exfil user cid flag at s).1 ≡ true
unfolding record_exfil has_exfil lookup insert
record_exfil_lem user cid flag at s done = elim (Bool-cases (s.faulty s.statements)) [
  | inl bad ↦ absurd (ground (arith, rw bad at done))
  | inr good ↦
      rw
        (
          good,
          lookup-insert (solve_key user cid) (solve_key user cid) flag s.mem.exfil,
          ==_refl (solve_key user cid),
          ==_refl flag,
        )
        refl
]

-- A delivered flag, which opens the mission's exfil gate.
pub record IsDelivered (r : FlagRequest) (h' : FlagHandler) (user : String) : Type 0 where
  pub body : FlagBody
  pub decoded : r.body ≡ some body
  pub same : user ≡ trimmed body.user
  pub stored : has_exfil user r.cid (trimmed body.flag) h'.store ≡ true

receipt_taken_lem :
    (user : String) (p : Result Failure (Unit {0}) × Store) (h : FlagHandler) {u : String}
    → (answer_receipt user (receipt_outcome p) h).0 ≡ receipt_taken u
    → (u ≡ user) × ((p.0 ≡ ok tt) × ((answer_receipt user (receipt_outcome p) h).1.store ≡ p.1))
receipt_taken_lem user (ok x, s) h e = (cc e, (refl, refl))
receipt_taken_lem user (err x, s) h e = absurd (ground (arith, e))

record_receipt_to :
    (g : Grader) (user cid flag at : String) (s : Store) (ch : Challenge)
    → valid_seat user ≡ true
    → lookup cid g.cat ≡ some ch
    → ch.require_exfil ≡ true
    → record_receipt g user cid flag at s ≡ receipt_outcome (record_exfil user cid flag at s)
unfolding record_receipt
record_receipt_to g user cid flag at s ch seat found needed = rw (seat, found, needed) refl

exfil_body_taken :
    (r : FlagRequest) (body : Option FlagBody) (at : String) (h : FlagHandler) (ch : Challenge)
    {u : String}
    → r.body ≡ body
    → lookup r.cid h.grader.cat ≡ some ch
    → ch.require_exfil ≡ true
    → (exfil_body r.cid body at h).0 ≡ receipt_taken u
    → IsDelivered r (exfil_body r.cid body at h).1 u
exfil_body_taken r none at h ch decoded found needed e = absurd (ground (arith, e))
exfil_body_taken r (some b) at h ch decoded found needed e =
    elim (Bool-cases (trimmed b.user == "" || trimmed b.flag == "")) [
      | inl blank ↦ absurd (ground (arith, rw blank at e))
      | inr named ↦ elim (Bool-cases (valid_seat (trimmed b.user))) [
        | inr odd ↦ absurd (ground (arith, rw (named, odd) at e))
        | inl seat ↦
            let p = record_exfil (trimmed b.user) r.cid (trimmed b.flag) at h.store in
            let to =
              record_receipt_to h.grader (trimmed b.user) r.cid (trimmed b.flag) at h.store ch seat
                found needed in
            let (same, (done, kept)) =
              receipt_taken_lem (trimmed b.user) p h (rw (named, seat, to) at e) in
            rw (named, seat, to)
              (record {
                body = b;
                decoded = decoded;
                same = same;
                stored =
                    rw (same, kept)
                      (record_exfil_lem (trimmed b.user) r.cid (trimmed b.flag) at h.store done);
              })
      ]
    ]

exfil_challenge_taken :
    (r : FlagRequest) (ch : Option Challenge) (at : String) (h : FlagHandler) {u : String}
    → lookup r.cid h.grader.cat ≡ ch
    → (exfil_challenge r ch at h).0 ≡ receipt_taken u
    → IsDelivered r (exfil_challenge r ch at h).1 u
exfil_challenge_taken r none at h found e = absurd (ground (arith, e))
exfil_challenge_taken r (some ch) at h found e = elim (Bool-cases ch.require_exfil) [
  | inr free ↦ absurd (ground (arith, rw free at e))
  | inl needed ↦ rw needed (exfil_body_taken r r.body at h ch refl found needed (rw needed at e))
]

-- When the handler and its grader share the catalog: a flag that the exfil route answers as
-- received is stored as the seat's receipt for the mission, so it opens the mission's exfil gate.
pub exfil_taken :
    (r : FlagRequest) (at : String) (h : FlagHandler) {user : String}
    → h.grader.cat ≡ h.cat
    → (exfil_internal r at h).0 ≡ receipt_taken user
    → IsDelivered r (exfil_internal r at h).1 user
unfolding exfil_internal challenge
exfil_taken r at h shared e = elim (Bool-cases (has_proxy_identity_header r.header_keys)) [
  | inl browser ↦ absurd (ground (arith, rw browser at e))
  | inr internal ↦ elim (Bool-cases (is_json_content_type r.media_type)) [
    | inr other ↦ absurd (ground (arith, rw (internal, other) at e))
    | inl json ↦ elim (Bool-cases (valid_challenge_id r.cid)) [
      | inr unknown ↦ absurd (ground (arith, rw (internal, json, unknown) at e))
      | inl known ↦
          rw (internal, json, known)
            (exfil_challenge_taken r (lookup r.cid h.cat) at h (ap (lookup r.cid) shared)
              (rw (internal, json, known) at e))
    ]
  ]
]
