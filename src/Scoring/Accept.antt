-- ===== src/Scoring/Accept.antt =====
-- When a submission or a sweep of internal/scoreboard/scoring/scoring.go solves a mission.
use falco_ctf_app.Prelude.{
  String, true, false, not, ◌&&◌, ◌≡◌, refl, inl, inr, Option, none, some, [], arith, ◌==◌,
  string_eq, ==_refl, Bool-cases,
}
use falco_ctf_app.Prelude.Maps.{lookup, lookup-insert}
use falco_ctf_app.Prelude.Results.{Result, ok}
use falco_ctf_app.Identity.{valid_seat}
use falco_ctf_app.Catalog.{Challenge, IsLoaded}
use falco_ctf_app.Store.State.{solve_key, solve_eq, Store}
use falco_ctf_app.Store.Solves.{mark_solved, is_solved, has_exfil}
use falco_ctf_app.Store.Rules.{dirty_rules, has_expected_rule_fire, nonempty}
use falco_ctf_app.Scoring.Grader.{Grader, GraderError}
use falco_ctf_app.Scoring.Submit.{EvadeOutcome, solved, evaluate_clean, submit_to, submit_evade}

-- The gates of an evade challenge, all open.
pub record IsClean (user : String) (ch : Challenge) (flag : String) (s : Store) : Type 0 where
  pub untainted : nonempty (dirty_rules user ch.id s) ≡ false
  pub fired : ch.require_expected_rule_fire ≡ true → has_expected_rule_fire user ch.id s ≡ true
  pub sent : ch.require_exfil ≡ true → has_exfil user ch.id flag s ≡ true

-- A submission that deserves the solve.
pub record IsAccepted (g : Grader) (user cid flag : String) (s : Store) : Type 0 where
  pub challenge : Challenge
  pub seat : valid_seat user ≡ true
  pub found : lookup cid g.cat ≡ some challenge
  pub evade : challenge.type ≡ "evade"
  pub right_flag : flag ≡ challenge.expected_flag
  pub clean : IsClean user challenge flag s

pub evaluate_clean_sound :
    (user : String) (ch : Challenge) (flag at : String) (s : Store) {out : EvadeOutcome}
    → (evaluate_clean user ch flag at s).0 ≡ ok out
    → out.status ≡ solved
    → IsClean user ch flag s
unfolding evaluate_clean
evaluate_clean_sound user ch flag at s h done = ground arith

submit_to_sound :
    (g : Grader) (user cid flag at : String) (s : Store) (target : Option Challenge)
    {out : EvadeOutcome}
    → lookup cid g.cat ≡ target
    → valid_seat user ≡ true
    → (submit_to target user flag at s).0 ≡ ok out
    → out.status ≡ solved
    → IsAccepted g user cid flag s
submit_to_sound g user cid flag at s none found seat h done = absurd (ground arith)
submit_to_sound g user cid flag at s (some ch) found seat h done =
    elim (Bool-cases (ch.type == "evade")) [
      | inr other ↦ absurd (ground arith)
      | inl evade ↦ elim (Bool-cases (flag == ch.expected_flag)) [
        | inr wrong ↦ absurd (ground arith)
        | inl right ↦ record {
          challenge = ch;
          seat = seat;
          found = found;
          evade = (string_eq.beq_iff ch.type "evade").0 evade;
          right_flag = (string_eq.beq_iff flag ch.expected_flag).0 right;
          clean = evaluate_clean_sound user ch flag at s (rw (evade, right) at h) done;
        }
      ]
    ]

-- A submission that is answered as solved comes from a seat, for an evade challenge of the
-- catalog, with its exact flag, with no taint, and with the expected rule fire and the exfil
-- receipt where the challenge requires them.
pub submit_evade_sound :
    (g : Grader) (user cid flag at : String) (s : Store) {out : EvadeOutcome}
    → (submit_evade g user cid flag at s).0 ≡ ok out
    → out.status ≡ solved
    → IsAccepted g user cid flag s
unfolding submit_evade
submit_evade_sound g user cid flag at s h done = elim (Bool-cases (valid_seat user)) [
  | inr refused ↦ absurd (ground arith)
  | inl seat ↦ submit_to_sound g user cid flag at s (lookup cid g.cat) refl seat (rw seat at h) done
]

-- What a solve leaves: the outcome says whether it is the first, and the mission is solved.
record IsSolvedBy (user cid : String) (s : Store) (r : Result GraderError EvadeOutcome × Store)
    : Type 0 where
  outcome :
      r.0 ≡ ok (record { status = solved; offending = []; newly = not (is_solved user cid s) })
  marked : is_solved user cid r.1 ≡ true

mark_solved_lem :
    (user cid at : String) (s : Store)
    → s.faulty s.statements ≡ false
    → ((mark_solved user cid at s).0 ≡ ok (not (is_solved user cid s)))
      × (is_solved user cid (mark_solved user cid at s).1 ≡ true)
unfolding mark_solved is_solved
mark_solved_lem user cid at s good = (
  ground arith,
  ground (
    arith,
    lookup-insert (solve_key user cid) (solve_key user cid) at s.mem.solved,
    ==_refl (solve_key user cid),
  ),
)

evaluate_clean_complete :
    (user : String) (ch : Challenge) (cid flag at : String) (s : Store)
    → ch.id ≡ cid
    → IsClean user ch flag s
    → s.faulty s.statements ≡ false
    → IsSolvedBy user cid s (evaluate_clean user ch flag at s)
unfolding evaluate_clean
evaluate_clean_complete user ch cid flag at s own c good =
    let gate : (ch.require_expected_rule_fire && not (has_expected_rule_fire user ch.id s))
        ≡ false =
      ground (arith, c.fired) in
    let exfil : (ch.require_exfil && not (has_exfil user ch.id flag s)) ≡ false =
      ground (arith, c.sent) in
    let (outcome, marked) = mark_solved_lem user ch.id at s good in
    rw (c.untainted, gate, exfil, ← own) (record { outcome = rw outcome refl; marked = marked })

-- In a catalog whose challenges stand under their own ids, a submission that meets every gate is
-- answered as solved and leaves the mission solved, if the next statement does not fail; it is
-- newly solved exactly when the mission was not solved before.
pub submit_evade_complete :
    (g : Grader) (user cid flag at : String) (s : Store)
    → IsLoaded g.cat
    → IsAccepted g user cid flag s
    → s.faulty s.statements ≡ false
    → ((submit_evade g user cid flag at s).0
        ≡ ok (record { status = solved; offending = []; newly = not (is_solved user cid s) }))
      × (is_solved user cid (submit_evade g user cid flag at s).1 ≡ true)
unfolding submit_evade
submit_evade_complete g user cid flag at s loaded a good =
    let own : a.challenge.id ≡ cid = loaded.own_id cid a.found in
    let evade : (a.challenge.type == "evade") ≡ true = rw a.evade refl in
    let right : (flag == a.challenge.expected_flag) ≡ true = rw (← a.right_flag) (==_refl flag) in
    let done = evaluate_clean_complete user a.challenge cid flag at s own a.clean good in
    rw (a.seat, a.found, evade, right) (done.outcome, done.marked)
