-- ===== src/Scoring/Taint/NeverSolved.antt =====
-- Sequences of calls of the grader against a tainted mission.
use falco_ctf_app.Prelude.{
  String, true, false, ◌&&◌, ◌≡◌, refl, sym, ◌∙◌, inl, inr, Option, none, some, List, [], ◌∷◌,
  arith, ◌==◌, string_eq, Bool-cases, Option-cases,
}
use falco_ctf_app.Prelude.Maps.{lookup}
use falco_ctf_app.Prelude.Int.{pos, ltb_ℤ}
use falco_ctf_app.Prelude.Results.{Result, ok, err}
use falco_ctf_app.Identity.{valid_seat}
use falco_ctf_app.Catalog.{Challenge, ids, IsLoaded}
use falco_ctf_app.Store.State.{Store}
use falco_ctf_app.Store.Solves.{ExfilReceipt, pending_exfil_solves}
use falco_ctf_app.Scoring.Grader.{
  Grader, taint_target, taint_on_overflow, mark_dirty_on_rule_fire, on_rule_fire,
}
use falco_ctf_app.Scoring.Submit.{
  Grading, evaluate_clean, submit_to, submit_evade, record_to, record_receipt, judge, detect_to,
  is_zero, submit_detect,
}
use falco_ctf_app.Scoring.Sweep.{sweepable, sweep_receipts, sweep}
use falco_ctf_app.Scoring.Taint.Frames.{Blocked, mark_solved-Blocked, record_exfil-Blocked}
use falco_ctf_app.Scoring.Taint.Calls.{
  other_mission, taint_with-Blocked, record_fires-Blocked, evaluate_triggers-Blocked,
  evaluate_clean-Blocked,
}

-- A call of a method of the grader that may write; each with its readings of the clock.
pub data Call : Type 0 where
  fire : String → String → String → String → String → Call
  overflow : String → String → String → Call
  evade : String → String → String → String → Call
  receipt : String → String → String → String → Call
  detect : (String → String → Result String Grading) → String → String → String → String → Call
  sweep_all : (ExfilReceipt → String) → Call

unfoldable pub call : Grader → Call → Store → Store
call g (fire u q a b c) s = (on_rule_fire g u q a b c s).1
call g (overflow u q at) s = (taint_on_overflow g u q at s).1
call g (evade u c flag at) s = (submit_evade g u c flag at s).1
call g (receipt u c flag at) s = (record_receipt g u c flag at s).1
call g (detect grade u c condition at) s = (submit_detect g grade u c condition at s).1
call g (sweep_all at) s = (sweep g at s).1

unfoldable pub calls : Grader → List Call → Store → Store
unfolding call
calls g [] s = s
calls g (x ∷ xs) s = calls g xs (call g x s)

-- A detect challenge is another mission, since it is stored under its own id.
detect_ne :
    (g : Grader) (c : String) (ch : Challenge)
    → lookup c g.cat ≡ some ch
    → ch.type ≡ "evade"
    → IsLoaded g.cat
    → (u v d : String) (e : Challenge) → lookup d g.cat ≡ some e
    → (e.type == "detect") ≡ true
    → (v == u && e.id == c) ≡ false
detect_ne g c ch found is_evade loaded u v d e at_d is_detect = other_mission u c v e.id λ same.
    let d_is_c : d ≡ c = sym (loaded.own_id d at_d) ∙ same in
    let both : some e ≡ some ch = sym (rw d_is_c at at_d) ∙ found in
    absurd (ground (arith, string_eq.beq_iff e.type "detect", string_eq.beq_iff "evade" "detect"))

module _ {u c r : String} (g : Grader) (ch : Challenge) (found : lookup c g.cat ≡ some ch)
    (is_evade : ch.type ≡ "evade") where
  pub fire-Blocked :
      (v q a b d : String) (s : Store)
      → Blocked u c r s
      → Blocked u c r (on_rule_fire g v q a b d s).1
  unfolding on_rule_fire mark_dirty_on_rule_fire
  fire-Blocked v q a b d s h = elim (Bool-cases (valid_seat v)) [
    | inl seat ↦ rw seat (
        evaluate_triggers-Blocked g ch v q d (ids g.cat) _ found is_evade (
          record_fires-Blocked g v q b (ids g.cat) _
            (taint_with-Blocked (taint_target g v q s) v q a s h)))
    | inr refused ↦ rw refused h
  ]

  pub overflow-Blocked :
      (v q at : String) (s : Store)
      → Blocked u c r s
      → Blocked u c r (taint_on_overflow g v q at s).1
  unfolding taint_on_overflow
  overflow-Blocked v q at s h = elim (Bool-cases (valid_seat v)) [
    | inl seat ↦ rw seat (taint_with-Blocked (taint_target g v q s) v q at s h)
    | inr refused ↦ rw refused h
  ]

  submit_to-Blocked :
      (target : Option Challenge) (v flag at : String) (s : Store)
      → Blocked u c r s
      → Blocked u c r (submit_to target v flag at s).1
  submit_to-Blocked none v flag at s h = h
  submit_to-Blocked (some d) v flag at s h = elim (Bool-cases (d.type == "evade")) [
    | inr other ↦ rw other h
    | inl same ↦ elim (Bool-cases (flag == d.expected_flag)) [
      | inr wrong ↦ rw (same, wrong) h
      | inl right ↦ rw (same, right) (evaluate_clean-Blocked v flag at d s h)
    ]
  ]

  evade-Blocked :
      (v d flag at : String) (s : Store)
      → Blocked u c r s
      → Blocked u c r (submit_evade g v d flag at s).1
  unfolding submit_evade
  evade-Blocked v d flag at s h = elim (Bool-cases (valid_seat v)) [
    | inl seat ↦ rw seat (submit_to-Blocked (lookup d g.cat) v flag at s h)
    | inr refused ↦ rw refused h
  ]

  record_to-Blocked :
      (target : Option Challenge) (v d flag at : String) (s : Store)
      → Blocked u c r s
      → Blocked u c r (record_to target v d flag at s).1
  record_to-Blocked none v d flag at s h = h
  record_to-Blocked (some e) v d flag at s h = elim (Bool-cases e.require_exfil) [
    | inl needed ↦ rw needed (record_exfil-Blocked h v d flag at)
    | inr free ↦ rw free h
  ]

  receipt-Blocked :
      (v d flag at : String) (s : Store)
      → Blocked u c r s
      → Blocked u c r (record_receipt g v d flag at s).1
  unfolding record_receipt
  receipt-Blocked v d flag at s h = elim (Bool-cases (valid_seat v)) [
    | inl seat ↦ rw seat (record_to-Blocked (lookup d g.cat) v d flag at s h)
    | inr refused ↦ rw refused h
  ]

  judge-Blocked :
      (reply : Result String Grading) (e : Challenge) (v at : String) (s : Store)
      → (v == u && e.id == c) ≡ false
      → Blocked u c r s
      → Blocked u c r (judge reply e v at s).1
  judge-Blocked (err x) e v at s other h = h
  judge-Blocked (ok x) e v at s other h = elim (Bool-cases x.invalid) [
    | inl bad ↦ rw bad h
    | inr valid ↦ elim (Bool-cases (is_zero x.evasion_fires)) [
      | inl missed ↦ rw (valid, missed) h
      | inr hit ↦ elim (Bool-cases (ltb_ℤ (pos 0) x.benign_fires)) [
        | inl noisy ↦ rw (valid, hit, noisy) h
        | inr quiet ↦ rw (valid, hit, quiet) (mark_solved-Blocked h v e.id at other)
      ]
    ]
  ]

  detect_to-Blocked :
      (loaded : IsLoaded g.cat) (grade : String → String → Result String Grading)
      (v d condition at : String) (s : Store) (target : Option Challenge)
      → lookup d g.cat ≡ target
      → Blocked u c r s
      → Blocked u c r (detect_to target grade v d condition at s).1
  detect_to-Blocked loaded grade v d condition at s none e h = h
  detect_to-Blocked loaded grade v d condition at s (some x) e h =
      elim (Bool-cases (x.type == "detect")) [
        | inr other ↦ rw other h
        | inl same ↦ rw same (
            judge-Blocked (grade d condition) x v at s
              (detect_ne g c ch found is_evade loaded u v d x e same) h)
      ]

  detect-Blocked :
      (loaded : IsLoaded g.cat) (grade : String → String → Result String Grading)
      (v d condition at : String) (s : Store)
      → Blocked u c r s
      → Blocked u c r (submit_detect g grade v d condition at s).1
  unfolding submit_detect
  detect-Blocked loaded grade v d condition at s h = elim (Bool-cases (valid_seat v)) [
    | inl seat ↦ rw seat (detect_to-Blocked loaded grade v d condition at s (lookup d g.cat) refl h)
    | inr refused ↦ rw refused h
  ]

  sweep_receipts-Blocked :
      (at : ExfilReceipt → String) (rs : List ExfilReceipt) (s : Store)
      → Blocked u c r s
      → Blocked u c r (sweep_receipts g at rs s).1
  unfolding sweep_receipts
  sweep_receipts-Blocked at [] s h = h
  sweep_receipts-Blocked at (x ∷ rest) s h =
      elim (Option-cases (sweepable (lookup x.challenge g.cat) x)) [
        | inl skipped ↦ rw skipped (sweep_receipts-Blocked at rest s h)
        | inr (e, taken) ↦ rw taken (
            sweep_receipts-Blocked at rest (evaluate_clean x.user e x.flag (at x) s).1
              (evaluate_clean-Blocked x.user x.flag (at x) e s h))
      ]

  pub call-Blocked :
      (loaded : IsLoaded g.cat) (x : Call) (s : Store)
      → Blocked u c r s
      → Blocked u c r (call g x s)
  unfolding call sweep
  call-Blocked loaded (fire v q a b d) s h = fire-Blocked v q a b d s h
  call-Blocked loaded (overflow v q at) s h = overflow-Blocked v q at s h
  call-Blocked loaded (evade v d flag at) s h = evade-Blocked v d flag at s h
  call-Blocked loaded (receipt v d flag at) s h = receipt-Blocked v d flag at s h
  call-Blocked loaded (detect grade v d condition at) s h =
      detect-Blocked loaded grade v d condition at s h
  call-Blocked loaded (sweep_all at) s h = sweep_receipts-Blocked at (pending_exfil_solves s) s h

  -- In a catalog whose challenges stand under their own ids: once a rule has tainted an unsolved
  -- evade mission of the catalog for a user, no sequence of rule fires, overflows, submissions,
  -- receipts, detect submissions and sweeps by anyone solves it for that user or clears the
  -- taint, whichever statements fail.
  pub calls-Blocked :
      (loaded : IsLoaded g.cat) (xs : List Call) (s : Store)
      → Blocked u c r s
      → Blocked u c r (calls g xs s)
  unfolding calls
  calls-Blocked loaded [] s h = h
  calls-Blocked loaded (x ∷ xs) s h =
      calls-Blocked loaded xs (call g x s) (call-Blocked loaded x s h)
