-- ===== src/Scoring/Swept.antt =====
-- What the sweep of internal/scoreboard/scoring/scoring.go solves.
use falco_ctf_app.Prelude.{
  String, true, ◌≡◌, refl, subst, inl, inr, Option, none, some, List, [], ◌∷◌, All, arith, ◌==◌,
  string_eq, Bool-cases, Option-cases,
}
use falco_ctf_app.Prelude.Maps.{lookup}
use falco_ctf_app.Prelude.Results.{ok, Result-cases}
use falco_ctf_app.Identity.{valid_seat}
use falco_ctf_app.Catalog.{Challenge}
use falco_ctf_app.Store.State.{Store}
use falco_ctf_app.Store.Solves.{ExfilReceipt, mark_solved, has_exfil, pending_exfil_solves}
use falco_ctf_app.Store.Rules.{dirty_rules, has_expected_rule_fire}
use falco_ctf_app.Scoring.Grader.{Grader}
use falco_ctf_app.Scoring.Submit.{EvadeOutcome, solved, evaluate_clean}
use falco_ctf_app.Scoring.Sweep.{SweepResult, sweepable, solved_newly, sweep_receipts, sweep}
use falco_ctf_app.Scoring.Accept.{IsClean, evaluate_clean_sound}

-- A solve that the sweep may grant on the store it starts from.
pub record IsSwept (g : Grader) (s : Store) (r : SweepResult) : Type 0 where
  pub challenge : Challenge
  pub seat : valid_seat r.user ≡ true
  pub found : lookup r.challenge g.cat ≡ some challenge
  pub evade : challenge.type ≡ "evade"
  pub exfil : challenge.require_exfil ≡ true
  pub clean : IsClean r.user challenge challenge.expected_flag s

-- The last gate writes to the solves alone.
record SameGates (s s' : Store) : Type 0 where
  dirty : s'.mem.dirty_rules ≡ s.mem.dirty_rules
  receipts : s'.mem.exfil ≡ s.mem.exfil
  fires : s'.mem.expected_rule_fire ≡ s.mem.expected_rule_fire

mark_solved-SameGates : (u c at : String) (s : Store) → SameGates s (mark_solved u c at s).1
unfolding mark_solved
mark_solved-SameGates u c at s = record {
  dirty = ground arith;
  receipts = ground arith;
  fires = ground arith;
}

evaluate_clean-SameGates :
    (u : String) (ch : Challenge) (flag at : String) (s : Store)
    → SameGates s (evaluate_clean u ch flag at s).1
unfolding evaluate_clean
evaluate_clean-SameGates u ch flag at s =
    let m = mark_solved-SameGates u ch.id at s in
    record {
      dirty = ground (arith, m.dirty);
      receipts = ground (arith, m.receipts);
      fires = ground (arith, m.fires);
    }

IsSwept-SameGates :
    (g : Grader) (s s' : Store) (r : SweepResult) → SameGates s s' → IsSwept g s' r → IsSwept g s r
unfolding dirty_rules has_exfil has_expected_rule_fire
IsSwept-SameGates g s s' r same w = record {
  challenge = w.challenge;
  seat = w.seat;
  found = w.found;
  evade = w.evade;
  exfil = w.exfil;
  clean = record {
    untainted = rw (← same.dirty) w.clean.untainted;
    fired = λ h. rw (← same.fires) (w.clean.fired h);
    sent = λ h. rw (← same.receipts) (w.clean.sent h);
  };
}

All-SameGates :
    (g : Grader) (s s' : Store) (rs : List SweepResult)
    → SameGates s s'
    → All (IsSwept g s') rs
    → All (IsSwept g s) rs
All-SameGates g s s' [] same _ = tt
All-SameGates g s s' (r ∷ rs) same (w, ws) =
    (IsSwept-SameGates g s s' r same w, All-SameGates g s s' rs same ws)

-- The guards of the loop.
record Guarded (g : Grader) (r : ExfilReceipt) (ch : Challenge) : Type 0 where
  seat : valid_seat r.user ≡ true
  found : lookup r.challenge g.cat ≡ some ch
  evade : ch.type ≡ "evade"
  exfil : ch.require_exfil ≡ true
  flag : r.flag ≡ ch.expected_flag

Guarded-same :
    (g : Grader) (r : ExfilReceipt) (e ch : Challenge)
    → some e ≡ some ch
    → Guarded g r e
    → Guarded g r ch
Guarded-same g r e ch same q = let eq : e ≡ ch = ground (arith, same) in subst (Guarded g r) eq q

sweepable-Guarded :
    (g : Grader) (r : ExfilReceipt) (target : Option Challenge) (ch : Challenge)
    → lookup r.challenge g.cat ≡ target
    → sweepable target r ≡ some ch
    → Guarded g r ch
sweepable-Guarded g r none ch found h = absurd (ground arith)
sweepable-Guarded g r (some e) ch found h = elim (Bool-cases (valid_seat r.user)) [
  | inr bad ↦ absurd (ground (arith, rw bad at h))
  | inl seat ↦ elim (Bool-cases (e.type == "evade")) [
    | inr bad ↦ absurd (ground (arith, rw (seat, bad) at h))
    | inl evade ↦ elim (Bool-cases e.require_exfil) [
      | inr bad ↦ absurd (ground (arith, rw (seat, evade, bad) at h))
      | inl exfil ↦ elim (Bool-cases (r.flag == e.expected_flag)) [
        | inr bad ↦ absurd (ground (arith, rw (seat, evade, exfil, bad) at h))
        | inl flag ↦
            let same : some e ≡ some ch = ground (arith, h) in
            Guarded-same g r e ch same (record {
              seat = seat;
              found = found;
              evade = (string_eq.beq_iff e.type "evade").0 evade;
              exfil = exfil;
              flag = (string_eq.beq_iff r.flag e.expected_flag).0 flag;
            })
      ]
    ]
  ]
]

newly_solved : (o : EvadeOutcome) → solved_newly (some (ok o)) ≡ true → o.status ≡ solved
newly_solved o h = ground arith

head-IsSwept :
    (g : Grader) (r : ExfilReceipt) (ch : Challenge) (at : String) (s : Store)
    → Guarded g r ch
    → solved_newly (some (evaluate_clean r.user ch r.flag at s).0) ≡ true
    → IsSwept g s (record { user = r.user; challenge = r.challenge })
head-IsSwept g r ch at s q h = elim (Result-cases (evaluate_clean r.user ch r.flag at s).0) [
  | inr (e, failed) ↦ absurd (ground (arith, rw failed at h))
  | inl (o, ran) ↦ record {
    challenge = ch;
    seat = q.seat;
    found = q.found;
    evade = q.evade;
    exfil = q.exfil;
    clean =
        subst (λ flag. IsClean r.user ch flag s) q.flag
          (evaluate_clean_sound r.user ch r.flag at s ran (newly_solved o (rw ran at h)));
  }
]

sweep_receipts-IsSwept :
    (g : Grader) (at : ExfilReceipt → String) (rs : List ExfilReceipt) (s : Store)
    → All (IsSwept g s) (sweep_receipts g at rs s).0.0
unfolding sweep_receipts
sweep_receipts-IsSwept g at [] s = tt
sweep_receipts-IsSwept g at (r ∷ rest) s =
    elim (Option-cases (sweepable (lookup r.challenge g.cat) r)) [
      | inl skipped ↦ rw skipped (sweep_receipts-IsSwept g at rest s)
      | inr (ch, taken) ↦
          let s' = (evaluate_clean r.user ch r.flag (at r) s).1 in
          let later =
            All-SameGates g s s' (sweep_receipts g at rest s').0.0
              (evaluate_clean-SameGates r.user ch r.flag (at r) s)
              (sweep_receipts-IsSwept g at rest s') in
          let guards = sweepable-Guarded g r (lookup r.challenge g.cat) ch refl taken in
          elim (Bool-cases (solved_newly (some (evaluate_clean r.user ch r.flag (at r) s).0))) [
            | inl new ↦ rw (taken, new) (head-IsSwept g r ch (at r) s guards new, later)
            | inr old ↦ rw (taken, old) later
          ]
    ]

-- Every mission that a sweep reports as solved is an evade challenge of the catalog that requires
-- an exfil receipt, and on the store before the sweep its user is a seat that has no taint, has
-- the receipt with the exact flag, and has the expected rule fire where it is required.
pub sweep-IsSwept :
    (g : Grader) (at : ExfilReceipt → String) (s : Store) → All (IsSwept g s) (sweep g at s).0.0
unfolding sweep
sweep-IsSwept g at s = sweep_receipts-IsSwept g at (pending_exfil_solves s) s
