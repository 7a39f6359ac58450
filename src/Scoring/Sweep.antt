-- ===== src/Scoring/Sweep.antt =====
-- The sweep, the scores and the count of stored users of internal/scoreboard/scoring/scoring.go.
use falco_ctf_app.Prelude.{
  ℕ, suc, String, Bool, false, not, ◌||◌, Option, none, some, List, [], ◌∷◌, ◌++◌, map, ◌==◌,
  string_eq, if◌then◌else◌,
}
use falco_ctf_app.Prelude.Maps.{Map, lookup}
use falco_ctf_app.Prelude.Int.{ℤ, pos}
use falco_ctf_app.Prelude.Results.{Result, ok, err}
use falco_ctf_app.Identity.{valid_seat}
use falco_ctf_app.Catalog.{Challenge, Catalog}
use falco_ctf_app.Store.State.{Store}
use falco_ctf_app.Store.Solves.{ExfilReceipt, exfil_users, pending_exfil_solves}
use falco_ctf_app.Store.Reveals.{hint_views}
use falco_ctf_app.Scoring.Points.{compute_score}
use falco_ctf_app.Scoring.Grader.{Grader, GraderError}
use falco_ctf_app.Scoring.Submit.{EvadeOutcome, solved, evaluate_clean}

pub record SweepResult : Type 0 where
  pub user : String
  pub challenge : String

-- The guards of the loop: a receipt that the sweep hands to evaluateClean.
abbrev pub sweepable : Option Challenge → ExfilReceipt → Option Challenge
sweepable none r = none
sweepable (some ch) r =
    if not (valid_seat r.user)
    then none
    else if not (ch.type == "evade") || not ch.require_exfil
    then none
    else if not (r.flag == ch.expected_flag)
    then none
    else some ch

abbrev pub sweep_one :
    Option Challenge
    → ExfilReceipt
    → String
    → Store
    → Option (Result GraderError EvadeOutcome) × Store
sweep_one none r at s = (none, s)
sweep_one (some ch) r at s = let (out, s') = evaluate_clean r.user ch r.flag at s in (some out, s')

abbrev pub solved_newly : Option (Result GraderError EvadeOutcome) → Bool
solved_newly (some (ok out)) = elim out.status [ solved ↦ out.newly | _ ↦ false ]
solved_newly _ = false

abbrev pub cons_sweep_err :
    Option (Result GraderError EvadeOutcome) → List GraderError → List GraderError
cons_sweep_err (some (err e)) errs = e ∷ errs
cons_sweep_err _ errs = errs

-- The loop of Sweep. The clock is read once for each receipt that reaches the last gate.
unfoldable pub sweep_receipts :
    Grader
    → (ExfilReceipt → String)
    → List ExfilReceipt
    → Store
    → (List SweepResult × List GraderError) × Store
sweep_receipts g at [] s = (([], []), s)
sweep_receipts g at (r ∷ rest) s =
    let (out, s') = sweep_one (sweepable (lookup r.challenge g.cat) r) r (at r) s in
    let ((results, errs), s'') = sweep_receipts g at rest s' in
    (
      (
        if solved_newly out
            then record { user = r.user; challenge = r.challenge } ∷ results
            else results,
        cons_sweep_err out errs,
      ),
      s'',
    )

unfoldable pub sweep :
    Grader → (ExfilReceipt → String) → Store → (List SweepResult × List GraderError) × Store
sweep g at s = sweep_receipts g at (pending_exfil_solves s) s

-- The reveals that cost: those of challenges in the catalog whose hints are not free.
unfoldable pub revealed : Catalog → Map String (List ℕ) → List ℤ
revealed cat [] = []
revealed cat ((cid, idxs) ∷ views) =
    let rest = revealed cat views in
    elim (lookup cid cat) [
      | none ↦ rest
      | some ch ↦ if ch.no_hint_penalty then rest else map pos idxs ++ rest
    ]

unfoldable pub user_score : Grader → String → ℤ → Store → ℤ
unfolding revealed
user_score g user solved_count s =
    compute_score g.points solved_count (revealed g.cat (hint_views user s))

abbrev pub count_bad : List String → ℕ
count_bad [] = 0
count_bad (u ∷ us) = let rest = count_bad us in if valid_seat u then rest else suc rest

-- CountNonSlugStoredUsers: the solved keys and the receipts whose user is no seat.
unfoldable pub count_non_slug_stored_users : Store → ℕ × ℕ
count_non_slug_stored_users s =
    (count_bad (map (λ e. e.0.user) s.mem.solved), count_bad (exfil_users s))
