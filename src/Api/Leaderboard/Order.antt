-- ===== src/Api/Leaderboard/Order.antt =====
-- The order of the standings and the ranks in them.
use falco_ctf_app.Prelude.{
  ℕ, suc, ◌+◌, ◌≡◌, String, Bool, true, List, [], ◌∷◌, ◌||◌, ◌&&◌, all, eqb, ltb, if◌then◌else◌,
}
use falco_ctf_app.Prelude.Int.{ltb_ℤ, pos}
use falco_ctf_app.Scoring.Sweep.{user_score}
use falco_ctf_app.Api.Leaderboard.Rows.{counts_for}
use falco_ctf_app.Api.Leaderboard.Latest.{count_where, IsLastSolve}
use falco_ctf_app.Prelude.Sort.{string_le}
use falco_ctf_app.Prelude.Text.{Text}
use falco_ctf_app.Store.State.{Store}
use falco_ctf_app.Store.Lifecycle.{Snapshot}
use falco_ctf_app.Scoring.Grader.{Grader}
use falco_ctf_app.Api.Leaderboard.{Entry, eqb_ℤ, not_after}

-- A higher score, or the same score with an `earliest` that is no later.
abbrev pub leads : Entry → Entry → Bool
leads f e = ltb_ℤ e.score f.score || (eqb_ℤ f.score e.score && string_le f.earliest e.earliest)

-- The rows that have a solve.
abbrev pub count_solvers : List Entry → ℕ
count_solvers [] = 0
count_solvers (e ∷ rest) = (if ltb 0 e.solved then 1 else 0) + count_solvers rest

abbrev unranked : Entry → Bool
unranked e = eqb e.rank 0

-- A row that has a solve has the rank after `above`; every other row has rank 0.
abbrev pub rank_after : ℕ → Entry → ℕ
rank_after above e = if ltb 0 e.solved then above + 1 else 0

abbrev InOrder : ℕ → List Entry → Type 0
InOrder above [] = Unit
InOrder above (e ∷ es) =
    (e.rank ≡ rank_after above e)
    × (all (not_after e) es ≡ true)
    × InOrder (if ltb 0 e.solved then suc above else above) es

-- What a row says of its user's solves: how many count, the score of that many, and the last time.
pub record Says (g : Grader) (s : Store) (snap : Snapshot) (ids : List String) (e : Entry)
    : Type 0 where
  pub solves : e.solved ≡ count_where (counts_for ids e.user) snap.solved
  pub points : e.score ≡ user_score g e.user (pos e.solved) s
  pub last : IsLastSolve ids e.user snap.solved e.earliest
