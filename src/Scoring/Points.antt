-- ===== src/Scoring/Points.antt =====
-- internal/scoreboard/scoring/points.go: the points of a participant. `int` is 64 bits wide, and
-- its products and differences wrap.
pub mod Exact
use falco_ctf_app.Prelude.{
  ℕ, zero, suc, ◌+◌, ◌-◌, ◌^◌, ◌%◌, Bool, List, [], ◌∷◌, map, ltb, leb, length, if◌then◌else◌,
}
use falco_ctf_app.Prelude.Int.{ℤ, pos, negsuc, pos_part, ◌-ℤ◌, ◌*ℤ◌, ltb_ℤ}

abbrev pub int_min_size : ℕ
int_min_size = 2 ^ 63

abbrev pub int_mod : ℕ
int_mod = 2 ^ 64

-- The two's complement reading of a bit pattern.
abbrev pub to_signed : ℕ → ℤ
to_signed w = if ltb w int_min_size then pos w else negsuc (int_mod - 1 - w)

unfoldable pub wrap : ℤ → ℤ
wrap (pos n) = to_signed (n % int_mod)
wrap (negsuc n) = to_signed (int_mod - 1 - n % int_mod)

pub record PointsPolicy : Type 0 where
  pub per_solve : ℤ
  pub hint_penalties : List ℤ

abbrev pub default_points_per_solve : ℤ
default_points_per_solve = pos 100

abbrev pub default_hint_penalties : List ℤ
default_hint_penalties = pos 10 ∷ pos 30 ∷ pos 50 ∷ []

abbrev pub default_points_policy : PointsPolicy
default_points_policy = record {
  per_solve = default_points_per_solve;
  hint_penalties = default_hint_penalties;
}

abbrev pub floor_zero : ℤ → ℤ
floor_zero v = if ltb_ℤ v (pos 0) then pos 0 else v

-- An empty schedule falls back to the default one, any other is cleaned entry by entry.
abbrev pub clean_penalties : List ℤ → List ℤ
clean_penalties [] = default_hint_penalties
clean_penalties (v ∷ vs) = floor_zero v ∷ map floor_zero vs

unfoldable pub normalise : PointsPolicy → PointsPolicy
normalise p = record {
  per_solve = floor_zero p.per_solve;
  hint_penalties = clean_penalties p.hint_penalties;
}

-- xs[i]; an index past the end is met nowhere, as `entry` has at most the length.
abbrev pub nth : List ℤ → ℕ → ℤ
nth [] i = pos 0
nth (x ∷ xs) zero = x
nth (x ∷ xs) (suc i) = nth xs i

abbrev pub entry : ℕ → ℕ → ℕ
entry idx len = if ltb len idx then len else idx

unfoldable pub penalty_for : PointsPolicy → ℤ → ℤ
penalty_for p (negsuc n) = pos 0
penalty_for p (pos zero) = pos 0
penalty_for p (pos (suc i)) = elim p.hint_penalties [
  | [] ↦ pos 0
  | v ∷ vs ↦ nth (v ∷ vs) (entry (suc i) (length (v ∷ vs)) - 1)
]

unfoldable pub charge : PointsPolicy → ℤ → List ℤ → ℤ
charge p score [] = score
charge p score (idx ∷ rest) = charge p (wrap (score -ℤ penalty_for p idx)) rest

unfoldable pub compute_score : PointsPolicy → ℤ → List ℤ → ℤ
unfolding normalise penalty_for charge wrap
compute_score policy solved_count hint_indices =
    let p = normalise policy in
    let score = charge p (wrap (floor_zero solved_count *ℤ p.per_solve)) hint_indices in
    floor_zero score
