-- ===== src/Scoring/Points/Exact.antt =====
-- What a score is, with no integers in sight: solves times the award, less the schedule's penalty
-- of every hint revealed, and never below 0.
use falco_ctf_app.Prelude.{
  ℕ, zero, suc, ◌+◌, ◌-◌, ◌*◌, ◌≤◌, ◌<◌, ◌≡◌, refl, ap, ◌∙◌, List, [], ◌∷◌, map, arith, length, All,
}
use falco_ctf_app.Prelude.Int.{ℤ, pos, negsuc, pos_part, sub_ℕ, ◌+ℤ◌, ◌-ℤ◌, ◌*ℤ◌, ◌≤ℤ◌}
use falco_ctf_app.Scoring.Points.{
  int_min_size, wrap, PointsPolicy, floor_zero, clean_penalties, normalise, nth, entry, penalty_for,
  charge, compute_score,
}

-- The award of a solve and the penalty of the idx-th hint (counted from 1) under a policy.
abbrev pub award : PointsPolicy → ℕ
award p = pos_part p.per_solve

abbrev nth_part : List ℤ → ℕ → ℕ
nth_part [] i = 0
nth_part (v ∷ []) i = pos_part v
nth_part (v ∷ w ∷ vs) zero = pos_part v
nth_part (v ∷ w ∷ vs) (suc i) = nth_part (w ∷ vs) i

-- The last entry serves every index past the end.
abbrev pub schedule : PointsPolicy → ℤ → ℕ
schedule p (negsuc n) = 0
schedule p (pos zero) = 0
schedule p (pos (suc i)) = nth_part (clean_penalties p.hint_penalties) i

abbrev pub total : PointsPolicy → List ℤ → ℕ
total p [] = 0
total p (idx ∷ rest) = schedule p idx + total p rest

wrap-sub : (a b : ℕ) → a < int_min_size → b ≤ int_min_size → wrap (sub_ℕ a b) ≡ sub_ℕ a b
unfolding wrap
wrap-sub a b h k = ground arith

IsNat : ℤ → Type 0
IsNat v = v ≡ pos (pos_part v)

floor_zero-IsNat : (v : ℤ) → IsNat (floor_zero v)
unfolding IsNat
floor_zero-IsNat v = ground arith

map-floor_zero-IsNat : (vs : List ℤ) → All IsNat (map floor_zero vs)
map-floor_zero-IsNat [] = tt
map-floor_zero-IsNat (v ∷ vs) = (floor_zero-IsNat v, map-floor_zero-IsNat vs)

clean_penalties-IsNat : (vs : List ℤ) → All IsNat (clean_penalties vs)
unfolding IsNat
clean_penalties-IsNat [] = (refl, (refl, (refl, tt)))
clean_penalties-IsNat (v ∷ vs) = (floor_zero-IsNat v, map-floor_zero-IsNat vs)

nth-entry :
    (v : ℤ) (vs : List ℤ) (i : ℕ)
    → All IsNat (v ∷ vs)
    → nth (v ∷ vs) (entry (suc i) (length (v ∷ vs)) - 1) ≡ pos (nth_part (v ∷ vs) i)
unfolding IsNat
nth-entry v [] i (a, _) = let first : entry (suc i) 1 - 1 ≡ 0 = ground arith in rw first a
nth-entry v (w ∷ vs) zero (a, _) =
    let first : entry 1 (length (v ∷ w ∷ vs)) - 1 ≡ 0 = ground arith in rw first a
nth-entry v (w ∷ vs) (suc i) (_, rest) =
    let later : entry (suc (suc i)) (length (v ∷ w ∷ vs)) - 1
        ≡ suc (entry (suc i) (length (w ∷ vs)) - 1) =
      ground arith in
    rw later (nth-entry w vs i rest)

-- The penalty that the code reads from the normalised policy is the schedule's.
penalty_for-schedule :
    (p : PointsPolicy) (idx : ℤ) → penalty_for (normalise p) idx ≡ pos (schedule p idx)
unfolding penalty_for normalise
penalty_for-schedule p (negsuc n) = refl
penalty_for-schedule p (pos zero) = refl
penalty_for-schedule p (pos (suc i)) =
    cleaned (clean_penalties p.hint_penalties) (clean_penalties-IsNat p.hint_penalties) i
  where
    cleaned :
        (vs : List ℤ)
        → All IsNat vs
        → (i : ℕ)
        → penalty_for
            (record { per_solve = floor_zero p.per_solve; hint_penalties = vs })
            (pos (suc i))
          ≡ pos (nth_part vs i)
    cleaned [] _ i = refl
    cleaned (v ∷ vs) a i = nth-entry v vs i a

sub_ℕ-sub : (a b c : ℕ) → sub_ℕ a b -ℤ pos c ≡ sub_ℕ a (b + c)
unfolding ◌-ℤ◌
sub_ℕ-sub a b c = ground arith

floor_zero-part : (v : ℤ) → floor_zero v ≡ pos (pos_part v)
floor_zero-part v = ground arith

-- Each reveal takes its penalty from a running score that no difference makes wrap.
charge-exact :
    (p : PointsPolicy) (a b : ℕ) (hints : List ℤ)
    → a < int_min_size
    → b + total p hints ≤ int_min_size
    → charge (normalise p) (sub_ℕ a b) hints ≡ sub_ℕ a (b + total p hints)
unfolding charge
charge-exact p a b [] h k = ground arith
charge-exact p a b (idx ∷ rest) h k =
    rw
      (
        penalty_for-schedule p idx,
        sub_ℕ-sub a b (schedule p idx),
        wrap-sub a (b + schedule p idx) h (omega arith),
        charge-exact p a (b + schedule p idx) rest h (omega arith),
      )
      (ap (sub_ℕ a) (omega arith))

-- A product of two numbers whose value fits is not changed by the wrap.
product-exact : (m n : ℕ) → m * n < int_min_size → wrap (pos m *ℤ pos n) ≡ sub_ℕ (m * n) 0
unfolding wrap ◌*ℤ◌
product-exact m n h =
    let e : pos m *ℤ pos n ≡ sub_ℕ (m * n) 0 = ground arith in
    rw e (wrap-sub (m * n) 0 h (omega arith))

start-exact :
    (p : PointsPolicy) (solves : ℤ)
    → pos_part solves * award p < int_min_size
    → wrap (floor_zero solves *ℤ (normalise p).per_solve) ≡ sub_ℕ (pos_part solves * award p) 0
unfolding normalise
start-exact p solves h =
    rw (floor_zero-part solves, floor_zero-part p.per_solve)
      (product-exact (pos_part solves) (award p) h)

floor-sub : (a b : ℕ) → floor_zero (sub_ℕ a (0 + b)) ≡ pos (a - b)
floor-sub a b = ground arith

-- When the award of all solves is below 2^63 and the penalties of all reveals sum to at most
-- 2^63, the score is the award less the penalties, and 0 where the penalties are larger.
pub compute_score-exact :
    (p : PointsPolicy) (solves : ℤ) (hints : List ℤ)
    → pos_part solves * award p < int_min_size
    → total p hints ≤ int_min_size
    → compute_score p solves hints ≡ pos (pos_part solves * award p - total p hints)
unfolding compute_score
compute_score-exact p solves hints h k =
    ap floor_zero (
      ap (λ z. charge (normalise p) z hints) (start-exact p solves h)
      ∙ charge-exact p (pos_part solves * award p) 0 hints h (omega arith))
    ∙ floor-sub (pos_part solves * award p) (total p hints)

-- No policy and no reveal, however they are configured and whatever wraps, makes a score negative.
pub compute_score-nonneg :
    (p : PointsPolicy) (solves : ℤ) (hints : List ℤ) → pos 0 ≤ℤ compute_score p solves hints
unfolding compute_score
compute_score-nonneg p solves hints = ground arith

-- While the award of one solve more is below 2^63 and the penalties with one reveal more sum to
-- at most 2^63: one more reveal never raises the score, and one more solve never lowers it and
-- raises it by at most the award.
pub compute_score-monotone :
    (p : PointsPolicy) (n : ℕ) (idx : ℤ) (hints : List ℤ)
    → suc n * award p < int_min_size
    → schedule p idx + total p hints ≤ int_min_size
    → (compute_score p (pos n) (idx ∷ hints) ≤ℤ compute_score p (pos n) hints)
      × (compute_score p (pos n) hints ≤ℤ compute_score p (pos (suc n)) hints)
      × (compute_score p (pos (suc n)) hints ≤ℤ compute_score p (pos n) hints +ℤ pos (award p))
compute_score-monotone p n idx hints h k =
    let small : n * award p < int_min_size = grind arith in
    rw
      (
        compute_score-exact p (pos n) (idx ∷ hints) small k,
        compute_score-exact p (pos n) hints small (omega arith),
        compute_score-exact p (pos (suc n)) hints h (omega arith),
      )
      (unfold ◌+ℤ◌ in (ground arith, ground arith, ground arith))
