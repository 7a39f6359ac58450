-- ===== src/RateLimit/Bounded.antt =====
-- The cap on the buckets of a Limiter of internal/scoreboard/ratelimit/ratelimit.go.
use falco_ctf_app.Prelude.{
  ℕ, suc, zero, ◌≡◌, ◌≤◌, ◌<◌, refl, ap, ◌∙◌, inl, inr, some, List, [], ◌∷◌, arith, Eq, ◌==◌,
  Bool-cases, Option-cases, List-cases, leb, length,
}
use falco_ctf_app.RateLimit.Floats.{Floats}
use falco_ctf_app.RateLimit.Limiter.{
  Bucket, Limiter, new_limiter, refilled, expired, drop_expired, drop_last, make_room, find,
  without, allow, consume,
}

module _ (fl : Floats) {K : Type 0} where
  length-drop_expired :
      (l : Limiter fl K) (now : ℕ) (bs : List (Bucket fl K))
      → length (drop_expired fl l now bs) ≤ length bs
  unfolding drop_expired
  length-drop_expired l now [] = omega arith
  length-drop_expired l now (b ∷ bs) =
      let rest = length-drop_expired l now bs in
      elim (List-cases (drop_expired fl l now bs)) [
        | inl empty ↦ elim (Bool-cases (expired fl l b now)) [
          | inl old ↦ rw (empty, old) (omega arith)
          | inr live ↦ rw (empty, live) (omega arith)
        ]
        | inr (x, (xs, more)) ↦ rw more (omega (arith, rw more at rest))
      ]

  length-drop_last :
      (b : Bucket fl K) (bs : List (Bucket fl K)) → length (drop_last fl (b ∷ bs)) ≡ length bs
  unfolding drop_last
  length-drop_last b [] = refl
  length-drop_last b (x ∷ xs) = ap suc (length-drop_last x xs)

  -- With as much fuel as there are buckets the loop ends below the cap.
  make_room_lem :
      (fuel max : ℕ) (bs : List (Bucket fl K))
      → 0 < max
      → length bs ≤ fuel
      → length (make_room fl fuel max bs) < max
  unfolding make_room
  make_room_lem zero max [] h k = h
  make_room_lem zero max (b ∷ bs) h k = absurd (omega arith)
  make_room_lem (suc fuel) max [] h k = ground arith
  make_room_lem (suc fuel) max (b ∷ bs) h k =
      let shorter = length-drop_last b bs in
      let rest = make_room_lem fuel max (drop_last fl (b ∷ bs)) h (omega (arith, shorter)) in
      elim (Bool-cases (leb max (suc (length bs)))) [
        | inl full ↦ rw full rest
        | inr room ↦ rw room (ground (arith, room))
      ]

  module _ ⦃e : Eq K⦄ where
    length-without :
        (k : K) (bs : List (Bucket fl K)) {b : Bucket fl K}
        → find fl k bs ≡ some b
        → suc (length (without fl k bs)) ≡ length bs
    unfolding find without
    length-without k [] h = absurd (ground (arith, h))
    length-without k (b ∷ bs) h = elim (Bool-cases (b.key == k)) [
      | inl same ↦ rw same refl
      | inr other ↦ rw other (ap suc (length-without k bs (rw (other, find) at h)))
    ]

    length-consume :
        (l : Limiter fl K) (k : K) (tokens : fl.F) (now : ℕ) (rest : List (Bucket fl K))
        → (length (consume fl l k tokens now rest).1.order ≡ suc (length rest))
          × ((consume fl l k tokens now rest).1.max_buckets ≡ l.max_buckets)
    length-consume l k tokens now rest = elim (Bool-cases (fl.below_one tokens)) [
      | inl low ↦ rw low (refl, refl)
      | inr high ↦ rw high (refl, refl)
    ]

    -- The cap of every limiter that the source makes, and that it holds of the number of buckets.
    record Capped (l : Limiter fl K) : Type 0 where
      cap : l.max_buckets ≡ 10000
      within : length l.order ≤ 10000

    Capped-consume :
        (l : Limiter fl K) (k : K) (tokens : fl.F) (now : ℕ) (rest : List (Bucket fl K))
        → l.max_buckets ≡ 10000
        → suc (length rest) ≤ 10000
        → Capped (consume fl l k tokens now rest).1
    Capped-consume l k tokens now rest h n =
        let (size, same) = length-consume l k tokens now rest in
        record { cap = same ∙ h; within = rw size n }

    allow-Capped : (k : K) (now : ℕ) (l : Limiter fl K) → Capped l → Capped (allow fl k now l).1
    unfolding allow
    allow-Capped k now l c =
        let bs = drop_expired fl l now l.order in
        let swept = length-drop_expired l now l.order in
        let some_room : 0 < l.max_buckets = omega (arith, c.cap) in
        let below = make_room_lem (length bs) l.max_buckets bs some_room (omega arith) in
        elim (Option-cases (find fl k bs)) [
          | inl missing ↦ rw missing (
              Capped-consume l k l.burst now (make_room fl (length bs) l.max_buckets bs) c.cap
                (omega (arith, below, c.cap)))
          | inr (b, found) ↦ rw found (
              Capped-consume l k (refilled fl l b now) now (without fl k bs) c.cap
                (omega (arith, length-without k bs found, swept, c.within)))
        ]

    pub allow_all : List (K × ℕ) → Limiter fl K → Limiter fl K
    allow_all [] l = l
    allow_all ((k, now) ∷ rest) l = allow_all rest (allow fl k now l).1

    allow_all-Capped : (rs : List (K × ℕ)) (l : Limiter fl K) → Capped l → Capped (allow_all rs l)
    unfolding allow_all
    allow_all-Capped [] l c = c
    allow_all-Capped ((k, now) ∷ rest) l c =
        allow_all-Capped rest (allow fl k now l).1 (allow-Capped k now l c)

    -- A new limiter never holds more than 10000 buckets, whatever keys it is asked for and whatever
    -- the clock says.
    pub new_limiter-Capped :
        (rate burst : fl.F) (rs : List (K × ℕ))
        → length (allow_all rs (new_limiter fl rate burst)).order ≤ 10000
    unfolding new_limiter
    new_limiter-Capped rate burst rs =
        (allow_all-Capped rs _ (record { cap = refl; within = omega arith })).within
