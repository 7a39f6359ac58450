-- ===== src/RateLimit/Independent.antt =====
-- Each key of a Limiter of internal/scoreboard/ratelimit/ratelimit.go has its own bucket.
use falco_ctf_app.Prelude.{
  ℕ, suc, zero, true, false, not, ◌≡◌, ◌≤◌, ◌<◌, ◌⊎◌, refl, ap, ◌∙◌, inl, inr, Option, none, some,
  List, [], ◌∷◌, arith, Eq, ◌==◌, Bool-cases, Option-cases, length,
}
use falco_ctf_app.RateLimit.Floats.{Floats}
use falco_ctf_app.RateLimit.Limiter.{
  Bucket, Limiter, refilled, drop_expired, make_room, find, without, allow, allow_found, consume,
  balance, balance_of,
}
use falco_ctf_app.RateLimit.Sweep.{balance_of-drop_expired}

module _ (fl : Floats) {K : Type 0} ⦃e : Eq K⦄ where
  allow_found-answer :
      (l : Limiter fl K) (k : K) (now : ℕ) (bs : List (Bucket fl K)) (o : Option (Bucket fl K))
      → (allow_found fl l k now bs o).0 ≡ not (fl.below_one (balance_of fl l now o))
  allow_found-answer l k now bs none = elim (Bool-cases (fl.below_one l.burst)) [
    | inl low ↦ rw low refl
    | inr high ↦ rw high refl
  ]
  allow_found-answer l k now bs (some b) = elim (Bool-cases (fl.below_one (refilled fl l b now))) [
    | inl low ↦ rw low refl
    | inr high ↦ rw high refl
  ]

  -- For a rate that is a number and not negative: a request is allowed exactly when the balance of
  -- its key at that time is at least one token.
  pub allow_answer :
      (k : K) (now : ℕ) (l : Limiter fl K)
      → fl.is_rate l.rate ≡ true
      → (allow fl k now l).0 ≡ not (fl.below_one (balance fl k now l))
  unfolding allow balance
  allow_answer k now l rate =
      allow_found-answer l k now (drop_expired fl l now l.order)
        (find fl k (drop_expired fl l now l.order))
      ∙ ap (λ x. not (fl.below_one x))
          (balance_of-drop_expired fl l now now k l.order rate (omega arith))

  find-without :
      (j k : K) (bs : List (Bucket fl K))
      → (k == j) ≡ false
      → find fl j (without fl k bs) ≡ find fl j bs
  unfolding find without
  find-without j k [] other = refl
  find-without j k (b ∷ bs) other = elim (Bool-cases (b.key == k)) [
    | inl same ↦
        let apart : (b.key == j) ≡ false = rw ((e.beq_iff b.key k).0 same) other in
        rw (same, apart) refl
    | inr differs ↦ elim (Bool-cases (b.key == j)) [
      | inl mine ↦ rw (differs, mine) refl
      | inr theirs ↦ rw (differs, theirs) (find-without j k bs other)
    ]
  ]

  make_room_enough :
      (fuel max : ℕ) (bs : List (Bucket fl K)) → length bs < max → make_room fl fuel max bs ≡ bs
  unfolding make_room
  make_room_enough zero max bs h = refl
  make_room_enough (suc fuel) max bs h = ground arith

  -- No bucket is evicted for the request: its key has one, or there is room for another.
  unfoldable pub HasRoom : K → ℕ → Limiter fl K → Type 0
  HasRoom k now l =
      ((b : Bucket fl K) × (find fl k (drop_expired fl l now l.order) ≡ some b))
      ⊎ (length (drop_expired fl l now l.order) < l.max_buckets)

  consume-others :
      (l : Limiter fl K) (j k : K) (tokens : fl.F) (now t : ℕ) (rest : List (Bucket fl K))
      → (k == j) ≡ false
      → balance fl j t (consume fl l k tokens now rest).1 ≡ balance_of fl l t (find fl j rest)
  unfolding balance find refilled
  consume-others l j k tokens now t rest other = elim (Bool-cases (fl.below_one tokens)) [
    | inl low ↦ elim (Option-cases (find fl j rest)) [
      | inl missing ↦ rw (low, other, missing) refl
      | inr (b, found) ↦ rw (low, other, found) refl
    ]
    | inr high ↦ elim (Option-cases (find fl j rest)) [
      | inl missing ↦ rw (high, other, missing) refl
      | inr (b, found) ↦ rw (high, other, found) refl
    ]
  ]

  -- For a rate that is a number and not negative: a request that evicts no bucket changes no balance
  -- of another key, at its own time or any later one.
  pub allow_others :
      (j k : K) (now t : ℕ) (l : Limiter fl K)
      → fl.is_rate l.rate ≡ true
      → now ≤ t
      → (k == j) ≡ false
      → HasRoom k now l
      → balance fl j t (allow fl k now l).1 ≡ balance fl j t l
  unfolding allow HasRoom
  allow_others j k now t l rate h other room =
      let bs = drop_expired fl l now l.order in
      let swept : balance_of fl l t (find fl j bs) ≡ balance fl j t l =
        unfold balance in balance_of-drop_expired fl l now t j l.order rate h in
      elim (Option-cases (find fl k bs)) [
        | inr (b, found) ↦ rw found (
            consume-others l j k (refilled fl l b now) now t (without fl k bs) other
            ∙ ap (balance_of fl l t) (find-without j k bs other)
            ∙ swept)
        | inl missing ↦ elim room [
          | inl (b, found) ↦ absurd (ground (arith, missing, found))
          | inr space ↦ rw missing (
              consume-others l j k l.burst now t (make_room fl (length bs) l.max_buckets bs) other
              ∙ ap (λ cs. balance_of fl l t (find fl j cs))
                  (make_room_enough (length bs) l.max_buckets bs space)
              ∙ swept)
        ]
      ]
