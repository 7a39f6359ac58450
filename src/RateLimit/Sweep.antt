-- ===== src/RateLimit/Sweep.antt =====
-- Dropping an expired bucket of internal/scoreboard/ratelimit/ratelimit.go changes no balance.
use falco_ctf_app.Prelude.{
  ℕ, true, ◌≡◌, ◌≤◌, ◌⊎◌, refl, sym, inl, inr, Option, none, some, List, [], ◌∷◌, arith, Eq, ◌==◌,
  Bool-cases, List-cases, &&-eq-true,
}
use falco_ctf_app.Prelude.Int.{pos, ltb_ℤ, ◌≤ℤ◌}
use falco_ctf_app.RateLimit.Floats.{Floats}
use falco_ctf_app.RateLimit.Limiter.{
  Bucket, Limiter, idle, refilled, expired, drop_expired, find, balance_of,
}

module _ (fl : Floats) {K : Type 0} where
  idle_mono : (b : Bucket fl K) (now t : ℕ) → now ≤ t → idle fl b now ≤ℤ idle fl b t
  idle_mono b now t h = ground arith

  -- An expired bucket is full, and it is full at every later time.
  pub expired_full :
      (l : Limiter fl K) (b : Bucket fl K) (now t : ℕ)
      → fl.is_rate l.rate ≡ true
      → now ≤ t
      → expired fl l b now ≡ true
      → refilled fl l b t ≡ l.burst
  unfolding expired refilled
  expired_full l b now t rate h old =
      let (_, full) = &&-eq-true (ltb_ℤ (pos l.eviction) (idle fl b now)) _ old in
      fl.min_full l.burst _ (
        fl.stays_full l.burst b.tokens l.rate (idle fl b now) (idle fl b t) rate
          (idle_mono b now t h) full)

  module _ ⦃e : Eq K⦄ where
    -- What the loop does to one key: nothing, or it drops the key's expired bucket.
    pub Dropped : Limiter fl K → ℕ → K → Option (Bucket fl K) → Option (Bucket fl K) → Type 0
    Dropped l now k before after =
        (after ≡ before)
        ⊎ ((after ≡ none) × ((b : Bucket fl K) × (before ≡ some b) × (expired fl l b now ≡ true)))

    Dropped-head :
        (l : Limiter fl K) (now : ℕ) (k : K) (b : Bucket fl K) (bs cs : List (Bucket fl K))
        → Dropped l now k (find fl k bs) (find fl k cs)
        → Dropped l now k (find fl k (b ∷ bs)) (find fl k (b ∷ cs))
    unfolding Dropped find
    Dropped-head l now k b bs cs d = elim (Bool-cases (b.key == k)) [
      | inl same ↦ rw same (inl refl)
      | inr other ↦ rw other d
    ]

    Dropped-gone :
        (l : Limiter fl K) (now : ℕ) (k : K) (b : Bucket fl K) (bs : List (Bucket fl K))
        → expired fl l b now ≡ true
        → Dropped l now k (find fl k bs) none
        → Dropped l now k (find fl k (b ∷ bs)) none
    unfolding Dropped find
    Dropped-gone l now k b bs old d = elim (Bool-cases (b.key == k)) [
      | inl same ↦ rw same (inr (refl, (b, refl, old)))
      | inr other ↦ rw other d
    ]

    pub find-drop_expired :
        (l : Limiter fl K) (now : ℕ) (k : K) (bs : List (Bucket fl K))
        → Dropped l now k (find fl k bs) (find fl k (drop_expired fl l now bs))
    unfolding Dropped find drop_expired
    find-drop_expired l now k [] = inl refl
    find-drop_expired l now k (b ∷ bs) =
        let rest = find-drop_expired l now k bs in
        elim (List-cases (drop_expired fl l now bs)) [
          | inl empty ↦ elim (Bool-cases (expired fl l b now)) [
            | inl old ↦ rw (empty, old) (Dropped-gone l now k b bs old (rw empty at rest))
            | inr live ↦ rw (empty, live) (Dropped-head l now k b bs [] (rw empty at rest))
          ]
          | inr (x, (xs, more)) ↦ rw more (Dropped-head l now k b bs (x ∷ xs) (rw more at rest))
        ]

    pub balance_of-drop_expired :
        (l : Limiter fl K) (now t : ℕ) (k : K) (bs : List (Bucket fl K))
        → fl.is_rate l.rate ≡ true
        → now ≤ t
        → balance_of fl l t (find fl k (drop_expired fl l now bs))
          ≡ balance_of fl l t (find fl k bs)
    unfolding Dropped
    balance_of-drop_expired l now t k bs rate h = elim (find-drop_expired l now k bs) [
      | inl same ↦ rw same refl
      | inr (gone, (b, was, old)) ↦ rw (gone, was) (sym (expired_full l b now t rate h old))
    ]
