-- ===== src/RateLimit/Limiter.antt =====
-- Limiter of internal/scoreboard/ratelimit/ratelimit.go. The map `buckets` holds the elements of the
-- list `order` under their keys, so the list stands for both; its head is the most recent use.
use falco_ctf_app.Prelude.{
  ℕ, suc, zero, Bool, true, false, ◌&&◌, Option, none, some, List, [], ◌∷◌, Eq, ◌==◌, if◌then◌else◌,
  leb, length,
}
use falco_ctf_app.Prelude.Int.{ℤ, pos, sub_ℕ, ltb_ℤ}
use falco_ctf_app.RateLimit.Floats.{Floats}

pub record Bucket (fl : Floats) (K : Type 0) : Type 0 where
  pub key : K
  pub tokens : fl.F
  pub last : ℕ

pub record Limiter (fl : Floats) (K : Type 0) : Type 0 where
  pub rate : fl.F
  pub burst : fl.F
  pub eviction : ℕ
  pub max_buckets : ℕ
  pub order : List (Bucket fl K)

-- Five minutes, in nanoseconds.
abbrev pub default_eviction : ℕ
default_eviction = 300000000000

abbrev pub default_max_buckets : ℕ
default_max_buckets = 10000

module _ (fl : Floats) {K : Type 0} where
  unfoldable pub new_limiter : fl.F → fl.F → Limiter fl K
  new_limiter rate burst = record {
    rate = rate;
    burst = burst;
    eviction = default_eviction;
    max_buckets = default_max_buckets;
    order = [];
  }

  -- now.Sub(b.last)
  abbrev pub idle : Bucket fl K → ℕ → ℤ
  idle b now = sub_ℕ now b.last

  unfoldable pub refilled : Limiter fl K → Bucket fl K → ℕ → fl.F
  refilled l b now = fl.min l.burst (fl.plus b.tokens (fl.times (fl.seconds (idle b now)) l.rate))

  unfoldable pub expired : Limiter fl K → Bucket fl K → ℕ → Bool
  expired l b now = ltb_ℤ (pos l.eviction) (idle b now) && fl.at_least (refilled l b now) l.burst

  -- The loop from the cold end, which stops at the first bucket that is not expired.
  unfoldable pub drop_expired : Limiter fl K → ℕ → List (Bucket fl K) → List (Bucket fl K)
  drop_expired l now [] = []
  drop_expired l now (b ∷ bs) = elim (drop_expired l now bs) [
    | [] ↦ if expired l b now then [] else b ∷ []
    | x ∷ xs ↦ b ∷ x ∷ xs
  ]

  unfoldable pub drop_last : List (Bucket fl K) → List (Bucket fl K)
  drop_last [] = []
  drop_last (b ∷ []) = []
  drop_last (b ∷ x ∷ xs) = b ∷ drop_last (x ∷ xs)

  -- The eviction loop; each turn removes one bucket, so the number of buckets is fuel enough.
  unfoldable pub make_room : ℕ → ℕ → List (Bucket fl K) → List (Bucket fl K)
  make_room zero max bs = bs
  make_room (suc fuel) max bs =
      let rest = make_room fuel max (drop_last bs) in if leb max (length bs) then rest else bs

  module _ ⦃e : Eq K⦄ where
    -- l.buckets[key]
    unfoldable pub find : K → List (Bucket fl K) → Option (Bucket fl K)
    find k [] = none
    find k (b ∷ bs) = let rest = find k bs in if b.key == k then some b else rest

    -- The list without that element, which MoveToFront puts at the head.
    unfoldable pub without : K → List (Bucket fl K) → List (Bucket fl K)
    without k [] = []
    without k (b ∷ bs) = let rest = without k bs in if b.key == k then bs else b ∷ rest

    abbrev pub consume : Limiter fl K → K → fl.F → ℕ → List (Bucket fl K) → Bool × Limiter fl K
    consume l k tokens now rest =
        if fl.below_one tokens
        then (false, record l { order = record { key = k; tokens = tokens; last = now } ∷ rest })
        else (
          true,
          record l { order = record { key = k; tokens = fl.less_one tokens; last = now } ∷ rest },
        )

    abbrev pub allow_found :
        Limiter fl K → K → ℕ → List (Bucket fl K) → Option (Bucket fl K) → Bool × Limiter fl K
    allow_found l k now bs none = consume l k l.burst now (make_room (length bs) l.max_buckets bs)
    allow_found l k now bs (some b) = consume l k (refilled l b now) now (without k bs)

    unfoldable pub allow : K → ℕ → Limiter fl K → Bool × Limiter fl K
    allow k now l = let bs = drop_expired l now l.order in allow_found l k now bs (find k bs)

    -- What a request of the key would find at a time: a missing bucket counts as a full one.
    abbrev pub balance_of : Limiter fl K → ℕ → Option (Bucket fl K) → fl.F
    balance_of l now none = l.burst
    balance_of l now (some b) = refilled l b now

    unfoldable pub balance : K → ℕ → Limiter fl K → fl.F
    balance k now l = balance_of l now (find k l.order)
