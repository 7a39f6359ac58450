-- ===== src/Examples/Limits.antt =====
-- The limiters of internal/scoreboard/ratelimit and the webhook of internal/scoreboard/ingest, with
-- tokens counted in billionths.
use native.Mathlib.Nat.{mul-le-mul_right}
use falco_ctf_app.Prelude.{
  ℕ, ◌+◌, ◌-◌, ◌*◌, ◌≤◌, ◌≡◌, ◌↔◌, refl, inr, true, leb, ltb, length, if◌then◌else◌, [], ◌∷◌,
  String, string_eq, arith,
}
use falco_ctf_app.Prelude.Int.{ℤ, pos, negsuc, pos_part, ◌≤ℤ◌}
use falco_ctf_app.RateLimit.Floats.{Floats}
use falco_ctf_app.RateLimit.Limiter.{Limiter, new_limiter, allow, balance, drop_expired}
use falco_ctf_app.RateLimit.Independent.{HasRoom, allow_others}
use falco_ctf_app.RateLimit.Bounded.{allow_all, new_limiter-Capped}

parts_mono : (d d' : ℤ) → d ≤ℤ d' → pos_part d ≤ pos_part d'
parts_mono (pos m) (pos n) h = omega (arith, h)
parts_mono (pos m) (negsuc n) h = omega (arith, h)
parts_mono (negsuc m) d' h = omega arith

capped_iff : (a x : ℕ) → (leb a (if leb a x then a else x) ≡ true) ↔ (a ≤ x)
capped_iff a x = ground arith

pub full_stays :
    (burst tokens rate : ℕ) (d d' : ℤ)
    → d ≤ℤ d'
    → leb burst
        (if leb burst (tokens + pos_part d * rate) then burst else tokens + pos_part d * rate)
      ≡ true
    → leb burst
        (if leb burst (tokens + pos_part d' * rate) then burst else tokens + pos_part d' * rate)
      ≡ true
full_stays burst tokens rate d d' h full =
    let less = (capped_iff burst (tokens + pos_part d * rate)).0 full in
    let grows = mul-le-mul_right rate (parts_mono d d' h) in
    (capped_iff burst (tokens + pos_part d' * rate)).1 (omega (arith, less, grows))

pub capped_full :
    (a x : ℕ) → leb a (if leb a x then a else x) ≡ true → (if leb a x then a else x) ≡ a
capped_full a x h = ground arith

abbrev pub billionths : Floats
billionths = record {
  F = ℕ;
  min = λ a x. if leb a x then a else x;
  plus = λ a b. a + b;
  times = λ a b. a * b;
  less_one = λ a. a - 1000000000;
  below_one = λ a. ltb a 1000000000;
  at_least = λ a b. leb b a;
  seconds = pos_part;
  is_rate = λ r. true;
  min_full = capped_full;
  stays_full = λ burst tokens rate d d' _ h full. full_stays burst tokens rate d d' h full;
}

-- Twenty tokens a second, and a hundred at once.
abbrev pub observing : Limiter billionths String
observing = new_limiter billionths 20 100000000000

rate_given : billionths.is_rate observing.rate ≡ true
rate_given = refl

has_room : HasRoom billionths "user01" 7 observing
unfolding HasRoom new_limiter drop_expired
has_room = inr (omega arith)

allow_others_example :
    balance billionths "user02" 9 (allow billionths "user01" 7 observing).1
    ≡ balance billionths "user02" 9 observing
allow_others_example =
    allow_others billionths "user02" "user01" 7 9 observing rate_given (omega arith) refl has_room

new_limiter-Capped_example :
    length
      (allow_all billionths {K = String}
        (("user01", 7) ∷ ("user02", 9) ∷ [])
        (new_limiter billionths 20 100000000000)).order
    ≤ 10000
new_limiter-Capped_example =
    new_limiter-Capped billionths 20 100000000000 (("user01", 7) ∷ ("user02", 9) ∷ [])
