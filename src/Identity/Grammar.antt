-- ===== src/Identity/Grammar.antt =====
-- The seat pattern against the rule that its comment states: 1 to 53 characters of lower-case
-- letters, digits and "-", the first and the last a letter or digit.
use falco_ctf_app.Prelude.{
  ℕ, zero, suc, ◌+◌, ◌≤◌, String, ◌≡◌, refl, ◌↔◌, Bool, true, false, List, [], ◌∷◌, length, All,
  arith, &&-eq-true,
}
use falco_ctf_app.Identity.{codes, is_alnum, is_seat_char, match_middle, match_seat, valid_seat}

abbrev last_alnum : List ℕ → Bool
last_alnum [] = false
last_alnum (c ∷ []) = is_alnum c
last_alnum (c ∷ d ∷ rest) = last_alnum (d ∷ rest)

abbrev first_alnum : List ℕ → Bool
first_alnum [] = false
first_alnum (c ∷ _) = is_alnum c

pub record IsSeat (cs : List ℕ) : Type 0 where
  pub bounded : length cs ≤ 53
  pub first : first_alnum cs ≡ true
  pub last : last_alnum cs ≡ true
  pub letters : All (λ c. is_seat_char c ≡ true) cs

record IsMiddle (n : ℕ) (cs : List ℕ) : Type 0 where
  bounded : length cs ≤ n + 1
  last : last_alnum cs ≡ true
  letters : All (λ c. is_seat_char c ≡ true) cs

match_middle_sound : (n : ℕ) (cs : List ℕ) → match_middle n cs ≡ true → IsMiddle n cs
unfolding match_middle
match_middle_sound n [] h = absurd (ground arith)
match_middle_sound n (c ∷ []) h = ground arith
match_middle_sound zero (c ∷ d ∷ rest) h = absurd (ground arith)
match_middle_sound (suc n) (c ∷ d ∷ rest) h =
    let both = &&-eq-true (is_seat_char c) (match_middle n (d ∷ rest)) h in
    let m = match_middle_sound n (d ∷ rest) both.1 in
    record { bounded = omega (arith, m.bounded); last = m.last; letters = (both.0, m.letters) }

match_middle_complete : (n : ℕ) (cs : List ℕ) → IsMiddle n cs → match_middle n cs ≡ true
unfolding match_middle
match_middle_complete n [] m = absurd (ground arith)
match_middle_complete n (c ∷ []) m = m.last
match_middle_complete zero (c ∷ d ∷ rest) m = absurd (omega (arith, m.bounded))
match_middle_complete (suc n) (c ∷ d ∷ rest) m = rw (m.letters.0) (
    match_middle_complete n (d ∷ rest)
      (record { bounded = omega (arith, m.bounded); last = m.last; letters = m.letters.1 }))

match_seat_sound : (cs : List ℕ) → match_seat cs ≡ true → IsSeat cs
unfolding match_seat
match_seat_sound [] h = absurd (ground arith)
match_seat_sound (c ∷ []) h = ground arith
match_seat_sound (c ∷ d ∷ rest) h =
    let both = &&-eq-true (is_alnum c) (match_middle 51 (d ∷ rest)) h in
    let m = match_middle_sound 51 (d ∷ rest) both.1 in
    record {
      bounded = omega (arith, m.bounded);
      first = both.0;
      last = m.last;
      letters = (rw both.0 refl, m.letters);
    }

match_seat_complete : (cs : List ℕ) → IsSeat cs → match_seat cs ≡ true
unfolding match_seat
match_seat_complete [] h = absurd (ground arith)
match_seat_complete (c ∷ []) h = h.first
match_seat_complete (c ∷ d ∷ rest) h = rw h.first (
    match_middle_complete 51 (d ∷ rest)
      (record { bounded = omega (arith, h.bounded); last = h.last; letters = h.letters.1 }))

-- The pattern accepts exactly the names of 1 to 53 lower-case letters, digits and dashes whose
-- first and last character is a letter or a digit.
pub valid_seat_iff : (s : String) → (valid_seat s ≡ true) ↔ IsSeat (codes s)
unfolding valid_seat
valid_seat_iff s = (match_seat_sound (codes s), match_seat_complete (codes s))
