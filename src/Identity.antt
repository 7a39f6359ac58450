-- ===== src/Identity.antt =====
-- internal/identity/seat.go: the names of seats, `^[a-z0-9]([a-z0-9-]{0,51}[a-z0-9])?$`.
pub mod Grammar
pub mod Domain
use Prim.Native.Char.{code}
use Prim.Native.String.{String}
use falco_ctf_app.Prelude.{
  ℕ, zero, suc, Bool, true, false, ◌&&◌, ◌||◌, List, [], ◌∷◌, leb, ◌==◌, nat_eq, if◌then◌else◌,
}

abbrev pub codes : String → List ℕ
codes String.[] = []
codes (String.◌∷◌ c s) = code c ∷ codes s

-- [a-z0-9]
abbrev pub is_alnum : ℕ → Bool
is_alnum c = (leb b'a' c && leb c b'z') || (leb b'0' c && leb c b'9')

-- [a-z0-9-]
abbrev pub is_seat_char : ℕ → Bool
is_seat_char c = is_alnum c || c == b'-'

-- [a-z0-9-]{0,n}[a-z0-9]$
unfoldable pub match_middle : ℕ → List ℕ → Bool
match_middle n [] = false
match_middle n (c ∷ []) = is_alnum c
match_middle zero (c ∷ d ∷ rest) = false
match_middle (suc n) (c ∷ d ∷ rest) = is_seat_char c && match_middle n (d ∷ rest)

unfoldable pub match_seat : List ℕ → Bool
unfolding match_middle
match_seat [] = false
match_seat (c ∷ []) = is_alnum c
match_seat (c ∷ d ∷ rest) = is_alnum c && match_middle 51 (d ∷ rest)

unfoldable pub valid_seat : String → Bool
unfolding match_seat
valid_seat s = match_seat (codes s)
