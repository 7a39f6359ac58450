-- ===== src/Api/Gates.antt =====
-- Who may act for a participant: the identity gates of internal/scoreboard/api/api.go. The admin emails
-- and the domain are ASCII, since the startup check of internal/identity has refused any other.
use Prim.Native.Char.{Char, code}
use falco_ctf_app.Prelude.{
  ℕ, zero, suc, String, string_eq, nat_eq, Bool, false, not, ◌&&◌, ◌||◌, Option, none, some, List,
  [], ◌∷◌, ◌==◌, leb, if◌then◌else◌,
}
use falco_ctf_app.Prelude.Maps.{Map, lookup, insert, has}
use falco_ctf_app.Prelude.Text.{Text, text_eq, is_empty, is_space, trim_space, to_lower, cut}
use falco_ctf_app.Identity.{codes, match_seat}
use falco_ctf_app.Identity.Domain.{canonical}
use falco_ctf_app.Catalog.{Challenge, Catalog}

-- strings.TrimSpace on a path value
abbrev trim_start : String → String
trim_start String.[] = ""
trim_start (String.◌∷◌ c s) =
    let rest = trim_start s in if is_space (code c) then rest else String.◌∷◌ c s

abbrev keep_end : Char → String → String
keep_end c String.[] = if is_space (code c) then "" else String.◌∷◌ c String.[]
keep_end c (String.◌∷◌ d s) = String.◌∷◌ c (String.◌∷◌ d s)

abbrev trim_end : String → String
trim_end String.[] = ""
trim_end (String.◌∷◌ c s) = keep_end c (trim_end s)

unfoldable pub trimmed : String → String
unfolding is_space
trimmed s = trim_end (trim_start s)

-- [0-9]{2}-[a-z0-9-]{1,60}
abbrev pub is_digit : ℕ → Bool
is_digit c = leb b'0' c && leb c b'9'

abbrev pub is_slug_char : ℕ → Bool
is_slug_char c = (leb b'a' c && leb c b'z') || is_digit c || c == b'-'

unfoldable pub match_slug : ℕ → List ℕ → Bool
match_slug n [] = false
match_slug zero (c ∷ rest) = false
match_slug (suc n) (c ∷ []) = is_slug_char c
match_slug (suc n) (c ∷ d ∷ rest) = is_slug_char c && match_slug n (d ∷ rest)

unfoldable pub valid_challenge_id : String → Bool
valid_challenge_id cid = elim (codes cid) [
  | [] ↦ false
  | a ∷ [] ↦ false
  | a ∷ b ∷ [] ↦ false
  | a ∷ b ∷ c ∷ rest ↦ is_digit a && is_digit b && c == b'-' && match_slug 60 rest
]

unfoldable pub challenge : Catalog → String → Option Challenge
challenge cat cid = if valid_challenge_id cid then lookup cid cat else none

abbrev pub add_admin_email : Text → Map Text (Unit {0}) → Map Text (Unit {0})
add_admin_email e m = if is_empty e then m else insert e tt m

unfoldable pub new_admin_set : List Text → Map Text (Unit {0})
new_admin_set [] = []
new_admin_set (e ∷ rest) = add_admin_email (trim_space (to_lower e)) (new_admin_set rest)

-- "" is none.
unfoldable pub username_from_email : Text → Text → Option Text
username_from_email email domain =
    if is_empty email || is_empty domain then none else elim (cut b'@' email) [
      | none ↦ none
      | some (user, rest) ↦
          if is_empty user || not (rest == domain)
          then none
          else if match_seat user
          then some user
          else none
    ]

unfoldable pub email_matches_user : Text → Text → Text → Bool
email_matches_user email user domain =
    not (is_empty email || is_empty user || is_empty domain) && email == canonical user domain

pub data Reason : Type 0 where
  no_identity non_canonical mismatch : Reason

pub data Gate : Type 0 where
  self_or_admin_gate authenticated_gate : Gate

abbrev pub reason_of : Option Text → Reason
reason_of none = non_canonical
reason_of (some _) = mismatch

-- The reason of a refusal; none lets the request through.
unfoldable pub self_or_admin : Map Text (Unit {0}) → Text → Text → Text → Option Reason
self_or_admin admins domain header user =
    let email = to_lower (trim_space header) in
    if is_empty email
    then some no_identity
    else if has email admins
    then none
    else if email_matches_user email user domain
    then none
    else some (reason_of (username_from_email email domain))

-- The author that a request to the board acts as, or the reason of a refusal.
pub data Author : Type 0 where
  author : Text → Author
  no_author : Reason → Author

unfoldable pub board_identity : Text → Text → Author
board_identity domain header =
    let email = to_lower (trim_space header) in
    if is_empty email then no_author no_identity else elim (username_from_email email domain) [
      | none ↦ no_author non_canonical
      | some user ↦ author user
    ]

unfoldable pub is_admin_request : Map Text (Unit {0}) → Text → Bool
is_admin_request admins header =
    let email = to_lower (trim_space header) in not (is_empty email) && has email admins
