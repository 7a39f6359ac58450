-- ===== src/Examples/Origins.antt =====
-- The guard of internal/scoreboard/originguard at a concrete request, with a parser that knows the
-- addresses that stand here.
use falco_ctf_app.Prelude.{
  ℕ, ◌≡◌, refl, ap, sym, ◌∙◌, arith, inl, inr, Bool-cases, nat_eq, true, Option, none, some, List,
  [], ◌∷◌, ◌==◌, if◌then◌else◌, map, ◌+◌,
}
use falco_ctf_app.Prelude.Text.{
  Text, text, text_eq, trim_space, is_space, trim_left, trim_right, lower,
}
use falco_ctf_app.OriginGuard.{Url, Headers, Guarded, served, denied, new_guard}
use falco_ctf_app.OriginGuard.Admission.{colon_free, claimed, trusted, outcome, middleware_lem}

abbrev read_url : Text → Option Url
read_url t =
    if t == text "https://ctf.example.com"
    then some (record { scheme = text "https"; host = text "ctf.example.com" })
    else if t == text "https://CTF.example.com/journey"
    then some (record { scheme = text "https"; host = text "CTF.example.com" })
    else none

abbrev entries : List Text
entries = text "  https://ctf.example.com " ∷ text "ctf.example.com" ∷ []

abbrev from_page : Headers
from_page = record { origin = []; referer = text "https://CTF.example.com/journey" }

abbrev count_up : ℕ → ℕ × ℕ
count_up n = (n, n + 1)

abbrev pub lowered : Text → Text
lowered = map lower

abbrev scheme_of : Option Url → Text
scheme_of none = text "https"
scheme_of (some u) = u.scheme

always_https : (t : Text) → scheme_of (read_url t) ≡ text "https"
always_https t = elim (Bool-cases (t == text "https://ctf.example.com")) [
  | inl e ↦ rw e refl
  | inr e ↦ elim (Bool-cases (t == text "https://CTF.example.com/journey")) [
    | inl f ↦ rw (e, f) refl
    | inr f ↦ rw (e, f) refl
  ]
]

read_schemes : (t : Text) (u : Url) → read_url t ≡ some u → colon_free u.scheme ≡ true
read_schemes t u h = ap colon_free (sym (ap scheme_of h) ∙ always_https t)

lowered_colons : (t : Text) → colon_free t ≡ true → colon_free (lowered t) ≡ true
unfolding lower
lowered_colons [] h = refl
lowered_colons (c ∷ t) h = ground (arith, lowered_colons t)

middleware_lem_example :
    Path
      (Guarded ℕ × ℕ)
      (
        (outcome read_url lowered entries from_page count_up 4).0,
        (outcome read_url lowered entries from_page count_up 4).1,
      )
      (if trusted read_url lowered entries (claimed read_url lowered from_page)
        then (served 4, 5)
        else (denied, 4))
    × ((outcome read_url lowered entries from_page count_up 4).2.allowed
        ≡ (new_guard read_url lowered entries).allowed)
middleware_lem_example =
    middleware_lem read_url lowered read_schemes lowered_colons entries from_page count_up 4

let_through : trusted read_url lowered entries (claimed read_url lowered from_page) ≡ true
unfolding trim_space is_space trim_left trim_right lower
let_through = refl
