-- ===== src/Prelude/Text.antt =====
-- Go strings as lists of code points, with the functions of package strings that the source calls.
use falco_ctf_app.Prelude.Tests.{leb, if◌then◌else◌, Bool-cases, Option-cases}
use falco_ctf_app.Prelude.Lists.{all}
use falco_ctf_app.Prelude.Keys.{Eq, ◌==◌, nat_eq, contains}
use Prim.Native.Nat.{ℕ, ◌+◌}
use Prim.Native.Char.{code}
use Prim.Native.String.{String}
use mathlib.Core.Path.{◌≡◌, refl, ap, ◌∙◌}
use mathlib.Core.Logic.{◌↔◌, inl, inr}
use mathlib.Core.Bool.{Bool, true, false, ◌&&◌, ◌||◌}
use mathlib.Core.Option.{Option, none, some}
use mathlib.Core.List.{List, [], ◌∷◌, ◌++◌, map}
use native.Mathlib.Omega.{arith}

abbrev pub Text : Type 0
Text = List ℕ

-- A literal.
abbrev pub text : String → Text
text String.[] = []
text (String.◌∷◌ first more) = code first ∷ text more

abbrev pub text_beq : Text → Text → Bool
text_beq [] [] = true
text_beq [] (_ ∷ _) = false
text_beq (_ ∷ _) [] = false
text_beq (a ∷ xs) (b ∷ ys) = a == b && text_beq xs ys

pub text_beq_iff : (a b : Text) → (text_beq a b ≡ true) ↔ (a ≡ b)
text_beq_iff [] [] = (λ _. refl, λ _. refl)
text_beq_iff [] (_ ∷ _) = ground arith
text_beq_iff (_ ∷ _) [] = ground arith
text_beq_iff (a ∷ xs) (b ∷ ys) = ground (arith, nat_eq.beq_iff a b, text_beq_iff xs ys)

instance abbrev pub text_eq : Eq Text
text_eq = record { beq = text_beq; beq_iff = text_beq_iff }

abbrev pub is_empty : Text → Bool
is_empty [] = true
is_empty (_ ∷ _) = false

-- unicode.IsSpace
unfoldable pub is_space : ℕ → Bool
is_space c =
    (leb 9 c && leb c 13)
    || c == 32
    || c == 133
    || c == 160
    || c == 5760
    || (leb 8192 c && leb c 8202)
    || c == 8232
    || c == 8233
    || c == 8239
    || c == 8287
    || c == 12288

unfoldable pub trim_left : Text → Text
trim_left [] = []
trim_left (c ∷ cs) = let rest = trim_left cs in if is_space c then rest else c ∷ cs

unfoldable pub trim_right : Text → Text
trim_right [] = []
trim_right (c ∷ cs) = elim (trim_right cs) [
  | [] ↦ if is_space c then [] else c ∷ []
  | d ∷ ds ↦ c ∷ d ∷ ds
]

-- strings.TrimSpace
unfoldable pub trim_space : Text → Text
unfolding trim_left trim_right
trim_space s = trim_right (trim_left s)

-- strings.ToLower on one character of an ASCII text.
unfoldable pub lower : ℕ → ℕ
lower c = if leb b'A' c && leb c b'Z' then c + 32 else c

-- strings.ToLower, for a comparison with ASCII texts: besides the capital letters, U+0130 and U+212A
-- have an ASCII letter for their lower case.
abbrev pub lower_rune : ℕ → ℕ
lower_rune c = if c == 304 then b'i' else if c == 8490 then b'k' else lower c

unfoldable pub to_lower : Text → Text
to_lower s = map lower_rune s

-- s[:i] and s[i+1:] for the index i of the first c.
unfoldable pub cut : ℕ → Text → Option (Text × Text)
cut c [] = none
cut c (x ∷ xs) =
    let rest = cut c xs in
    if x == c
    then some ([], xs)
    else elim rest [ none ↦ none | some (before, after) ↦ some (x ∷ before, after) ]

-- strings.Split by one byte.
unfoldable pub split : ℕ → Text → List Text
split c [] = [] ∷ []
split c (x ∷ xs) =
    let rest = split c xs in
    if x == c
    then [] ∷ rest
    else elim rest [ [] ↦ (x ∷ []) ∷ [] | word ∷ words ↦ (x ∷ word) ∷ words ]

-- s[strings.LastIndexByte(s, c)+1:]
unfoldable pub after_last : ℕ → Text → Text
after_last c [] = []
after_last c (x ∷ xs) = let rest = after_last c xs in if contains (x ∷ xs) c then rest else x ∷ xs

-- strings.HasPrefix and strings.TrimPrefix at once.
unfoldable pub strip_prefix : Text → Text → Option Text
strip_prefix [] s = some s
strip_prefix (p ∷ ps) [] = none
strip_prefix (p ∷ ps) (c ∷ cs) = let rest = strip_prefix ps cs in if p == c then rest else none

-- strings.Contains
unfoldable pub has_word : Text → Text → Bool
unfolding strip_prefix
has_word w [] = is_empty w
has_word w (c ∷ cs) = elim (strip_prefix w (c ∷ cs)) [ none ↦ has_word w cs | some _ ↦ true ]

-- A printable ASCII byte other than the space.
abbrev pub is_plain : ℕ → Bool
is_plain c = leb 33 c && leb c 126

pub trim_left_plain : (s : Text) → all is_plain s ≡ true → trim_left s ≡ s
unfolding trim_left is_space
trim_left_plain [] h = refl
trim_left_plain (c ∷ cs) h = ground arith

pub trim_right_plain : (s : Text) → all is_plain s ≡ true → trim_right s ≡ s
unfolding trim_right is_space
trim_right_plain [] h = refl
trim_right_plain (c ∷ []) h = ground arith
trim_right_plain (c ∷ d ∷ ds) h = rw (trim_right_plain (d ∷ ds) (ground arith)) refl

pub trim_space_plain : (s : Text) → all is_plain s ≡ true → trim_space s ≡ s
unfolding trim_space
trim_space_plain s h = ap trim_right (trim_left_plain s h) ∙ trim_right_plain s h

pub lower_idem : (c : ℕ) → lower (lower c) ≡ lower c
unfolding lower
lower_idem c = ground arith

pub lower_plain : (c : ℕ) → is_plain c ≡ true → is_plain (lower c) ≡ true
unfolding lower
lower_plain c h = ground arith

pub map-lower_idem : (s : Text) → map lower (map lower s) ≡ map lower s
map-lower_idem [] = refl
map-lower_idem (c ∷ cs) = cc (lower_idem c, map-lower_idem cs)

pub map-lower_plain : (s : Text) → all is_plain s ≡ true → all is_plain (map lower s) ≡ true
map-lower_plain [] h = refl
map-lower_plain (c ∷ cs) h = ground (arith, lower_plain c, map-lower_plain cs)

pub all-append :
    {A : Type 0} (p : A → Bool) (xs ys : List A) → all p (xs ++ ys) ≡ (all p xs && all p ys)
all-append p [] ys = refl
all-append p (x ∷ xs) ys = ground (arith, all-append p xs ys)

-- A text cut at its first c is put together again.
pub cut-join :
    (c : ℕ) (s before after : Text) → cut c s ≡ some (before, after) → s ≡ before ++ c ∷ after
unfolding cut
cut-join c [] before after h = absurd (ground arith)
cut-join c (x ∷ xs) before after h = elim (Bool-cases (x == c)) [
  | inl same ↦ rw ((nat_eq.beq_iff x c).0 same) (ground (arith, rw same at h))
  | inr other ↦ elim (Option-cases (cut c xs)) [
    | inl missing ↦ absurd (ground (arith, rw (other, missing) at h))
    | inr ((b, a), found) ↦ cc (cut-join c xs b a found, rw (other, found) at h)
  ]
]

pub cut_before :
    (c : ℕ) (s before after : Text) → cut c s ≡ some (before, after) → contains before c ≡ false
unfolding cut
cut_before c [] before after h = absurd (ground arith)
cut_before c (x ∷ xs) before after h = elim (Bool-cases (x == c)) [
  | inl same ↦ ground (arith, rw same at h)
  | inr other ↦ elim (Option-cases (cut c xs)) [
    | inl missing ↦ absurd (ground (arith, rw (other, missing) at h))
    | inr ((b, a), found) ↦ ground (arith, cut_before c xs b a found, rw (other, found) at h)
  ]
]

pub join-cut :
    (c : ℕ) (before after : Text)
    → contains before c ≡ false
    → cut c (before ++ c ∷ after) ≡ some (before, after)
unfolding cut
join-cut c [] after h = ground (arith, nat_eq.beq_iff c c)
join-cut c (x ∷ xs) after h = ground (arith, join-cut c xs after)
