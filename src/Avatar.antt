-- ===== src/Avatar.antt =====
-- internal/scoreboard/avatar/avatar.go: the table of prepared avatars and the one a seat has.
pub mod Seats
use Prim.Native.Char.{code}
use Prim.Native.Nat.{bit_xor}
use Prim.Native.String.{◌++◌ as str_append}
use falco_ctf_app.Prelude.{
  ℕ, zero, suc, ◌+◌, ◌-◌, ◌*◌, ◌/◌, ◌%◌, ◌^◌, String, string_eq, nat_eq, Bool, true, false, not,
  ◌&&◌, Option, none, some, List, [], ◌∷◌, ◌++◌, map, ◌==◌, leb, ltb, all, if◌then◌else◌, length,
  is_some,
}
use falco_ctf_app.Prelude.Text.{Text, text, strip_prefix}
use falco_ctf_app.Identity.{codes}

abbrev pub glyphs : List String
glyphs = "falcon" ∷ "shield" ∷ "key" ∷ "terminal" ∷ "radar" ∷ "lock" ∷ "bug" ∷ "flame" ∷ []

abbrev pub colors : List String
colors = "cyan" ∷ "magenta" ∷ "amber" ∷ "lime" ∷ "violet" ∷ "slate" ∷ []

abbrev pub count : ℕ
count = 48

abbrev pub reserved_count : ℕ
reserved_count = 8

abbrev pub seat_capacity : ℕ
seat_capacity = count - reserved_count

abbrev pub staff_id : String
staff_id = "flame-slate"

abbrev pub participant_reserved_count : ℕ
participant_reserved_count = reserved_count - 1

abbrev pub joined : String → String → String
joined g c = str_append g (str_append "-" c)

-- out[gi*len(colors)+ci] = g + "-" + c
unfoldable pub table_of : List String → List String
table_of [] = []
table_of (g ∷ gs) = map (joined g) colors ++ table_of gs

unfoldable pub ids : List String
unfolding table_of
ids = table_of glyphs

abbrev pub at : ℕ → List String → Option String
at n [] = none
at zero (x ∷ xs) = some x
at (suc n) (x ∷ xs) = at n xs

-- The map `index` of the ids to their positions, none where the id is not in the table.
unfoldable pub position : String → ℕ → List String → Option ℕ
position id i [] = none
position id i (x ∷ xs) = let rest = position id (suc i) xs in if x == id then some i else rest

unfoldable pub index : String → Option ℕ
unfolding position ids
index id = position id 0 ids

-- ParticipantIDs
unfoldable pub participant_ids : List String → List String
participant_ids [] = []
participant_ids (id ∷ rest) =
    let more = participant_ids rest in if not (id == staff_id) then id ∷ more else more

unfoldable pub valid : String → Bool
unfolding index
valid id = is_some (index id)

unfoldable pub selectable : String → Bool
unfolding valid
selectable id = not (id == staff_id) && valid id

unfoldable pub number : String → ℕ
unfolding index
number id = elim (index id) [ none ↦ 0 | some i ↦ i + 1 ]

abbrev pub or_empty : Option String → String
or_empty none = ""
or_empty (some s) = s

abbrev pub parts_at : Option ℕ → Option (String × String)
parts_at none = none
parts_at (some i) = some (or_empty (at (i / 6) glyphs), or_empty (at (i % 6) colors))

unfoldable pub parse : String → Option (String × String)
unfolding index
parse id = parts_at (index id)

unfoldable pub file : String → Option String
unfolding parse
file id = elim (parse id) [ none ↦ none | some (g, _) ↦ some (str_append g ".svg") ]

unfoldable pub color_token : String → Option String
unfolding parse
color_token id = elim (parse id) [ none ↦ none | some (_, c) ↦ some (str_append "--avatar-" c) ]

abbrev pub is_digit : ℕ → Bool
is_digit c = leb b'0' c && leb c b'9'

abbrev pub decimal : ℕ → Text → ℕ
decimal n [] = n
decimal n (d ∷ ds) = decimal (n * 10 + (d - b'0')) ds

abbrev pub digits_of : Text → Option Text
digits_of [] = none
digits_of (d ∷ ds) = if leb b'1' d && leb d b'9' && all is_digit ds then some (d ∷ ds) else none

-- ^user([1-9][0-9]*)$
unfoldable pub seat_digits : Text → Option Text
unfolding strip_prefix
seat_digits seat = elim (strip_prefix (text "user") seat) [ none ↦ none | some ds ↦ digits_of ds ]

-- ParseUint(_, 10, 32)
abbrev pub parse_uint32 : Text → Option ℕ
parse_uint32 ds = if ltb (decimal 0 ds) (2 ^ 32) then some (decimal 0 ds) else none

-- The bytes of one character.
abbrev pub utf8 : ℕ → List ℕ
utf8 c =
    if ltb c 128
    then c ∷ []
    else if ltb c 2048
    then (192 + c / 64) ∷ (128 + c % 64) ∷ []
    else if ltb c 65536
    then (224 + c / 4096) ∷ (128 + c / 64 % 64) ∷ (128 + c % 64) ∷ []
    else (240 + c / 262144) ∷ (128 + c / 4096 % 64) ∷ (128 + c / 64 % 64) ∷ (128 + c % 64) ∷ []

abbrev pub bytes : Text → List ℕ
bytes [] = []
bytes (c ∷ cs) = utf8 c ++ bytes cs

-- hash/fnv's New32a
unfoldable pub fnv32a : ℕ → List ℕ → ℕ
fnv32a h [] = h
fnv32a h (b ∷ bs) = fnv32a (bit_xor h b * 16777619 % 2 ^ 32) bs

abbrev pub within_capacity : Option ℕ → Option ℕ
within_capacity none = none
within_capacity (some n) = if leb n seat_capacity then some n else none

abbrev pub number_of : Option Text → Option ℕ
number_of none = none
number_of (some ds) = within_capacity (parse_uint32 ds)

unfoldable pub seat_number : Text → Option ℕ
unfolding seat_digits
seat_number seat = number_of (seat_digits seat)

abbrev pub slot : Text → Option ℕ → ℕ
slot seat (some n) = n - 1
slot seat none = seat_capacity + fnv32a 2166136261 (bytes seat) % participant_reserved_count

unfoldable pub default_avatar : String → String
unfolding seat_number ids
default_avatar seat = or_empty (at (slot (codes seat) (seat_number (codes seat))) ids)

unfoldable pub resolve : String → String → String
unfolding selectable default_avatar
resolve stored seat = if selectable stored then stored else default_avatar seat
