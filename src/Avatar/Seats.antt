-- ===== src/Avatar/Seats.antt =====
-- The avatars of seats without a choice of their own, and the names of the table.
use falco_ctf_app.Prelude.{
  ℕ, zero, all, suc, ◌+◌, ◌/◌, ◌%◌, ◌≤◌, ◌<◌, ◌≡◌, ◌≢◌, ◌&&◌, ◌⊎◌, refl, ap, String, string_eq,
  nat_eq, Bool, true, false, Option, none, some, List, [], ◌∷◌, ◌==◌, eqb, length, arith, inl, inr,
  Bool-cases, subst, sym, any, map, not, ◌++◌, ◌||◌, is_some, ◌∙◌, Option-cases,
}
use falco_ctf_app.Prelude.Text.{Text}
use falco_ctf_app.Identity.{codes}
use falco_ctf_app.Avatar.{
  glyphs, colors, ids, table_of, at, position, index, valid, selectable, parse, joined, or_empty,
  seat_number, parts_at, slot, within_capacity, number_of, default_avatar, resolve, parse_uint32,
  seat_digits,
}

-- The positions of a table with `size` entries, the last first.
abbrev positions : ℕ → List ℕ
positions zero = []
positions (suc last) = last ∷ positions last

-- What a test finds at every position, it finds at this one.
position-of-table :
    (holds : ℕ → Bool) (size i : ℕ) → all holds (positions size) ≡ true → i < size → holds i ≡ true
position-of-table holds zero i every inside = absurd (omega arith)
position-of-table holds (suc last) i every inside = elim (Bool-cases (eqb i last)) [
  | inl e ↦
      let same = (nat_eq.beq_iff i last).0 e in
      let here : holds last ≡ true = ground (arith, every) in
      subst (λ k. holds k ≡ true) (sym same) here
  | inr e ↦
      let apart : ¬ (i ≡ last) = λ q. absurd (ground (arith, e, (nat_eq.beq_iff i last).1 q)) in
      let shorter : i < last = omega (arith, apart, inside) in
      position-of-table holds last i (ground (arith, every)) shorter
]

slots_selectable : all (λ i. selectable (or_empty (at i ids))) (positions 47) ≡ true
unfolding selectable valid ids table_of position
slots_selectable = refl

within_capacity_lem : (o : Option ℕ) (n : ℕ) → within_capacity o ≡ some n → n ≤ 40
within_capacity_lem none n h = absurd (ground arith)
within_capacity_lem (some m) n h = ground arith

number_of_lem : (o : Option Text) (n : ℕ) → number_of o ≡ some n → n ≤ 40
number_of_lem none n h = absurd (ground arith)
number_of_lem (some ds) n h = within_capacity_lem (parse_uint32 ds) n h

slot_lem : (seat : Text) (o : Option ℕ) → ((n : ℕ) → o ≡ some n → n ≤ 40) → slot seat o < 47
slot_lem seat (some n) h = omega (arith, h n refl)
slot_lem seat none h = omega arith

slot_of_seat : (seat : Text) → slot seat (seat_number seat) < 47
unfolding seat_number
slot_of_seat seat = slot_lem seat (seat_number seat) (number_of_lem (seat_digits seat))

-- The avatar of a seat that chose none is one that a participant may choose.
pub default_avatar-selectable : (seat : String) → selectable (default_avatar seat) ≡ true
unfolding default_avatar
default_avatar-selectable seat =
    position-of-table (λ i. selectable (or_empty (at i ids))) 47 _ slots_selectable
      (slot_of_seat (codes seat))

-- The name of a glyph of the table and of a colour of it, joined by a dash.
abbrev pub in_table : String → Bool
in_table id = any (λ g. any (λ c. joined g c == id) colors) glyphs

any-append : (p : String → Bool) (xs ys : List String) → any p (xs ++ ys) ≡ (any p xs || any p ys)
any-append p [] ys = refl
any-append p (x ∷ xs) ys = ground (arith, any-append p xs ys)

any-map :
    (p : String → Bool) (f : String → String) (xs : List String)
    → any p (map f xs) ≡ any (λ x. p (f x)) xs
any-map p f [] = refl
any-map p f (x ∷ xs) = ground (arith, any-map p f xs)

any-table_of :
    (id : String) (gs : List String)
    → any (λ x. x == id) (table_of gs) ≡ any (λ g. any (λ c. joined g c == id) colors) gs
unfolding table_of
any-table_of id [] = refl
any-table_of id (g ∷ gs) = ground (
  arith,
  any-append (λ x. x == id) (map (joined g) colors) (table_of gs),
  any-map (λ x. x == id) (joined g) colors,
  any-table_of id gs,
)

is_some-position :
    (id : String) (i : ℕ) (xs : List String) → is_some (position id i xs) ≡ any (λ x. x == id) xs
unfolding position
is_some-position id i [] = refl
is_some-position id i (x ∷ xs) = ground (arith, is_some-position id (suc i) xs)

valid-in_table : (id : String) → valid id ≡ in_table id
unfolding valid index ids
valid-in_table id = is_some-position id 0 (table_of glyphs) ∙ any-table_of id glyphs

selectable_lem : (id : String) → selectable id ≡ (not (id == "flame-slate") && in_table id)
unfolding selectable
selectable_lem id = ap (λ b. not (id == "flame-slate") && b) (valid-in_table id)

not_staff : (id : String) → (id == "flame-slate") ≡ false → id ≢ "flame-slate"
not_staff id e q = absurd (ground (arith, e, (string_eq.beq_iff id "flame-slate").1 q))

chosen :
    (staff there choice : Bool)
    → choice ≡ (not staff && there)
    → choice ≡ true
    → (there ≡ true) × (staff ≡ false)
chosen staff there choice e h = ground arith

not_chosen :
    (staff there choice : Bool)
    → choice ≡ (not staff && there)
    → choice ≡ false
    → (there ≡ false) ⊎ (staff ≡ true)
not_chosen staff there choice e h = ground arith

-- A name that may be chosen, without the code's test.
selectable_sound :
    (id : String) → selectable id ≡ true → (in_table id ≡ true) × (id ≢ "flame-slate")
selectable_sound id h =
    let (there, other) = chosen _ _ _ (selectable_lem id) h in (there, not_staff id other)

selectable_complete :
    (id : String) → selectable id ≡ false → (in_table id ≡ false) ⊎ (id ≡ "flame-slate")
selectable_complete id h = elim (not_chosen _ _ _ (selectable_lem id) h) [
  | inl missing ↦ inl missing
  | inr staff ↦ inr ((string_eq.beq_iff id "flame-slate").0 staff)
]

-- What is shown for a seat is always the name of a glyph and a colour, and never flame-slate, the
-- staff's; it is the stored choice unless that is no such name or is the staff's.
pub resolve-selectable :
    (stored seat : String)
    → (in_table (resolve stored seat) ≡ true)
      × (resolve stored seat ≢ "flame-slate")
      × ((resolve stored seat ≡ stored) ⊎ (in_table stored ≡ false) ⊎ (stored ≡ "flame-slate"))
unfolding resolve
resolve-selectable stored seat = elim (Bool-cases (selectable stored)) [
  | inl e ↦ let (there, other) = selectable_sound stored e in rw e (there, other, inl refl)
  | inr e ↦
      let (there, other) = selectable_sound _ (default_avatar-selectable seat) in
      rw e (there, other, inr (selectable_complete stored e))
]

abbrev named_by_parts : ℕ → Bool
named_by_parts i =
    or_empty (at i ids) == joined (or_empty (at (i / 6) glyphs)) (or_empty (at (i % 6) colors))

table_joined : all named_by_parts (positions 48) ≡ true
unfolding ids table_of
table_joined = refl

position-at :
    (id : String) (i j : ℕ) (xs : List String)
    → position id i xs ≡ some j
    → (k : ℕ) × (j ≡ i + k) × (k < length xs) × (at k xs ≡ some id)
unfolding position
position-at id i j [] h = absurd (ground arith)
position-at id i j (x ∷ xs) h = elim (Bool-cases (x == id)) [
  | inl e ↦ (0, ground (arith, rw e at h), omega arith, ap some ((string_eq.beq_iff x id).0 e))
  | inr e ↦
      let (k, a, b, c) = position-at id (suc i) j xs (rw e at h) in
      (suc k, omega (arith, a), omega (arith, b), c)
]

ids_length : length ids ≡ 48
unfolding ids table_of
ids_length = refl

index-at : (id : String) (i : ℕ) → index id ≡ some i → (i < 48) × (at i ids ≡ some id)
unfolding index
index-at id i e =
    let (k, a, b, d) = position-at id 0 i ids e in
    let same : k ≡ i = omega (arith, a) in (omega (arith, same, b, ids_length), rw same at d)

-- An id of the table is the name of its glyph and that of its colour, joined by a dash.
pub parse-joined : (id g c : String) → parse id ≡ some (g, c) → id ≡ joined g c
unfolding parse
parse-joined id g c h = elim (Option-cases (index id)) [
  | inl e ↦ absurd (ground (arith, rw e at h))
  | inr (i, e) ↦
      let (less, found) = index-at id i e in
      let t = (string_eq.beq_iff _ _).0 (position-of-table named_by_parts 48 i table_joined less) in
      let p : Path (Option (String × String)) (parts_at (some i)) (some (g, c)) = rw e at h in
      ground (arith, found, t, p)
]
