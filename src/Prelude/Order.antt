-- ===== src/Prelude/Order.antt =====
-- The order of Go strings, as a total order, and lists that a sort has put in order.
use Prim.Native.String.compare
use Prim.Native.Nat.{Ordering, compare as compare_ℕ}
use Prim.Native.Char.{code}
use Prim.Native.String.{String, compare, then as then_by}
use mathlib.Core.Path.{◌≡◌, refl, sym, ap, ◌∙◌}
use mathlib.Core.Logic.{◌⊎◌, inl, inr}
use mathlib.Core.Bool.{Bool, true, false}
use mathlib.Core.List.{List, [], ◌∷◌}
use native.Mathlib.Omega.{arith}
use falco_ctf_app.Prelude.Tests.{if◌then◌else◌, ltb, eqb, Bool-cases}
use falco_ctf_app.Prelude.Lists.{all}
use falco_ctf_app.Prelude.Sort.{string_le, sort, insert_sorted}

abbrev not_gt : Ordering → Bool
not_gt Ordering.gt = false
not_gt _ = true

-- The same order, by recursion on the two texts.
text_le : String → String → Bool
text_le String.[] b = true
text_le (String.◌∷◌ c s) String.[] = false
text_le (String.◌∷◌ c s) (String.◌∷◌ d t) =
    let rest = text_le s t in
    if ltb (code c) (code d) then true else if eqb (code c) (code d) then rest else false

first_differs :
    (o : Ordering) (r : Ordering)
    → not_gt (then_by o r) ≡ (
        if elim o [ Ordering.lt ↦ true | _ ↦ false ]
        then true
        else if elim o [ Ordering.eq ↦ true | _ ↦ false ]
        then not_gt r
        else false)
first_differs Ordering.lt r = refl
first_differs Ordering.eq r = refl
first_differs Ordering.gt r = refl

not_gt-compare : (a b : String) → not_gt (compare a b) ≡ text_le a b
unfolding text_le
not_gt-compare String.[] String.[] = ap not_gt compare.nil-nil
not_gt-compare String.[] (String.◌∷◌ d t) = ap not_gt (compare.nil-cons d t)
not_gt-compare (String.◌∷◌ c s) String.[] = ap not_gt (compare.cons-nil c s)
not_gt-compare (String.◌∷◌ c s) (String.◌∷◌ d t) =
    ap not_gt (compare.cons-cons c d s t)
    ∙ first_differs (compare_ℕ (code c) (code d)) (compare s t)
    ∙ rw (not_gt-compare s t) refl

text_le_total : (a b : String) → (text_le a b ≡ true) ⊎ (text_le b a ≡ true)
unfolding text_le
text_le_total String.[] b = inl refl
text_le_total (String.◌∷◌ c s) String.[] = inr refl
text_le_total (String.◌∷◌ c s) (String.◌∷◌ d t) = ground (arith, text_le_total s t)

text_le_trans : (a b c : String) → text_le a b ≡ true → text_le b c ≡ true → text_le a c ≡ true
unfolding text_le
text_le_trans String.[] b c h k = refl
text_le_trans (String.◌∷◌ x s) String.[] c h k = absurd (ground arith)
text_le_trans (String.◌∷◌ x s) (String.◌∷◌ y t) String.[] h k = absurd (ground arith)
text_le_trans (String.◌∷◌ x s) (String.◌∷◌ y t) (String.◌∷◌ z u) h k =
    ground (arith, text_le_trans s t u)

pub string_le_total : (a b : String) → (string_le a b ≡ true) ⊎ (string_le b a ≡ true)
string_le_total a b = rw (← not_gt-compare a b, ← not_gt-compare b a) at (text_le_total a b)

pub string_le_trans :
    (a b c : String) → string_le a b ≡ true → string_le b c ≡ true → string_le a c ≡ true
string_le_trans a b c h k =
    not_gt-compare a c
    ∙ text_le_trans a b c (sym (not_gt-compare a b) ∙ h) (sym (not_gt-compare b c) ∙ k)

pub string_le-empty : (a : String) → string_le a "" ≡ true → a ≡ ""
unfolding text_le
string_le-empty String.[] h = refl
string_le-empty (String.◌∷◌ c s) h =
    absurd (ground (arith, sym (not_gt-compare (String.◌∷◌ c s) "") ∙ h))

-- Every element stands before all that follow it in the order.
module _ {ℓ} {A : Type ℓ} (le : A → A → Bool) where
  abbrev pub IsSorted : List A → Type 0
  IsSorted [] = Unit
  IsSorted (x ∷ xs) = (all (le x) xs ≡ true) × IsSorted xs

  module _ (total : (a b : A) → (le a b ≡ true) ⊎ (le b a ≡ true))
      (trans : (a b c : A) → le a b ≡ true → le b c ≡ true → le a c ≡ true) where
    all_later :
        (a b : A) (xs : List A) → le a b ≡ true → all (le b) xs ≡ true → all (le a) xs ≡ true
    all_later a b [] h k = refl
    all_later a b (x ∷ xs) h k = ground (arith, trans a b x, all_later a b xs)

    all_le-insert_sorted :
        (a b : A) (xs : List A)
        → le a b ≡ true
        → all (le a) xs ≡ true
        → all (le a) (insert_sorted le b xs) ≡ true
    unfolding insert_sorted
    all_le-insert_sorted a b [] h k = ground arith
    all_le-insert_sorted a b (x ∷ xs) h k = ground (arith, all_le-insert_sorted a b xs)

    insert_sorted-IsSorted : (a : A) (xs : List A) → IsSorted xs → IsSorted (insert_sorted le a xs)
    unfolding insert_sorted
    insert_sorted-IsSorted a [] s = (refl, tt)
    insert_sorted-IsSorted a (x ∷ xs) s = elim (Bool-cases (le a x)) [
      | inl h ↦ rw h (ground (arith, all_later a x xs h s.0), s)
      | inr h ↦ rw h (
        all_le-insert_sorted x a xs (ground (arith, total a x)) s.0,
        insert_sorted-IsSorted a xs s.1,
      )
    ]

    pub sort-IsSorted : (xs : List A) → IsSorted (sort le xs)
    unfolding sort
    sort-IsSorted [] = tt
    sort-IsSorted (x ∷ xs) = insert_sorted-IsSorted x (sort le xs) (sort-IsSorted xs)
