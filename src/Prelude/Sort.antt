-- ===== src/Prelude/Sort.antt =====
-- sort.Strings, sort.Ints and sort.Slice. The result of a sort of distinct keys does not depend on
-- the algorithm; this one inserts.
use Prim.Native.Nat.{Ordering}
use Prim.Native.String.{String, compare}
use mathlib.Core.Path.{◌≡◌, refl}
use mathlib.Core.Logic.{inl, inr}
use mathlib.Core.Bool.{Bool, true, false}
use mathlib.Core.List.{List, [], ◌∷◌}
use native.Mathlib.Omega.{arith}
use falco_ctf_app.Prelude.Tests.{if◌then◌else◌, Bool-cases}
use falco_ctf_app.Prelude.Lists.{length, any, all, All}

abbrev pub string_le : String → String → Bool
string_le a b = elim (compare a b) [ Ordering.gt ↦ false | _ ↦ true ]

module _ {ℓ} {A : Type ℓ} (le : A → A → Bool) where
  unfoldable pub insert_sorted : A → List A → List A
  insert_sorted a [] = a ∷ []
  insert_sorted a (x ∷ xs) = if le a x then a ∷ x ∷ xs else x ∷ insert_sorted a xs

  unfoldable pub sort : List A → List A
  unfolding insert_sorted
  sort [] = []
  sort (x ∷ xs) = insert_sorted x (sort xs)

  pub length-insert_sorted : (a : A) (xs : List A) → length (insert_sorted a xs) ≡ length (a ∷ xs)
  unfolding insert_sorted
  length-insert_sorted a [] = refl
  length-insert_sorted a (x ∷ xs) = ground (arith, length-insert_sorted a xs)

  pub length-sort : (xs : List A) → length (sort xs) ≡ length xs
  unfolding sort
  length-sort [] = refl
  length-sort (x ∷ xs) = ground (arith, length-insert_sorted x (sort xs), length-sort xs)

  -- Sorting loses and adds nothing that a test can see.
  any-insert_sorted :
      (p : A → Bool) (a : A) (xs : List A) → any p (insert_sorted a xs) ≡ any p (a ∷ xs)
  unfolding insert_sorted
  any-insert_sorted p a [] = refl
  any-insert_sorted p a (x ∷ xs) = ground (arith, any-insert_sorted p a xs)

  pub any-sort : (p : A → Bool) (xs : List A) → any p (sort xs) ≡ any p xs
  unfolding sort
  any-sort p [] = refl
  any-sort p (x ∷ xs) = ground (arith, any-insert_sorted p x (sort xs), any-sort p xs)

  all-insert_sorted :
      (p : A → Bool) (a : A) (xs : List A) → all p (insert_sorted a xs) ≡ all p (a ∷ xs)
  unfolding insert_sorted
  all-insert_sorted p a [] = refl
  all-insert_sorted p a (x ∷ xs) = ground (arith, all-insert_sorted p a xs)

  pub all-sort : (p : A → Bool) (xs : List A) → all p (sort xs) ≡ all p xs
  unfolding sort
  all-sort p [] = refl
  all-sort p (x ∷ xs) = ground (arith, all-insert_sorted p x (sort xs), all-sort p xs)

  All-insert_sorted :
      (P : A → Type 0) (a : A) (xs : List A) → P a → All P xs → All P (insert_sorted a xs)
  unfolding insert_sorted
  All-insert_sorted P a [] p h = (p, tt)
  All-insert_sorted P a (x ∷ xs) p (q, h) = elim (Bool-cases (le a x)) [
    | inl e ↦ rw e (p, (q, h))
    | inr e ↦ rw e (q, All-insert_sorted P a xs p h)
  ]

  pub All-sort : (P : A → Type 0) (xs : List A) → All P xs → All P (sort xs)
  unfolding sort
  All-sort P [] h = tt
  All-sort P (x ∷ xs) (p, h) = All-insert_sorted P x (sort xs) p (All-sort P xs h)
