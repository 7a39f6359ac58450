-- ===== src/Prelude/Maps.antt =====
-- A Go map as an association list, with the laws that its clients use. SQL tables with a primary
-- key are the same structure.
use mathlib.Core.Path.{◌≡◌, refl, ap}
use mathlib.Core.Bool.{Bool, true}
use mathlib.Core.Logic.{inl, inr}
use mathlib.Core.Option.{Option, none, some}
use mathlib.Core.List.{List, [], ◌∷◌}
use native.Mathlib.Omega.{arith}
use falco_ctf_app.Prelude.Tests.{if◌then◌else◌, is_some, Bool-cases}
use falco_ctf_app.Prelude.Keys.{Eq, ◌==◌}

abbrev pub Map {ℓ κ} : Type ℓ → Type κ → Type (ℓ ⊔ κ)
Map K V = List (K × V)

module _ {ℓ κ} {K : Type ℓ} {V : Type κ} ⦃e : Eq K⦄ where
  unfoldable pub lookup : K → Map K V → Option V
  lookup k [] = none
  lookup k ((i, v) ∷ rest) = if i == k then some v else lookup k rest

  -- m[k] = v
  unfoldable pub insert : K → V → Map K V → Map K V
  insert k v [] = (k, v) ∷ []
  insert k v ((i, old) ∷ rest) = if i == k then (k, v) ∷ rest else (i, old) ∷ insert k v rest

  -- delete(m, k)
  unfoldable pub delete : K → Map K V → Map K V
  delete k [] = []
  delete k ((j, w) ∷ m) = let rest = delete k m in if j == k then rest else (j, w) ∷ rest

  -- DELETE … WHERE p
  unfoldable pub delete_where : (K → Bool) → Map K V → Map K V
  delete_where p [] = []
  delete_where p ((j, w) ∷ m) = let rest = delete_where p m in if p j then rest else (j, w) ∷ rest

  abbrev pub has : K → Map K V → Bool
  has k m = is_some (lookup k m)

  pub lookup-empty : (k : K) → lookup k [] ≡ none
  unfolding lookup
  lookup-empty k = refl

  pub lookup-insert :
      (k j : K) (v : V) (m : Map K V)
      → lookup j (insert k v m) ≡ (if k == j then some v else lookup j m)
  unfolding lookup insert
  lookup-insert k j v [] = refl
  lookup-insert k j v ((i, old) ∷ rest) =
      ground (arith, lookup-insert k j v rest, e.beq_iff i k, e.beq_iff k j, e.beq_iff i j)

  pub has-insert :
      (k j : K) (v : V) (m : Map K V) → has j (insert k v m) ≡ (if k == j then true else has j m)
  has-insert k j v m = ground (arith, lookup-insert k j v m)

  pub lookup-delete :
      (k j : K) (m : Map K V) → lookup j (delete k m) ≡ (if k == j then none else lookup j m)
  unfolding lookup delete
  lookup-delete k j [] = ground arith
  lookup-delete k j ((i, w) ∷ m) =
      ground (arith, e.beq_iff k j, e.beq_iff i k, e.beq_iff i j, lookup-delete k j m)

  pub lookup-delete_where :
      (p : K → Bool) (j : K) (m : Map K V)
      → lookup j (delete_where p m) ≡ (if p j then none else lookup j m)
  unfolding lookup delete_where
  lookup-delete_where p j [] = ground arith
  lookup-delete_where p j ((i, w) ∷ m) = elim (Bool-cases (i == j)) [
    | inl same ↦ rw (ap p ((e.beq_iff i j).0 same)) (ground (arith, lookup-delete_where p j m))
    | inr other ↦ ground (arith, lookup-delete_where p j m)
  ]

  -- No key twice, which SQLite holds of a primary key and a Go map of its keys.
  abbrev pub Distinct : Map K V → Type (ℓ ⊔ κ)
  Distinct [] = Unit
  Distinct ((k, v) ∷ m) = (lookup k m ≡ none) × Distinct m

  pub insert-Distinct : (k : K) (v : V) (m : Map K V) → Distinct m → Distinct (insert k v m)
  unfolding insert lookup
  insert-Distinct k v [] d = (refl, tt)
  insert-Distinct k v ((j, w) ∷ m) (a, d) = elim (Bool-cases (j == k)) [
    | inl same ↦ rw same (rw ((e.beq_iff j k).0 same) at a, d)
    | inr other ↦ rw other (
      rw (lookup-insert k j v m) (ground (arith, e.beq_iff k j, e.beq_iff j k)),
      insert-Distinct k v m d,
    )
  ]

  pub delete-Distinct : (k : K) (m : Map K V) → Distinct m → Distinct (delete k m)
  unfolding delete
  delete-Distinct k [] d = tt
  delete-Distinct k ((j, w) ∷ m) (a, d) = elim (Bool-cases (j == k)) [
    | inl same ↦ rw same (delete-Distinct k m d)
    | inr other ↦
        rw other (rw (lookup-delete k j m) (ground (arith, e.beq_iff k j)), delete-Distinct k m d)
  ]

pub ruleset map_laws = (lookup-empty, lookup-insert, lookup-delete)
