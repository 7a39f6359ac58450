-- ===== src/Api/HintLists.antt =====
-- The page's list of open hints, from HintViews of internal/store/store.go.
use falco_ctf_app.Prelude.{
  ℕ, ◌≡◌, refl, sym, ap, ◌∙◌, inl, inr, String, string_eq, nat_eq, Bool, false, ◌&&◌, ◌||◌, Option,
  none, some, List, [], ◌∷◌, ◌++◌, ◌==◌, contains, any, arith, leb, Bool-cases, if◌then◌else◌,
}
use falco_ctf_app.Prelude.Maps.{Map, lookup, lookup-insert, has, insert}
use falco_ctf_app.Prelude.Sort.{sort, any-sort}
use falco_ctf_app.Store.State.{Store, HintViewKey, hint_eq}
use falco_ctf_app.Store.Reveals.{hint_key, append_at, collect_hints, sort_each, hint_views}
use falco_ctf_app.Api.Actions.{indices}

contains-any : (xs : List ℕ) (i : ℕ) → contains xs i ≡ any (λ x. x == i) xs
contains-any [] i = refl
contains-any (x ∷ xs) i = ap (λ b. (x == i) || b) (contains-any xs i)

contains-sort : (xs : List ℕ) (i : ℕ) → contains (sort leb xs) i ≡ contains xs i
contains-sort xs i =
    contains-any (sort leb xs) i ∙ any-sort leb (λ x. x == i) xs ∙ sym (contains-any xs i)

contains-append :
    (xs ys : List ℕ) (i : ℕ) → contains (xs ++ ys) i ≡ (contains xs i || contains ys i)
contains-append [] ys i = refl
contains-append (x ∷ xs) ys i = ground (arith, contains-append xs ys i)

abbrev pub listed : Map String (List ℕ) → String → ℕ → Bool
listed out c i = contains (indices (lookup c out)) i

listed-sort_each :
    (out : Map String (List ℕ)) (c : String) (i : ℕ) → listed (sort_each out) c i ≡ listed out c i
unfolding sort_each lookup
listed-sort_each [] c i = refl
listed-sort_each ((d, idxs) ∷ out) c i = elim (Bool-cases (d == c)) [
  | inl same ↦ rw same (contains-sort idxs i)
  | inr other ↦ rw other (listed-sort_each out c i)
]

lookup-append_at :
    (d : String) (j : ℕ) (out : Map String (List ℕ)) (c : String)
    → lookup c (append_at d j out)
      ≡ (if d == c then some (indices (lookup d out) ++ j ∷ []) else lookup c out)
lookup-append_at d j out c = known (lookup d out)
  where
    known :
        (o : Option (List ℕ))
        → lookup c
            (elim o [ none ↦ insert d (j ∷ []) out | some idxs ↦ insert d (idxs ++ j ∷ []) out ])
          ≡ (if d == c then some (indices o ++ j ∷ []) else lookup c out)
    known none = lookup-insert d c (j ∷ []) out
    known (some idxs) = lookup-insert d c (idxs ++ j ∷ []) out

listed-append_at :
    (d : String) (j : ℕ) (out : Map String (List ℕ)) (c : String) (i : ℕ)
    → listed (append_at d j out) c i ≡ (listed out c i || (d == c && j == i))
listed-append_at d j out c i = elim (Bool-cases (d == c)) [
  | inr other ↦
      ap (λ o. contains (indices o) i) (lookup-append_at d j out c)
      ∙ rw other (or_false (listed out c i))
  | inl same ↦
      ap (λ o. contains (indices o) i) (lookup-append_at d j out c)
      ∙ rw (same, (string_eq.beq_iff d c).0 same)
          (contains-append (indices (lookup c out)) (j ∷ []) i
            ∙ ap (λ b. listed out c i || b) (or_self (j == i)))
]
  where
    or_false : (b : Bool) → b ≡ (b || false)
    or_false b = ground arith

    or_self : (b : Bool) → (b || false) ≡ b
    or_self b = ground arith

listed-collect_hints :
    (u : String) (m : Map HintViewKey Bool) (out : Map String (List ℕ)) (c : String) (i : ℕ)
    → listed (collect_hints u m out) c i ≡ (listed out c i || has (hint_key u c i) m)
unfolding collect_hints lookup
listed-collect_hints u [] out c i = ground arith
listed-collect_hints u ((k, v) ∷ m) out c i = elim (Bool-cases (k.user == u)) [
  | inl mine ↦
      rw (mine, listed-collect_hints u m (append_at k.challenge k.hint_idx out) c i)
        (ground (arith, listed-append_at k.challenge k.hint_idx out c i))
  | inr other ↦ rw (other, listed-collect_hints u m out c i) (ground arith)
]

-- The page's list of open hints holds exactly the hints that are stored.
pub hint_views_lem :
    (u c : String) (i : ℕ) (s : Store)
    → listed (hint_views u s) c i ≡ has (hint_key u c i) s.mem.hint_views
unfolding hint_views lookup
hint_views_lem u c i s =
    listed-sort_each (collect_hints u s.mem.hint_views []) c i
    ∙ listed-collect_hints u s.mem.hint_views [] c i
