-- ===== src/Api/HintMap.antt =====
-- The map of open hints, when hints open in order.
use falco_ctf_app.Prelude.{
  ℕ, suc, ◌≤◌, ◌≡◌, refl, sym, ap, ◌∙◌, inl, inr, String, string_eq, nat_eq, Bool, true, false,
  ◌||◌, ◌==◌, contains, arith, Bool-cases, if◌then◌else◌,
}
use falco_ctf_app.Prelude.Maps.{Map, lookup, has, has-insert, insert}
use falco_ctf_app.Store.State.{Store, HintViewKey, hint_eq}
use falco_ctf_app.Store.Reveals.{hint_key, hint_views}
use falco_ctf_app.Api.Actions.{indices}
use falco_ctf_app.Api.HintLists.{hint_views_lem}

-- Hint i of the challenge is open for the user, as HintViews lists it.
abbrev pub is_open : String → String → ℕ → Store → Bool
is_open u c i s = contains (indices (lookup c (hint_views u s))) i

-- With a hint, every earlier one is open.
pub record OpenedInOrder (s : Store) : Type 0 where
  pub earlier :
      (u c : String) (i j : ℕ) → 1 ≤ j → j ≤ i → is_open u c i s ≡ true → is_open u c j s ≡ true

-- The same of the map that the store keeps.
pub record Ordered (m : Map HintViewKey Bool) : Type 0 where
  pub earlier :
      (u c : String) (i j : ℕ)
      → 1 ≤ j
      → j ≤ i
      → has (hint_key u c i) m ≡ true
      → has (hint_key u c j) m ≡ true

pub Ordered-of : (s : Store) → OpenedInOrder s → Ordered s.mem.hint_views
Ordered-of s o = record {
  earlier = λ u c i j lo hi h.
      sym (hint_views_lem u c j s) ∙ o.earlier u c i j lo hi (hint_views_lem u c i s ∙ h);
}

pub OpenedInOrder-of : (s : Store) → Ordered s.mem.hint_views → OpenedInOrder s
OpenedInOrder-of s o = record {
  earlier = λ u c i j lo hi h.
      hint_views_lem u c j s ∙ o.earlier u c i j lo hi (sym (hint_views_lem u c i s) ∙ h);
}

-- Up to the new hint: the new one itself, or one that the hint before it carries.
upto_new :
    (v d : String) (n j : ℕ) (m : Map HintViewKey Bool)
    → Ordered m
    → (n == 0 || has (hint_key v d n) m) ≡ true
    → 1 ≤ j
    → j ≤ suc n
    → has (hint_key v d j) (insert (hint_key v d (suc n)) true m) ≡ true
upto_new v d n j m o next lo hi =
    has-insert (hint_key v d (suc n)) (hint_key v d j) true m
    ∙ elim (Bool-cases (hint_key v d (suc n) == hint_key v d j)) [
      | inl new ↦ rw new refl
      | inr old ↦ rw old (o.earlier v d n j lo (omega (arith, below old)) (later old))
    ]
  where
    below : (hint_key v d (suc n) == hint_key v d j) ≡ false → j ≤ n
    below old = ground (arith, string_eq.beq_iff v v, string_eq.beq_iff d d)

    later : (hint_key v d (suc n) == hint_key v d j) ≡ false → has (hint_key v d n) m ≡ true
    later old = let low = below old in ground arith

pub insert-Ordered :
    (v d : String) (n : ℕ) (m : Map HintViewKey Bool)
    → Ordered m
    → (n == 0 || has (hint_key v d n) m) ≡ true
    → Ordered (insert (hint_key v d (suc n)) true m)
insert-Ordered v d n m o next = record {
  earlier = λ u c i j lo hi h.
      let before = has-insert (hint_key v d (suc n)) (hint_key u c i) true m in
      elim (Bool-cases (hint_key v d (suc n) == hint_key u c i)) [
        | inr other ↦
            has-insert (hint_key v d (suc n)) (hint_key u c j) true m
            ∙ kept (hint_key v d (suc n) == hint_key u c j)
                (o.earlier u c i j lo hi (sym (rw other at before) ∙ h))
        | inl same ↦
            let key = (hint_eq.beq_iff (hint_key v d (suc n)) (hint_key u c i)).0 same in
            let user : v ≡ u = ap (λ k. k.user) key in
            let mission : d ≡ c = ap (λ k. k.challenge) key in
            let index : suc n ≡ i = ap (λ k. k.hint_idx) key in
            rw⁻¹ (user, mission) (upto_new v d n j m o next lo (omega (arith, index, hi)))
      ];
}
  where
    kept : (b : Bool) {x : Bool} → x ≡ true → (if b then true else x) ≡ true
    kept true e = refl
    kept false e = e
