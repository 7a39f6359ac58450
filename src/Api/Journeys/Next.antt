-- ===== src/Api/Journeys/Next.antt =====
-- The hint that a mission's page offers next, and what openHint makes of it.
use falco_ctf_app.Prelude.{
  ℕ, zero, suc, ◌+◌, ◌≤◌, ◌<◌, ◌≡◌, refl, ap, sym, ◌∙◌, inl, inr, String, string_eq, nat_eq, true,
  false, List, [], ◌∷◌, contains, ◌==◌, arith, eqb, length, Bool-cases,
}
use falco_ctf_app.Prelude.Maps.{has}
use falco_ctf_app.Store.State.{hint_eq, Store}
use falco_ctf_app.Store.Reveals.{hint_key}
use falco_ctf_app.Api.Actions.{JourneyHint, may_open}
use falco_ctf_app.Api.HintLists.{hint_views_lem}
use falco_ctf_app.Api.Journeys.{Pages, Status, hints_from, mission_detail}
use falco_ctf_app.Api.Journeys.Hints.{opened_of, hints_of, shown}

not_zero : (n : ℕ) → (suc n == 0) ≡ false
not_zero n = ground arith

-- Once found, the next index stays.
hints_from_found :
    (i : ℕ) (hints : List JourneyHint) (opened : List ℕ) (n : ℕ)
    → (hints_from i hints opened (suc n)).1 ≡ suc n
unfolding hints_from
hints_from_found i [] opened n = refl
hints_from_found i (h ∷ rest) opened n = elim (Bool-cases (contains opened i)) [
  | inl c ↦ rw c (hints_from_found (suc i) rest opened n)
  | inr c ↦ rw (c, not_zero n) (hints_from_found (suc i) rest opened n)
]

-- `n` is the first index from i on that is not opened, among `count` of them.
record IsNext (i count : ℕ) (opened : List ℕ) (n : ℕ) : Type 0 where
  from : i ≤ n
  within : n < i + count
  closed : contains opened n ≡ false
  earlier : (j : ℕ) → i ≤ j → j < n → contains opened j ≡ true

hints_from-IsNext :
    (i : ℕ) (hints : List JourneyHint) (opened : List ℕ) (n : ℕ)
    → 0 < i
    → (hints_from i hints opened 0).1 ≡ suc n
    → IsNext i (length hints) opened (suc n)
unfolding hints_from
hints_from-IsNext i [] opened n p e = absurd (ground arith)
hints_from-IsNext zero (h ∷ rest) opened n p e = absurd (omega arith)
hints_from-IsNext (suc i) (h ∷ rest) opened n p e = elim (Bool-cases (contains opened (suc i))) [
  | inl c ↦
      let x = hints_from-IsNext (suc (suc i)) rest opened n (omega arith) (rw c at e) in
      record {
        from = omega (arith, x.from);
        within = omega (arith, x.within);
        closed = x.closed;
        earlier = λ j lo hi. elim (Bool-cases (eqb (suc i) j)) [
          | inl same ↦ ap (contains opened) (sym ((nat_eq.beq_iff (suc i) j).0 same)) ∙ c
          | inr other ↦ x.earlier j (ground arith) hi
        ];
      }
  | inr c ↦
      let same : suc i ≡ suc n = sym (hints_from_found (suc (suc i)) rest opened i) ∙ (rw c at e) in
      record {
        from = omega (arith, same);
        within = omega (arith, same);
        closed = ap (contains opened) (sym same) ∙ c;
        earlier = λ j lo hi. absurd (omega (arith, same));
      }
]

openable :
    (user cid : String) (s : Store) {count : ℕ} (n : ℕ)
    → IsNext 1 count (opened_of user cid s) (suc n)
    → may_open user cid n s ≡ true
openable user cid s zero x = refl
openable user cid s (suc n) x = rw (not_zero n) (x.earlier (suc n) (omega arith) (omega arith))

module _ (p : Pages) (now : ℕ) (s : Store) (user cid : String) (status : Status) (lead : String)
    (checked : List ℕ) where
  -- The next index on a mission's page is that of a hint of the journey which the store does not
  -- hold as revealed, and openHint would not answer that another has to be opened first.
  pub next_hint :
      (n : ℕ)
      → (shown p now s user cid status lead checked).hints.next_index ≡ suc n
      → (n < length (hints_of p cid))
        × (has (hint_key user cid (suc n)) s.mem.hint_views ≡ false)
        × (may_open user cid n s ≡ true)
  unfolding mission_detail
  next_hint n e =
      let x = hints_from-IsNext 1 (hints_of p cid) (opened_of user cid s) n (omega arith) e in
      (
        omega (arith, x.within),
        sym (hint_views_lem user cid (suc n) s) ∙ x.closed,
        openable user cid s n x,
      )
