-- ===== src/Api/Journeys/Hints.antt =====
-- Which hints the page of a mission shows, and which it offers to open next.
use falco_ctf_app.Prelude.{
  ℕ, suc, ◌+◌, ◌-◌, ◌≡◌, refl, ap, ◌∙◌, inl, inr, String, string_eq, nat_eq, Bool, true, ◌&&◌,
  Option, none, some, List, [], ◌∷◌, any, all, contains, ◌==◌, arith, eqb, ltb, leb, length,
  if◌then◌else◌, Bool-cases,
}
use falco_ctf_app.Prelude.Maps.{lookup, has}
use falco_ctf_app.Prelude.Sort.{any-sort, all-sort}
use falco_ctf_app.Store.State.{hint_eq, Store}
use falco_ctf_app.Store.Reveals.{hint_key, hint_views}
use falco_ctf_app.Api.Actions.{JourneyHint, indices, nth_of}
use falco_ctf_app.Api.HintLists.{hint_views_lem}
use falco_ctf_app.Api.Journeys.{
  Pages, Status, HintView, MissionDetail, hint_view, hints_from, idx_le, journey_of, mission_detail,
}

abbrev pub is_hint : ℕ → HintView → Bool
is_hint k v = eqb v.idx k

any-hints_from :
    (i : ℕ) (hints : List JourneyHint) (opened : List ℕ) (next k : ℕ)
    → any (is_hint k) (hints_from i hints opened next).0
      ≡ (leb i k && ltb k (i + length hints) && contains opened k)
unfolding hints_from
any-hints_from i [] opened next k = ground arith
any-hints_from i (h ∷ rest) opened next k = elim (Bool-cases (contains opened i)) [
  | inl c ↦ rw c (elim (Bool-cases (eqb i k)) [
    | inl same ↦ ground (arith, ap (contains opened) ((nat_eq.beq_iff i k).0 same))
    | inr other ↦ ground (arith, any-hints_from (suc i) rest opened next k)
  ])
  | inr c ↦ rw c (elim (Bool-cases (eqb i k)) [
    | inl same ↦ ground (
      arith,
      ap (contains opened) ((nat_eq.beq_iff i k).0 same),
      any-hints_from (suc i) rest opened (if next == 0 then i else next) k,
    )
    | inr other ↦
        ground (arith, any-hints_from (suc i) rest opened (if next == 0 then i else next) k)
  ])
]

abbrev pub text_of : Option JourneyHint → String
text_of none = ""
text_of (some h) = h.text

-- A view at index i or later of the hints that begin at i, with the text of its hint.
abbrev pub quotes : ℕ → List JourneyHint → HintView → Bool
quotes i hints v = leb i v.idx && v.text == text_of (nth_of (v.idx - i) hints)

quotes-cons :
    (i : ℕ) (h : JourneyHint) (rest : List JourneyHint) (v : HintView)
    → quotes (suc i) rest v ≡ true
    → quotes i (h ∷ rest) v ≡ true
quotes-cons i h rest v q =
    let e : v.idx - i ≡ suc (v.idx - suc i) = ground arith in rw e (ground arith)

all-quotes-cons :
    (i : ℕ) (h : JourneyHint) (rest : List JourneyHint) (vs : List HintView)
    → all (quotes (suc i) rest) vs ≡ true
    → all (quotes i (h ∷ rest)) vs ≡ true
all-quotes-cons i h rest [] q = refl
all-quotes-cons i h rest (v ∷ vs) q =
    ground (arith, quotes-cons i h rest v, all-quotes-cons i h rest vs)

quotes_self :
    (i : ℕ) (h : JourneyHint) (rest : List JourneyHint) → quotes i (h ∷ rest) (hint_view i h) ≡ true
quotes_self i h rest =
    let e : i - i ≡ 0 = omega arith in rw e (ground (arith, string_eq.beq_iff h.text h.text))

all-quotes-hints_from :
    (i : ℕ) (hints : List JourneyHint) (opened : List ℕ) (next : ℕ)
    → all (quotes i hints) (hints_from i hints opened next).0 ≡ true
unfolding hints_from
all-quotes-hints_from i [] opened next = refl
all-quotes-hints_from i (h ∷ rest) opened next = elim (Bool-cases (contains opened i)) [
  | inl c ↦ rw c (
      ground (
        arith,
        quotes_self i h rest,
        all-quotes-cons i h rest _ (all-quotes-hints_from (suc i) rest opened next),
      ))
  | inr c ↦ rw c (all-quotes-cons i h rest _ (all-quotes-hints_from (suc i) rest opened _))
]

-- The detail of a mission with what the store has opened of its hints.
abbrev pub opened_of : String → String → Store → List ℕ
opened_of user cid s = indices (lookup cid (hint_views user s))

abbrev pub hints_of : Pages → String → List JourneyHint
hints_of p cid = (journey_of (lookup cid p.journeys)).hints

module _ (p : Pages) (now : ℕ) (s : Store) (user cid : String) (status : Status) (lead : String)
    (checked : List ℕ) where
  abbrev pub shown : MissionDetail
  shown = mission_detail p now s user cid status lead checked (opened_of user cid s)

  -- Hint k of a mission's journey is on its page exactly when the store holds that this user has
  -- revealed it, whatever the status of the mission, and each hint on the page has the text of the
  -- journey's hint of that index.
  pub shown_hints :
      (k : ℕ)
      → (any (is_hint k) shown.hints.opened ≡ (
          leb 1 k && leb k (length (hints_of p cid)) && has (hint_key user cid k) s.mem.hint_views))
        × (all (quotes 1 (hints_of p cid)) shown.hints.opened ≡ true)
  unfolding mission_detail
  shown_hints k = (
    any-sort idx_le (is_hint k) _
        ∙ any-hints_from 1 (hints_of p cid) (opened_of user cid s) 0 k
        ∙ ground (arith, hint_views_lem user cid k s),
    all-sort idx_le (quotes 1 (hints_of p cid)) _
        ∙ all-quotes-hints_from 1 (hints_of p cid) (opened_of user cid s) 0,
  )
