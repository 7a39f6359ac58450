-- ===== src/Api/Leaderboard/Latest.antt =====
-- The solves of a row of the standings: their number and the time of the latest.
use falco_ctf_app.Prelude.{
  ℕ, ◌+◌, ◌≡◌, ◌≢◌, ◌⊎◌, refl, sym, ◌∙◌, inl, inr, String, string_eq, Bool, true, not, ◌&&◌, ◌||◌,
  List, [], ◌∷◌, any, all, ◌==◌, arith, length, if◌then◌else◌, Bool-cases,
}
use falco_ctf_app.Prelude.Maps.{Map}
use falco_ctf_app.Prelude.Sort.{string_le}
use falco_ctf_app.Prelude.Order.{string_le_total, string_le_trans, string_le-empty}
use falco_ctf_app.Store.State.{SolveKey}
use falco_ctf_app.Api.Leaderboard.{solves_of, latest_from, or_last}
use falco_ctf_app.Api.Leaderboard.Rows.{counts_for}

abbrev pub count_where : {A : Type 0} → (A → Bool) → List A → ℕ
count_where p [] = 0
count_where p (x ∷ xs) = (if p x then 1 else 0) + count_where p xs

-- No solve that counts is later, and the time is that of one that counts; or it is 9999, and no
-- solve that counts has a time.
pub record IsLastSolve (ids : List String) (u : String) (m : Map SolveKey String) (at : String)
    : Type 0 where
  pub latest : all (λ e. not (counts_for ids u e) || string_le e.1 at) m ≡ true
  pub given :
      ((any (λ e. counts_for ids u e && e.1 == at) m ≡ true) × (at ≢ ""))
      ⊎ ((at ≡ "9999") × (all (λ e. not (counts_for ids u e) || e.1 == "") m ≡ true))

pub length-solves_of :
    (ids : List String) (u : String) (m : Map SolveKey String)
    → length (solves_of ids u m) ≡ count_where (counts_for ids u) m
unfolding solves_of
length-solves_of ids u [] = refl
length-solves_of ids u ((k, at) ∷ m) = ground (arith, length-solves_of ids u m)

-- A test of the times of these solves is one of the times of the solves that count.
all-solves_of :
    (q : String → Bool) (ids : List String) (u : String) (m : Map SolveKey String)
    → all (λ p. q p.1) (solves_of ids u m) ≡ all (λ e. not (counts_for ids u e) || q e.1) m
unfolding solves_of
all-solves_of q ids u [] = refl
all-solves_of q ids u ((k, at) ∷ m) = ground (arith, all-solves_of q ids u m)

any-solves_of :
    (q : String → Bool) (ids : List String) (u : String) (m : Map SolveKey String)
    → any (λ p. q p.1) (solves_of ids u m) ≡ any (λ e. counts_for ids u e && q e.1) m
unfolding solves_of
any-solves_of q ids u [] = refl
any-solves_of q ids u ((k, at) ∷ m) = ground (arith, any-solves_of q ids u m)

all-weaker :
    (p q : String → Bool)
    → ((at : String) → p at ≡ true → q at ≡ true)
    → (xs : List (String × String)) → all (λ x. p x.1) xs ≡ true
    → all (λ x. q x.1) xs ≡ true
all-weaker p q f [] h = refl
all-weaker p q f (x ∷ xs) h = ground (arith, f x.1, all-weaker p q f xs)

abbrev later : String → String → String
later latest at = if not (string_le at latest) then at else latest

later_left : (latest at : String) → string_le latest (later latest at) ≡ true
later_left latest at = ground (arith, string_le_total latest at, string_le_total latest latest)

later_right : (latest at : String) → string_le at (later latest at) ≡ true
later_right latest at = ground (arith, string_le_total at at)

latest_from_first :
    (latest : String) (xs : List (String × String))
    → string_le latest (latest_from latest xs) ≡ true
unfolding latest_from
latest_from_first latest [] = ground (arith, string_le_total latest latest)
latest_from_first latest ((c, at) ∷ xs) =
    string_le_trans _ _ _ (later_left latest at) (latest_from_first (later latest at) xs)

latest_from_rest :
    (latest : String) (xs : List (String × String))
    → all (λ x. string_le x.1 (latest_from latest xs)) xs ≡ true
unfolding latest_from
latest_from_rest latest [] = refl
latest_from_rest latest ((c, at) ∷ xs) =
    let first =
      string_le_trans _ _ _ (later_right latest at) (latest_from_first (later latest at) xs) in
    let rest = latest_from_rest (later latest at) xs in rw (first, rest) refl

true-|| : (b c : Bool) → c ≡ true → (b || c) ≡ true
true-|| b c h = ground arith

||-true : (b c : Bool) → b ≡ true → (b || c) ≡ true
||-true b c h = ground arith

latest_from_given :
    (end latest : String) (xs : List (String × String))
    → latest_from latest xs ≡ end
    → (end ≡ latest) ⊎ (any (λ x. x.1 == end) xs ≡ true)
unfolding latest_from
latest_from_given end latest [] h = inl (sym h)
latest_from_given end latest ((c, at) ∷ xs) h =
    elim (latest_from_given end (later latest at) xs h) [
      | inr found ↦ inr (true-|| (at == end) _ found)
      | inl same ↦ elim (Bool-cases (string_le at latest)) [
        | inl e ↦ inl (rw e at same)
        | inr e ↦ inr (||-true _ _ ((string_eq.beq_iff at end).1 (sym (rw e at same))))
      ]
    ]

no_time : (at : String) → string_le at "" ≡ true → (at == "") ≡ true
no_time at h = (string_eq.beq_iff at "").1 (string_le-empty at h)

before_9999 : (at : String) → string_le at "" ≡ true → string_le at "9999" ≡ true
before_9999 at h = string_le_trans at "" "9999" h refl

pub latest-IsLastSolve :
    (ids : List String) (u : String) (m : Map SolveKey String)
    → IsLastSolve ids u m (or_last (latest_from "" (solves_of ids u m)))
latest-IsLastSolve ids u m = elim (Bool-cases (last == "")) [
  | inl e ↦
      let none_later = rw ((string_eq.beq_iff last "").0 e) at (latest_from_rest "" xs) in
      rw e (record {
        latest =
            sym (all-solves_of (λ at. string_le at "9999") ids u m)
            ∙ all-weaker (λ at. string_le at "") (λ at. string_le at "9999") before_9999 xs
                none_later;
        given = inr (
          refl,
          sym (all-solves_of (λ at. at == "") ids u m)
              ∙ all-weaker (λ at. string_le at "") (λ at. at == "") no_time xs none_later,
        );
      })
  | inr e ↦
      let timed : last ≢ "" = λ q. absurd (ground (arith, e, (string_eq.beq_iff last "").1 q)) in
      rw e (record {
        latest = sym (all-solves_of (λ at. string_le at last) ids u m) ∙ latest_from_rest "" xs;
        given = inl (
          elim (latest_from_given last "" xs refl) [
            | inl first ↦ absurd (timed first)
            | inr found ↦ sym (any-solves_of (λ at. at == last) ids u m) ∙ found
          ],
          timed,
        );
      })
]
  where
    xs : List (String × String)
    xs = solves_of ids u m

    last : String
    last = latest_from "" xs
