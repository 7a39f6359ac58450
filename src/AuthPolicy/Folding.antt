-- ===== src/AuthPolicy/Folding.antt =====
-- The fold of a local part in internal/authpolicy/roster.go: it keeps the characters, and it is done once.
use falco_ctf_app.Prelude.{
  ℕ, Bool, true, not, ◌≡◌, refl, inl, inr, none, [], ◌∷◌, ◌++◌, all, keep, contains, arith, ◌==◌,
  nat_eq, Option-cases,
}
use falco_ctf_app.Prelude.Text.{Text, text_eq, cut, cut-join, cut_before, all-append}
use falco_ctf_app.AuthPolicy.Email.{fold_local, until_plus}

pub all_left :
    (p : ℕ → Bool) (l : Text) (c : ℕ) (d : Text) → all p (l ++ c ∷ d) ≡ true → all p l ≡ true
all_left p l c d h = ground (arith, all-append p l (c ∷ d))

pub all-keep : (p q : ℕ → Bool) (l : Text) → all p l ≡ true → all p (keep q l) ≡ true
all-keep p q [] h = refl
all-keep p q (c ∷ cs) h = ground (arith, all-keep p q cs)

pub keep_idem : (q : ℕ → Bool) (l : Text) → keep q (keep q l) ≡ keep q l
keep_idem q [] = refl
keep_idem q (c ∷ cs) = ground (arith, keep_idem q cs)

pub until_plus-chars :
    (p : ℕ → Bool) (l : Text) → all p l ≡ true → all p (until_plus (cut b'+' l) l) ≡ true
until_plus-chars p l h = elim (Option-cases (cut b'+' l)) [
  | inl whole ↦ rw whole h
  | inr ((a, b), parts) ↦ rw parts (all_left p a b'+' b (rw (cut-join b'+' l a b parts) at h))
]

pub fold_local-chars : (p : ℕ → Bool) (l : Text) → all p l ≡ true → all p (fold_local l) ≡ true
unfolding fold_local
fold_local-chars p l h = all-keep p (λ c. not (c == b'.')) _ (until_plus-chars p l h)

abbrev pub is_not : ℕ → ℕ → Bool
is_not c x = not (x == c)

pub contains-all : (c : ℕ) (l : Text) → contains l c ≡ not (all (is_not c) l)
contains-all c [] = refl
contains-all c (x ∷ xs) = ground (arith, contains-all c xs)

pub cut-none : (c : ℕ) (l : Text) → cut c l ≡ none → all (is_not c) l ≡ true
unfolding cut
cut-none c [] h = refl
cut-none c (x ∷ xs) h = ground (arith, cut-none c xs)

pub none-cut : (c : ℕ) (l : Text) → all (is_not c) l ≡ true → cut c l ≡ none
unfolding cut
none-cut c [] h = refl
none-cut c (x ∷ xs) h = ground (arith, none-cut c xs)

pub until_plus_no_plus : (l : Text) → all (is_not b'+') (until_plus (cut b'+' l) l) ≡ true
until_plus_no_plus l = elim (Option-cases (cut b'+' l)) [
  | inl whole ↦ rw whole (cut-none b'+' l whole)
  | inr ((a, b), parts) ↦
      rw parts (ground (arith, contains-all b'+' a, cut_before b'+' l a b parts))
]

pub fold_local_idem : (l : Text) → fold_local (fold_local l) ≡ fold_local l
unfolding fold_local
fold_local_idem l =
    let clean : all (is_not b'+') (fold_local l) ≡ true =
      all-keep (is_not b'+') (λ c. not (c == b'.')) (until_plus (cut b'+' l) l)
        (until_plus_no_plus l) in
    rw (none-cut b'+' (fold_local l) clean)
      (keep_idem (λ c. not (c == b'.')) (until_plus (cut b'+' l) l))
