-- ===== src/AuthPolicy/Parts.antt =====
-- The two parts of a normal email of internal/authpolicy/roster.go, and what the normaliser makes of them.
use falco_ctf_app.Prelude.{
  ℕ, Bool, true, false, not, ◌&&◌, ◌≡◌, refl, ap, subst, inl, inr, some, List, [], ◌∷◌, map, all,
  any, contains, arith, ◌==◌, nat_eq, leb, Bool-cases,
}
use falco_ctf_app.Prelude.Results.{ok, ok_inj}
use falco_ctf_app.Prelude.Text.{
  Text, text_eq, is_empty, is_plain, trim_space, trim_space_plain, lower, join-cut, split,
  all-append,
}
use falco_ctf_app.Identity.Domain.{is_plain_ascii, normalize_domain, split_email, canonical}
use falco_ctf_app.AuthPolicy.Email.{fold_email, normalize_email_with}

-- A character of a normal email other than its '@': printable, and no capital.
abbrev pub is_lowered : ℕ → Bool
is_lowered c = is_plain c && not (leb b'A' c && leb c b'Z')

abbrev pub is_part_char : ℕ → Bool
is_part_char c = is_lowered c && not (c == b'@')

pub record NormalLocal (l : Text) : Type 0 where
  pub chars : all is_part_char l ≡ true
  pub filled : is_empty l ≡ false

pub record NormalDomain (d : Text) : Type 0 where
  pub chars : all is_part_char d ≡ true
  pub filled : is_empty d ≡ false
  pub labels : any is_empty (split b'.' d) ≡ false

pub part_plain : (l : Text) → all is_part_char l ≡ true → all is_plain l ≡ true
part_plain [] h = refl
part_plain (c ∷ cs) h = ground (arith, part_plain cs)

pub part_lower : (l : Text) → all is_part_char l ≡ true → map lower l ≡ l
unfolding lower
part_lower [] h = refl
part_lower (c ∷ cs) h = ground (arith, part_lower cs)

pub part_no_at : (l : Text) → all is_part_char l ≡ true → contains l b'@' ≡ false
part_no_at [] h = refl
part_no_at (c ∷ cs) h = ground (arith, part_no_at cs)

pub lowered_part :
    (l : Text) → all is_lowered l ≡ true → contains l b'@' ≡ false → all is_part_char l ≡ true
lowered_part [] h k = refl
lowered_part (c ∷ cs) h k = ground (arith, lowered_part cs)

pub map-lower_lowered : (s : Text) → all is_plain s ≡ true → all is_lowered (map lower s) ≡ true
unfolding lower
map-lower_lowered [] h = refl
map-lower_lowered (c ∷ cs) h = ground (arith, map-lower_lowered cs)

pub normalize_domain-NormalDomain :
    (x : Text) {d : Text} → normalize_domain x ≡ ok d → NormalDomain d
unfolding normalize_domain
normalize_domain-NormalDomain x h =
    let t = trim_space x in
    elim (Bool-cases (is_empty t)) [
      | inl blank ↦ absurd (ground (arith, rw blank at h))
      | inr filled ↦ elim (Bool-cases (is_plain_ascii t)) [
        | inr odd ↦ absurd (ground (arith, rw (filled, odd) at h))
        | inl plain ↦ elim (Bool-cases (contains (map lower t) b'@')) [
          | inl at ↦ absurd (ground (arith, rw (filled, plain, at) at h))
          | inr one ↦ elim (Bool-cases (any is_empty (split b'.' (map lower t)))) [
            | inl hole ↦ absurd (ground (arith, rw (filled, plain, one, hole) at h))
            | inr labels ↦
                subst NormalDomain (ok_inj (rw (filled, plain, one, labels) at h)) (record {
                  chars = lowered_part (map lower t) (map-lower_lowered t plain) one;
                  filled = map_filled t filled;
                  labels = labels;
                })
          ]
        ]
      ]
    ]
  where
    map_filled : (s : Text) → is_empty s ≡ false → is_empty (map lower s) ≡ false
    map_filled [] h = h
    map_filled (c ∷ cs) h = refl

pub NormalDomain-normalize_domain : (d : Text) → NormalDomain d → normalize_domain d ≡ ok d
unfolding normalize_domain
NormalDomain-normalize_domain d n =
    let plain = part_plain d n.chars in
    rw
      (
        trim_space_plain d plain,
        n.filled,
        plain,
        part_lower d n.chars,
        part_no_at d n.chars,
        n.labels,
      )
      refl

pub part_join :
    (l d : Text)
    → all is_part_char l ≡ true
    → all is_part_char d ≡ true
    → all is_plain (canonical l d) ≡ true
unfolding canonical
part_join l d h k = rw (all-append is_plain l (b'@' ∷ d), part_plain l h, part_plain d k) refl

pub lower_join :
    (l d : Text)
    → all is_part_char l ≡ true
    → all is_part_char d ≡ true
    → map lower (canonical l d) ≡ canonical l d
unfolding canonical lower
lower_join [] d h k = ap (λ x. b'@' ∷ x) (part_lower d k)
lower_join (c ∷ cs) d h k = ground (arith, lower_join cs d)

pub canonical_filled : (l d : Text) → is_empty (canonical l d) ≡ false
unfolding canonical
canonical_filled [] d = refl
canonical_filled (c ∷ cs) d = refl

pub split_email-canonical :
    (l d : Text) → NormalLocal l → NormalDomain d → split_email (canonical l d) ≡ some (l, d)
unfolding split_email canonical
split_email-canonical l d n m =
    rw
      (
        join-cut b'@' l d (part_no_at l n.chars),
        split_email,
        n.filled,
        part_no_at d m.chars,
        m.filled,
      )
      refl

-- A normal email is only folded again.
pub normalize_email_canonical :
    (folded : List Text) (l d : Text)
    → NormalLocal l
    → NormalDomain d
    → normalize_email_with folded (canonical l d) ≡ fold_email folded l d
unfolding normalize_email_with
normalize_email_canonical folded l d n m =
    let plain = part_join l d n.chars m.chars in
    rw
      (
        trim_space_plain (canonical l d) plain,
        canonical_filled l d,
        plain,
        lower_join l d n.chars m.chars,
        split_email-canonical l d n m,
        NormalDomain-normalize_domain d m,
      )
      refl
