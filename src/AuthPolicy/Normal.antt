-- ===== src/AuthPolicy/Normal.antt =====
-- What NormalizeEmail of internal/authpolicy/roster.go gives, and that it gives it again.
use falco_ctf_app.Prelude.{
  false, not, ◌||◌, ◌≡◌, refl, sym, ap, ◌∙◌, inl, inr, Option, some, List, ◌∷◌, ◌++◌, map, contains,
  arith, nat_eq, Bool-cases, Option-cases,
}
use falco_ctf_app.Prelude.Results.{Result-cases}
use falco_ctf_app.Prelude.Text.{
  Text, text, text_eq, is_empty, trim_space, lower, cut, cut-join, cut_before, split,
}
use falco_ctf_app.Identity.Domain.{is_plain_ascii, normalize_domain, split_email, canonical}
use falco_ctf_app.AuthPolicy.Email.{
  google_mail_domains, fold_local, fold_email, normalize_email, normalize_email_with,
}
use falco_ctf_app.AuthPolicy.Parts.{
  is_lowered, is_part_char, NormalLocal, NormalDomain, lowered_part, map-lower_lowered,
  normalize_domain-NormalDomain, normalize_email_canonical,
}
use falco_ctf_app.AuthPolicy.Folding.{all_left, fold_local-chars, fold_local_idem}

split_email-parts :
    (s l d : Text)
    → split_email s ≡ some (l, d)
    → (s ≡ l ++ b'@' ∷ d)
      × (contains l b'@' ≡ false)
      × (contains d b'@' ≡ false)
      × (is_empty l ≡ false)
unfolding split_email
split_email-parts s l d h = elim (Option-cases (cut b'@' s)) [
  | inl whole ↦ absurd (ground (arith, rw (whole, split_email) at h))
  | inr ((a, b), parts) ↦
      let at_a = cut_before b'@' s a b parts in
      let joined = cut-join b'@' s a b parts in
      elim (Bool-cases (is_empty a || contains b b'@' || is_empty b)) [
        | inl bad ↦ absurd (ground (arith, rw (parts, split_email, bad) at h))
        | inr good ↦
            let same : Path (Option (Text × Text)) (some (a, b)) (some (l, d)) =
              rw (parts, split_email, good) at h in
            let (left, right) = pair_inj a l b d same in
            rw (← left, ← right) (joined, at_a, ground (arith, good), ground (arith, good))
      ]
]
  where
    pair_inj :
        (a l b d : Text)
        → Path (Option (Text × Text)) (some (a, b)) (some (l, d))
        → (a ≡ l) × (b ≡ d)
    pair_inj a l b d same = (cc, cc)

-- The parts of an email before the fold.
pub record Parts (folded : List Text) (n : Text) : Type 0 where
  pub local : Text
  pub domain : Text
  pub normal_local : NormalLocal local
  pub normal_domain : NormalDomain domain
  pub folds : fold_email folded local domain ≡ some n

normalize_email-Parts :
    (folded : List Text) (e : Text) {n : Text}
    → normalize_email_with folded e ≡ some n
    → Parts folded n
unfolding normalize_email_with
normalize_email-Parts folded e {n} h =
    let t = trim_space e in
    elim (Bool-cases (is_empty t || not (is_plain_ascii t))) [
      | inl bad ↦ absurd (ground (arith, rw bad at h))
      | inr good ↦ elim (Option-cases (split_email (map lower t))) [
        | inl shapeless ↦ absurd (ground (arith, rw (good, shapeless) at h))
        | inr ((l, d), parts) ↦ elim (Result-cases (normalize_domain d)) [
          | inr (x, bad) ↦ absurd (ground (arith, rw (good, parts, bad) at h))
          | inl (dom, fine) ↦
              let (joined, no_at, _, filled) = split_email-parts (map lower t) l d parts in
              let lowered = map-lower_lowered t (ground (arith, good)) in
              record {
                local = l;
                domain = dom;
                normal_local = record {
                  chars =
                      lowered_part l (all_left is_lowered l b'@' d (rw joined at lowered)) no_at;
                  filled = filled;
                };
                normal_domain = normalize_domain-NormalDomain d fine;
                folds = rw (good, parts, fine) at h;
              }
        ]
      ]
    ]

gmail-NormalDomain : NormalDomain (text "gmail.com")
unfolding split
gmail-NormalDomain = record { chars = refl; filled = refl; labels = refl }

-- NormalizeEmail gives a normal email: given to NormalizeEmail again, it comes back unchanged.
pub normalize_email_idem :
    (e : Text) {n : Text} → normalize_email e ≡ some n → normalize_email n ≡ some n
normalize_email_idem e {n} h =
    let p = normalize_email-Parts google_mail_domains e h in
    elim (Bool-cases (contains google_mail_domains p.domain)) [
      | inr other ↦
          let spelled : canonical p.local p.domain ≡ n = some_inj (rw other at p.folds) in
          rw (← spelled) (
            normalize_email_canonical google_mail_domains p.local p.domain p.normal_local
              p.normal_domain
            ∙ p.folds
            ∙ ap some (sym spelled))
      | inl google ↦ elim (Bool-cases (is_empty (fold_local p.local))) [
        | inl nothing ↦ absurd (ground (arith, rw (google, nothing) at p.folds))
        | inr filled ↦
            let l = fold_local p.local in
            let spelled : canonical l (text "gmail.com") ≡ n =
              some_inj (rw (google, filled) at p.folds) in
            let chars = fold_local-chars is_part_char p.local p.normal_local.chars in
            rw (← spelled) (
              normalize_email_canonical google_mail_domains l (text "gmail.com")
                (record { chars = chars; filled = filled }) gmail-NormalDomain
              ∙ rw (fold_local_idem p.local, filled) refl)
      ]
    ]
  where
    some_inj : {a b : Text} → Path (Option Text) (some a) (some b) → a ≡ b
    some_inj h = cc
