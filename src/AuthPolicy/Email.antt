-- ===== src/AuthPolicy/Email.antt =====
-- The one email normaliser of internal/authpolicy/roster.go.
use falco_ctf_app.Prelude.{
  not, ◌||◌, Option, none, some, List, [], ◌∷◌, map, keep, contains, ◌==◌, nat_eq, if◌then◌else◌,
}
use falco_ctf_app.Prelude.Results.{Result, ok, err}
use falco_ctf_app.Prelude.Text.{Text, text, text_eq, is_empty, trim_space, lower, cut}
use falco_ctf_app.Identity.Domain.{
  DomainError, is_plain_ascii, split_email, normalize_domain, canonical,
}

abbrev pub google_mail_domains : List Text
google_mail_domains = text "gmail.com" ∷ text "googlemail.com" ∷ []

-- folded[0], which is read only where the list has an element.
abbrev pub first_of : List Text → Text
first_of [] = []
first_of (d ∷ _) = d

abbrev pub until_plus : Option (Text × Text) → Text → Text
until_plus none local = local
until_plus (some (before, _)) local = before

-- The local part without its `+tag` and its dots.
unfoldable pub fold_local : Text → Text
fold_local local = keep (λ c. not (c == b'.')) (until_plus (cut b'+' local) local)

abbrev pub fold_email : List Text → Text → Text → Option Text
fold_email folded local dom =
    if contains folded dom
    then (let folded_local = fold_local local in
        if is_empty folded_local then none else some (canonical folded_local (first_of folded)))
    else some (canonical local dom)

abbrev pub with_domain : List Text → Text → Result DomainError Text → Option Text
with_domain folded local (err _) = none
with_domain folded local (ok dom) = fold_email folded local dom

abbrev pub lowered_email : List Text → Option (Text × Text) → Option Text
lowered_email folded none = none
lowered_email folded (some (local, domain)) = with_domain folded local (normalize_domain domain)

abbrev pub trimmed_email : List Text → Text → Option Text
trimmed_email folded s =
    if is_empty s || not (is_plain_ascii s)
    then none
    else lowered_email folded (split_email (map lower s))

unfoldable pub normalize_email_with : List Text → Text → Option Text
normalize_email_with folded s = trimmed_email folded (trim_space s)

-- NormalizeEmail
abbrev pub normalize_email : Text → Option Text
normalize_email s = normalize_email_with google_mail_domains s
