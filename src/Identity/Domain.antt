-- ===== src/Identity/Domain.antt =====
-- internal/identity/identity.go: the domains, the canonical form and the startup check that
-- auth-policy and the scoreboard share.
use falco_ctf_app.Prelude.{
  ℕ, suc, Bool, not, ◌||◌, Option, none, some, List, [], ◌∷◌, ◌++◌, map, all, any, contains, nat_eq,
  if◌then◌else◌,
}
use falco_ctf_app.Prelude.Results.{Result, ok, err}
use falco_ctf_app.Prelude.Text.{
  Text, text, text_eq, is_empty, is_plain, trim_space, lower, cut, split, after_last,
}

abbrev pub reserved_labels : List Text
reserved_labels =
    text "local" ∷ text "test" ∷ text "invalid" ∷ text "example" ∷ text "localhost" ∷ []

-- IsPlainASCII. A code point above 127 has bytes above 127 alone.
abbrev pub is_plain_ascii : Text → Bool
is_plain_ascii s = all is_plain s

pub data DomainError : Type 0 where
  domain_empty domain_not_ascii domain_has_at domain_empty_label domain_not_reserved : DomainError

abbrev pub check_labels : Text → Result DomainError Text
check_labels d =
    if contains d b'@'
    then err domain_has_at
    else if any is_empty (split b'.' d)
    then err domain_empty_label
    else ok d

abbrev pub trimmed_domain : Text → Result DomainError Text
trimmed_domain d =
    if is_empty d
    then err domain_empty
    else if not (is_plain_ascii d)
    then err domain_not_ascii
    else check_labels (map lower d)

unfoldable pub normalize_domain : Text → Result DomainError Text
normalize_domain d = trimmed_domain (trim_space d)

unfoldable pub check_reserved_domain : Text → Bool
check_reserved_domain d = contains reserved_labels (after_last b'.' d)

unfoldable pub canonical : Text → Text → Text
canonical seat domain = seat ++ b'@' ∷ domain

-- The tests on the only '@': one, with something before it and something after it.
unfoldable pub split_email : Text → Option (Text × Text)
split_email e = elim (cut b'@' e) [
  | none ↦ none
  | some (local, domain) ↦
      if is_empty local || contains domain b'@' || is_empty domain
      then none
      else some (local, domain)
]

-- The defect of an entry; the source says its position beside it.
pub data AdminDefect : Type 0 where
  admin_not_ascii admin_shape admin_domain admin_not_reserved : AdminDefect

abbrev pub admin_domain_check : Text → Result DomainError Text → Result AdminDefect Text
admin_domain_check e (err _) = err admin_domain
admin_domain_check e (ok d) = if check_reserved_domain d then ok e else err admin_not_reserved

abbrev pub admin_entry : Text → Result AdminDefect Text
admin_entry e =
    if not (is_plain_ascii e) then err admin_not_ascii else elim (split_email (map lower e)) [
      | none ↦ err admin_shape
      | some (local, domain) ↦ admin_domain_check (map lower e) (normalize_domain domain)
    ]

abbrev pub cons_admin :
    ℕ
    → Result AdminDefect Text
    → Result (ℕ × AdminDefect) (List Text)
    → Result (ℕ × AdminDefect) (List Text)
cons_admin i (err defect) rest = err (i, defect)
cons_admin i (ok e) (err bad) = err bad
cons_admin i (ok e) (ok es) = ok (e ∷ es)

-- The loop from position i; the first bad entry is the error.
unfoldable pub normalize_admins : ℕ → List Text → Result (ℕ × AdminDefect) (List Text)
normalize_admins i [] = ok []
normalize_admins i (raw ∷ rest) =
    let e = trim_space raw in
    let more = normalize_admins (suc i) rest in
    if is_empty e then more else cons_admin i (admin_entry e) more

unfoldable pub normalize_admin_emails : List Text → Result (ℕ × AdminDefect) (List Text)
normalize_admin_emails raw = normalize_admins 0 raw

pub record Config : Type 0 where
  pub domain : Text
  pub admins : List Text

pub data ConfigError : Type 0 where
  no_domain : ConfigError
  bad_domain : DomainError → ConfigError
  bad_admin : ℕ × AdminDefect → ConfigError

abbrev pub reserved_or_error : Result DomainError Text → Result ConfigError Text
reserved_or_error (err e) = err (bad_domain e)
reserved_or_error (ok d) =
    if check_reserved_domain d then ok d else err (bad_domain domain_not_reserved)

abbrev pub configured_domain : Text → Bool → Result ConfigError Text
configured_domain domain allow_empty =
    if is_empty (trim_space domain)
    then (if allow_empty then ok [] else err no_domain)
    else reserved_or_error (normalize_domain domain)

abbrev pub with_admins : Text → Result (ℕ × AdminDefect) (List Text) → Result ConfigError Config
with_admins d (err e) = err (bad_admin e)
with_admins d (ok admins) = ok (record { domain = d; admins = admins })

unfoldable pub validate : Text → List Text → Bool → Result ConfigError Config
validate domain admins allow_empty = elim (configured_domain domain allow_empty) [
  | err e ↦ err e
  | ok d ↦ with_admins d (normalize_admin_emails admins)
]
