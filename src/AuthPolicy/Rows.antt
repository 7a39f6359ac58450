-- ===== src/AuthPolicy/Rows.antt =====
-- What a row that internal/authpolicy/roster.go accepts does to the roster.
use falco_ctf_app.Prelude.{
  ℕ, suc, true, false, ◌≡◌, ◌⊎◌, refl, ap, ◌∙◌, inl, inr, some, List, [], ◌∷◌, arith, subst, ◌==◌,
  Bool-cases, Option-cases,
}
use falco_ctf_app.Prelude.Maps.{lookup, insert, has}
use falco_ctf_app.Prelude.Results.{ok, Result-cases, ok_inj}
use falco_ctf_app.Prelude.Text.{Text, text_eq, is_empty, trim_space}
use falco_ctf_app.Identity.{match_seat}
use falco_ctf_app.Identity.Domain.{
  Config, canonical, is_plain_ascii, normalize_admin_emails, validate, configured_domain,
}
use falco_ctf_app.AuthPolicy.Email.{google_mail_domains, normalize_email_with}
use falco_ctf_app.AuthPolicy.Roster.{
  Roster, RosterRow, Decoded, no_document, malformed, more_documents, document, Loading, AdminSet,
  admin_set, add_external, add_external_email, add_row, add_rows, with_seat, domain_of,
  empty_roster, load_rows, load_configured, parse_roster, parse_roster_with,
}

-- The seat is added; the external email is added too, if there is one, and is no admin's.
pub record RowAdded (admins : AdminSet) (row : RosterRow) (r r' : Roster) : Type 0 where
  pub shape : match_seat row.seat ≡ true
  pub clear : has (canonical row.seat r.domain) admins ≡ false
  pub seats : r'.seats ≡ insert row.seat tt r.seats
  pub domain : r'.domain ≡ r.domain
  pub folds : r'.folded ≡ r.folded
  pub external :
      (r'.external ≡ r.external)
      ⊎ ((n : Text) × (has n admins ≡ false) × (r'.external ≡ insert n row.seat r.external))

-- The part of it that the external email is about.
record ExternalAdded (admins : AdminSet) (seat : Text) (r r' : Roster) : Type 0 where
  seats : r'.seats ≡ r.seats
  domain : r'.domain ≡ r.domain
  folds : r'.folded ≡ r.folded
  external :
      (r'.external ≡ r.external)
      ⊎ ((n : Text) × (has n admins ≡ false) × (r'.external ≡ insert n seat r.external))

add_external_email-ok :
    (admins : AdminSet) (i : ℕ) (seat n : Text) (l : Loading) {l' : Loading}
    → add_external_email admins i seat l (some n) ≡ ok l'
    → ExternalAdded admins seat l.roster l'.roster
add_external_email-ok admins i seat n l h = elim (Bool-cases (domain_of n == l.roster.domain)) [
  | inl inside ↦ absurd (ground (arith, rw inside at h))
  | inr outside ↦ elim (Bool-cases (has n admins)) [
    | inl hit ↦ absurd (ground (arith, rw (outside, hit) at h))
    | inr clear ↦ elim (Option-cases (lookup n l.external_index)) [
      | inr (first, found) ↦ absurd (ground (arith, rw (outside, clear, found) at h))
      | inl new ↦
          subst (λ l'. ExternalAdded admins seat l.roster l'.roster)
            (ok_inj (rw (outside, clear, new) at h))
            (record { seats = refl; domain = refl; folds = refl; external = inr (n, clear, refl) })
    ]
  ]
]

add_external-ok :
    (admins : AdminSet) (i : ℕ) (row : RosterRow) (l : Loading) {l' : Loading}
    → add_external admins i row l ≡ ok l'
    → ExternalAdded admins row.seat l.roster l'.roster
unfolding add_external
add_external-ok admins i row l h = elim (Option-cases row.external) [
  | inl without ↦
      subst (λ l'. ExternalAdded admins row.seat l.roster l'.roster) (ok_inj (rw without at h))
        (record { seats = refl; domain = refl; folds = refl; external = inl refl })
  | inr (ext, given) ↦ elim (Bool-cases (is_empty (trim_space ext))) [
    | inl blank ↦ absurd (ground (arith, rw (given, blank) at h))
    | inr filled ↦ elim (Bool-cases (is_plain_ascii (trim_space ext))) [
      | inr odd ↦ absurd (ground (arith, rw (given, filled, odd) at h))
      | inl plain ↦ elim (Option-cases (normalize_email_with l.roster.folded ext)) [
        | inl unusable ↦ absurd (ground (arith, rw (given, filled, plain, unusable) at h))
        | inr (n, normal) ↦
            add_external_email-ok admins i row.seat n l (rw (given, filled, plain, normal) at h)
      ]
    ]
  ]
]

pub add_row-ok :
    (admins : AdminSet) (i : ℕ) (row : RosterRow) (l : Loading) {l' : Loading}
    → add_row admins i row l ≡ ok l'
    → RowAdded admins row l.roster l'.roster
unfolding add_row
add_row-ok admins i row l h = elim (Bool-cases (is_plain_ascii row.seat)) [
  | inr odd ↦ absurd (ground (arith, rw odd at h))
  | inl plain ↦ elim (Bool-cases (match_seat row.seat)) [
    | inr bad ↦ absurd (ground (arith, rw (plain, bad) at h))
    | inl good ↦ elim (Option-cases (lookup row.seat l.seat_index)) [
      | inr (first, found) ↦ absurd (ground (arith, rw (plain, good, found) at h))
      | inl new ↦ elim (Bool-cases (has (canonical row.seat l.roster.domain) admins)) [
        | inl hit ↦ absurd (ground (arith, rw (plain, good, new, hit) at h))
        | inr clear ↦
            let x =
              add_external-ok admins i row (with_seat i row l)
                (rw (plain, good, new, clear) at h) in
            record {
              shape = good;
              clear = clear;
              seats = x.seats;
              domain = x.domain;
              folds = x.folds;
              external = x.external;
            }
      ]
    ]
  ]
]

-- What every accepted row keeps, the whole loop keeps.
pub add_rows-keeps :
    (P : Roster → Type 0) (admins : AdminSet)
    → ((row : RosterRow) (r r' : Roster) → RowAdded admins row r r' → P r → P r')
    → (i : ℕ) (rows : List RosterRow) (l : Loading) {r : Roster} → add_rows admins i rows l ≡ ok r
    → P l.roster
    → P r
unfolding add_rows
add_rows-keeps P admins step i [] l h a = subst P (ok_inj h) a
add_rows-keeps P admins step i (row ∷ rows) l {r} h a =
    elim (Result-cases (add_row admins i row l)) [
      | inr (e, failed) ↦ absurd (ground (arith, rw (failed, add_rows) at h))
      | inl (l', added) ↦
          let next : add_rows admins (suc i) rows l' ≡ ok r = rw (added, add_rows) at h in
          add_rows-keeps P admins step (suc i) rows l' next
            (step row l.roster l'.roster (add_row-ok admins i row l added) a)
    ]

pub load_rows-keeps :
    (P : Roster → Type 0) (admins : AdminSet)
    → ((row : RosterRow) (r r' : Roster) → RowAdded admins row r r' → P r → P r')
    → (domain : Text) (folded : List Text) (decoded : Decoded) {r : Roster}
    → load_rows domain folded admins decoded ≡ ok r
    → P (empty_roster domain folded).roster
    → P r
load_rows-keeps P admins step domain folded no_document h a = absurd (ground (arith, h))
load_rows-keeps P admins step domain folded malformed h a = absurd (ground (arith, h))
load_rows-keeps P admins step domain folded more_documents h a = absurd (ground (arith, h))
load_rows-keeps P admins step domain folded (document []) h a = absurd (ground (arith, h))
load_rows-keeps P admins step domain folded (document (row ∷ rows)) h a =
    add_rows-keeps P admins step 0 (row ∷ rows) (empty_roster domain folded) h a

-- The configuration behind a roster that has been accepted.
pub parse_roster-config :
    (decoded : Decoded) (domain : Text) (raw : List Text) {r : Roster}
    → parse_roster decoded domain raw ≡ ok r
    → (cfg : Config) × (validate domain raw false ≡ ok cfg)
      × ((admins : AdminSet) × (admin_set google_mail_domains cfg.admins ≡ ok admins)
          × (load_rows cfg.domain google_mail_domains admins decoded ≡ ok r))
unfolding parse_roster_with
parse_roster-config decoded domain raw h = elim (Result-cases (validate domain raw false)) [
  | inr (e, bad) ↦ absurd (ground (arith, rw bad at h))
  | inl (cfg, good) ↦ elim (Result-cases (admin_set google_mail_domains cfg.admins)) [
    | inr (e, bad) ↦ absurd (ground (arith, rw (good, bad, load_configured) at h))
    | inl (admins, set) ↦ (cfg, good, (admins, set, rw (good, set, load_configured) at h))
  ]
]

pub validate-admins :
    (domain : Text) (raw : List Text) {cfg : Config}
    → validate domain raw false ≡ ok cfg
    → normalize_admin_emails raw ≡ ok cfg.admins
unfolding validate
validate-admins domain raw h = elim (Result-cases (configured_domain domain false)) [
  | inr (e, bad) ↦ absurd (ground (arith, rw (bad, validate) at h))
  | inl (d, good) ↦ elim (Result-cases (normalize_admin_emails raw)) [
    | inr (e, bad) ↦ absurd (ground (arith, rw (good, bad, validate) at h))
    | inl (es, fine) ↦ fine ∙ ap (λ cfg. ok cfg.admins) (ok_inj (rw (good, fine, validate) at h))
  ]
]
