-- ===== src/AuthPolicy/Canonical.antt =====
-- The canonical form of a seat of internal/authpolicy's roster leads back to the seat.
use falco_ctf_app.Prelude.{
  ℕ, suc, true, false, ◌≡◌, refl, ap, ◌∙◌, inl, inr, some, List, [], ◌∷◌, all, contains, arith,
  ◌==◌, ==_refl, Bool-cases, zero,
}
use falco_ctf_app.Prelude.Maps.{has-insert, lookup, has}
use falco_ctf_app.Prelude.Results.{ok, Result-cases, ok_inj}
use falco_ctf_app.Prelude.Text.{
  Text, text, text_eq, is_empty, trim_space, cut, join-cut, after_last,
}
use falco_ctf_app.Identity.{match_seat, match_middle}
use falco_ctf_app.Identity.Domain.{
  Config, canonical, normalize_domain, check_reserved_domain, validate, normalize_admin_emails,
}
use falco_ctf_app.AuthPolicy.Email.{google_mail_domains}
use falco_ctf_app.AuthPolicy.Roster.{Roster, RosterRow, Decoded, AdminSet, parse_roster, resolve}
use falco_ctf_app.AuthPolicy.Parts.{
  NormalLocal, NormalDomain, is_part_char, part_no_at, normalize_domain-NormalDomain,
  normalize_email_canonical,
}
use falco_ctf_app.AuthPolicy.Rows.{RowAdded, load_rows-keeps, parse_roster-config}

middle_chars : (n : ℕ) (cs : Text) → match_middle n cs ≡ true → all is_part_char cs ≡ true
unfolding match_middle
middle_chars n [] h = refl
middle_chars n (c ∷ []) h = ground arith
middle_chars zero (c ∷ d ∷ rest) h = absurd (ground arith)
middle_chars (suc n) (c ∷ d ∷ rest) h = ground (arith, middle_chars n (d ∷ rest))

pub match_seat-NormalLocal : (s : Text) → match_seat s ≡ true → NormalLocal s
unfolding match_seat
match_seat-NormalLocal [] h = absurd (ground arith)
match_seat-NormalLocal (c ∷ []) h = record { chars = ground arith; filled = refl }
match_seat-NormalLocal (c ∷ d ∷ rest) h = record {
  chars = ground (arith, middle_chars 51 (d ∷ rest));
  filled = refl;
}

-- A reserved domain is none of the domains that are folded.
reserved_unfolded :
    (d : Text) → check_reserved_domain d ≡ true → contains google_mail_domains d ≡ false
unfolding check_reserved_domain after_last
reserved_unfolded d h = elim (Bool-cases (text "gmail.com" == d)) [
  | inl same ↦ absurd (ground (arith, rw (← (text_eq.beq_iff (text "gmail.com") d).0 same) at h))
  | inr other ↦ elim (Bool-cases (text "googlemail.com" == d)) [
    | inl same ↦
        absurd (ground (arith, rw (← (text_eq.beq_iff (text "googlemail.com") d).0 same) at h))
    | inr also ↦ rw (other, also) refl
  ]
]

pub record Wellformed (r : Roster) : Type 0 where
  pub seats : (s : Text) → has s r.seats ≡ true → match_seat s ≡ true
  pub domain : NormalDomain r.domain
  pub reserved : check_reserved_domain r.domain ≡ true
  pub folds : r.folded ≡ google_mail_domains

row-Wellformed :
    (admins : AdminSet) (row : RosterRow) (r r' : Roster)
    → RowAdded admins row r r'
    → Wellformed r
    → Wellformed r'
row-Wellformed admins row r r' x w = record {
  seats = λ s p. elim (Bool-cases (row.seat == s)) [
    | inl same ↦ rw (← (text_eq.beq_iff row.seat s).0 same) x.shape
    | inr other ↦ w.seats s (ground (arith, has-insert row.seat s tt r.seats, rw x.seats at p))
  ];
  domain = rw x.domain w.domain;
  reserved = rw x.domain w.reserved;
  folds = x.folds ∙ w.folds;
}

-- An empty domain is refused, so an accepted one is normal and reserved.
validate_domain :
    (domain : Text) (raw : List Text) {cfg : Config}
    → validate domain raw false ≡ ok cfg
    → NormalDomain cfg.domain × (check_reserved_domain cfg.domain ≡ true)
unfolding validate
validate_domain domain raw {cfg} h = elim (Bool-cases (is_empty (trim_space domain))) [
  | inl blank ↦ absurd (ground (arith, rw (blank, validate) at h))
  | inr filled ↦ elim (Result-cases (normalize_domain domain)) [
    | inr (e, bad) ↦ absurd (ground (arith, rw (filled, bad, validate) at h))
    | inl (d, good) ↦ elim (Bool-cases (check_reserved_domain d)) [
      | inr foreign ↦ absurd (ground (arith, rw (filled, good, foreign, validate) at h))
      | inl reserved ↦ elim (Result-cases (normalize_admin_emails raw)) [
        | inr (e, bad) ↦ absurd (ground (arith, rw (filled, good, reserved, bad, validate) at h))
        | inl (es, fine) ↦
            let same : d ≡ cfg.domain =
              ap (λ c. c.domain) (ok_inj (rw (filled, good, reserved, fine, validate) at h)) in
            rw (← same) (normalize_domain-NormalDomain domain good, reserved)
      ]
    ]
  ]
]

pub parse_roster-Wellformed :
    (decoded : Decoded) (domain : Text) (raw : List Text) {r : Roster}
    → parse_roster decoded domain raw ≡ ok r
    → Wellformed r
unfolding lookup
parse_roster-Wellformed decoded domain raw parsed =
    let (cfg, valid, (admins, _, loaded)) = parse_roster-config decoded domain raw parsed in
    let (normal, reserved) = validate_domain domain raw valid in
    load_rows-keeps Wellformed admins (row-Wellformed admins) cfg.domain google_mail_domains decoded
      loaded
      (record {
        seats = λ s p. absurd (ground arith);
        domain = normal;
        reserved = reserved;
        folds = refl;
      })

-- The canonical form of a seat of an accepted roster resolves to that seat.
pub resolve-canonical :
    (decoded : Decoded) (domain : Text) (raw : List Text) (seat : Text) {r : Roster}
    → parse_roster decoded domain raw ≡ ok r
    → has seat r.seats ≡ true
    → resolve (some r) (canonical seat r.domain) ≡ some seat
unfolding resolve
resolve-canonical decoded domain raw seat {r} parsed seated =
    let w = parse_roster-Wellformed decoded domain raw parsed in
    let local = match_seat-NormalLocal seat (w.seats seat seated) in
    let cut_at : cut b'@' (canonical seat r.domain) ≡ some (seat, r.domain) =
      unfold canonical in join-cut b'@' seat r.domain (part_no_at seat local.chars) in
    rw
      (
        w.folds,
        normalize_email_canonical google_mail_domains seat r.domain local w.domain,
        reserved_unfolded r.domain w.reserved,
        cut_at,
        ==_refl r.domain,
        seated,
      )
      refl
