-- ===== src/AuthPolicy/Disjoint.antt =====
-- The operators of internal/authpolicy and the seats of its roster are different identities.
use falco_ctf_app.Prelude.{
  ℕ, suc, true, false, ◌≡◌, refl, sym, ap, ◌∙◌, inl, inr, Option, none, some, List, [], ◌∷◌, ◌++◌,
  map, arith, ◌==◌, Bool-cases, Option-cases,
}
use falco_ctf_app.Prelude.Maps.{has-insert, Map, lookup, insert, has}
use falco_ctf_app.Prelude.Results.{Result, ok, err, Result-cases, ok_inj}
use falco_ctf_app.Prelude.Text.{
  Text, text_eq, is_empty, trim_space, trim_space_plain, lower, map-lower_idem, map-lower_plain,
  cut, cut-join,
}
use falco_ctf_app.Identity.Domain.{
  AdminDefect, canonical, is_plain_ascii, split_email, normalize_domain, check_reserved_domain,
  admin_entry, cons_admin, normalize_admins, normalize_admin_emails,
}
use falco_ctf_app.AuthPolicy.Email.{
  google_mail_domains, normalize_email, normalize_email_with, trimmed_email,
}
use falco_ctf_app.AuthPolicy.Roster.{
  Roster, RosterRow, RosterError, add_admin, Decoded, AdminSet, admin_set, load_rows, parse_roster,
  resolve, resolve_parts,
}
use falco_ctf_app.AuthPolicy.Rows.{RowAdded, load_rows-keeps, parse_roster-config, validate-admins}
use falco_ctf_app.AuthPolicy.Server.{new_handler, admin_emails, is_admin}

-- No seat's canonical form and no external email is an admin's.
pub record Apart (admins : AdminSet) (r : Roster) : Type 0 where
  pub seats : (s : Text) → has s r.seats ≡ true → has (canonical s r.domain) admins ≡ false
  pub external : (n : Text) → has n r.external ≡ true → has n admins ≡ false
  pub folds : r.folded ≡ google_mail_domains

row-Apart :
    (admins : AdminSet) (row : RosterRow) (r r' : Roster)
    → RowAdded admins row r r'
    → Apart admins r
    → Apart admins r'
row-Apart admins row r r' x a = record {
  seats = λ s p. elim (Bool-cases (row.seat == s)) [
    | inl same ↦ rw (x.domain, ← (text_eq.beq_iff row.seat s).0 same) x.clear
    | inr other ↦
        rw x.domain (a.seats s (ground (arith, has-insert row.seat s tt r.seats, rw x.seats at p)))
  ];
  external = λ n p. elim x.external [
    | inl same ↦ a.external n (rw same at p)
    | inr (m, clear, added) ↦ elim (Bool-cases (m == n)) [
      | inl same ↦ rw (← (text_eq.beq_iff m n).0 same) clear
      | inr other ↦ a.external n (ground (arith, has-insert m n row.seat r.external, rw added at p))
    ]
  ];
  folds = x.folds ∙ a.folds;
}

load_rows-Apart :
    (domain : Text) (admins : AdminSet) (decoded : Decoded) {r : Roster}
    → load_rows domain google_mail_domains admins decoded ≡ ok r
    → Apart admins r
unfolding lookup
load_rows-Apart domain admins decoded h =
    load_rows-keeps (Apart admins) admins (row-Apart admins) domain google_mail_domains decoded h
      (record {
        seats = λ s p. absurd (ground arith);
        external = λ n p. absurd (ground arith);
        folds = refl;
      })

-- The handler's set and the roster's set are both made of the configured admins.
abbrev Covers : Map Text (Unit {0}) → AdminSet → Type 0
Covers handler_set admins = (n : Text) → has n handler_set ≡ true → has n admins ≡ true

-- An entry that passes the startup check is its own lower-cased form.
admin_entry-ok :
    (t : Text) {e : Text} → admin_entry t ≡ ok e → (is_plain_ascii t ≡ true) × (e ≡ map lower t)
admin_entry-ok t {e} h = elim (Bool-cases (is_plain_ascii t)) [
  | inr odd ↦ absurd (ground (arith, rw odd at h))
  | inl plain ↦ elim (Option-cases (split_email (map lower t))) [
    | inl shapeless ↦ absurd (ground (arith, rw (plain, shapeless) at h))
    | inr ((local, domain), parts) ↦ elim (Result-cases (normalize_domain domain)) [
      | inr (x, bad) ↦ absurd (ground (arith, rw (plain, parts, bad) at h))
      | inl (d, good) ↦ elim (Bool-cases (check_reserved_domain d)) [
        | inr foreign ↦ absurd (ground (arith, rw (plain, parts, good, foreign) at h))
        | inl reserved ↦ (plain, sym (ok_inj (rw (plain, parts, good, reserved) at h)))
      ]
    ]
  ]
]

-- The request side and the startup side spell an admin alike.
normalize_email_lowered :
    (folded : List Text) (t : Text)
    → is_plain_ascii t ≡ true
    → normalize_email_with folded (map lower t) ≡ trimmed_email folded t
unfolding normalize_email_with
normalize_email_lowered folded [] plain = rw (trim_space_plain [] plain) refl
normalize_email_lowered folded (c ∷ cs) plain =
    let lowered = map-lower_plain (c ∷ cs) plain in
    rw (trim_space_plain (map lower (c ∷ cs)) lowered, lowered, plain, map-lower_idem (c ∷ cs)) refl

insert-Covers :
    (n : Text) (m : Map Text (Unit {0})) (admins : AdminSet)
    → Covers m admins
    → Covers (insert n tt m) (insert n tt admins)
insert-Covers n m admins c k p = ground (arith, has-insert n k tt m, has-insert n k tt admins, c k)

add_admin-ok :
    (o : Option Text) (rest : Result RosterError AdminSet) {admins : AdminSet}
    → add_admin o rest ≡ ok admins
    → (n : Text) × (o ≡ some n)
      × ((more : AdminSet) × (rest ≡ ok more) × (insert n tt more ≡ admins))
add_admin-ok none rest h = absurd (ground (arith, h))
add_admin-ok (some n) (err e) h = absurd (ground (arith, h))
add_admin-ok (some n) (ok more) h = (n, refl, (more, refl, ok_inj h))

cons_admin-ok :
    (i : ℕ) (e : Result AdminDefect Text) (rest : Result (ℕ × AdminDefect) (List Text))
    {es : List Text}
    → cons_admin i e rest ≡ ok es
    → (first : Text) × (e ≡ ok first)
      × ((more : List Text) × (rest ≡ ok more) × (first ∷ more ≡ es))
cons_admin-ok i (err d) rest h = absurd (ground (arith, h))
cons_admin-ok i (ok e) (err d) h = absurd (ground (arith, h))
cons_admin-ok i (ok e) (ok more) h = (e, refl, (more, refl, ok_inj h))

normalize_admins-Covers :
    (i : ℕ) (raw : List Text) {es : List Text} {admins : AdminSet}
    → normalize_admins i raw ≡ ok es
    → admin_set google_mail_domains es ≡ ok admins
    → Covers (admin_emails raw) admins
unfolding normalize_admins admin_emails admin_set lookup normalize_email_with
normalize_admins-Covers i [] h k = λ n p. absurd (ground (arith, p))
normalize_admins-Covers i (a ∷ rest) {es} {admins} h k =
    elim (Bool-cases (is_empty (trim_space a))) [
      | inl blank ↦
          let skipped : normalize_admins (suc i) rest ≡ ok es = rw (blank, normalize_admins) at h in
          let nobody : normalize_email a ≡ none = rw blank refl in
          rw nobody (normalize_admins-Covers (suc i) rest skipped k)
      | inr filled ↦
          let t = trim_space a in
          let (e, entry, (more, later, both)) =
            cons_admin-ok i (admin_entry t) (normalize_admins (suc i) rest)
              (rw (filled, normalize_admins) at h) in
          let (plain, lowered) = admin_entry-ok t entry in
          let (n, normal, (others, set, whole)) =
            add_admin-ok (normalize_email e) (admin_set google_mail_domains more)
              (rw (← both, admin_set) at k) in
          let same : normalize_email a ≡ some n =
            sym (normalize_email_lowered google_mail_domains t plain) ∙ rw (← lowered) normal in
          rw (same, ← whole)
            (insert-Covers n (admin_emails rest) others
              (normalize_admins-Covers (suc i) rest later set))
    ]

resolve-Apart :
    (admins : AdminSet) (r : Roster) (n : Text)
    → Apart admins r
    → has n admins ≡ true
    → resolve_parts r n (cut b'@' n) ≡ none
unfolding canonical
resolve-Apart admins r n a hit = elim (Option-cases (cut b'@' n)) [
  | inl whole ↦ rw whole refl
  | inr ((local, domain), parts) ↦ elim (Bool-cases (domain == r.domain)) [
    | inl inside ↦ elim (Bool-cases (has local r.seats)) [
      | inr stranger ↦ rw (parts, inside, stranger) refl
      | inl seated ↦
          let spelled : n ≡ canonical local r.domain =
            cut-join b'@' n local domain parts
            ∙ ap (λ d. local ++ b'@' ∷ d) ((text_eq.beq_iff domain r.domain).0 inside) in
          absurd (ground (arith, rw spelled at hit, a.seats local seated))
    ]
    | inr outside ↦ elim (Option-cases (lookup n r.external)) [
      | inl unknown ↦ rw (parts, outside, unknown) refl
      | inr (seat, found) ↦ absurd (ground (arith, hit, found, a.external n))
    ]
  ]
]

-- A handler and a roster made of one list of admins: an identity that is an admin's resolves to no
-- seat, so nobody is both.
pub resolve_admin :
    (decoded : Decoded) (domain other : Text) (raw : List Text) (email : Text) {r : Roster}
    → parse_roster decoded domain raw ≡ ok r
    → is_admin (new_handler other raw (some r)) email ≡ true
    → resolve (some r) email ≡ none
unfolding is_admin new_handler resolve normalize_admin_emails
resolve_admin decoded domain other raw email {r} parsed admin =
    let (cfg, valid, (admins, set, loaded)) = parse_roster-config decoded domain raw parsed in
    let covers = normalize_admins-Covers 0 raw (validate-admins domain raw valid) set in
    let apart = load_rows-Apart cfg.domain admins decoded loaded in
    elim (Option-cases (normalize_email email)) [
      | inl odd ↦ absurd (ground (arith, rw odd at admin))
      | inr (n, normal) ↦
          rw (apart.folds, normal) (resolve-Apart admins r n apart (covers n (rw normal at admin)))
    ]
