-- ===== src/AuthPolicy/Roster.antt =====
-- The roster of internal/authpolicy/roster.go: the table that says which identity is which seat.
-- The YAML decoder is not modelled; what it answers is an argument.
use falco_ctf_app.Prelude.{
  ℕ, suc, false, not, Option, none, some, List, [], ◌∷◌, ◌==◌, if◌then◌else◌,
}
use falco_ctf_app.Prelude.Maps.{Map, lookup, insert, has}
use falco_ctf_app.Prelude.Results.{Result, ok, err}
use falco_ctf_app.Prelude.Text.{Text, text_eq, is_empty, trim_space, cut}
use falco_ctf_app.Identity.{match_seat}
use falco_ctf_app.Identity.Domain.{Config, ConfigError, is_plain_ascii, canonical, validate}
use falco_ctf_app.AuthPolicy.Email.{normalize_email_with, google_mail_domains}

-- `seats` and `external` are the maps of the same names: the seats, and the seat of each
-- normalised external email.
pub record Roster : Type 0 where
  pub domain : Text
  pub folded : List Text
  pub seats : Map Text (Unit {0})
  pub external : Map Text Text

pub record RosterRow : Type 0 where
  pub seat : Text
  pub external : Option Text

-- The two calls of Decode: no document, a document that does not fit, a second document, or the
-- rows of the only one.
pub data Decoded : Type 0 where
  no_document malformed more_documents : Decoded
  document : List RosterRow → Decoded

pub data RowError : Type 0 where
  seat_not_ascii seat_pattern seat_is_admin : RowError
  seat_duplicate : ℕ → RowError
  external_blank external_not_ascii external_unusable external_in_domain external_is_admin :
      RowError
  external_duplicate : ℕ → RowError

pub data RosterError : Type 0 where
  bad_config : ConfigError → RosterError
  admin_not_normal empty_file not_parsed several_documents no_seats : RosterError
  bad_row : ℕ → RowError → RosterError

-- The loop's state: the roster and the two index maps.
pub record Loading : Type 0 where
  pub roster : Roster
  pub seat_index : Map Text ℕ
  pub external_index : Map Text ℕ

abbrev pub AdminSet : Type 0
AdminSet = Map Text (Unit {0})

abbrev pub add_admin : Option Text → Result RosterError AdminSet → Result RosterError AdminSet
add_admin none rest = err admin_not_normal
add_admin (some n) (err e) = err e
add_admin (some n) (ok admins) = ok (insert n tt admins)

-- The loop that normalises the admins. Its errors are all the same.
unfoldable pub admin_set : List Text → List Text → Result RosterError AdminSet
admin_set folded [] = ok []
admin_set folded (a ∷ rest) = add_admin (normalize_email_with folded a) (admin_set folded rest)

-- n[strings.IndexByte(n, '@')+1:]
abbrev pub domain_of : Text → Text
domain_of n = elim (cut b'@' n) [ none ↦ n | some (_, domain) ↦ domain ]

abbrev pub add_external_email :
    AdminSet → ℕ → Text → Loading → Option Text → Result RowError Loading
add_external_email admins i seat l none = err external_unusable
add_external_email admins i seat l (some n) =
    if domain_of n == l.roster.domain
    then err external_in_domain
    else if has n admins
    then err external_is_admin
    else elim (lookup n l.external_index) [
      | some first ↦ err (external_duplicate first)
      | none ↦ ok (record l {
        roster = record l.roster { external = insert n seat l.roster.external };
        external_index = insert n i l.external_index;
      })
    ]

unfoldable pub add_external : AdminSet → ℕ → RosterRow → Loading → Result RowError Loading
add_external admins i row l = elim row.external [
  | none ↦ ok l
  | some ext ↦
      if is_empty (trim_space ext)
      then err external_blank
      else if not (is_plain_ascii (trim_space ext))
      then err external_not_ascii
      else add_external_email admins i row.seat l (normalize_email_with l.roster.folded ext)
]

abbrev pub with_seat : ℕ → RosterRow → Loading → Loading
with_seat i row l = record l {
  roster = record l.roster { seats = insert row.seat tt l.roster.seats };
  seat_index = insert row.seat i l.seat_index;
}

-- The body of the loop over the rows.
unfoldable pub add_row : AdminSet → ℕ → RosterRow → Loading → Result RowError Loading
add_row admins i row l =
    if not (is_plain_ascii row.seat)
    then err seat_not_ascii
    else if not (match_seat row.seat)
    then err seat_pattern
    else elim (lookup row.seat l.seat_index) [
      | some first ↦ err (seat_duplicate first)
      | none ↦
          if has (canonical row.seat l.roster.domain) admins
          then err seat_is_admin
          else add_external admins i row (with_seat i row l)
    ]

unfoldable pub add_rows : AdminSet → ℕ → List RosterRow → Loading → Result RosterError Roster
add_rows admins i [] l = ok l.roster
add_rows admins i (row ∷ rows) l = elim (add_row admins i row l) [
  | err e ↦ err (bad_row i e)
  | ok l' ↦ add_rows admins (suc i) rows l'
]

abbrev pub empty_roster : Text → List Text → Loading
empty_roster domain folded = record {
  roster = record { domain = domain; folded = folded; seats = []; external = [] };
  seat_index = [];
  external_index = [];
}

abbrev pub load_rows : Text → List Text → AdminSet → Decoded → Result RosterError Roster
load_rows domain folded admins no_document = err empty_file
load_rows domain folded admins malformed = err not_parsed
load_rows domain folded admins more_documents = err several_documents
load_rows domain folded admins (document []) = err no_seats
load_rows domain folded admins (document (row ∷ rows)) =
    add_rows admins 0 (row ∷ rows) (empty_roster domain folded)

abbrev pub load_configured :
    List Text → Decoded → Result ConfigError Config → Result RosterError Roster
load_configured folded decoded (err e) = err (bad_config e)
load_configured folded decoded (ok cfg) = elim (admin_set folded cfg.admins) [
  | err e ↦ err e
  | ok admins ↦ load_rows cfg.domain folded admins decoded
]

unfoldable pub parse_roster_with :
    Decoded → Text → List Text → List Text → Result RosterError Roster
parse_roster_with decoded domain admins folded =
    load_configured folded decoded (validate domain admins false)

-- ParseRoster
abbrev pub parse_roster : Decoded → Text → List Text → Result RosterError Roster
parse_roster decoded domain admins = parse_roster_with decoded domain admins google_mail_domains

abbrev pub resolve_parts : Roster → Text → Option (Text × Text) → Option Text
resolve_parts r n none = none
resolve_parts r n (some (local, domain)) =
    if domain == r.domain
    then (if has local r.seats then some local else none)
    else lookup n r.external

abbrev pub resolve_normal : Roster → Option Text → Option Text
resolve_normal r none = none
resolve_normal r (some n) = resolve_parts r n (cut b'@' n)

-- Resolve on a roster, which may be nil.
unfoldable pub resolve : Option Roster → Text → Option Text
resolve none email = none
resolve (some r) email = resolve_normal r (normalize_email_with r.folded email)
