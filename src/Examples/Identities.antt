-- ===== src/Examples/Identities.antt =====
-- The roster of internal/authpolicy with one seat, and the checks of its identities.
use falco_ctf_app.Prelude.{◌≡◌, refl, true, none, some, List, [], ◌∷◌}
use falco_ctf_app.Prelude.Maps.{lookup, insert, has}
use falco_ctf_app.Prelude.Results.{ok}
use falco_ctf_app.Prelude.Text.{
  Text, text, text_eq, trim_space, trim_left, trim_right, is_space, lower, cut, split, after_last,
}
use falco_ctf_app.Identity.{match_seat, match_middle}
use falco_ctf_app.Identity.Domain.{
  normalize_domain, check_reserved_domain, canonical, split_email, normalize_admins,
  normalize_admin_emails, validate,
}
use falco_ctf_app.AuthPolicy.Email.{
  normalize_email, normalize_email_with, fold_local, google_mail_domains,
}
use falco_ctf_app.AuthPolicy.Roster.{
  Roster, Decoded, document, admin_set, add_external, add_row, add_rows, parse_roster_with,
  parse_roster, resolve,
}
use falco_ctf_app.AuthPolicy.Server.{
  Headers, Reply, answered, Handler, call_upstream, admin_emails, new_handler, upstream_failed,
  stamp_canonical, is_admin, check_workspace,
}
use falco_ctf_app.AuthPolicy.Canonical.{resolve-canonical}
use falco_ctf_app.AuthPolicy.Disjoint.{resolve_admin}
use falco_ctf_app.AuthPolicy.Decisions.{MayEnter, IsOwn, check_workspace_iff}

abbrev tagged : Text
tagged = text "A.Player+ctf@Googlemail.com"

abbrev player : Text
player = text "aplayer@gmail.com"

tagged-normal : normalize_email tagged ≡ some player
unfolding normalize_email_with normalize_domain split_email fold_local canonical trim_space
    trim_left trim_right is_space lower cut split
tagged-normal = refl

abbrev pub domain : Text
domain = text "ctf.invalid"

abbrev pub admins : List Text
admins = text "admin@ops.test" ∷ []

abbrev pub decoded : Decoded
decoded = document (record { seat = text "user01"; external = some tagged } ∷ [])

abbrev pub roster : Roster
roster = record {
  domain = domain;
  folded = google_mail_domains;
  seats = (text "user01", tt) ∷ [];
  external = (player, text "user01") ∷ [];
}

pub parsed : parse_roster decoded domain admins ≡ ok roster
unfolding parse_roster_with validate normalize_domain check_reserved_domain normalize_admins
    normalize_admin_emails admin_set add_rows add_row add_external normalize_email_with split_email
    fold_local canonical trim_space trim_left trim_right is_space lower cut split after_last lookup
    insert match_seat match_middle
parsed = refl

pub user01-seated : has (text "user01") roster.seats ≡ true
unfolding lookup
user01-seated = refl

resolve-canonical_example :
    resolve (some roster) (canonical (text "user01") roster.domain) ≡ some (text "user01")
resolve-canonical_example =
    resolve-canonical decoded domain admins (text "user01") parsed user01-seated

abbrev handler : Handler
handler = new_handler domain admins (some roster)

admin_known : is_admin (new_handler domain admins (some roster)) (text "Admin@ops.test") ≡ true
unfolding is_admin new_handler admin_emails normalize_email_with normalize_domain split_email
    fold_local canonical trim_space trim_left trim_right is_space lower cut split lookup insert
admin_known = refl

resolve_admin_example : resolve (some roster) (text "Admin@ops.test") ≡ none
resolve_admin_example =
    resolve_admin decoded domain domain admins (text "Admin@ops.test") parsed admin_known

abbrev headers : Headers
headers = record { email = player; user = player; preferred_username = [] }

abbrev reply : Reply
reply = answered 202 headers

entered : (check_workspace handler (text "user01") reply).status ≡ 200
unfolding check_workspace call_upstream upstream_failed stamp_canonical is_admin new_handler
    admin_emails resolve normalize_email_with normalize_domain split_email fold_local canonical
    trim_space trim_left trim_right is_space lower cut split lookup insert match_seat match_middle
entered = refl

check_workspace_iff_example :
    ((check_workspace handler (text "user01") reply).status ≡ 200
      → MayEnter handler (text "user01") reply)
    × (MayEnter handler (text "user01") reply
        → IsOwn handler (text "user01") (check_workspace handler (text "user01") reply))
check_workspace_iff_example = check_workspace_iff handler (text "user01") reply
