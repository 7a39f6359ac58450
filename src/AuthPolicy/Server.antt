-- ===== src/AuthPolicy/Server.antt =====
-- The three checks of internal/authpolicy/server.go. What oauth2-proxy answers is an argument;
-- log lines are left out.
use falco_ctf_app.Prelude.{
  ℕ, String, Bool, false, not, Option, none, some, List, [], ◌∷◌, ◌==◌, nat_eq, if◌then◌else◌,
}
use falco_ctf_app.Prelude.Maps.{Map, insert, has}
use falco_ctf_app.Prelude.Text.{Text, text_eq, is_empty}
use falco_ctf_app.Identity.{match_seat}
use falco_ctf_app.Identity.Domain.{canonical}
use falco_ctf_app.AuthPolicy.Email.{normalize_email}
use falco_ctf_app.AuthPolicy.Roster.{Roster, resolve}

-- The identity headers of a response of oauth2-proxy; an absent one is empty.
pub record Headers : Type 0 where
  pub email : Text
  pub user : Text
  pub preferred_username : Text

-- What the subrequest comes to: it cannot be built, it gets no answer, or it gets a status.
pub data Reply : Type 0 where
  not_built unreachable : Reply
  answered : ℕ → Headers → Reply

abbrev pub no_headers : Headers
no_headers = record { email = []; user = []; preferred_username = [] }

-- A status of 0 is the happy path.
pub record UpstreamResult : Type 0 where
  pub email : Text
  pub headers : Headers
  pub status : ℕ
  pub body : String

abbrev pub upstream_error : ℕ → String → UpstreamResult
upstream_error status body = record {
  email = [];
  headers = no_headers;
  status = status;
  body = body;
}

unfoldable pub call_upstream : Reply → UpstreamResult
call_upstream not_built = upstream_error 500 "internal error"
call_upstream unreachable = upstream_error 502 "oauth2-proxy unreachable"
call_upstream (answered status headers) =
    if status == 401
    then upstream_error 401 "not authenticated"
    else if status == 202
    then record { email = headers.email; headers = headers; status = 0; body = "" }
    else upstream_error 502 "upstream error"

-- The response: its status and body, the identity headers that are set on it, and the label that
-- is counted.
pub record Response : Type 0 where
  pub status : ℕ
  pub body : String
  pub email : Option Text
  pub user : Option Text
  pub preferred_username : Option Text
  pub counted : String

abbrev pub plain_response : ℕ → String → String → Response
plain_response status body counted = record {
  status = status;
  body = body;
  email = none;
  user = none;
  preferred_username = none;
  counted = counted;
}

pub record Handler : Type 0 where
  pub domain : Text
  pub roster : Option Roster
  pub admin_set : Map Text (Unit {0})

abbrev pub add_normal : Option Text → Map Text (Unit {0}) → Map Text (Unit {0})
add_normal none m = m
add_normal (some n) m = insert n tt m

-- The loop of NewHandler over AdminEmails.
unfoldable pub admin_emails : List Text → Map Text (Unit {0})
admin_emails [] = []
admin_emails (e ∷ rest) = add_normal (normalize_email e) (admin_emails rest)

unfoldable pub new_handler : Text → List Text → Option Roster → Handler
new_handler domain admins roster = record {
  domain = domain;
  roster = roster;
  admin_set = admin_emails admins;
}

unfoldable pub upstream_failed : UpstreamResult → Option Response
upstream_failed up =
    if up.status == 0
    then none
    else some (
        plain_response up.status up.body
          (if up.status == 401 then "unauthenticated" else "upstream_error"))

-- A header is set if the upstream has it; the email is set always.
abbrev pub if_present : Text → Option Text
if_present v = if is_empty v then none else some v

unfoldable pub propagate_identity : Headers → String → Response
propagate_identity src counted = record {
  status = 200;
  body = "";
  email = some src.email;
  user = if_present src.user;
  preferred_username = if_present src.preferred_username;
  counted = counted;
}

abbrev pub domain_or_empty : Option Roster → Text
domain_or_empty none = []
domain_or_empty (some r) = r.domain

-- It is reached with a seat that the roster has resolved, so there is a roster.
unfoldable pub stamp_canonical : Handler → Text → Response
stamp_canonical h seat = record {
  status = 200;
  body = "";
  email = some (canonical seat (domain_or_empty h.roster));
  user = some seat;
  preferred_username = some seat;
  counted = "ok";
}

abbrev pub is_member : Map Text (Unit {0}) → Option Text → Bool
is_member m none = false
is_member m (some n) = has n m

unfoldable pub is_admin : Handler → Text → Bool
is_admin h email = is_member h.admin_set (normalize_email email)

abbrev pub deny : Response
deny = plain_response 403 "forbidden" "forbidden"

abbrev pub workspace_seat : Handler → Text → Option Text → Response
workspace_seat h host none = deny
workspace_seat h host (some seat) = if seat == host then stamp_canonical h seat else deny

abbrev pub workspace_identity : Handler → Text → UpstreamResult → Response
workspace_identity h host up =
    if is_admin h up.email
    then plain_response 403 "forbidden" "admin_refused"
    else workspace_seat h host (resolve h.roster up.email)

abbrev pub or_response : Option Response → Response → Response
or_response none r = r
or_response (some failed) r = failed

unfoldable pub check_workspace : Handler → Text → Reply → Response
check_workspace h host reply =
    if is_empty host
    then plain_response 400 "missing ?host= query param" "bad_request"
    else if not (match_seat host)
    then plain_response 400 "invalid ?host= value" "bad_request"
    else (let up = call_upstream reply in
        or_response (upstream_failed up) (workspace_identity h host up))

abbrev pub participant_seat : Handler → Option Text → Response
participant_seat h none = deny
participant_seat h (some seat) = stamp_canonical h seat

abbrev pub participant_identity : Handler → UpstreamResult → Response
participant_identity h up =
    if is_admin h up.email
    then propagate_identity up.headers "ok_admin"
    else participant_seat h (resolve h.roster up.email)

unfoldable pub check_participant : Handler → Reply → Response
check_participant h reply =
    let up = call_upstream reply in or_response (upstream_failed up) (participant_identity h up)

unfoldable pub check_admin : Handler → Reply → Response
check_admin h reply =
    let up = call_upstream reply in
    or_response (upstream_failed up)
      (if is_admin h up.email then propagate_identity up.headers "ok" else deny)
