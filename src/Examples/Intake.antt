-- ===== src/Examples/Intake.antt =====
-- The webhook of internal/scoreboard/ingest with an event of one participant, before and after the
-- bucket is empty.
use falco_ctf_app.Prelude.{◌≡◌, refl, true, false, some, [], ◌∷◌, any, string_eq, String}
use falco_ctf_app.Prelude.Maps.{lookup, insert}
use falco_ctf_app.Prelude.Text.{text, lower, strip_prefix, has_word, to_lower}
use falco_ctf_app.Identity.{valid_seat, match_seat, match_middle}
use falco_ctf_app.Store.Solves.{is_solved}
use falco_ctf_app.Scoring.Grader.{new, collect_rules, affects_scoring}
use falco_ctf_app.RateLimit.Limiter.{new_limiter, allow, find, drop_expired, make_room}
use falco_ctf_app.Ingest.Events.{
  FalcoEvent, Request, off, enforce, is_token, canonicalise, has_proxy_identity_header,
  is_proxy_key, is_json_content_type, secret_matched, workspace_user, is_challenge_image,
  below_minimum,
}
use falco_ctf_app.Ingest.Handler.{
  Handler, Clock, Fire, admitted, attribute, admit, limit, drop_observation, audit, receive,
}
use falco_ctf_app.Ingest.Admission.{is_browser_key}
use falco_ctf_app.Ingest.Gates.{silent}
use falco_ctf_app.Ingest.Refusals.{is_refusal, receive_refused}
use falco_ctf_app.Ingest.Taints.{HasRules}
use falco_ctf_app.Ingest.Unsolved.{webhook, happens, forbidden_event-unsolved}
use falco_ctf_app.Examples.Stores.{fresh}
use falco_ctf_app.Examples.Grades.{grader, catalog-IsLoaded, fresh-target}
use falco_ctf_app.Examples.Limits.{billionths}

abbrev clock : Clock
clock = record { limiter = 7; audit = 8; receipt = 9; taint = "t1"; expected = "t2"; solve = "t3" }

abbrev event : String → FalcoEvent
event rule = record {
  k8s_ns_name = some "ctf-user01";
  k8s_pod_name = some "workspace";
  container_image_repository = some "ghcr.io/falco-ctf/challenge";
  priority = some "Warning";
  rule = rule;
}

abbrev request : String → Request
request rule = record {
  header_keys = text "Content-Type" ∷ [];
  shared_secret = "";
  media_type = some "application/json";
  body = some (event rule);
}

abbrev browser : Request
browser = record (request "Shell") { header_keys = text "x-auth-REQUEST-email" ∷ [] }

-- Its observation bucket is empty from the start, and so is its scoring bucket.
abbrev handler : Handler billionths
handler = record {
  store = fresh;
  grader = grader;
  observe_limiter = new_limiter billionths 20 0;
  scoring_limiter = new_limiter billionths 100 0;
  audit_limiter = new_limiter billionths 1 1000000000;
  shared_secret = "";
  secret_mode = off;
  metrics = [];
}

abbrev forged : Handler billionths
forged = record handler { secret_mode = enforce }

browser_key : any is_browser_key browser.header_keys ≡ true
unfolding is_token lower strip_prefix
browser_key = refl

refused_secret : is_refusal (receive billionths clock (request "Shell") forged).0.status ≡ true
unfolding receive admit has_proxy_identity_header is_proxy_key is_token canonicalise strip_prefix
    lower secret_matched
refused_secret = refl

receive_refused_example :
    silent billionths (receive billionths clock (request "Shell") forged).1
    ≡ silent billionths forged
receive_refused_example = receive_refused billionths clock (request "Shell") forged refused_secret

abbrev fire : Fire
fire = record { ns = "ctf-user01"; user = "user01"; rule = "Shell" }

shell-admitted : (admit billionths (request "Shell") handler).0 ≡ admitted fire
unfolding admit has_proxy_identity_header is_proxy_key is_token canonicalise strip_prefix lower
    secret_matched is_json_content_type attribute workspace_user valid_seat match_seat match_middle
    is_challenge_image has_word below_minimum to_lower
shell-admitted = refl

dropped : (receive billionths clock (request "Noise") handler).0.status ≡ 429
unfolding receive admit has_proxy_identity_header is_proxy_key is_token canonicalise strip_prefix
    lower secret_matched is_json_content_type attribute workspace_user valid_seat match_seat
    match_middle is_challenge_image has_word below_minimum to_lower limit affects_scoring new
    collect_rules lookup insert allow new_limiter drop_expired find make_room drop_observation audit
dropped = refl

grader-HasRules : HasRules handler.grader
unfolding HasRules new collect_rules
grader-HasRules = refl

forbidden_event-unsolved_example :
    is_solved "user01" "evade-01"
      (happens billionths
        (webhook clock (request "Exfil") ∷ [])
        (receive billionths clock (request "Shell") handler).1).store
    ≡ false
forbidden_event-unsolved_example =
    forbidden_event-unsolved billionths clock (request "Shell") fire handler
      (webhook clock (request "Exfil") ∷ []) grader-HasRules catalog-IsLoaded shell-admitted
      fresh-target
