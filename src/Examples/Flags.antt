-- ===== src/Examples/Flags.antt =====
-- The flag routes of internal/scoreboard/api: a flag that is delivered, then submitted.
use falco_ctf_app.Prelude.{◌≡◌, refl, some, [], ◌∷◌, string_eq}
use falco_ctf_app.Prelude.Maps.{lookup, insert}
use falco_ctf_app.Prelude.Sort.{sort}
use falco_ctf_app.Prelude.Text.{text, is_space, lower, strip_prefix}
use falco_ctf_app.Identity.{valid_seat, match_seat, match_middle}
use falco_ctf_app.Catalog.{Catalog}
use falco_ctf_app.Store.State.{Store, solve_key, solve_eq}
use falco_ctf_app.Store.Solves.{mark_solved, record_exfil, has_exfil}
use falco_ctf_app.Store.Rules.{dirty_rules, has_expected_rule_fire}
use falco_ctf_app.Store.Profiles.{display_name}
use falco_ctf_app.Store.Lifecycle.{empty_memory}
use falco_ctf_app.Scoring.Grader.{new}
use falco_ctf_app.Scoring.Submit.{evaluate_clean, submit_evade, record_receipt}
use falco_ctf_app.Ingest.Events.{
  has_proxy_identity_header, is_proxy_key, is_token, canonicalise, is_json_content_type,
}
use falco_ctf_app.Api.Gates.{trimmed, challenge, valid_challenge_id, match_slug}
use falco_ctf_app.Api.Submissions.{
  FlagRequest, FlagHandler, solved_as, receipt_taken, submit, exfil_internal,
}
use falco_ctf_app.Api.SolvedAnswer.{IsDeserved, submit_solved}
use falco_ctf_app.Examples.Stores.{fresh}
use falco_ctf_app.Examples.Grades.{quiet_shell}

abbrev catalog : Catalog
catalog = ("01-evade", record quiet_shell { id = "01-evade"; dir = "01-evade" }) ∷ []

-- The expected rule has fired.
abbrev proven : Store
proven = record fresh {
  mem = record empty_memory {
    expected_rule_fire = (solve_key "user01" "01-evade", ("Exfil", tt) ∷ []) ∷ [];
  };
}

abbrev handler : FlagHandler
handler = record { cat = catalog; grader = new catalog; store = proven; counts = [] }

abbrev delivery : FlagRequest
delivery = record {
  cid = "01-evade";
  header_keys = text "Content-Type" ∷ [];
  media_type = some "application/json";
  body = some (record { user = " user01"; flag = "flag{a} " });
}

abbrev delivered : FlagHandler
delivered = (exfil_internal delivery "t1" handler).1

shared : handler.grader.cat ≡ handler.cat
unfolding new
shared = refl

taken : (exfil_internal delivery "t1" handler).0 ≡ receipt_taken "user01"
unfolding exfil_internal has_proxy_identity_header is_proxy_key is_token canonicalise strip_prefix
    lower is_json_content_type challenge valid_challenge_id match_slug lookup insert trimmed
    is_space valid_seat match_seat match_middle record_receipt record_exfil new
taken = refl

answered : (submit delivery "t2" delivered).0 ≡ solved_as "user01" "user01"
unfolding exfil_internal has_proxy_identity_header is_proxy_key is_token canonicalise strip_prefix
    lower is_json_content_type challenge valid_challenge_id match_slug lookup insert trimmed
    is_space valid_seat match_seat match_middle record_receipt record_exfil new submit submit_evade
    evaluate_clean dirty_rules sort has_expected_rule_fire has_exfil mark_solved display_name
answered = refl

submit_solved_example : IsDeserved delivery delivered "user01"
submit_solved_example = submit_solved delivery "t2" delivered answered
