-- ===== src/Examples/Detects.antt =====
-- A detect submission of internal/scoreboard/api, and a submission through internal/collector.
use falco_ctf_app.Prelude.{
  ℕ, ◌≡◌, refl, Bool, true, false, arith, Option, some, List, [], ◌∷◌, String, string_eq,
}
use falco_ctf_app.Prelude.Int.{pos}
use falco_ctf_app.Prelude.Maps.{lookup}
use falco_ctf_app.Prelude.Results.{Result, ok, err}
use falco_ctf_app.Prelude.Text.{Text, text, text_eq}
use falco_ctf_app.Identity.{valid_seat}
use falco_ctf_app.Catalog.{Challenge, Catalog}
use falco_ctf_app.Store.Solves.{mark_solved}
use falco_ctf_app.Store.Profiles.{display_name}
use falco_ctf_app.Scoring.Grader.{new}
use falco_ctf_app.Scoring.Submit.{Grading, submit_detect}
use falco_ctf_app.RateLimit.Limiter.{new_limiter, allow, find, drop_expired}
use falco_ctf_app.RateLimit.Middleware.{middleware, client_ip, from_x_forwarded_for}
use falco_ctf_app.Ingest.Events.{has_proxy_identity_header}
use falco_ctf_app.Api.Gates.{valid_challenge_id, match_slug}
use falco_ctf_app.Api.Detect.{Job, DetectRequest, DetectHandler, solved_by, take, finish_detect}
use falco_ctf_app.Api.Detect.Slots.{Held, Event, arrive, reply, run, run-Held}
use falco_ctf_app.Api.Detect.Solved.{IsDetected, finish_detect_solved}
use falco_ctf_app.Collector.{Request, submit, challenge_submit, Outgoing, Handler, outgoing, serve}
use falco_ctf_app.Collector.Stripped.{keys}
use falco_ctf_app.Collector.Forwarded.{client_headers, IsAddress, IsPath, serve_sent}
use falco_ctf_app.Examples.Stores.{fresh}
use falco_ctf_app.Examples.Grades.{quiet_shell}
use falco_ctf_app.Examples.Identities.{domain}
use falco_ctf_app.Examples.Limits.{billionths}

abbrev write_a_rule : Challenge
write_a_rule = record quiet_shell { id = "20-detect"; type = "detect"; dir = "20-detect" }

abbrev catalog : Catalog
catalog = ("20-detect", write_a_rule) ∷ []

abbrev idle : DetectHandler
idle = record {
  cat = catalog;
  grader = new catalog;
  store = fresh;
  admin_set = [];
  email_domain = domain;
  enabled = true;
  inflight_cap = 1;
  inflight = 0;
  pending = [];
  denials = [];
  counts = [];
}

abbrev submission : DetectRequest
submission = record {
  cid = "20-detect";
  email = text "user01@ctf.invalid";
  body = some (record { user = "user01"; condition = " evt.type = execve " });
}

abbrev caught : Result String Grading
caught = ok (record { evasion_fires = pos 2; benign_fires = pos 0; invalid = false })

abbrev events : List Event
events = arrive submission ∷ arrive submission ∷ reply 0 (err "timeout") "t1" ∷ []

run-Held_example : Held 1 (run events idle)
run-Held_example =
    run-Held 1 events idle (record { fixed = refl; taken = refl; bounded = omega arith })

abbrev job : Job
job = record { user = "user01"; cid = "20-detect"; condition = "evt.type = execve" }

abbrev busy : DetectHandler
busy = record idle { inflight = 1; pending = job ∷ [] }

answered : (finish_detect 0 caught "t1" busy).0 ≡ some (solved_by (pos 2) (pos 0) "user01" "user01")
unfolding finish_detect submit_detect valid_seat lookup new mark_solved display_name
answered = refl

finish_detect_solved_example :
    (j : Job) × (others : List Job) × (take 0 busy.pending ≡ some (j, others))
    × IsDetected j caught busy (finish_detect 0 caught "t1" busy).1
finish_detect_solved_example =
    finish_detect_solved 0 caught "t1" busy (pos 2) (pos 0) "user01" "user01" answered

-- The workspace forges an identity and two addresses.
abbrev forged : Request String
forged = record {
  route = submit;
  cid = "20-detect";
  header =
      (text "x-AUTH-request-Email", text "root@ctf.invalid" ∷ [])
      ∷ (text "X-Forwarded-For", text "8.8.8.8" ∷ [])
      ∷ (text "Cf-Connecting-Ip", text "9.9.9.9" ∷ [])
      ∷ [];
  remote_addr = text "10.0.0.7:4312";
  body = "{}";
}

abbrev host_part : Text → Option Text
host_part addr = some (text "10.0.0.7")

abbrev end_to_end : Text → Bool
end_to_end key = false

abbrev upstream : Outgoing String → Option ℕ
upstream out = some 200

abbrev collector : Handler host_part end_to_end billionths upstream
collector = record {
  limiter = new_limiter billionths 1000000000 10000000000;
  deny_limiter = new_limiter billionths 1000000000 10000000000;
}

abbrev sent : Outgoing String
sent = outgoing host_part end_to_end (challenge_submit "20-detect") forged

goes_out : (serve host_part end_to_end billionths upstream 0 forged collector).0.0 ≡ some sent
unfolding serve middleware allow find drop_expired new_limiter valid_challenge_id match_slug
goes_out = refl

address : IsAddress (text "10.0.0.7")
address = record { given = refl; plain = refl; single = refl }

serve_sent_example :
    (valid_challenge_id "20-detect" ≡ true)
    × IsPath host_part end_to_end billionths upstream forged sent.path
    × (has_proxy_identity_header (keys sent.header) ≡ false)
    × (client_ip (λ _. true) host_part (client_headers (text "10.0.1.1:80") sent.header)
        ≡ (text "10.0.0.7", from_x_forwarded_for))
serve_sent_example =
    serve_sent host_part end_to_end billionths upstream 0 forged collector sent (text "10.0.0.7")
      (λ _. true) host_part (text "10.0.1.1:80") refl address goes_out
