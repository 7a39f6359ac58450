-- ===== src/Collector.antt =====
-- internal/collector/collector.go: the proxy between the workspaces and the scoreboard.
--
-- net.SplitHostPort, the headers that a proxy drops as hop-by-hop and the scoreboard's answer are
-- parameters; the answer is none where the dial fails. A request comes with the route that the mux
-- has found for it, and its 404 and 405 for a path outside the table are one. Metrics, log lines and
-- the body's bytes are left out.
pub mod Stripped
pub mod Forwarded
use falco_ctf_app.Prelude.{
  ℕ, String, Bool, true, false, Option, none, some, List, [], ◌∷◌, ◌++◌, map, if◌then◌else◌,
  is_some,
}
use falco_ctf_app.Prelude.Maps.{Map, lookup, insert, delete, delete_where}
use falco_ctf_app.Prelude.Text.{Text, text, text_eq, strip_prefix, to_lower}
use falco_ctf_app.RateLimit.Floats.{Floats}
use falco_ctf_app.RateLimit.Limiter.{Limiter}
use falco_ctf_app.RateLimit.Middleware.{Outcome, passed, too_many, middleware}
use falco_ctf_app.Api.Gates.{valid_challenge_id}

abbrev pub Header : Type 0
Header = Map Text (List Text)

-- The routes of the declared table, and the rest of the paths.
pub data Route : Type 0 where
  submit : Route
  exfil : Route
  healthz : Route
  metrics : Route
  undeclared : Route

pub record Request (B : Type 0) : Type 0 where
  pub route : Route
  pub cid : String
  pub header : Header
  pub remote_addr : Text
  pub body : B

-- The path of a request to the scoreboard.
pub data UpstreamPath : Type 0 where
  challenge_submit : String → UpstreamPath
  internal_exfil : String → UpstreamPath

pub record Outgoing (B : Type 0) : Type 0 where
  pub path : UpstreamPath
  pub header : Header
  pub body : B

pub data Reply (R : Type 0) : Type 0 where
  relayed : R → Reply R
  local_error : ℕ → Reply R
  alive : Reply R
  exposition : Reply R

abbrev pub auth_request_prefix : Text
auth_request_prefix = text "x-auth-request-"

abbrev pub is_auth_request_key : Text → Bool
is_auth_request_key k = is_some (strip_prefix auth_request_prefix (to_lower k))

unfoldable pub strip_auth_request_headers : Header → Header
strip_auth_request_headers h = delete_where is_auth_request_key h

abbrev pub x_forwarded_for : Text
x_forwarded_for = text "X-Forwarded-For"

-- The Director, after the one of NewSingleHostReverseProxy, which rewrites the URL.
unfoldable pub director : Header → Header
unfolding strip_auth_request_headers
director h =
    strip_auth_request_headers
      (delete (text "Cf-Connecting-Ip") (delete (text "X-Real-Ip") (delete x_forwarded_for h)))

abbrev pub joined : List Text → Text
joined [] = []
joined (v ∷ []) = v
joined (v ∷ w ∷ vs) = v ++ (text ", " ++ joined (w ∷ vs))

-- ReverseProxy's own X-Forwarded-For: no header where the value is nil, else the peer at its end.
abbrev pub forwarded_for : Option (List Text) → Text → Header → Header
forwarded_for none ip h = insert x_forwarded_for (ip ∷ []) h
forwarded_for (some []) ip h = h
forwarded_for (some (v ∷ vs)) ip h =
    insert x_forwarded_for ((joined (v ∷ vs) ++ (text ", " ++ ip)) ∷ []) h

abbrev pub with_peer : Option Text → Header → Header
with_peer none h = h
with_peer (some ip) h = forwarded_for (lookup x_forwarded_for h) ip h

abbrev pub host_or_addr : Option Text → Text → Text
host_or_addr none addr = addr
host_or_addr (some host) addr = host

module _ (split_host_port : Text → Option Text) (is_hop_by_hop : Text → Bool) where
  unfoldable pub remote_ip : Text → Text
  remote_ip addr = host_or_addr (split_host_port addr) addr

  unfoldable pub outgoing : {B : Type 0} → UpstreamPath → Request B → Outgoing B
  unfolding director
  outgoing path r = record {
    path = path;
    header =
        with_peer (split_host_port r.remote_addr) (delete_where is_hop_by_hop (director r.header));
    body = r.body;
  }

  module _ {B R : Type 0} (fl : Floats) (upstream : Outgoing B → Option R) where
    pub record Handler : Type 0 where
      pub limiter : Limiter fl Text
      pub deny_limiter : Limiter fl Text

    -- What was sent to the scoreboard, and the answer.
    abbrev pub Exchange : Type 0
    Exchange = Option (Outgoing B) × Reply R

    -- The ErrorHandler answers for a dial that fails.
    abbrev pub relay : Option R → Reply R
    relay none = local_error 502
    relay (some answer) = relayed answer

    abbrev pub proxied : UpstreamPath → Request B → Exchange
    proxied path r = let out = outgoing path r in (some out, relay (upstream out))

    abbrev pub unless_unknown : String → Exchange → Exchange
    unless_unknown cid next = if valid_challenge_id cid then next else (none, local_error 404)

    -- The handlers of the routes.
    unfoldable pub handle : Request B → Route → Exchange
    unfolding outgoing
    handle r submit = unless_unknown r.cid (proxied (challenge_submit r.cid) r)
    handle r exfil = unless_unknown r.cid (proxied (internal_exfil r.cid) r)
    handle r healthz = (none, alive)
    handle r metrics = (none, exposition)
    handle r undeclared = (none, local_error 404)

    abbrev pub after_budget : Outcome → Exchange → Exchange
    after_budget passed next = next
    after_budget _ next = (none, local_error 429)

    -- The budget of the two forwarded routes.
    abbrev pub budgeted : ℕ → Request B → Exchange → Handler → Exchange × Handler
    budgeted now r next h =
        let (o, l) = middleware fl (remote_ip r.remote_addr) now h.limiter in
        (after_budget o next, record h { limiter = l })

    -- The budget of the paths outside the table.
    abbrev pub denied : ℕ → Request B → Exchange → Handler → Exchange × Handler
    denied now r next h =
        let (o, l) = middleware fl (remote_ip r.remote_addr) now h.deny_limiter in
        (after_budget o next, record h { deny_limiter = l })

    abbrev pub dispatch : Route → ℕ → Request B → Handler → Exchange × Handler
    dispatch submit now r h = budgeted now r (handle r submit) h
    dispatch exfil now r h = budgeted now r (handle r exfil) h
    dispatch undeclared now r h = denied now r (handle r undeclared) h
    dispatch route now r h = (handle r route, h)

    unfoldable pub serve : ℕ → Request B → Handler → Exchange × Handler
    unfolding handle remote_ip
    serve now r h = dispatch r.route now r h
