-- ===== src/Collector/Forwarded.antt =====
-- What the scoreboard can read in a request that the collector has sent it.
use falco_ctf_app.Prelude.{
  ℕ, ◌≡◌, ◌⊎◌, refl, ap, ◌∙◌, inl, inr, Bool, true, false, Option, none, some, List, [], ◌∷◌, any,
  all, contains, nat_eq, arith, Bool-cases,
}
use falco_ctf_app.Prelude.Maps.{
  lookup, delete, delete_where, lookup-insert, lookup-delete, lookup-delete_where,
}
use falco_ctf_app.Prelude.Text.{
  Text, text, text_eq, strip_prefix, lower, is_empty, is_plain, trim_space, trim_left, trim_right,
  trim_space_plain, cut,
}
use falco_ctf_app.Ingest.Events.{
  has_proxy_identity_header, is_proxy_key, canonical_header_key, is_token, canonicalise,
}
use falco_ctf_app.Identity.{is_alnum}
use falco_ctf_app.RateLimit.Floats.{Floats}
use falco_ctf_app.RateLimit.Middleware.{
  Outcome, passed, forbidden, too_many, ClientHeaders, from_x_forwarded_for, client_ip,
}
use falco_ctf_app.Api.Gates.{valid_challenge_id}
use falco_ctf_app.Collector.{
  Header, Route, submit, exfil, healthz, metrics, undeclared, Request, UpstreamPath, Outgoing,
  is_auth_request_key, strip_auth_request_headers, x_forwarded_for, director, with_peer, outgoing,
  handle, Handler, serve, unless_unknown, proxied, challenge_submit, internal_exfil, after_budget,
  dispatch, Exchange, local_error,
}
use falco_ctf_app.Collector.Stripped.{stripped_key, keys, any-delete_where, any-deleted, any-insert}

gone_where :
    (q : Text → Bool) (j : Text) (h : Header)
    → lookup j h ≡ none
    → lookup j (delete_where q h) ≡ none
gone_where q j h n = ground (arith, lookup-delete_where q j h)

abbrev pub cf_connecting_ip : Text
cf_connecting_ip = text "Cf-Connecting-Ip"

lookup-director :
    (h : Header)
    → (lookup cf_connecting_ip (director h) ≡ none) × (lookup x_forwarded_for (director h) ≡ none)
unfolding director strip_auth_request_headers
lookup-director h =
    let h1 = delete x_forwarded_for h in
    let h2 = delete (text "X-Real-Ip") h1 in
    (
      gone_where _ cf_connecting_ip _ (lookup-delete cf_connecting_ip cf_connecting_ip h2),
      gone_where _ x_forwarded_for _ (
          lookup-delete cf_connecting_ip x_forwarded_for h2
          ∙ lookup-delete (text "X-Real-Ip") x_forwarded_for h1
          ∙ lookup-delete x_forwarded_for x_forwarded_for h),
    )

cut_missing : (c : ℕ) (s : Text) → contains s c ≡ false → cut c s ≡ none
unfolding cut
cut_missing c [] n = refl
cut_missing c (x ∷ xs) n = ground (arith, cut_missing c xs)

-- Header.Get, at a canonical key.
abbrev pub first_value : Option (List Text) → Text
first_value none = []
first_value (some []) = []
first_value (some (v ∷ vs)) = v

-- What the scoreboard's clientIP reads of the request.
abbrev pub client_headers : Text → Header → ClientHeaders
client_headers peer h = record {
  cf_connecting_ip = first_value (lookup cf_connecting_ip h);
  x_forwarded_for = first_value (lookup x_forwarded_for h);
  remote_addr = peer;
}

-- The text of an address: printable, with no comma, not empty.
pub record IsAddress (ip : Text) : Type 0 where
  pub given : is_empty ip ≡ false
  pub plain : all is_plain ip ≡ true
  pub single : contains ip b',' ≡ false

x_forwarded_for-not_proxy : is_proxy_key x_forwarded_for ≡ false
unfolding is_proxy_key canonical_header_key canonicalise is_token is_alnum strip_prefix lower
x_forwarded_for-not_proxy = refl

module _ {B : Type 0} (split_host_port : Text → Option Text) (is_hop_by_hop : Text → Bool)
    (path : UpstreamPath) (r : Request B) where
  abbrev pub sent_header : Header
  sent_header = (outgoing split_host_port is_hop_by_hop path r).header

  no_identity : has_proxy_identity_header (keys sent_header) ≡ false
  unfolding outgoing has_proxy_identity_header director strip_auth_request_headers
  no_identity = with_split (split_host_port r.remote_addr)
    where
      rest : any is_proxy_key (keys (delete_where is_hop_by_hop (director r.header))) ≡ false
      rest =
          any-delete_where is_proxy_key is_hop_by_hop _
            (any-deleted is_proxy_key is_auth_request_key stripped_key _)

      with_split :
          (o : Option Text)
          → any is_proxy_key (keys (with_peer o (delete_where is_hop_by_hop (director r.header))))
            ≡ false
      with_split none = rest
      with_split (some ip) =
          rw
            (gone_where is_hop_by_hop x_forwarded_for (director r.header)
              (lookup-director r.header).1)
            (any-insert is_proxy_key x_forwarded_for _ _ x_forwarded_for-not_proxy rest)

  module _ (ip : Text) (split : split_host_port r.remote_addr ≡ some ip) where
    sent_values :
        (lookup cf_connecting_ip sent_header ≡ none)
        × (lookup x_forwarded_for sent_header ≡ some (ip ∷ []))
    unfolding outgoing
    sent_values =
        let h = delete_where is_hop_by_hop (director r.header) in
        let gone = gone_where is_hop_by_hop x_forwarded_for _ (lookup-director r.header).1 in
        let no_cf = gone_where is_hop_by_hop cf_connecting_ip _ (lookup-director r.header).0 in
        rw (split, gone)
          (
            lookup-insert x_forwarded_for cf_connecting_ip (ip ∷ []) h ∙ no_cf,
            lookup-insert x_forwarded_for x_forwarded_for (ip ∷ []) h,
          )

    client_address :
        (is_ip : Text → Bool) (split' : Text → Option Text) (peer : Text)
        → IsAddress ip
        → client_ip is_ip split' (client_headers peer sent_header) ≡ (ip, from_x_forwarded_for)
    unfolding client_ip trim_space trim_left trim_right
    client_address is_ip split' peer a =
        rw (sent_values.0, sent_values.1)
          (rw (a.given, cut_missing b',' ip a.single)
            (ap (λ t. (t, from_x_forwarded_for)) (trim_space_plain ip a.plain)))

module _ {B R : Type 0} (split_host_port : Text → Option Text) (is_hop_by_hop : Text → Bool)
    (fl : Floats) (upstream : Outgoing B → Option R) where
  -- The paths that a request can be sent to.
  abbrev pub IsPath : Request B → UpstreamPath → Type 0
  IsPath r path = (path ≡ challenge_submit r.cid) ⊎ (path ≡ internal_exfil r.cid)

  abbrev IsSent : Request B → Outgoing B → Type 0
  IsSent r out =
      (path : UpstreamPath) × (valid_challenge_id r.cid ≡ true)
      × IsPath r path
      × (out ≡ outgoing split_host_port is_hop_by_hop path r)

  proxied-IsSent :
      (r : Request B) (path : UpstreamPath) (out : Outgoing B)
      → IsPath r path
      → (unless_unknown split_host_port is_hop_by_hop fl upstream r.cid
          (proxied split_host_port is_hop_by_hop fl upstream path r)).0
        ≡ some out
      → IsSent r out
  proxied-IsSent r path out p e = elim (Bool-cases (valid_challenge_id r.cid)) [
    | inr unknown ↦ absurd (ground (arith, rw unknown at e))
    | inl known ↦ (path, known, p, cc (rw known at e))
  ]

  after_budget-sent :
      (o : Outcome) (next : Exchange split_host_port is_hop_by_hop fl upstream) (out : Outgoing B)
      → (after_budget split_host_port is_hop_by_hop fl upstream o next).0 ≡ some out
      → next.0 ≡ some out
  after_budget-sent passed next out e = e
  after_budget-sent forbidden next out e = cc
  after_budget-sent too_many next out e = cc

  dispatch-IsSent :
      (route : Route) (now : ℕ) (r : Request B)
      (h : Handler split_host_port is_hop_by_hop fl upstream) (out : Outgoing B)
      → (dispatch split_host_port is_hop_by_hop fl upstream route now r h).0.0 ≡ some out
      → IsSent r out
  unfolding handle
  dispatch-IsSent submit now r h out e =
      proxied-IsSent r (challenge_submit r.cid) out (inl refl) (after_budget-sent _ _ out e)
  dispatch-IsSent exfil now r h out e =
      proxied-IsSent r (internal_exfil r.cid) out (inr refl) (after_budget-sent _ _ out e)
  dispatch-IsSent healthz now r h out e = cc
  dispatch-IsSent metrics now r h out e = cc
  dispatch-IsSent undeclared now r h out e = cc (after_budget-sent _ (none, local_error 404) out e)

  -- Whatever headers a workspace sends, what the collector sends on for it is one of two requests
  -- for a challenge id of the grammar, has no header that the scoreboard takes for a proven
  -- identity, and makes the scoreboard's clientIP the peer address that the collector saw.
  pub serve_sent :
      (now : ℕ) (r : Request B) (h : Handler split_host_port is_hop_by_hop fl upstream)
      (out : Outgoing B) (ip : Text) (is_ip : Text → Bool) (split' : Text → Option Text)
      (peer : Text)
      → split_host_port r.remote_addr ≡ some ip
      → IsAddress ip
      → (serve split_host_port is_hop_by_hop fl upstream now r h).0.0 ≡ some out
      → (valid_challenge_id r.cid ≡ true)
        × IsPath r out.path
        × (has_proxy_identity_header (keys out.header) ≡ false)
        × (client_ip is_ip split' (client_headers peer out.header) ≡ (ip, from_x_forwarded_for))
  unfolding serve
  serve_sent now r h out ip is_ip split' peer split a e =
      let (path, known, p, same) = dispatch-IsSent r.route now r h out e in
      rw same (
        known,
        unfold outgoing in p,
        no_identity split_host_port is_hop_by_hop path r,
        client_address split_host_port is_hop_by_hop path r ip split is_ip split' peer a,
      )
