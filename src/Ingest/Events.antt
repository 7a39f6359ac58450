-- ===== src/Ingest/Events.antt =====
-- A request to POST /falco/events, and the tests that receive of internal/scoreboard/ingest/ingest.go
-- makes of it, with the two header tests of internal/scoreboard/httpx/httpx.go. What
-- mime.ParseMediaType and the JSON decoder make of the request is part of the request.
use Prim.Native.Char.{code}
use falco_ctf_app.Prelude.{
  ℕ, ◌-◌, String, Bool, true, false, not, ◌&&◌, ◌||◌, Option, none, some, List, [], ◌∷◌, ◌==◌,
  nat_eq, string_eq, leb, any, all, contains, is_some, if◌then◌else◌,
}
use falco_ctf_app.Prelude.Text.{Text, text, text_eq, lower, strip_prefix, has_word, to_lower}
use falco_ctf_app.Identity.{codes, is_alnum, valid_seat}

-- FalcoEvent, less the time, which is only logged, and the output fields that nothing reads.
pub record FalcoEvent : Type 0 where
  pub k8s_ns_name : Option String
  pub k8s_pod_name : Option String
  pub container_image_repository : Option String
  pub priority : Option String
  pub rule : String

-- `media_type` is none where ParseMediaType fails, `body` where the decoder does; an absent secret
-- header is "".
pub record Request : Type 0 where
  pub header_keys : List Text
  pub shared_secret : String
  pub media_type : Option String
  pub body : Option FalcoEvent

-- The bytes of a token of RFC 7230, which a header key consists of.
unfoldable pub is_token : ℕ → Bool
is_token c = is_alnum c || (leb b'A' c && leb c b'Z') || contains (text "!#$%&'*+-.^_`|~") c

abbrev pub raise : ℕ → ℕ
raise c = if leb b'a' c && leb c b'z' then c - 32 else c

unfoldable pub canonicalise : Bool → Text → Text
canonicalise up [] = []
canonicalise up (c ∷ cs) = (if up then raise c else lower c) ∷ canonicalise (c == b'-') cs

-- http.CanonicalHeaderKey
unfoldable pub canonical_header_key : Text → Text
unfolding canonicalise
canonical_header_key key = if all is_token key then canonicalise true key else key

unfoldable pub is_proxy_key : Text → Bool
unfolding canonical_header_key
is_proxy_key key = is_some (strip_prefix (text "X-Auth-Request-") (canonical_header_key key))

unfoldable pub has_proxy_identity_header : List Text → Bool
has_proxy_identity_header keys = any is_proxy_key keys

unfoldable pub is_json_content_type : Option String → Bool
is_json_content_type none = false
is_json_content_type (some mt) = mt == "application/json"

pub data SecretMode : Type 0 where
  off warn enforce : SecretMode

unfoldable pub parse_secret_mode : String → Option SecretMode
parse_secret_mode raw =
    if raw == "off"
    then some off
    else if raw == "warn"
    then some warn
    else if raw == "enforce"
    then some enforce
    else none

abbrev pub checks : SecretMode → Bool
checks off = false
checks warn = true
checks enforce = true

-- Two empty secrets do not match.
unfoldable pub secret_matched : String → String → Bool
secret_matched got expected = not (expected == "") && not (got == "") && got == expected

abbrev pub or_empty : Option String → String
or_empty none = ""
or_empty (some s) = s

abbrev pub strip : List ℕ → String → Option String
strip [] s = some s
strip (p ∷ ps) String.[] = none
strip (p ∷ ps) (String.◌∷◌ c s) = let rest = strip ps s in if code c == p then rest else none

-- The seat of a namespace `ctf-<seat>`, for an event of its workspace pod.
unfoldable pub workspace_user : FalcoEvent → Option String
workspace_user ev = elim (strip (codes "ctf-") (or_empty ev.k8s_ns_name)) [
  | none ↦ none
  | some user ↦
      if valid_seat user && or_empty ev.k8s_pod_name == "workspace" then some user else none
]

unfoldable pub is_challenge_image : String → Bool
is_challenge_image repo =
    has_word (text "falco-ctf/challenge") (text repo)
    || has_word (text "falco-ctf-challenge") (text repo)

unfoldable pub below_minimum : Option String → Bool
below_minimum none = false
below_minimum (some priority) =
    contains (text "debug" ∷ text "informational" ∷ text "info" ∷ []) (to_lower (text priority))
