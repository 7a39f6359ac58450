-- ===== src/RateLimit/Middleware.antt =====
-- The two middlewares and the key functions of internal/scoreboard/ratelimit/ratelimit.go.
-- net.ParseIP and net.SplitHostPort are arguments, as are the handler behind the middleware and the
-- key function; metrics are left out.
use falco_ctf_app.Prelude.{ℕ, Bool, not, ◌&&◌, Option, none, some, nat_eq, if◌then◌else◌}
use falco_ctf_app.Prelude.Text.{Text, text_eq, is_empty, trim_space, cut}
use falco_ctf_app.RateLimit.Floats.{Floats}
use falco_ctf_app.RateLimit.Limiter.{Limiter, allow}

-- What becomes of a request: it is passed on, or it is answered.
pub data Outcome : Type 0 where
  passed forbidden too_many : Outcome

module _ (fl : Floats) where
  -- Middleware: an empty key is not limited.
  unfoldable pub middleware : Text → ℕ → Limiter fl Text → Outcome × Limiter fl Text
  middleware key now l =
      if is_empty key
      then (passed, l)
      else (let (allowed, l') = allow fl key now l in (if allowed then passed else too_many, l'))

  -- MiddlewareStrict: no key is a refusal, and it takes no token.
  unfoldable pub middleware_strict : Option Text → ℕ → Limiter fl Text → Outcome × Limiter fl Text
  middleware_strict none now l = (forbidden, l)
  middleware_strict (some key) now l =
      if is_empty key
      then (forbidden, l)
      else (let (allowed, l') = allow fl key now l in (if allowed then passed else too_many, l'))

-- The headers and the peer address that clientIP reads; an absent header is empty.
pub record ClientHeaders : Type 0 where
  pub cf_connecting_ip : Text
  pub x_forwarded_for : Text
  pub remote_addr : Text

pub data Source : Type 0 where
  from_cf_connecting_ip from_x_forwarded_for from_remote_addr : Source

-- strings.Index(xff, ",") > 0: a comma that is not the first character.
abbrev pub first_hop : Text → Option (Text × Text) → Text
first_hop xff none = trim_space xff
first_hop xff (some (before, after)) = if is_empty before then trim_space xff else trim_space before

abbrev pub peer : Text → Option Text → Text × Source
peer addr none = (addr, from_remote_addr)
peer addr (some host) = (host, from_remote_addr)

unfoldable pub client_ip : (Text → Bool) → (Text → Option Text) → ClientHeaders → Text × Source
client_ip is_ip split_host_port r =
    let cf = trim_space r.cf_connecting_ip in
    if not (is_empty cf) && is_ip cf
    then (cf, from_cf_connecting_ip)
    else if not (is_empty r.x_forwarded_for)
    then (first_hop r.x_forwarded_for (cut b',' r.x_forwarded_for), from_x_forwarded_for)
    else peer r.remote_addr (split_host_port r.remote_addr)
