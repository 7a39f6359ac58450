-- ===== src/OriginGuard.antt =====
-- internal/scoreboard/originguard/originguard.go: the check of a browser's Origin or Referer before a
-- request that changes state. url.Parse and strings.ToLower are parameters; a header that is absent
-- is "". The warning that deny logs is the list `refusals`, of field and value.
use falco_ctf_app.Prelude.{
  ℕ, ◌≡◌, refl, ap, sym, ◌∙◌, Bool, true, false, ◌&&◌, ◌||◌, not, Option, none, some, List, [], ◌∷◌,
  ◌++◌, any, arith, ◌==◌, if◌then◌else◌, inl, inr, Bool-cases, Option-cases, is_some,
}
use falco_ctf_app.Prelude.Maps.{Map, has, insert, lookup-empty, has-insert}
use falco_ctf_app.Prelude.Text.{Text, text, text_eq, text_beq_iff, is_empty, trim_space}
pub mod Admission

pub record Url : Type 0 where
  pub scheme : Text
  pub host : Text

pub record Headers : Type 0 where
  pub origin : Text
  pub referer : Text

pub data Field : Type 0 where
  origin_field referer_origin : Field

pub record Guard : Type 0 where
  pub allowed : Map Text (Unit {0})
  pub refusals : List (Field × Text)

-- The next handler's answer, or the 403 of deny.
pub data Guarded (A : Type 0) : Type 0 where
  served : A → Guarded A
  denied : Guarded A

module _ (parse : Text → Option Url) (to_lower : Text → Text) where
  abbrev pub origin_of_url : Url → Option Text
  origin_of_url u =
      if is_empty u.scheme || is_empty u.host
      then none
      else some (to_lower u.scheme ++ (text "://" ++ to_lower u.host))

  abbrev pub origin_of_parsed : Option Url → Option Text
  origin_of_parsed none = none
  origin_of_parsed (some u) = origin_of_url u

  unfoldable pub origin_of : Text → Option Text
  origin_of referer = origin_of_parsed (parse referer)

  abbrev add_origin : Option Text → Map Text (Unit {0}) → Map Text (Unit {0})
  add_origin none set = set
  add_origin (some norm) set = insert norm tt set

  unfoldable pub allowed_set : List Text → Map Text (Unit {0}) → Map Text (Unit {0})
  allowed_set [] set = set
  allowed_set (o ∷ rest) set =
      allowed_set rest
        (if is_empty (trim_space o) then set else add_origin (origin_of (trim_space o)) set)

  unfoldable pub new_guard : List Text → Guard
  unfolding allowed_set
  new_guard allowed_origins = record { allowed = allowed_set allowed_origins []; refusals = [] }

  abbrev deny : {A S : Type 0} → Guard → Field → Text → S → Guarded A × S × Guard
  deny g field value s = (denied, s, record g { refusals = (field, value) ∷ g.refusals })

  abbrev on_origin :
      {A S : Type 0} → Guard → Option Text → Text → (S → A × S) → S → Guarded A × S × Guard
  on_origin g none origin next s = deny g origin_field origin s
  on_origin g (some o) origin next s =
      if has o g.allowed then (served (next s).0, (next s).1, g) else deny g origin_field origin s

  abbrev on_referer : {A S : Type 0} → Guard → Option Text → (S → A × S) → S → Guarded A × S × Guard
  on_referer g none next s = deny g origin_field [] s
  on_referer g (some o) next s =
      if has o g.allowed then (served (next s).0, (next s).1, g) else deny g referer_origin o s

  -- `next` is the handler behind the guard, on the request and the state that it changes.
  unfoldable pub middleware :
      {A S : Type 0} → Guard → Headers → (S → A × S) → S → Guarded A × S × Guard
  middleware g r next s =
      if not (is_empty r.origin)
      then on_origin g (origin_of r.origin) r.origin next s
      else if not (is_empty r.referer)
      then on_referer g (origin_of r.referer) next s
      else deny g origin_field [] s
