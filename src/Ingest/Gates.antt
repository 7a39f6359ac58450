-- ===== src/Ingest/Gates.antt =====
-- What the gates of receive make of a request.
use falco_ctf_app.Prelude.{
  ℕ, String, ◌≡◌, refl, sym, ap, ◌∙◌, inl, inr, Bool, true, false, not, ◌&&◌, Option, none, some,
  [], ◌==◌, nat_eq, string_eq, arith, Bool-cases,
}
use falco_ctf_app.Identity.{valid_seat}
use falco_ctf_app.RateLimit.Floats.{Floats}
use falco_ctf_app.Ingest.Events.{
  FalcoEvent, Request, SecretMode, off, warn, enforce, has_proxy_identity_header,
  is_json_content_type, checks, secret_matched, workspace_user,
}
use falco_ctf_app.Ingest.Handler.{
  Handler, Admission, refused, admitted, attribute, attributed, decode_gates, content_gates,
  on_mismatch, admit, count, secret_mismatch,
}

abbrev pub refusal_status : Admission → ℕ
refusal_status (refused a) = a.status
refusal_status (admitted _) = 200

-- An event that is left out is answered 200.
pub refusal_status-attribute : (ev : FalcoEvent) → refusal_status (attribute ev) ≡ 200
unfolding attribute
refusal_status-attribute ev = ground arith

abbrev graded_rule : String → Admission → String
graded_rule rule (refused _) = rule
graded_rule rule (admitted f) = f.rule

graded_rule-attribute : (ev : FalcoEvent) → graded_rule ev.rule (attribute ev) ≡ ev.rule
unfolding attribute
graded_rule-attribute ev = ground arith

abbrev is_seat : Admission → Bool
is_seat (refused _) = true
is_seat (admitted f) = valid_seat f.user

is_seat-attribute : (ev : FalcoEvent) → is_seat (attribute ev) ≡ true
unfolding attribute workspace_user
is_seat-attribute ev = ground arith

abbrev pub rule_of : Option FalcoEvent → Option String
rule_of none = none
rule_of (some ev) = some ev.rule

module _ (fl : Floats) where
  -- The handler without its metrics.
  abbrev pub silent : Handler fl → Handler fl
  silent h = record h { metrics = [] }

  -- What the gates make of a request, which changes nothing but metrics: an answer that is not 429,
  -- or a fire of a seat under the body's rule.
  abbrev pub Gated : Option FalcoEvent → Handler fl → Admission × Handler fl → Type 0
  Gated body h (refused a, h') = ((a.status == 429) ≡ false) × (silent h' ≡ silent h)
  Gated body h (admitted f, h') =
      ((rule_of body ≡ some f.rule) × (valid_seat f.user ≡ true)) × (silent h' ≡ silent h)

  attributed-Gated :
      (ev : FalcoEvent) (a : Admission) (h : Handler fl)
      → refusal_status a ≡ 200
      → graded_rule ev.rule a ≡ ev.rule
      → is_seat a ≡ true
      → Gated (some ev) h (attributed fl a h)
  attributed-Gated ev (refused a) h e same seat = (rw e refl, refl)
  attributed-Gated ev (admitted f) h e same seat = ((ap some (sym same), seat), refl)

  decode_gates-Gated :
      (body : Option FalcoEvent) (h : Handler fl) → Gated body h (decode_gates fl body h)
  decode_gates-Gated none h = (refl, refl)
  decode_gates-Gated (some ev) h =
      attributed-Gated ev (attribute ev) h (refusal_status-attribute ev) (graded_rule-attribute ev)
        (is_seat-attribute ev)

  content_gates-Gated : (r : Request) (h : Handler fl) → Gated r.body h (content_gates fl r h)
  content_gates-Gated r h = elim (Bool-cases (is_json_content_type r.media_type)) [
    | inl json ↦ rw json (decode_gates-Gated r.body h)
    | inr other ↦ rw other (refl, refl)
  ]

  on_mismatch-Gated :
      (mode : SecretMode) (r : Request) (h : Handler fl) → Gated r.body h (on_mismatch fl mode r h)
  on_mismatch-Gated off r h = content_gates-Gated r h
  on_mismatch-Gated warn r h = content_gates-Gated r h
  on_mismatch-Gated enforce r h = (refl, refl)

  silent-Gated :
      (body : Option FalcoEvent) (h h' : Handler fl) (p : Admission × Handler fl)
      → silent h ≡ silent h'
      → Gated body h p
      → Gated body h' p
  silent-Gated body h h' (refused a, k) e g = (g.0, g.1 ∙ e)
  silent-Gated body h h' (admitted f, k) e g = (g.0, g.1 ∙ e)

  pub admit-Gated : (r : Request) (h : Handler fl) → Gated r.body h (admit fl r h)
  unfolding admit
  admit-Gated r h = elim (Bool-cases (has_proxy_identity_header r.header_keys)) [
    | inl browser ↦ rw browser (refl, refl)
    | inr internal ↦
        elim (Bool-cases
          (checks h.secret_mode && not (secret_matched r.shared_secret h.shared_secret))) [
            | inl wrong ↦
                rw (internal, wrong)
                  (silent-Gated r.body (count fl (secret_mismatch h.secret_mode) h) h _ refl (
                    on_mismatch-Gated h.secret_mode r (count fl (secret_mismatch h.secret_mode) h)))
            | inr right ↦ rw (internal, right) (content_gates-Gated r h)
          ]
  ]
