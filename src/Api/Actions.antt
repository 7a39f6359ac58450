-- ===== src/Api/Actions.antt =====
-- The actions of a participant's mission panel in internal/scoreboard/api/api.go: stepCheck, openHint
-- and resetDirty, and the operator's reset. The header and the path values are part of the request,
-- with what strconv.Atoi makes of the index and the decoder of the body; log lines are left out.
use falco_ctf_app.Prelude.{
  ℕ, zero, suc, String, string_eq, nat_eq, Bool, not, ◌||◌, Option, none, some, List, [], ◌∷◌, ◌==◌,
  contains, length, if◌then◌else◌,
}
use falco_ctf_app.Prelude.Int.{ℤ, pos}
use falco_ctf_app.Prelude.Maps.{Map, lookup}
use falco_ctf_app.Prelude.Results.{Result, ok, err}
use falco_ctf_app.Prelude.Text.{Text, text}
use falco_ctf_app.Identity.{valid_seat}
use falco_ctf_app.Catalog.{Challenge, Catalog}
use falco_ctf_app.Store.State.{Store, Failure}
use falco_ctf_app.Store.Reveals.{record_hint_view, hint_views, set_step_check}
use falco_ctf_app.Store.Rules.{reset_dirty}
use falco_ctf_app.Store.Lifecycle.{reset}
use falco_ctf_app.Api.Gates.{
  Reason, Gate, self_or_admin_gate, trimmed, challenge, self_or_admin, is_admin_request,
}

pub record JourneyStep : Type 0 where
  pub label : String
  pub detail : String

pub record JourneyHint : Type 0 where
  pub kind : String
  pub text : String
  pub rule_refs : List String
  pub cheatsheet_ref : String

pub record Journey : Type 0 where
  pub title : String
  pub tagline : String
  pub briefing : String
  pub steps : List JourneyStep
  pub hints : List JourneyHint
  pub bridge : String
  pub docs_url : String

pub record ApiHandler : Type 0 where
  pub cat : Catalog
  pub store : Store
  pub admin_set : Map Text (Unit {0})
  pub email_domain : Text
  pub journeys : Map String Journey
  pub denials : List (Gate × Reason)

-- `idx` is none where Atoi fails, `checked` where the decoder does.
pub record ActionRequest : Type 0 where
  pub email : Text
  pub user : String
  pub cid : String
  pub idx : Option ℤ
  pub checked : Option Bool

pub data ActionError : Type 0 where
  invalid_user forbidden unknown_challenge no_journey no_hints invalid_step_index : ActionError
  invalid_hint_index invalid_body not_an_evade_challenge no_step_check no_hint_view : ActionError
  no_reset admin_only : ActionError
  open_first : ℕ → ActionError

pub data ActionBody : Type 0 where
  action_error : ActionError → ActionBody
  step_checked : String → String → ℕ → Bool → ActionBody
  hint_opened : String → String → ℕ → JourneyHint → ℕ → Bool → ActionBody
  dirty_cleared : String → String → ActionBody
  cleared_solves : ℕ → ActionBody

pub record ActionAnswer : Type 0 where
  pub status : ℕ
  pub body : ActionBody

abbrev pub fail : ℕ → ActionError → ActionAnswer
fail status e = record { status = status; body = action_error e }

abbrev pub done : ActionBody → ActionAnswer
done body = record { status = 200; body = body }

-- The answer of a store method, and what it left in the store.
abbrev pub store_answer :
    {A : Type 0}
    → ActionError
    → (A → ActionBody)
    → ApiHandler
    → Result Failure A × Store
    → ActionAnswer × ApiHandler
store_answer e body h (ok a, s) = (done (body a), record h { store = s })
store_answer e body h (err _, s) = (fail 500 e, record h { store = s })

abbrev pub deny_action : Reason → ApiHandler → ActionAnswer × ApiHandler
deny_action reason h =
    (fail 403 forbidden, record h { denials = (self_or_admin_gate, reason) ∷ h.denials })

abbrev pub on_challenge :
    Option Challenge
    → ApiHandler
    → (Challenge → ActionAnswer × ApiHandler)
    → ActionAnswer × ApiHandler
on_challenge none h act = (fail 404 unknown_challenge, h)
on_challenge (some ch) h act = act ch

abbrev pub on_permission :
    Option Reason → ApiHandler → ActionAnswer × ApiHandler → ActionAnswer × ApiHandler
on_permission none h next = next
on_permission (some reason) h next = deny_action reason h

-- The gates that the three handlers share, in their order: the seat, the caller, the challenge.
unfoldable pub for_mission :
    ActionRequest
    → ApiHandler
    → (String → Challenge → ActionAnswer × ApiHandler)
    → ActionAnswer × ApiHandler
for_mission r h act =
    let user = trimmed r.user in
    if not (valid_seat user)
    then (fail 400 invalid_user, h)
    else on_permission (self_or_admin h.admin_set h.email_domain r.email (text user)) h
        (on_challenge (challenge h.cat r.cid) h (act user))

abbrev pub nth_of : {A : Type 0} → ℕ → List A → Option A
nth_of n [] = none
nth_of zero (x ∷ xs) = some x
nth_of (suc n) (x ∷ xs) = nth_of n xs

-- A step index counts from 0, and a hint index from 1.
abbrev pub step_at : Option ℤ → List JourneyStep → Option ℕ
step_at (some (pos n)) steps = elim (nth_of n steps) [ none ↦ none | some _ ↦ some n ]
step_at _ steps = none

abbrev pub set_step :
    String → String → Option ℕ → Option Bool → String → ApiHandler → ActionAnswer × ApiHandler
set_step user cid none checked at h = (fail 400 invalid_step_index, h)
set_step user cid (some idx) none at h = (fail 400 invalid_body, h)
set_step user cid (some idx) (some checked) at h =
    store_answer no_step_check (λ _. step_checked user cid idx checked) h
      (set_step_check user cid idx checked at h.store)

abbrev pub step_of_journey :
    String → Option Journey → ActionRequest → String → ApiHandler → ActionAnswer × ApiHandler
step_of_journey user none r at h = (fail 404 no_journey, h)
step_of_journey user (some j) r at h = set_step user r.cid (step_at r.idx j.steps) r.checked at h

unfoldable pub step_check : ActionRequest → String → ApiHandler → ActionAnswer × ApiHandler
unfolding for_mission
step_check r at h =
    for_mission r h (λ user _. step_of_journey user (lookup r.cid h.journeys) r at h)

abbrev pub indices : Option (List ℕ) → List ℕ
indices none = []
indices (some idxs) = idxs

-- Hint n + 1 may be opened when it is the first, or hint n is open.
abbrev pub may_open : String → String → ℕ → Store → Bool
may_open user cid n s = n == 0 || contains (indices (lookup cid (hint_views user s))) n

abbrev pub open_next :
    String → String → ℕ → ℕ → Option JourneyHint → String → ApiHandler → ActionAnswer × ApiHandler
open_next user cid n total none at h = (fail 400 invalid_hint_index, h)
open_next user cid n total (some hint) at h =
    if may_open user cid n h.store
    then store_answer no_hint_view (hint_opened user cid (suc n) hint total) h
        (record_hint_view user cid (suc n) at h.store)
    else (fail 409 (open_first n), h)

abbrev pub open_at :
    String → String → List JourneyHint → Option ℤ → String → ApiHandler → ActionAnswer × ApiHandler
open_at user cid hints (some (pos (suc n))) at h =
    open_next user cid n (length hints) (nth_of n hints) at h
open_at user cid hints _ at h = (fail 400 invalid_hint_index, h)

abbrev pub open_of_hints :
    String → List JourneyHint → ActionRequest → String → ApiHandler → ActionAnswer × ApiHandler
open_of_hints user [] r at h = (fail 404 no_hints, h)
open_of_hints user (hint ∷ more) r at h = open_at user r.cid (hint ∷ more) r.idx at h

abbrev pub hint_of_journey :
    String → Option Journey → ActionRequest → String → ApiHandler → ActionAnswer × ApiHandler
hint_of_journey user none r at h = (fail 404 no_hints, h)
hint_of_journey user (some j) r at h = open_of_hints user j.hints r at h

unfoldable pub open_hint : ActionRequest → String → ApiHandler → ActionAnswer × ApiHandler
unfolding for_mission
open_hint r at h = for_mission r h (λ user _. hint_of_journey user (lookup r.cid h.journeys) r at h)

abbrev pub reset_mission : String → String → Challenge → ApiHandler → ActionAnswer × ApiHandler
reset_mission user cid ch h =
    if not (ch.type == "evade")
    then (fail 400 not_an_evade_challenge, h)
    else store_answer no_reset (λ _. dirty_cleared user cid) h (reset_dirty user cid h.store)

-- resetDirty
unfoldable pub redo_mission : ActionRequest → ApiHandler → ActionAnswer × ApiHandler
unfolding for_mission
redo_mission r h = for_mission r h (λ user ch. reset_mission user r.cid ch h)

-- reset, of the operator alone
unfoldable pub reset_all : ActionRequest → ApiHandler → ActionAnswer × ApiHandler
reset_all r h =
    if is_admin_request h.admin_set r.email
    then store_answer no_reset cleared_solves h (reset h.store)
    else (fail 403 admin_only, h)
