-- ===== src/Api/HintOrder.antt =====
-- Hints open in order: openHint of internal/scoreboard/api/api.go, whatever else happens.
use falco_ctf_app.Prelude.{
  ℕ, zero, suc, ◌≡◌, refl, sym, ap, ◌∙◌, inl, inr, String, string_eq, nat_eq, Bool, true, ◌||◌,
  Option, none, some, List, [], ◌∷◌, ◌==◌, length, arith, Bool-cases, Option-cases,
}
use falco_ctf_app.Prelude.Int.{ℤ, pos, negsuc}
use falco_ctf_app.Prelude.Maps.{lookup, has}
use falco_ctf_app.Prelude.Results.{Result, ok, err}
use falco_ctf_app.Prelude.Text.{text}
use falco_ctf_app.Identity.{valid_seat}
use falco_ctf_app.Catalog.{Challenge}
use falco_ctf_app.Store.State.{Store, Failure, hint_eq}
use falco_ctf_app.Store.Reveals.{hint_key, record_hint_view, set_step_check}
use falco_ctf_app.Store.Rules.{reset_dirty}
use falco_ctf_app.Store.Lifecycle.{reset, reset_statements}
use falco_ctf_app.Store.Coherence.FailClosed.{run_all-keeps, reset-cases}
use falco_ctf_app.Api.Gates.{self_or_admin, is_admin_request, trimmed, challenge}
use falco_ctf_app.Api.Actions.{
  ActionError, ActionBody, hint_opened, step_checked, dirty_cleared, cleared_solves, no_hint_view,
  no_step_check, no_reset, store_answer, ApiHandler, ActionRequest, ActionAnswer, JourneyHint,
  Journey, may_open, for_mission, step_of_journey, set_step, step_at, step_check, nth_of, open_at,
  open_next, open_of_hints, hint_of_journey, open_hint, reset_mission, redo_mission, reset_all,
}
use falco_ctf_app.Api.HintLists.{hint_views_lem}
use falco_ctf_app.Api.HintMap.{Ordered, OpenedInOrder, Ordered-of, OpenedInOrder-of, insert-Ordered}

-- The store's map is in order.
abbrev InOrder : Store → Type 0
InOrder s = Ordered s.mem.hint_views

for_mission-keeps :
    (P : Store → Type 0) (r : ActionRequest) (h : ApiHandler)
    (act : String → Challenge → ActionAnswer × ApiHandler)
    → P h.store
    → ((user : String) (ch : Challenge) → P (act user ch).1.store)
    → P (for_mission r h act).1.store
unfolding for_mission
for_mission-keeps P r h act p acts = elim (Bool-cases (valid_seat (trimmed r.user))) [
  | inr odd ↦ rw odd p
  | inl seat ↦
      elim (Option-cases
        (self_or_admin h.admin_set h.email_domain r.email (text (trimmed r.user)))) [
          | inr (reason, denied) ↦ rw (seat, denied) p
          | inl allowed ↦ elim (Option-cases (challenge h.cat r.cid)) [
            | inl unknown ↦ rw (seat, allowed, unknown) p
            | inr (ch, found) ↦ rw (seat, allowed, found) (acts (trimmed r.user) ch)
          ]
        ]
]

set_step-hints :
    (u c : String) (i : ℕ) (b : Bool) (at : String) (s : Store)
    → (set_step_check u c i b at s).1.mem.hint_views ≡ s.mem.hint_views
unfolding set_step_check
set_step-hints u c i b at s = ground arith

reset_dirty-hints :
    (u c : String) (s : Store) → (reset_dirty u c s).1.mem.hint_views ≡ s.mem.hint_views
unfolding reset_dirty
reset_dirty-hints u c s = ground arith

record_hint_view-InOrder :
    (v d : String) (n : ℕ) (at : String) (s : Store)
    → InOrder s
    → (n == 0 || has (hint_key v d n) s.mem.hint_views) ≡ true
    → InOrder (record_hint_view v d (suc n) at s).1
unfolding record_hint_view
record_hint_view-InOrder v d n at s o next =
    elim (Bool-cases (has (hint_key v d (suc n)) s.mem.hint_views)) [
      | inl old ↦ rw old o
      | inr new ↦ elim (Bool-cases (s.faulty s.statements)) [
        | inl bad ↦ rw (new, bad) o
        | inr good ↦ rw (new, good) (insert-Ordered v d n s.mem.hint_views o next)
      ]
    ]

store_answer-store :
    {A : Type 0} (e : ActionError) (body : A → ActionBody) (h : ApiHandler)
    (r : Result Failure A × Store)
    → (store_answer e body h r).1.store ≡ r.1
store_answer-store e body h (ok a, s) = refl
store_answer-store e body h (err x, s) = refl

open_next-InOrder :
    (user cid : String) (n total : ℕ) (hint : Option JourneyHint) (at : String) (h : ApiHandler)
    → InOrder h.store
    → InOrder (open_next user cid n total hint at h).1.store
open_next-InOrder user cid n total none at h o = o
open_next-InOrder user cid n total (some hint) at h o =
    elim (Bool-cases (may_open user cid n h.store)) [
      | inr early ↦ rw early o
      | inl next ↦ rw next (
          rw
            (store_answer-store no_hint_view (hint_opened user cid (suc n) hint total) h
              (record_hint_view user cid (suc n) at h.store))
            (record_hint_view-InOrder user cid n at h.store o
              (ap (λ b. (n == 0) || b) (sym (hint_views_lem user cid n h.store)) ∙ next)))
    ]

open_at-InOrder :
    (user cid : String) (hints : List JourneyHint) (idx : Option ℤ) (at : String) (h : ApiHandler)
    → InOrder h.store
    → InOrder (open_at user cid hints idx at h).1.store
open_at-InOrder user cid hints none at h o = o
open_at-InOrder user cid hints (some (negsuc n)) at h o = o
open_at-InOrder user cid hints (some (pos zero)) at h o = o
open_at-InOrder user cid hints (some (pos (suc n))) at h o =
    open_next-InOrder user cid n (length hints) (nth_of n hints) at h o

open_of_hints-InOrder :
    (user : String) (hints : List JourneyHint) (r : ActionRequest) (at : String) (h : ApiHandler)
    → InOrder h.store
    → InOrder (open_of_hints user hints r at h).1.store
open_of_hints-InOrder user [] r at h o = o
open_of_hints-InOrder user (hint ∷ more) r at h o =
    open_at-InOrder user r.cid (hint ∷ more) r.idx at h o

hint_of_journey-InOrder :
    (user : String) (j : Option Journey) (r : ActionRequest) (at : String) (h : ApiHandler)
    → InOrder h.store
    → InOrder (hint_of_journey user j r at h).1.store
hint_of_journey-InOrder user none r at h o = o
hint_of_journey-InOrder user (some j) r at h o = open_of_hints-InOrder user j.hints r at h o

set_step-InOrder :
    (user cid : String) (idx : Option ℕ) (checked : Option Bool) (at : String) (h : ApiHandler)
    → InOrder h.store
    → InOrder (set_step user cid idx checked at h).1.store
set_step-InOrder user cid none checked at h o = o
set_step-InOrder user cid (some idx) none at h o = o
set_step-InOrder user cid (some idx) (some checked) at h o =
    rw
      (store_answer-store no_step_check (λ _. step_checked user cid idx checked) h
        (set_step_check user cid idx checked at h.store))
      (rw (set_step-hints user cid idx checked at h.store) o)

step_of_journey-InOrder :
    (user : String) (j : Option Journey) (r : ActionRequest) (at : String) (h : ApiHandler)
    → InOrder h.store
    → InOrder (step_of_journey user j r at h).1.store
step_of_journey-InOrder user none r at h o = o
step_of_journey-InOrder user (some j) r at h o =
    set_step-InOrder user r.cid (step_at r.idx j.steps) r.checked at h o

reset_mission-InOrder :
    (user cid : String) (ch : Challenge) (h : ApiHandler)
    → InOrder h.store
    → InOrder (reset_mission user cid ch h).1.store
reset_mission-InOrder user cid ch h o = elim (Bool-cases (ch.type == "evade")) [
  | inr other ↦ rw other o
  | inl evade ↦ rw evade (
      rw
        (store_answer-store no_reset (λ _. dirty_cleared user cid) h (reset_dirty user cid h.store))
        (rw (reset_dirty-hints user cid h.store) o))
]

reset-InOrder : (s : Store) → InOrder s → InOrder (reset s).1
reset-InOrder s o = elim (reset-cases s) [
  | inl (mem, db) ↦
      rw mem (record { earlier = λ u c i j lo hi h. absurd (unfold lookup in ground (arith, h)) })
  | inr stopped ↦ rw stopped (
      run_all-keeps (λ m t. Ordered m.hint_views) reset_statements
        (λ m t h. h, (λ m t h. h, (λ m t h. h, (λ m t h. h, (λ m t h. h, (λ m t h. h, tt)))))) s o)
]

reset_all-InOrder :
    (r : ActionRequest) (h : ApiHandler) → InOrder h.store → InOrder (reset_all r h).1.store
unfolding reset_all
reset_all-InOrder r h o = elim (Bool-cases (is_admin_request h.admin_set r.email)) [
  | inr other ↦ rw other o
  | inl admin ↦
      rw admin (
        rw (store_answer-store no_reset cleared_solves h (reset h.store)) (reset-InOrder h.store o))
]

-- A request to one of the four routes, with its reading of the clock.
pub data Action : Type 0 where
  opens : ActionRequest → String → Action
  checks_step : ActionRequest → String → Action
  redoes : ActionRequest → Action
  resets : ActionRequest → Action

unfoldable pub act : Action → ApiHandler → ActionAnswer × ApiHandler
act (opens r at) h = open_hint r at h
act (checks_step r at) h = step_check r at h
act (redoes r) h = redo_mission r h
act (resets r) h = reset_all r h

unfoldable pub act_all : List Action → ApiHandler → ApiHandler
unfolding act
act_all [] h = h
act_all (x ∷ xs) h = act_all xs (act x h).1

act-InOrder : (x : Action) (h : ApiHandler) → InOrder h.store → InOrder (act x h).1.store
unfolding act open_hint step_check redo_mission
act-InOrder (opens r at) h o =
    for_mission-keeps InOrder r h (λ user _. hint_of_journey user (lookup r.cid h.journeys) r at h)
      o (λ user ch. hint_of_journey-InOrder user (lookup r.cid h.journeys) r at h o)
act-InOrder (checks_step r at) h o =
    for_mission-keeps InOrder r h (λ user _. step_of_journey user (lookup r.cid h.journeys) r at h)
      o (λ user ch. step_of_journey-InOrder user (lookup r.cid h.journeys) r at h o)
act-InOrder (redoes r) h o =
    for_mission-keeps InOrder r h (λ user ch. reset_mission user r.cid ch h) o
      (λ user ch. reset_mission-InOrder user r.cid ch h o)
act-InOrder (resets r) h o = reset_all-InOrder r h o

act_all-InOrder :
    (xs : List Action) (h : ApiHandler) → InOrder h.store → InOrder (act_all xs h).store
unfolding act_all
act_all-InOrder [] h o = o
act_all-InOrder (x ∷ xs) h o = act_all-InOrder xs (act x h).1 (act-InOrder x h o)

-- If every open hint has the earlier ones open, from hint 1 on, then so it stays through any
-- sequence of requests by anyone to open hints, to tick steps, to redo missions and to reset the
-- scoreboard, whichever statements fail.
pub act_all-OpenedInOrder :
    (xs : List Action) (h : ApiHandler) → OpenedInOrder h.store → OpenedInOrder (act_all xs h).store
act_all-OpenedInOrder xs h o =
    OpenedInOrder-of (act_all xs h).store (act_all-InOrder xs h (Ordered-of h.store o))
