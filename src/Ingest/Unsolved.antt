-- ===== src/Ingest/Unsolved.antt =====
-- A mission that a forbidden rule has tainted, under the requests and calls that follow.
use falco_ctf_app.Prelude.{
  String, ◌≡◌, ap, ◌∙◌, inl, inr, false, Option, some, List, [], ◌∷◌, nat_eq, string_eq,
}
use falco_ctf_app.Prelude.Maps.{lookup}
use falco_ctf_app.Catalog.{Challenge, IsLoaded}
use falco_ctf_app.Store.Solves.{is_solved}
use falco_ctf_app.Scoring.Grader.{taint_target}
use falco_ctf_app.Scoring.Mission.{taint_target_lem}
use falco_ctf_app.Scoring.Taint.Frames.{Blocked}
use falco_ctf_app.Scoring.Taint.NeverSolved.{
  Call, call, call-Blocked, fire-Blocked, overflow-Blocked,
}
use falco_ctf_app.Ingest.Taints.{HasRules, record_rule_fire-Blocked, receive_taints}
use falco_ctf_app.Ingest.Stores.{limit-store, limit-grader}
use falco_ctf_app.Ingest.Gates.{Gated, admit-Gated}
use falco_ctf_app.RateLimit.Floats.{Floats}
use falco_ctf_app.Ingest.Events.{FalcoEvent, Request}
use falco_ctf_app.Ingest.Handler.{
  Handler, Clock, Fire, Admission, refused, admitted, admit, limit, answer_admission, receive,
}

-- What may happen to the store that the webhook and the other handlers share.
pub data Event : Type 0 where
  webhook : Clock → Request → Event
  grader_call : Call → Event

module _ (fl : Floats) where
  limit-Blocked :
      {u m q : String} (c : Clock) (f : Fire) (h : Handler fl) (ch : Challenge)
      → lookup m h.grader.cat ≡ some ch
      → ch.type ≡ "evade"
      → Blocked u m q h.store
      → Blocked u m q (limit fl c f h).1.store
  limit-Blocked c f h ch found evade b = elim (limit-store fl c f h) [
    | inl graded ↦ rw graded.0 (
        fire-Blocked h.grader ch found evade f.user f.rule c.taint c.expected c.solve _
          (record_rule_fire-Blocked fl f.user f.rule c.receipt h.store b))
    | inr (inl over) ↦
        rw over.0 (overflow-Blocked h.grader ch found evade f.user f.rule c.taint h.store b)
    | inr (inr (_, same)) ↦ rw same.0 b
  ]

  answer_admission-Blocked :
      {u m q : String} (c : Clock) (body : Option FalcoEvent) (h : Handler fl) (ch : Challenge)
      (p : Admission × Handler fl)
      → lookup m h.grader.cat ≡ some ch
      → ch.type ≡ "evade"
      → Gated fl body h p
      → Blocked u m q h.store
      → Blocked u m q (answer_admission fl c p).1.store
  answer_admission-Blocked c body h ch (refused a, h') found evade g b =
      rw (ap (λ x. x.store) g.1) b
  answer_admission-Blocked c body h ch (admitted k, h') found evade g b =
      let grader : h'.grader ≡ h.grader = ap (λ x. x.grader) g.1 in
      limit-Blocked c k h' ch (rw grader found) evade (rw (ap (λ x. x.store) g.1) b)

  answer_admission-grader :
      (c : Clock) (body : Option FalcoEvent) (h : Handler fl) (p : Admission × Handler fl)
      → Gated fl body h p
      → (answer_admission fl c p).1.grader ≡ h.grader
  answer_admission-grader c body h (refused a, h') g = ap (λ x. x.grader) g.1
  answer_admission-grader c body h (admitted k, h') g =
      limit-grader fl c k h' ∙ ap (λ x. x.grader) g.1

  receive_grader :
      (c : Clock) (r : Request) (h : Handler fl) → (receive fl c r h).1.grader ≡ h.grader
  unfolding receive
  receive_grader c r h = answer_admission-grader c r.body h (admit fl r h) (admit-Gated fl r h)

  receive-Blocked :
      {u m q : String} (c : Clock) (r : Request) (h : Handler fl) (ch : Challenge)
      → lookup m h.grader.cat ≡ some ch
      → ch.type ≡ "evade"
      → Blocked u m q h.store
      → Blocked u m q (receive fl c r h).1.store
  unfolding receive
  receive-Blocked c r h ch found evade b =
      answer_admission-Blocked c r.body h ch (admit fl r h) found evade (admit-Gated fl r h) b

  unfoldable pub happen : Event → Handler fl → Handler fl
  happen (webhook c r) h = (receive fl c r h).1
  happen (grader_call x) h = record h { store = call h.grader x h.store }

  unfoldable pub happens : List Event → Handler fl → Handler fl
  unfolding happen
  happens [] h = h
  happens (x ∷ xs) h = happens xs (happen x h)

  happens-Blocked :
      {u m q : String} (xs : List Event) (h : Handler fl) (ch : Challenge)
      → IsLoaded h.grader.cat
      → lookup m h.grader.cat ≡ some ch
      → ch.type ≡ "evade"
      → Blocked u m q h.store
      → Blocked u m q (happens xs h).store
  unfolding happens happen
  happens-Blocked [] h ch loaded found evade b = b
  happens-Blocked (webhook c r ∷ xs) h ch loaded found evade b =
      let same = receive_grader c r h in
      happens-Blocked xs (receive fl c r h).1 ch (rw same loaded) (rw same found) evade
        (receive-Blocked c r h ch found evade b)
  happens-Blocked (grader_call x ∷ xs) h ch loaded found evade b =
      happens-Blocked xs (record h { store = call h.grader x h.store }) ch loaded found evade
        (call-Blocked h.grader ch found evade loaded x h.store b)

  -- For a grader whose rules are those that New collects from its catalog, and a catalog whose
  -- challenges stand under their own ids: when a request passes the gates and its rule is
  -- forbidden on the current evade mission of its participant, that mission stays unsolved for the
  -- participant through any later sequence of webhook requests and of calls of the grader by
  -- anyone, whatever the limiters say and whichever statements fail.
  pub forbidden_event-unsolved :
      (c : Clock) (r : Request) (f : Fire) (h : Handler fl) {m : String} (xs : List Event)
      → HasRules h.grader
      → IsLoaded h.grader.cat
      → (admit fl r h).0 ≡ admitted f
      → taint_target h.grader f.user f.rule h.store ≡ some m
      → is_solved f.user m (happens xs (receive fl c r h).1).store ≡ false
  forbidden_event-unsolved c r f h xs rules loaded e target =
      let t = taint_target_lem h.grader f.user f.rule h.store target in
      let same = receive_grader c r h in
      (happens-Blocked xs (receive fl c r h).1 t.challenge (rw same loaded) (rw same t.found)
        t.evade (receive_taints fl c r f h rules e target)).unsolved
