-- ===== src/Ingest/Taints.antt =====
-- The promise of the webhook: a forbidden rule that fires is never lost, whatever the limiters and
-- the disk do.
use falco_ctf_app.Prelude.{
  ℕ, String, ◌≡◌, refl, ap, ◌∙◌, inl, inr, true, ◌||◌, Option, some, List, [], ◌∷◌, ◌==◌, nat_eq,
  string_eq, arith, contains, Bool-cases,
}
use falco_ctf_app.Prelude.Maps.{Map, has-insert, lookup, has, insert}
use falco_ctf_app.Identity.{valid_seat}
use falco_ctf_app.Catalog.{Challenge, Catalog}
use falco_ctf_app.Store.State.{Store}
use falco_ctf_app.Store.Rules.{record_rule_fire}
use falco_ctf_app.Store.Solves.{is_solved}
use falco_ctf_app.Scoring.Grader.{
  Grader, add_rules, collect_rules, affects_scoring, current_mission, taint_target,
}
use falco_ctf_app.Scoring.Mission.{taint_target_lem}
use falco_ctf_app.Scoring.Taint.Frames.{Blocked}
use falco_ctf_app.Scoring.Taint.Fires.{on_rule_fire-Blocked, taint_on_overflow-Blocked}
use falco_ctf_app.Ingest.Stores.{limit-store}
use falco_ctf_app.Ingest.Gates.{Gated, admit-Gated}
use falco_ctf_app.RateLimit.Floats.{Floats}
use falco_ctf_app.Ingest.Events.{FalcoEvent, Request}
use falco_ctf_app.Ingest.Handler.{
  Handler, Clock, Fire, Admission, refused, admitted, admit, limit, answer_admission, receive,
}

has-add_rules :
    (rules : List String) (rule : String) (m : Map String (Unit {0}))
    → has rule (add_rules rules m) ≡ (contains rules rule || has rule m)
has-add_rules [] rule m = refl
has-add_rules (q ∷ rules) rule m =
    ground (arith, has-add_rules rules rule (insert q tt m), has-insert q rule tt m)

collect_rules-keeps :
    (cat : Catalog) (m : Map String (Unit {0})) (rule : String)
    → has rule m ≡ true
    → has rule (collect_rules cat m) ≡ true
unfolding collect_rules
collect_rules-keeps [] m rule h = h
collect_rules-keeps ((d, e) ∷ cat) m rule h = collect_rules-keeps cat _ rule (
    ground (
      arith,
      has-add_rules e.expected_rules rule (add_rules e.forbidden_rules m),
      has-add_rules e.forbidden_rules rule m,
      h,
    ))

-- New collects the rules that a challenge forbids.
collected :
    (cat : Catalog) (m : Map String (Unit {0})) (c rule : String) (ch : Challenge)
    → lookup c cat ≡ some ch
    → contains ch.forbidden_rules rule ≡ true
    → has rule (collect_rules cat m) ≡ true
unfolding collect_rules lookup
collected [] m c rule ch found forbidden = absurd (ground (arith, found))
collected ((d, e) ∷ cat) m c rule ch found forbidden = elim (Bool-cases (d == c)) [
  | inl same ↦
      let here : some e ≡ some ch = rw same at found in
      collect_rules-keeps cat _ rule (
        ground (
          arith,
          here,
          has-add_rules e.expected_rules rule (add_rules e.forbidden_rules m),
          has-add_rules e.forbidden_rules rule m,
          forbidden,
        ))
  | inr other ↦ collected cat _ c rule ch (rw other at found) forbidden
]

taint_target-record_rule_fire :
    (g : Grader) (u q v r : String) (at : ℕ) (s : Store)
    → taint_target g u q (record_rule_fire v r at s).1 ≡ taint_target g u q s
unfolding taint_target record_rule_fire current_mission is_solved
taint_target-record_rule_fire g u q v r at s = refl

-- The rules of the handler's grader are those that New collected from its catalog.
unfoldable pub HasRules : Grader → Type 0
HasRules g = g.scoring_rules ≡ collect_rules g.cat []

affects_scoring-target :
    (g : Grader) (u q c : String) (s : Store)
    → HasRules g
    → taint_target g u q s ≡ some c
    → affects_scoring g q ≡ true
unfolding affects_scoring HasRules
affects_scoring-target g u q c s rules h =
    let t = taint_target_lem g u q s h in
    ap (has q) rules ∙ collected g.cat [] c q t.challenge t.found t.forbidden

module _ (fl : Floats) where
  pub record_rule_fire-Blocked :
      {u m q : String} (v r : String) (at : ℕ) (s : Store)
      → Blocked u m q s
      → Blocked u m q (record_rule_fire v r at s).1
  unfolding record_rule_fire is_solved
  record_rule_fire-Blocked v r at s b = record { tainted = b.tainted; unsolved = b.unsolved }

  limit-taints :
      (c : Clock) (f : Fire) (h : Handler fl) {m : String}
      → HasRules h.grader
      → valid_seat f.user ≡ true
      → taint_target h.grader f.user f.rule h.store ≡ some m
      → Blocked f.user m f.rule (limit fl c f h).1.store
  limit-taints c f h {m} rules seat target = elim (limit-store fl c f h) [
    | inl graded ↦ rw graded.0 (
        on_rule_fire-Blocked h.grader f.user f.rule c.taint c.expected c.solve
          (record_rule_fire f.user f.rule c.receipt h.store).1 seat
          (taint_target-record_rule_fire h.grader f.user f.rule f.user f.rule c.receipt h.store
            ∙ target))
    | inr (inl over) ↦
        rw over.0 (taint_on_overflow-Blocked h.grader f.user f.rule c.taint h.store seat target)
    | inr (inr (unscored, _)) ↦ absurd (
        ground
          (arith, unscored, affects_scoring-target h.grader f.user f.rule m h.store rules target))
  ]

  answer_admission-taints :
      (c : Clock) (body : Option FalcoEvent) (f : Fire) (h : Handler fl) {m : String}
      (p : Admission × Handler fl)
      → HasRules h.grader
      → Gated fl body h p
      → p.0 ≡ admitted f
      → taint_target h.grader f.user f.rule h.store ≡ some m
      → Blocked f.user m f.rule (answer_admission fl c p).1.store
  answer_admission-taints c body f h (refused a, h') rules g e target = absurd (ground (arith, e))
  answer_admission-taints c body f h {m} (admitted k, h') rules g e target =
      let same : k ≡ f = cc e in
      let grader : h'.grader ≡ h.grader = ap (λ x. x.grader) g.1 in
      let store : h'.store ≡ h.store = ap (λ x. x.store) g.1 in
      rw⁻¹ same (limit-taints c k h' (rw grader rules) g.0.1 (rw (grader, store, same) target))

  -- For a grader whose rules are those that New collects from its catalog: when a request passes
  -- the gates and its rule is forbidden on the current evade mission of its participant, the
  -- mission is tainted with the rule and unsolved after the request, also when the participant's
  -- bucket is empty and when any statements fail.
  pub receive_taints :
      (c : Clock) (r : Request) (f : Fire) (h : Handler fl) {m : String}
      → HasRules h.grader
      → (admit fl r h).0 ≡ admitted f
      → taint_target h.grader f.user f.rule h.store ≡ some m
      → Blocked f.user m f.rule (receive fl c r h).1.store
  unfolding receive
  receive_taints c r f h rules e target =
      answer_admission-taints c r.body f h (admit fl r h) rules (admit-Gated fl r h) e target
