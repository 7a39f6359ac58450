-- ===== src/Scoring/Taint/Calls.antt =====
-- No call of the grader solves a tainted mission.
use falco_ctf_app.Prelude.{
  ◌≢◌, String, true, false, not, ◌&&◌, ◌≡◌, inl, inr, Option, none, some, List, [], ◌∷◌, arith,
  ◌==◌, string_eq, contains, &&-eq-true, Bool-cases,
}
use falco_ctf_app.Prelude.Maps.{lookup}
use falco_ctf_app.Catalog.{Challenge}
use falco_ctf_app.Store.State.{Store}
use falco_ctf_app.Store.Solves.{has_exfil, mark_solved}
use falco_ctf_app.Store.Rules.{dirty_rules, has_expected_rule_fire, nonempty}
use falco_ctf_app.Scoring.Grader.{
  Grader, triggered, expects_fire, taint_with, record_fires, evaluate_triggers,
}
use falco_ctf_app.Scoring.Submit.{evaluate_clean}
use falco_ctf_app.Scoring.Taint.Frames.{
  Blocked, dirty_rules_of_Blocked, mark_solved-Blocked, mark_dirty-Blocked,
  record_expected_rule_fire-Blocked,
}

-- A mission that is not the evade mission is not the tainted one.
pub other_mission : (u c v d : String) → d ≢ c → (v == u && d == c) ≡ false
other_mission u c v d ne = ground (arith, string_eq.beq_iff d c)

triggered_ne :
    {c : String} (g : Grader) (ch : Challenge) (d q : String)
    → lookup c g.cat ≡ some ch
    → ch.type ≡ "evade"
    → triggered (lookup d g.cat) q ≡ true
    → d ≢ c
triggered_ne {c} g ch d q found evade fires same =
    let h : triggered (some ch) q ≡ true = rw (same, found) at fires in
    let both = &&-eq-true (ch.type == "trigger") (contains ch.expected_rules q) h in
    absurd (
      ground
        (arith, string_eq.beq_iff ch.type "trigger", string_eq.beq_iff "evade" "trigger", both.0))

module _ {u c r : String} where
  pub taint_with-Blocked :
      (target : Option String) (v q at : String) (s : Store)
      → Blocked u c r s
      → Blocked u c r (taint_with target v q at s).1
  taint_with-Blocked none v q at s b = b
  taint_with-Blocked (some d) v q at s b = mark_dirty-Blocked b v d q at

  pub record_fires-Blocked :
      (g : Grader) (v q at : String) (cids : List String) (s : Store)
      → Blocked u c r s
      → Blocked u c r (record_fires g v q at cids s).1
  unfolding record_fires
  record_fires-Blocked g v q at [] s b = b
  record_fires-Blocked g v q at (d ∷ rest) s b =
      elim (Bool-cases (expects_fire (lookup d g.cat) q)) [
        | inl fires ↦
            rw fires
              (record_fires-Blocked g v q at rest _ (record_expected_rule_fire-Blocked b v d q at))
        | inr quiet ↦ rw quiet (record_fires-Blocked g v q at rest s b)
      ]

  pub evaluate_triggers-Blocked :
      (g : Grader) (ch : Challenge) (v q at : String) (cids : List String) (s : Store)
      → lookup c g.cat ≡ some ch
      → ch.type ≡ "evade"
      → Blocked u c r s
      → Blocked u c r (evaluate_triggers g v q at cids s).1
  unfolding evaluate_triggers
  evaluate_triggers-Blocked g ch v q at [] s found evade b = b
  evaluate_triggers-Blocked g ch v q at (d ∷ rest) s found evade b =
      elim (Bool-cases (triggered (lookup d g.cat) q)) [
        | inl fires ↦ rw fires (
            evaluate_triggers-Blocked g ch v q at rest (mark_solved v d at s).1 found evade (
              mark_solved-Blocked b v d at
                (other_mission u c v d (triggered_ne g ch d q found evade fires))))
        | inr quiet ↦ rw quiet (evaluate_triggers-Blocked g ch v q at rest s found evade b)
      ]

  own_taint :
      (v : String) (ch : Challenge) (s : Store)
      → Blocked u c r s
      → (v == u && ch.id == c) ≡ true
      → nonempty (dirty_rules v ch.id s) ≡ true
  own_taint v ch s b same =
      let both = &&-eq-true (v == u) (ch.id == c) same in
      let user : v ≡ u = (string_eq.beq_iff v u).0 both.0 in
      let mission : ch.id ≡ c = (string_eq.beq_iff ch.id c).0 both.1 in
      rw (user, mission) (dirty_rules_of_Blocked b)

  -- The gates stop at the taint, for this mission; for any other the solve is another's.
  pub evaluate_clean-Blocked :
      (v flag at : String) (ch : Challenge) (s : Store)
      → Blocked u c r s
      → Blocked u c r (evaluate_clean v ch flag at s).1
  unfolding evaluate_clean
  evaluate_clean-Blocked v flag at ch s b = elim (Bool-cases (v == u && ch.id == c)) [
    | inl same ↦ rw (own_taint v ch s b same) b
    | inr other ↦ elim (Bool-cases (nonempty (dirty_rules v ch.id s))) [
      | inl dirty ↦ rw dirty b
      | inr clean ↦
          elim (Bool-cases
            (ch.require_expected_rule_fire && not (has_expected_rule_fire v ch.id s))) [
              | inl gate ↦ rw (clean, gate) b
              | inr fired ↦ elim (Bool-cases (ch.require_exfil && not (has_exfil v ch.id flag s))) [
                | inl gate ↦ rw (clean, fired, gate) b
                | inr sent ↦ rw (clean, fired, sent) (mark_solved-Blocked b v ch.id at other)
              ]
            ]
    ]
  ]
