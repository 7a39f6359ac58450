-- ===== src/Store/Coherence/Relation.antt =====
-- The agreement of the maps with the tables.
use falco_ctf_app.Prelude.{String, false, ◌&&◌, ◌≡◌, arith, ◌==◌, string_eq, if◌then◌else◌}
use mathlib.Core.Option
use falco_ctf_app.Prelude.Maps.{Map, lookup, has, lookup-delete_where}
use falco_ctf_app.Store.State.{
  SolveKey, solve_key, solve_eq, HintViewKey, hint_eq, StepCheckKey, step_eq, RuleKey, rule_eq,
  Memory, Tables,
}
use falco_ctf_app.Prelude.RuleSets.{has_rule}
use falco_ctf_app.Store.Rules.{rule_key, delete_mission}

-- What is read from memory is what the tables hold.
pub record Mirrors (m : Memory) (t : Tables) : Type 0 where
  pub solved : (k : SolveKey) → lookup k m.solved ≡ lookup k t.solved
  pub exfil : (k : SolveKey) → lookup k m.exfil ≡ Option.map (λ row. row.flag) (lookup k t.exfil)
  pub display_names :
      (u : String)
      → lookup u m.display_names ≡ Option.map (λ row. row.value) (lookup u t.display_names)
  pub avatars :
      (u : String) → lookup u m.avatars ≡ Option.map (λ row. row.value) (lookup u t.avatars)
  pub hint_views : (k : HintViewKey) → has k m.hint_views ≡ has k t.hint_views
  pub step_checks : (k : StepCheckKey) → has k m.step_checks ≡ has k t.step_checks
  pub dirty :
      (u c r : String)
      → has_rule (solve_key u c) r m.dirty_rules ≡ has (rule_key u c r) t.evade_dirty
  pub expected :
      (u c r : String)
      → has_rule (solve_key u c) r m.expected_rule_fire ≡ has (rule_key u c r) t.expected_rule_fire

-- The rows that a reset of one mission leaves.
pub has-delete_mission :
    (u c v d q : String) (rows : Map RuleKey String)
    → has (rule_key v d q) (delete_mission u c rows)
      ≡ (if u == v && c == d then false else has (rule_key v d q) rows)
has-delete_mission u c v d q rows =
    rw (lookup-delete_where (λ k. k.user == u && k.challenge == c) (rule_key v d q) rows) (
      ground (
        arith,
        string_eq.beq_iff v u,
        string_eq.beq_iff d c,
        string_eq.beq_iff u v,
        string_eq.beq_iff c d,
      ))
