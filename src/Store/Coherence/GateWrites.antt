-- ===== src/Store/Coherence/GateWrites.antt =====
-- The writes to reveals, checks and taints of internal/store/store.go keep maps and tables equal.
use falco_ctf_app.Prelude.{String, true, false, ◌≡◌, arith, string_eq}
use falco_ctf_app.Prelude.Maps.{has, insert, delete, lookup-insert, lookup-delete}
use falco_ctf_app.Store.State.{
  solve_key, solve_eq, HintViewKey, hint_eq, StepCheckKey, step_eq, rule_eq, Memory, Tables,
  insert_or_ignore,
}
use falco_ctf_app.Prelude.RuleSets.{add_rule, has_rule-add_rule, has_rule-delete}
use falco_ctf_app.Store.Rules.{rule_key, delete_mission}
use falco_ctf_app.Store.Coherence.Relation.{Mirrors, has-delete_mission}

module _ {m : Memory} {t : Tables} (h : Mirrors m t) where
  pub hint-Mirrors :
      (k : HintViewKey) (at : String)
      → has k m.hint_views ≡ false
      → Mirrors
          (record m { hint_views = insert k true m.hint_views })
          (record t { hint_views = insert_or_ignore k at t.hint_views })
  hint-Mirrors k at fresh = record {
    solved = h.solved;
    exfil = h.exfil;
    display_names = h.display_names;
    avatars = h.avatars;
    hint_views = λ j. ground (
      arith,
      h.hint_views k,
      h.hint_views j,
      lookup-insert k j true m.hint_views,
      lookup-insert k j at t.hint_views,
    );
    step_checks = h.step_checks;
    dirty = h.dirty;
    expected = h.expected;
  }

  pub step-Mirrors :
      (k : StepCheckKey) (at : String)
      → Mirrors
          (record m { step_checks = insert k true m.step_checks })
          (record t { step_checks = insert k at t.step_checks })
  step-Mirrors k at = record {
    solved = h.solved;
    exfil = h.exfil;
    display_names = h.display_names;
    avatars = h.avatars;
    hint_views = h.hint_views;
    step_checks = λ j. ground (
      arith,
      h.step_checks j,
      lookup-insert k j true m.step_checks,
      lookup-insert k j at t.step_checks,
    );
    dirty = h.dirty;
    expected = h.expected;
  }

  pub unchecked-Mirrors :
      (k : StepCheckKey)
      → Mirrors
          (record m { step_checks = delete k m.step_checks })
          (record t { step_checks = delete k t.step_checks })
  unchecked-Mirrors k = record {
    solved = h.solved;
    exfil = h.exfil;
    display_names = h.display_names;
    avatars = h.avatars;
    hint_views = h.hint_views;
    step_checks = λ j.
        ground (
          arith,
          h.step_checks j,
          lookup-delete k j m.step_checks,
          lookup-delete k j t.step_checks,
        );
    dirty = h.dirty;
    expected = h.expected;
  }

  pub dirty-Mirrors :
      (u c r : String) (at : String)
      → Mirrors
          (record m { dirty_rules = add_rule (solve_key u c) r m.dirty_rules })
          (record t { evade_dirty = insert_or_ignore (rule_key u c r) at t.evade_dirty })
  dirty-Mirrors u c r at = record {
    solved = h.solved;
    exfil = h.exfil;
    display_names = h.display_names;
    avatars = h.avatars;
    hint_views = h.hint_views;
    step_checks = h.step_checks;
    dirty = λ v d q. rw has_rule-add_rule (
        ground (
          arith,
          h.dirty v d q,
          h.dirty u c r,
          lookup-insert (rule_key u c r) (rule_key v d q) at t.evade_dirty,
          string_eq.beq_iff u v,
          string_eq.beq_iff c d,
          string_eq.beq_iff r q,
        ));
    expected = h.expected;
  }

  pub expected-Mirrors :
      (u c r : String) (at : String)
      → Mirrors
          (record m { expected_rule_fire = add_rule (solve_key u c) r m.expected_rule_fire })
          (record t {
            expected_rule_fire = insert_or_ignore (rule_key u c r) at t.expected_rule_fire;
          })
  expected-Mirrors u c r at = record {
    solved = h.solved;
    exfil = h.exfil;
    display_names = h.display_names;
    avatars = h.avatars;
    hint_views = h.hint_views;
    step_checks = h.step_checks;
    dirty = h.dirty;
    expected = λ v d q. rw has_rule-add_rule (
        ground (
          arith,
          h.expected v d q,
          h.expected u c r,
          lookup-insert (rule_key u c r) (rule_key v d q) at t.expected_rule_fire,
          string_eq.beq_iff u v,
          string_eq.beq_iff c d,
          string_eq.beq_iff r q,
        ));
  }

  pub cleaned-Mirrors :
      (u c : String)
      → Mirrors
          (record m {
            dirty_rules = delete (solve_key u c) m.dirty_rules;
            exfil = delete (solve_key u c) m.exfil;
          })
          (record t {
            evade_dirty = delete_mission u c t.evade_dirty;
            exfil = delete (solve_key u c) t.exfil;
          })
  cleaned-Mirrors u c = record {
    solved = h.solved;
    exfil = λ j. ground (
      arith,
      h.exfil j,
      lookup-delete (solve_key u c) j m.exfil,
      lookup-delete (solve_key u c) j t.exfil,
    );
    display_names = h.display_names;
    avatars = h.avatars;
    hint_views = h.hint_views;
    step_checks = h.step_checks;
    dirty = λ v d q. rw has_rule-delete (rw has-delete_mission (ground (arith, h.dirty v d q)));
    expected = h.expected;
  }
