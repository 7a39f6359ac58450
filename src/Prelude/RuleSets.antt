-- ===== src/Prelude/RuleSets.antt =====
-- A Go map whose values are sets of rule names, `map[K]map[string]struct{}`.
use mathlib.Core.Path.{◌≡◌}
use mathlib.Core.Bool.{Bool, false, ◌&&◌, ◌||◌}
use mathlib.Core.Option.{Option, none, some}
use mathlib.Core.List.{List, [], map}
use Prim.Native.String.{String}
use native.Mathlib.Omega.{arith}
use falco_ctf_app.Prelude.Tests.{if◌then◌else◌}
use falco_ctf_app.Prelude.Keys.{Eq, ◌==◌, string_eq}
use falco_ctf_app.Prelude.Maps.{
  Map, lookup, has, insert, delete, lookup-empty, lookup-insert, lookup-delete,
}

abbrev pub RuleSet : Type 0
RuleSet = Map String (Unit {0})

abbrev pub set_of : Option RuleSet → List String
set_of none = []
set_of (some set) = map (λ e. e.0) set

abbrev pub or_empty : Option RuleSet → RuleSet
or_empty none = []
or_empty (some set) = set

abbrev pub rule_in : Option RuleSet → String → Bool
rule_in none r = false
rule_in (some set) r = has r set

module _ {K : Type 0} ⦃e : Eq K⦄ where
  abbrev pub has_rule : K → String → Map K RuleSet → Bool
  has_rule k r sets = rule_in (lookup k sets) r

  -- A nil inner map is made first, then the rule is put in it.
  unfoldable pub add_rule : K → String → Map K RuleSet → Map K RuleSet
  add_rule key rule sets = insert key (insert rule tt (or_empty (lookup key sets))) sets

  pub has_rule-add_rule :
      (k j : K) (r q : String) (sets : Map K RuleSet)
      → has_rule j q (add_rule k r sets) ≡ ((k == j && r == q) || has_rule j q sets)
  unfolding add_rule
  has_rule-add_rule k j r q sets =
      rw (lookup-insert k j (insert r tt (or_empty (lookup k sets))) sets) (
        ground (
          arith,
          e.beq_iff k j,
          string_eq.beq_iff r q,
          lookup-empty {V = Unit {0}} q,
          lookup-insert r q tt (or_empty (lookup k sets)),
        ))

  pub has_rule-delete :
      (k j : K) (q : String) (sets : Map K RuleSet)
      → has_rule j q (delete k sets) ≡ (if k == j then false else has_rule j q sets)
  has_rule-delete k j q sets = rw (lookup-delete k j sets) (ground arith)
