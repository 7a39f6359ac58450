-- ===== src/Store/State.antt =====
-- The types of internal/store/store.go: the maps of `Store`, the tables of migrations.go behind
-- them, and the action that one method call is. The mutex makes each call one step.
--
-- SQLite itself is not part of the repository. A statement that succeeds does to its table what
-- its SQL text says, and whether the n-th statement succeeds is the parameter `faulty`.
use falco_ctf_app.Prelude.{
  ℕ, suc, String, ◌≡◌, ◌↔◌, Bool, true, ◌&&◌, arith, ◌==◌, Eq, nat_eq, string_eq, if◌then◌else◌,
  List,
}
use falco_ctf_app.Prelude.Maps.{Map, has, insert}
use falco_ctf_app.Prelude.Results.{Result, ok, err}

pub record SolveKey : Type 0 where
  pub user : String
  pub challenge : String

pub record StepCheckKey : Type 0 where
  pub user : String
  pub challenge : String
  pub step_idx : ℕ

pub record HintViewKey : Type 0 where
  pub user : String
  pub challenge : String
  pub hint_idx : ℕ

-- The primary key (user, challenge, rule) of evade_dirty and expected_rule_fire.
pub record RuleKey : Type 0 where
  pub user : String
  pub challenge : String
  pub rule : String

abbrev solve_beq : SolveKey → SolveKey → Bool
solve_beq a b = a.user == b.user && a.challenge == b.challenge

pub solve_beq_iff : (a b : SolveKey) → (solve_beq a b ≡ true) ↔ (a ≡ b)
solve_beq_iff a b =
    ground (arith, string_eq.beq_iff a.user b.user, string_eq.beq_iff a.challenge b.challenge)

abbrev step_beq : StepCheckKey → StepCheckKey → Bool
step_beq a b = a.user == b.user && a.challenge == b.challenge && a.step_idx == b.step_idx

pub step_beq_iff : (a b : StepCheckKey) → (step_beq a b ≡ true) ↔ (a ≡ b)
step_beq_iff a b =
    ground (arith, string_eq.beq_iff a.user b.user, string_eq.beq_iff a.challenge b.challenge)

abbrev hint_beq : HintViewKey → HintViewKey → Bool
hint_beq a b = a.user == b.user && a.challenge == b.challenge && a.hint_idx == b.hint_idx

pub hint_beq_iff : (a b : HintViewKey) → (hint_beq a b ≡ true) ↔ (a ≡ b)
hint_beq_iff a b =
    ground (arith, string_eq.beq_iff a.user b.user, string_eq.beq_iff a.challenge b.challenge)

abbrev rule_beq : RuleKey → RuleKey → Bool
rule_beq a b = a.user == b.user && a.challenge == b.challenge && a.rule == b.rule

pub rule_beq_iff : (a b : RuleKey) → (rule_beq a b ≡ true) ↔ (a ≡ b)
rule_beq_iff a b = ground (
  arith,
  string_eq.beq_iff a.user b.user,
  string_eq.beq_iff a.challenge b.challenge,
  string_eq.beq_iff a.rule b.rule,
)

instance abbrev pub solve_eq : Eq SolveKey
solve_eq = record { beq = solve_beq; beq_iff = solve_beq_iff }

instance abbrev pub step_eq : Eq StepCheckKey
step_eq = record { beq = step_beq; beq_iff = step_beq_iff }

instance abbrev pub hint_eq : Eq HintViewKey
hint_eq = record { beq = hint_beq; beq_iff = hint_beq_iff }

instance abbrev pub rule_eq : Eq RuleKey
rule_eq = record { beq = rule_beq; beq_iff = rule_beq_iff }

abbrev pub solve_key : String → String → SolveKey
solve_key u c = record { user = u; challenge = c }

-- `At` is a number of nanoseconds here, so that a float64 of seconds is read without rounding.
pub record RuleFire : Type 0 where
  pub rule : String
  pub at : ℕ

-- The maps of `Store`. A `map[string]struct{}` is a map to `Unit`.
pub record Memory : Type 0 where
  pub solved : Map SolveKey String
  pub exfil : Map SolveKey String
  pub events_per_user : Map String ℕ
  pub rule_fires : Map String (List RuleFire)
  pub display_names : Map String String
  pub avatars : Map String String
  pub hint_views : Map HintViewKey Bool
  pub step_checks : Map StepCheckKey Bool
  pub dirty_rules : Map SolveKey (Map String (Unit {0}))
  pub expected_rule_fire : Map SolveKey (Map String (Unit {0}))

pub record ExfilRow : Type 0 where
  pub flag : String
  pub at : String

pub record ProfileRow : Type 0 where
  pub value : String
  pub set_at : String

-- The tables, each as a map from its primary key to its other columns.
pub record Tables : Type 0 where
  pub solved : Map SolveKey String
  pub exfil : Map SolveKey ExfilRow
  pub display_names : Map String ProfileRow
  pub avatars : Map String ProfileRow
  pub hint_views : Map HintViewKey String
  pub step_checks : Map StepCheckKey String
  pub evade_dirty : Map RuleKey String
  pub expected_rule_fire : Map RuleKey String

pub record Store : Type 0 where
  pub mem : Memory
  pub db : Tables
  pub statements : ℕ
  pub faulty : ℕ → Bool

pub data Failure : Type 0 where
  sqlite : Failure
  wrapped : String → Failure

-- A method that may fail: what was written before the error stays written.
abbrev pub Action : Type 0 → Type 0
Action A = Store → Result Failure A × Store

abbrev continue :
    {A B : Type 0} → Result Failure A × Store → (A → Action B) → Result Failure B × Store
continue (ok a, s) f = f a s
continue (err e, s) f = (err e, s)

infixl 5 ◌>>=◌ ◌>>◌
abbrev pub ◌>>=◌ : {A B : Type 0} → Action A → (A → Action B) → Action B
◌>>=◌ m f s = continue (m s) f

abbrev pub ◌>>◌ : {B : Type 0} → Action (Unit {0}) → Action B → Action B
◌>>◌ m n = m >>= λ _. n

abbrev pub pure : {A : Type 0} → A → Action A
pure a s = (ok a, s)

-- One statement, which the driver runs whole or not at all.
abbrev pub exec : (Tables → Tables) → Action (Unit {0})
exec statement s =
    if s.faulty s.statements
    then (err sqlite, record s { statements = suc s.statements })
    else (ok tt, record s { db = statement s.db; statements = suc s.statements })

-- fmt.Errorf(stage + ": %w", err)
abbrev wrap_err : {A : Type 0} → String → Result Failure A × Store → Result Failure A × Store
wrap_err stage (ok a, s) = (ok a, s)
wrap_err stage (err e, s) = (err (wrapped stage), s)

abbrev pub wrap : {A : Type 0} → String → Action A → Action A
wrap stage m s = wrap_err stage (m s)

-- A statement inside a transaction: it may fail, and it writes nothing before the commit.
abbrev pub staged : Action (Unit {0})
staged = exec (λ t. t)

-- The assignments to the maps under the lock.
abbrev pub update : (Memory → Memory) → Action (Unit {0})
update f s = (ok tt, record s { mem = f s.mem })

-- INSERT OR IGNORE: a row that has the key is kept.
abbrev pub insert_or_ignore : {K V : Type 0} ⦃e : Eq K⦄ → K → V → Map K V → Map K V
insert_or_ignore k v m = if has k m then m else insert k v m
