-- ===== src/Store/Lifecycle.antt =====
-- Open (after the migrations), Snapshot and Reset of internal/store/store.go.
use falco_ctf_app.Prelude.{
  ℕ, suc, String, Bool, true, List, [], ◌∷◌, length, Eq, string_eq, if◌then◌else◌,
}
use falco_ctf_app.Prelude.Maps.{Map, insert}
use falco_ctf_app.Prelude.Results.{Result, ok, err}
use falco_ctf_app.Store.State.{
  SolveKey, solve_key, solve_eq, hint_eq, step_eq, RuleKey, Memory, Tables, Store, Failure, sqlite,
  Action, exec, update, pure, wrap, ◌>>◌,
}
use falco_ctf_app.Prelude.RuleSets.{add_rule}

abbrev pub empty_memory : Memory
empty_memory = record {
  solved = [];
  exfil = [];
  events_per_user = [];
  rule_fires = [];
  display_names = [];
  avatars = [];
  hint_views = [];
  step_checks = [];
  dirty_rules = [];
  expected_rule_fire = [];
}

-- The `rows.Next` loop of each table whose rows carry one value for a key.
unfoldable pub load_rows : {K V W : Type 0} ⦃e : Eq K⦄ → (V → W) → Map K V → Map K W → Map K W
load_rows f [] m = m
load_rows f ((k, v) ∷ rows) m = load_rows f rows (insert k (f v) m)

-- The same loop for the tables that hold a row for each rule.
unfoldable pub load_rules :
    Map RuleKey String → Map SolveKey (Map String (Unit {0})) → Map SolveKey (Map String (Unit {0}))
load_rules [] m = m
load_rules ((k, at) ∷ rows) m = load_rules rows (add_rule (solve_key k.user k.challenge) k.rule m)

-- A SELECT and the loop over its rows: it may fail, and writes no table.
abbrev pub read : (Tables → Memory → Memory) → Action (Unit {0})
read f s =
    if s.faulty s.statements
    then (err sqlite, record s { statements = suc s.statements })
    else (ok tt, record s { mem = f s.db s.mem; statements = suc s.statements })

-- The SELECT statements of loadFromDB, in their order, each with what its rows do to the maps.
abbrev pub selects : List (Tables → Memory → Memory)
selects =
    (λ t m. record m { solved = load_rows (λ at. at) t.solved m.solved })
    ∷ (λ t m. record m {
      display_names = load_rows (λ row. row.value) t.display_names m.display_names;
    })
    ∷ (λ t m. record m { avatars = load_rows (λ row. row.value) t.avatars m.avatars })
    ∷ (λ t m. record m { exfil = load_rows (λ row. row.flag) t.exfil m.exfil })
    ∷ (λ t m. record m { hint_views = load_rows (λ _. true) t.hint_views m.hint_views })
    ∷ (λ t m. record m { step_checks = load_rows (λ _. true) t.step_checks m.step_checks })
    ∷ (λ t m. record m { dirty_rules = load_rules t.evade_dirty m.dirty_rules })
    ∷ (λ t m. record m {
      expected_rule_fire = load_rules t.expected_rule_fire m.expected_rule_fire;
    })
    ∷ []

unfoldable pub load_all : List (Tables → Memory → Memory) → Action (Unit {0})
load_all [] = pure tt
load_all (f ∷ rest) = do read f; load_all rest

unfoldable pub load_from_db : Action (Unit {0})
unfolding load_rows load_rules load_all
load_from_db = load_all selects

-- Open on a migrated database: the store, or the wrapped error of the load.
abbrev pub opened : Result Failure (Unit {0}) × Store → Result Failure Store
opened (ok _, s) = ok s
opened (err e, s) = err e

unfoldable pub open_store : Tables → (ℕ → Bool) → Result Failure Store
unfolding load_from_db
open_store db faulty = opened (
    wrap "load initial state" load_from_db
      (record { mem = empty_memory; db = db; statements = 0; faulty = faulty }))

pub record Snapshot : Type 0 where
  pub solved : Map SolveKey String
  pub events_per_user : Map String ℕ
  pub display_names : Map String String
  pub avatars : Map String String

unfoldable pub snapshot : Store → Snapshot
snapshot s = record {
  solved = s.mem.solved;
  events_per_user = s.mem.events_per_user;
  display_names = s.mem.display_names;
  avatars = s.mem.avatars;
}

-- The maps that Reset makes anew; names and avatars stay.
abbrev pub cleared : Memory → Memory
cleared m = record empty_memory { display_names = m.display_names; avatars = m.avatars }

-- Six DELETE statements with no transaction round them, each with the prefix of its error.
abbrev pub reset_statements : List (String × (Tables → Tables))
reset_statements =
    ("reset solved", λ t. record t { solved = [] })
    ∷ ("reset exfil", λ t. record t { exfil = [] })
    ∷ ("reset hint_views", λ t. record t { hint_views = [] })
    ∷ ("reset step_checks", λ t. record t { step_checks = [] })
    ∷ ("reset evade_dirty", λ t. record t { evade_dirty = [] })
    ∷ ("reset expected_rule_fire", λ t. record t { expected_rule_fire = [] })
    ∷ []

-- In order, up to the first that fails.
unfoldable pub run_all : List (String × (Tables → Tables)) → Action (Unit {0})
run_all [] = pure tt
run_all ((stage, statement) ∷ rest) = do wrap stage (exec statement); run_all rest

-- The memory is cleared only after the last statement.
unfoldable pub reset : Action ℕ
unfolding run_all
reset s = (do run_all reset_statements; update cleared; pure (length s.mem.solved)) s
