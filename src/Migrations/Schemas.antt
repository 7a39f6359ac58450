-- ===== src/Migrations/Schemas.antt =====
-- The migration lists of internal/store/migrations.go and internal/board/migrations.go.
--
-- A schema maps a name, of a table or an index, to its definition: a table to the text of its columns
-- and its primary key, an index to its table and column. SQLite compares names with ASCII letters
-- folded. A statement that SQLite refuses is a call that fails, as any other failure of it.
use falco_ctf_app.Prelude.{
  String, Bool, false, ◌||◌, List, [], ◌∷◌, map, ◌==◌, string_eq, if◌then◌else◌,
}
use falco_ctf_app.Prelude.Maps.{Map, insert}
use falco_ctf_app.Prelude.Text.{text, text_eq, lower}
use falco_ctf_app.Migrations.{Migration}

pub data Definition : Type 0 where
  table : List String → List String → Definition
  index : String → String → Definition

pub data Statement : Type 0 where
  create : String → Definition → Statement
  drop : String → Statement

abbrev pub Schema : Type 0
Schema = Map String Definition

unfoldable pub same_name : String → String → Bool
same_name a b = map lower (text a) == map lower (text b)

abbrev pub is_defined : String → Schema → Bool
is_defined name [] = false
is_defined name ((other, _) ∷ s) = same_name name other || is_defined name s

-- What DROP TABLE takes away: the table, and the indexes on it.
unfoldable pub goes_with : String → String → Definition → Bool
goes_with t name (table _ _) = same_name t name
goes_with t name (index owner _) = same_name t owner

unfoldable pub drop_table : String → Schema → Schema
drop_table t [] = []
drop_table t ((name, d) ∷ s) =
    let rest = drop_table t s in if goes_with t name d then rest else (name, d) ∷ rest

-- CREATE … IF NOT EXISTS and DROP TABLE IF EXISTS.
unfoldable pub run_statement : Statement → Schema → Schema
run_statement (create name d) s = if is_defined name s then s else insert name d s
run_statement (drop name) s = drop_table name s

unfoldable pub run_script : List Statement → Schema → Schema
run_script [] s = s
run_script (st ∷ rest) s = run_script rest (run_statement st s)

abbrev bootstrap : List Statement
bootstrap =
    create "solved" (
      table ("user TEXT NOT NULL" ∷ "challenge TEXT NOT NULL" ∷ "at TEXT NOT NULL" ∷ [])
        ("user" ∷ "challenge" ∷ []))
    ∷ create "display_names"
        (table ("user TEXT" ∷ "name TEXT NOT NULL" ∷ "set_at TEXT NOT NULL" ∷ []) ("user" ∷ []))
    ∷ create "hint_release" (
        table ("mission TEXT NOT NULL" ∷ "hint INTEGER NOT NULL" ∷ "at TEXT NOT NULL" ∷ [])
          ("mission" ∷ "hint" ∷ []))
    ∷ create "exfil" (
        table
          ("user TEXT NOT NULL" ∷ "challenge TEXT NOT NULL" ∷ "flag TEXT NOT NULL"
            ∷ "at TEXT NOT NULL" ∷ [])
          ("user" ∷ "challenge" ∷ []))
    ∷ create "hint_views" (
        table
          ("user TEXT NOT NULL" ∷ "challenge TEXT NOT NULL" ∷ "hint_idx INTEGER NOT NULL"
            ∷ "at TEXT NOT NULL" ∷ [])
          ("user" ∷ "challenge" ∷ "hint_idx" ∷ []))
    ∷ create "step_checks" (
        table
          ("user TEXT NOT NULL" ∷ "challenge TEXT NOT NULL" ∷ "step_idx INTEGER NOT NULL"
            ∷ "at TEXT NOT NULL" ∷ [])
          ("user" ∷ "challenge" ∷ "step_idx" ∷ []))
    ∷ create "evade_dirty" (
        table
          ("user TEXT NOT NULL" ∷ "challenge TEXT NOT NULL" ∷ "rule TEXT NOT NULL"
            ∷ "at TEXT NOT NULL" ∷ [])
          ("user" ∷ "challenge" ∷ "rule" ∷ []))
    ∷ create "expected_rule_fire" (
        table
          ("user TEXT NOT NULL" ∷ "challenge TEXT NOT NULL" ∷ "rule TEXT NOT NULL"
            ∷ "at TEXT NOT NULL" ∷ [])
          ("user" ∷ "challenge" ∷ "rule" ∷ []))
    ∷ drop "events_per_user"
    ∷ []

abbrev avatars : List Statement
avatars =
    create "avatars"
      (table ("user TEXT" ∷ "avatar TEXT NOT NULL" ∷ "set_at TEXT NOT NULL" ∷ []) ("user" ∷ []))
    ∷ []

-- The list that Open hands to migrate.
abbrev pub store_migrations : List (Migration Schema)
store_migrations =
    record {
      version = 1;
      name =
          "bootstrap: solved, display_names, hint_release, exfil, hint_views, step_checks, evade_dirty, expected_rule_fire";
      apply = run_script bootstrap;
    }
    ∷ record { version = 2; name = "avatars (ADR-0034 D10)"; apply = run_script avatars }
    ∷ []

abbrev board_bootstrap : List Statement
board_bootstrap =
    create "board_threads" (
      table
        ("id TEXT" ∷ "author TEXT NOT NULL"
          ∷ "audience TEXT NOT NULL DEFAULT 'admin' CHECK (audience IN ('admin','all'))"
          ∷ "subject TEXT NOT NULL" ∷ "created_at TEXT NOT NULL"
          ∷ "pinned INTEGER NOT NULL DEFAULT 0" ∷ "answered INTEGER NOT NULL DEFAULT 0"
          ∷ "state TEXT NOT NULL DEFAULT 'visible' CHECK (state IN ('visible','hidden','deleted'))"
          ∷ [])
        ("id" ∷ []))
    ∷ create "board_messages" (
        table
          ("id TEXT" ∷ "thread_id TEXT NOT NULL REFERENCES board_threads(id)"
            ∷ "author_role TEXT NOT NULL CHECK (author_role IN ('participant','admin'))"
            ∷ "author TEXT NOT NULL" ∷ "body TEXT NOT NULL" ∷ "created_at TEXT NOT NULL"
            ∷ "state TEXT NOT NULL DEFAULT 'visible' CHECK (state IN ('visible','hidden','deleted'))"
            ∷ [])
          ("id" ∷ []))
    ∷ create "idx_bmsg_thread" (index "board_messages" "thread_id")
    ∷ create "board_likes" (
        table
          ("thread_id TEXT NOT NULL REFERENCES board_threads(id)" ∷ "user TEXT NOT NULL"
            ∷ "created_at TEXT NOT NULL" ∷ [])
          ("thread_id" ∷ "user" ∷ []))
    ∷ []

-- The list that Open hands to migrate.
abbrev pub board_migrations : List (Migration Schema)
board_migrations =
    record {
      version = 1;
      name = "bootstrap: board_threads, board_messages, board_likes";
      apply = run_script board_bootstrap;
    }
    ∷ []
