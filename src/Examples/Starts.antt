-- ===== src/Examples/Starts.antt =====
-- The migrations of internal/store/migrations.go at a concrete database.
use falco_ctf_app.Prelude.{ℕ, ◌≡◌, refl, Bool, true, false, eqb, [], ◌∷◌, none, arith, string_eq}
use falco_ctf_app.Prelude.Maps.{lookup, insert}
use falco_ctf_app.Prelude.Text.{lower}
use falco_ctf_app.Prelude.Results.{is_ok}
use falco_ctf_app.Migrations.{
  Database, migrate, assert_consecutive_versions, apply_one, apply_pending, latest_schema_version,
}
use falco_ctf_app.Migrations.Atomic.{Applied, Kept, schema_after}
use falco_ctf_app.Migrations.Liveness.{started, restarts, migrate-Kept, migrate_completes}
use falco_ctf_app.Migrations.Schemas.{
  Definition, table, Schema, run_script, run_statement, same_name, goes_with, drop_table,
  store_migrations, board_migrations,
}
use falco_ctf_app.Migrations.Additive.{Holds, migrate_additive}

-- A new file, as SQLite makes it.
abbrev new_file : Database Schema
new_file = record { version = 0; schema = [] }

-- A file that the binary before the avatars wrote.
abbrev older_file : Database Schema
older_file = record { version = 1; schema = schema_after 1 store_migrations [] }

new_file-Applied : Applied 0 store_migrations [] new_file
new_file-Applied = record { done = 0; within = omega arith; numbered = refl; built = refl }

older_file-Applied : Applied 0 store_migrations [] older_file
older_file-Applied = record { done = 1; within = omega arith; numbered = refl; built = refl }

-- The eighth call fails: it is the setting of the version by the second migration.
abbrev eighth_fails : ℕ → Bool
eighth_fails n = eqb n 7

store_numbered : assert_consecutive_versions 0 store_migrations ≡ none
unfolding assert_consecutive_versions
store_numbered = refl

migrate-Kept_example :
    Kept 0 store_migrations [] 0 (migrate store_migrations (started new_file eighth_fails))
migrate-Kept_example =
    migrate-Kept store_migrations [] (started new_file eighth_fails) new_file-Applied

-- Only the first of the two is committed.
stopped : (migrate store_migrations (started new_file eighth_fails)).1.db ≡ older_file
unfolding migrate assert_consecutive_versions apply_pending apply_one run_script run_statement
    same_name lower drop_table goes_with lookup insert latest_schema_version
stopped = refl

migrate_completes_example :
    (is_ok
        (migrate store_migrations
          (started (restarts store_migrations (eighth_fails ∷ []) new_file) (λ _. false))).0
      ≡ true)
    × ((migrate store_migrations
          (started (restarts store_migrations (eighth_fails ∷ []) new_file) (λ _. false))).1.db
        ≡ record { version = 2; schema = schema_after 2 store_migrations [] })
migrate_completes_example =
    migrate_completes store_migrations (eighth_fails ∷ []) [] new_file (λ _. false) store_numbered
      new_file-Applied (λ n. refl)

-- The store's file, handed to the board.
abbrev display_names : Definition
display_names =
    table ("user TEXT" ∷ "name TEXT NOT NULL" ∷ "set_at TEXT NOT NULL" ∷ []) ("user" ∷ [])

has_names : Holds "display_names" display_names older_file.schema
unfolding run_script run_statement same_name lower drop_table goes_with lookup insert
has_names = refl

migrate_additive_example :
    Holds "display_names" display_names
      (migrate store_migrations (started older_file eighth_fails)).1.db.schema
    × Holds "display_names" display_names
        (migrate board_migrations (started older_file eighth_fails)).1.db.schema
unfolding lower
migrate_additive_example =
    migrate_additive "display_names" display_names (started older_file eighth_fails) refl has_names
