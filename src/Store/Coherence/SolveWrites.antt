-- ===== src/Store/Coherence/SolveWrites.antt =====
-- The writes to solves, receipts and profiles of internal/store/store.go keep maps and tables equal.
use falco_ctf_app.Prelude.{String, false, ◌≡◌, arith, string_eq}
use falco_ctf_app.Prelude.Maps.{has, insert, delete, lookup-insert, lookup-delete}
use falco_ctf_app.Store.State.{
  SolveKey, solve_eq, hint_eq, step_eq, rule_eq, ExfilRow, ProfileRow, Memory, Tables,
  insert_or_ignore,
}
use falco_ctf_app.Store.Coherence.Relation.{Mirrors}

module _ {m : Memory} {t : Tables} (h : Mirrors m t) where
  pub solved-Mirrors :
      (k : SolveKey) (at : String)
      → has k m.solved ≡ false
      → Mirrors
          (record m { solved = insert k at m.solved })
          (record t { solved = insert_or_ignore k at t.solved })
  solved-Mirrors k at fresh = record {
    solved = λ j. ground (
      arith,
      h.solved k,
      h.solved j,
      lookup-insert k j at m.solved,
      lookup-insert k j at t.solved,
    );
    exfil = h.exfil;
    display_names = h.display_names;
    avatars = h.avatars;
    hint_views = h.hint_views;
    step_checks = h.step_checks;
    dirty = h.dirty;
    expected = h.expected;
  }

  pub exfil-Mirrors :
      (k : SolveKey) (row : ExfilRow)
      → Mirrors
          (record m { exfil = insert k row.flag m.exfil })
          (record t { exfil = insert k row t.exfil })
  exfil-Mirrors k row = record {
    solved = h.solved;
    exfil = λ j.
        ground
          (arith, h.exfil j, lookup-insert k j row.flag m.exfil, lookup-insert k j row t.exfil);
    display_names = h.display_names;
    avatars = h.avatars;
    hint_views = h.hint_views;
    step_checks = h.step_checks;
    dirty = h.dirty;
    expected = h.expected;
  }

  pub name-Mirrors :
      (u : String) (row : ProfileRow)
      → Mirrors
          (record m { display_names = insert u row.value m.display_names })
          (record t { display_names = insert u row t.display_names })
  name-Mirrors u row = record {
    solved = h.solved;
    exfil = h.exfil;
    display_names = λ j. ground (
      arith,
      h.display_names j,
      lookup-insert u j row.value m.display_names,
      lookup-insert u j row t.display_names,
    );
    avatars = h.avatars;
    hint_views = h.hint_views;
    step_checks = h.step_checks;
    dirty = h.dirty;
    expected = h.expected;
  }

  pub avatar-Mirrors :
      (u : String) (row : ProfileRow)
      → Mirrors
          (record m { avatars = insert u row.value m.avatars })
          (record t { avatars = insert u row t.avatars })
  avatar-Mirrors u row = record {
    solved = h.solved;
    exfil = h.exfil;
    display_names = h.display_names;
    avatars = λ j. ground (
      arith,
      h.avatars j,
      lookup-insert u j row.value m.avatars,
      lookup-insert u j row t.avatars,
    );
    hint_views = h.hint_views;
    step_checks = h.step_checks;
    dirty = h.dirty;
    expected = h.expected;
  }

  pub unprofiled-Mirrors :
      (u : String)
      → Mirrors
          (record m { display_names = delete u m.display_names; avatars = delete u m.avatars })
          (record t { display_names = delete u t.display_names; avatars = delete u t.avatars })
  unprofiled-Mirrors u = record {
    solved = h.solved;
    exfil = h.exfil;
    display_names = λ j. ground (
      arith,
      h.display_names j,
      lookup-delete u j m.display_names,
      lookup-delete u j t.display_names,
    );
    avatars =
        λ j. ground (arith, h.avatars j, lookup-delete u j m.avatars, lookup-delete u j t.avatars);
    hint_views = h.hint_views;
    step_checks = h.step_checks;
    dirty = h.dirty;
    expected = h.expected;
  }
