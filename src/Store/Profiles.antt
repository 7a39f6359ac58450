-- ===== src/Store/Profiles.antt =====
-- Display names and avatars of internal/store/store.go.
use falco_ctf_app.Prelude.{String, Option, none, some, ◌==◌, string_eq, if◌then◌else◌}
use falco_ctf_app.Prelude.Maps.{Map, lookup, insert, delete}
use falco_ctf_app.Store.State.{
  Memory, Tables, ProfileRow, Store, Action, exec, staged, update, pure, ◌>>◌,
}

unfoldable pub set_display_name : String → String → String → Action (Unit {0})
set_display_name user name at = do
  exec (λ t. record t {
    display_names = insert user (record { value = name; set_at = at }) t.display_names;
  })
  update (λ m. record m { display_names = insert user name m.display_names })

unfoldable pub display_name : String → Store → String
display_name user s = elim (lookup user s.mem.display_names) [
  | none ↦ user
  | some n ↦ if n == "" then user else n
]

-- `*string`: a nil field is left as it is.
abbrev pub put_row : String → Option String → String → Map String ProfileRow → Map String ProfileRow
put_row user none at rows = rows
put_row user (some v) at rows = insert user (record { value = v; set_at = at }) rows

abbrev pub put_value : String → Option String → Map String String → Map String String
put_value user none m = m
put_value user (some v) m = insert user v m

abbrev pub staged_if : Option String → Action (Unit {0})
staged_if none = pure tt
staged_if (some v) = staged

abbrev pub write_profile : String → Option String → Option String → String → Tables → Tables
write_profile user name avatar at t = record t {
  display_names = put_row user name at t.display_names;
  avatars = put_row user avatar at t.avatars;
}

abbrev pub cache_profile : String → Option String → Option String → Memory → Memory
cache_profile user name avatar m = record m {
  display_names = put_value user name m.display_names;
  avatars = put_value user avatar m.avatars;
}

-- The statements after the check that something is given: Begin, one Exec for each given field,
-- Commit.
profile_tx : String → Option String → Option String → String → Action (Unit {0})
profile_tx user name avatar at = do
  staged
  staged_if name
  staged_if avatar
  exec (write_profile user name avatar at)
  update (cache_profile user name avatar)

unfoldable pub set_profile : String → Option String → Option String → String → Action (Unit {0})
unfolding profile_tx
set_profile user none none at = pure tt
set_profile user (some n) avatar at = profile_tx user (some n) avatar at
set_profile user none (some a) at = profile_tx user none (some a) at

unfoldable pub reset_profile : String → Action (Unit {0})
reset_profile user = do
  staged
  staged
  staged
  exec (λ t. record t {
    display_names = delete user t.display_names;
    avatars = delete user t.avatars;
  })
  update (λ m. record m {
    display_names = delete user m.display_names;
    avatars = delete user m.avatars;
  })

-- A Go map read of a missing key is "".
unfoldable pub avatar : String → Store → String
avatar user s = elim (lookup user s.mem.avatars) [ none ↦ "" | some a ↦ a ]
