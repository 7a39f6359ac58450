-- ===== src/Store/Solves.antt =====
-- The solved and exfil maps of internal/store/store.go.
use falco_ctf_app.Prelude.{
  ℕ, String, Bool, true, false, List, [], ◌∷◌, map, none, some, ◌==◌, string_eq, if◌then◌else◌,
  length,
}
use falco_ctf_app.Prelude.Maps.{Map, lookup, has, insert}
use falco_ctf_app.Prelude.Sort.{sort, string_le}
use falco_ctf_app.Store.State.{
  SolveKey, solve_key, solve_eq, Store, Action, exec, update, pure, ◌>>◌, insert_or_ignore,
}

unfoldable pub mark_solved : String → String → String → Action Bool
mark_solved user challenge at s =
    if has (solve_key user challenge) s.mem.solved
    then pure false s
    else (do
      exec (λ t. record t { solved = insert_or_ignore (solve_key user challenge) at t.solved })
      update (λ m. record m { solved = insert (solve_key user challenge) at m.solved })
      pure true)
        s

unfoldable pub is_solved : String → String → Store → Bool
is_solved user challenge s = has (solve_key user challenge) s.mem.solved

unfoldable pub solved_count : Store → ℕ
solved_count s = length s.mem.solved

-- ON CONFLICT DO UPDATE: the newest receipt replaces the one before it.
unfoldable pub record_exfil : String → String → String → String → Action (Unit {0})
record_exfil user challenge flag at = do
  exec (λ t. record t {
    exfil = insert (solve_key user challenge) (record { flag = flag; at = at }) t.exfil;
  })
  update (λ m. record m { exfil = insert (solve_key user challenge) flag m.exfil })

unfoldable pub has_exfil : String → String → String → Store → Bool
has_exfil user challenge flag s = elim (lookup (solve_key user challenge) s.mem.exfil) [
  | none ↦ false
  | some got ↦ got == flag
]

unfoldable pub has_exfil_any : String → String → Store → Bool
has_exfil_any user challenge s = has (solve_key user challenge) s.mem.exfil

pub record ExfilReceipt : Type 0 where
  pub user : String
  pub challenge : String
  pub flag : String

unfoldable pub exfil_users : Store → List String
exfil_users s = map (λ e. e.0.user) s.mem.exfil

-- The loop over the exfil map that drops the solved keys.
unfoldable pub unsolved_receipts : Map SolveKey String → Map SolveKey String → List ExfilReceipt
unsolved_receipts solved [] = []
unsolved_receipts solved ((k, flag) ∷ m) =
    let rest = unsolved_receipts solved m in
    if has k solved
    then rest
    else record { user = k.user; challenge = k.challenge; flag = flag } ∷ rest

-- (User, Challenge) ascending.
abbrev pub receipt_le : ExfilReceipt → ExfilReceipt → Bool
receipt_le a b =
    if a.user == b.user then string_le a.challenge b.challenge else string_le a.user b.user

unfoldable pub pending_exfil_solves : Store → List ExfilReceipt
unfolding unsolved_receipts
pending_exfil_solves s = sort receipt_le (unsolved_receipts s.mem.solved s.mem.exfil)
