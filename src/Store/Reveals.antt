-- ===== src/Store/Reveals.antt =====
-- Hint reveals and step self-checks of internal/store/store.go.
use falco_ctf_app.Prelude.{
  ℕ, String, Bool, true, false, List, [], ◌∷◌, ◌++◌, none, some, ◌==◌, string_eq, leb,
  if◌then◌else◌,
}
use falco_ctf_app.Prelude.Maps.{Map, lookup, has, insert, delete}
use falco_ctf_app.Prelude.Sort.{sort}
use falco_ctf_app.Store.State.{
  HintViewKey, hint_eq, StepCheckKey, step_eq, Store, Action, exec, update, pure, ◌>>◌,
  insert_or_ignore,
}

abbrev pub hint_key : String → String → ℕ → HintViewKey
hint_key u c i = record { user = u; challenge = c; hint_idx = i }

abbrev pub step_key : String → String → ℕ → StepCheckKey
step_key u c i = record { user = u; challenge = c; step_idx = i }

-- The map's values are all true, so that to hold the key is to be revealed.
unfoldable pub record_hint_view : String → String → ℕ → String → Action Bool
record_hint_view user challenge idx at s =
    let key = hint_key user challenge idx in
    if has key s.mem.hint_views
    then pure false s
    else (do
      exec (λ t. record t { hint_views = insert_or_ignore key at t.hint_views })
      update (λ m. record m { hint_views = insert key true m.hint_views })
      pure true)
        s

-- out[challenge] = append(out[challenge], idx)
abbrev pub append_at : String → ℕ → Map String (List ℕ) → Map String (List ℕ)
append_at c i out = elim (lookup c out) [
  | none ↦ insert c (i ∷ []) out
  | some idxs ↦ insert c (idxs ++ i ∷ []) out
]

unfoldable pub collect_hints :
    String → Map HintViewKey Bool → Map String (List ℕ) → Map String (List ℕ)
collect_hints user [] out = out
collect_hints user ((k, _) ∷ m) out =
    collect_hints user m (if k.user == user then append_at k.challenge k.hint_idx out else out)

unfoldable pub collect_steps :
    String → Map StepCheckKey Bool → Map String (List ℕ) → Map String (List ℕ)
collect_steps user [] out = out
collect_steps user ((k, _) ∷ m) out =
    collect_steps user m (if k.user == user then append_at k.challenge k.step_idx out else out)

unfoldable pub sort_each : Map String (List ℕ) → Map String (List ℕ)
sort_each [] = []
sort_each ((c, idxs) ∷ out) = (c, sort leb idxs) ∷ sort_each out

unfoldable pub hint_views : String → Store → Map String (List ℕ)
unfolding collect_hints sort_each
hint_views user s = sort_each (collect_hints user s.mem.hint_views [])

unfoldable pub step_checks : String → Store → Map String (List ℕ)
unfolding collect_steps sort_each
step_checks user s = sort_each (collect_steps user s.mem.step_checks [])

unfoldable pub set_step_check : String → String → ℕ → Bool → String → Action (Unit {0})
set_step_check user challenge idx true at = do
  exec (λ t. record t { step_checks = insert (step_key user challenge idx) at t.step_checks })
  update (λ m. record m { step_checks = insert (step_key user challenge idx) true m.step_checks })
set_step_check user challenge idx false at = do
  exec (λ t. record t { step_checks = delete (step_key user challenge idx) t.step_checks })
  update (λ m. record m { step_checks = delete (step_key user challenge idx) m.step_checks })
