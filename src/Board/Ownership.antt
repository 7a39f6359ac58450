-- ===== src/Board/Ownership.antt =====
-- Who may append to a thread of internal/board/board.go.
use falco_ctf_app.Prelude.{
  suc, String, true, false, ◌≡◌, ◌↔◌, refl, inl, inr, none, some, arith, ◌==◌, string_eq,
  Bool-cases, Option-cases,
}
use falco_ctf_app.Prelude.Maps.{lookup, has}
use falco_ctf_app.Prelude.Results.{ok, err, is_ok}
use falco_ctf_app.Board.State.{ThreadRow, MessageRow, Tables, Board, not_found, role_participant}
use falco_ctf_app.Board.Reads.{scan_thread, read_messages}
use falco_ctf_app.Board.Writes.{new_message, add_message, append_tx, reload, append_own_message}
use falco_ctf_app.Board.Readable.{NoFaults, next, load_thread_good, with_likes_good}

pub record Owns (author tid : String) (t : Tables) : Type 0 where
  pub row : ThreadRow
  pub found : lookup tid t.threads ≡ some row
  pub own : row.author ≡ author

append_tx_good :
    (tid mid : String) (m : MessageRow) (b : Board)
    → NoFaults b
    → b.ids b.drawn ≡ some mid
    → has mid b.db.messages ≡ false
    → append_tx false tid m b ≡ (
      ok tt,
      record b {
        db = add_message mid m b.db;
        statements = suc (suc b.statements);
        drawn = suc b.drawn;
      },
    )
unfolding append_tx
append_tx_good tid mid m b good drawn new =
    rw (drawn, good b.statements, new, good (suc b.statements)) refl

reload_good :
    (tid viewer : String) (b : Board) (row : ThreadRow)
    → NoFaults b
    → lookup tid b.db.threads ≡ some row
    → is_ok (reload tid false viewer b).0 ≡ true
unfolding reload
reload_good tid viewer b row good found = rw (load_thread_good tid b row good found) (
    with_likes_good (scan_thread tid row (read_messages tid false b.db.messages)) tid viewer
      (next (next b)) good)

append_own_message_refused :
    (author tid body at : String) (b : Board) (row : ThreadRow)
    → NoFaults b
    → lookup tid b.db.threads ≡ some row
    → (row.author == author) ≡ false
    → (append_own_message author tid body at b).0 ≡ err not_found
unfolding append_own_message
append_own_message_refused author tid body at b row good found other =
    rw (good b.statements, good (suc b.statements), found, other) refl

append_own_message_missing :
    (author tid body at : String) (b : Board)
    → NoFaults b
    → lookup tid b.db.threads ≡ none
    → (append_own_message author tid body at b).0 ≡ err not_found
unfolding append_own_message
append_own_message_missing author tid body at b good missing =
    rw (good b.statements, good (suc b.statements), missing) refl

append_own_message_good :
    (author tid body at mid : String) (b : Board)
    → NoFaults b
    → b.ids b.drawn ≡ some mid
    → has mid b.db.messages ≡ false
    → Owns author tid b.db
    → is_ok (append_own_message author tid body at b).0 ≡ true
unfolding append_own_message
append_own_message_good author tid body at mid b good drawn new o =
    let m = new_message tid role_participant author body at in
    let b' = next (next b) in
    let same : (o.row.author == author) ≡ true = (string_eq.beq_iff o.row.author author).1 o.own in
    rw
      (
        good b.statements,
        good (suc b.statements),
        o.found,
        same,
        append_tx_good tid mid m b' good drawn new,
      )
      (reload_good tid author _ o.row good o.found)

-- When no statement fails and newID returns an id that no message has, AppendOwnMessage answers
-- with a thread exactly when the thread exists and the caller is its author, whatever the thread's moderation state.
pub append_own_message_iff :
    (author tid body at mid : String) (b : Board)
    → NoFaults b
    → b.ids b.drawn ≡ some mid
    → has mid b.db.messages ≡ false
    → (is_ok (append_own_message author tid body at b).0 ≡ true) ↔ Owns author tid b.db
append_own_message_iff author tid body at mid b good drawn new = (
  λ h. elim (Option-cases (lookup tid b.db.threads)) [
    | inl missing ↦
        absurd (ground (arith, append_own_message_missing author tid body at b good missing))
    | inr (row, found) ↦ elim (Bool-cases (row.author == author)) [
      | inl same ↦ record {
        row = row;
        found = found;
        own = (string_eq.beq_iff row.author author).0 same;
      }
      | inr other ↦
          absurd
            (ground (arith, append_own_message_refused author tid body at b row good found other))
    ]
  ],
  append_own_message_good author tid body at mid b good drawn new,
)
