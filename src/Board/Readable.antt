-- ===== src/Board/Readable.antt =====
-- Which threads and messages a participant is given by internal/board/board.go.
use falco_ctf_app.Prelude.{
  ℕ, suc, String, true, false, ◌≡◌, refl, ◌↔◌, ◌⊎◌, inl, inr, none, some, List, arith, ◌==◌,
  string_eq, Bool-cases, Option-cases,
}
use falco_ctf_app.Prelude.Maps.{lookup}
use falco_ctf_app.Prelude.Results.{ok, err, is_ok, Result-cases}
use falco_ctf_app.Board.State.{ThreadRow, Tables, Board, not_found}
use falco_ctf_app.Board.Reads.{
  Thread, Message, visible_to_participant, load_thread, load_messages, with_likes, like_status,
  get_thread, read_messages, listed, scan_thread,
}

-- The threads that a participant may read: visible ones, public or the participant's own.
abbrev pub IsReadable : String → ThreadRow → Type 0
IsReadable viewer row =
    (row.state ≡ "visible")
    × ((row.audience ≡ "all") ⊎ ((row.audience ≡ "admin") × (row.author ≡ viewer)))

pub record CanRead (viewer tid : String) (t : Tables) : Type 0 where
  pub row : ThreadRow
  pub found : lookup tid t.threads ≡ some row
  pub readable : IsReadable viewer row

abbrev pub NoFaults : Board → Type 0
NoFaults b = (n : ℕ) → b.faulty n ≡ false

pub listed_iff :
    (viewer tid : String) (row : ThreadRow)
    → (listed viewer false (tid, row) ≡ true) ↔ IsReadable viewer row
listed_iff viewer tid row = ground (
  arith,
  string_eq.beq_iff row.state "visible",
  string_eq.beq_iff row.audience "all",
  string_eq.beq_iff row.audience "admin",
  string_eq.beq_iff row.author viewer,
)

abbrev pub next : Board → Board
next b = record b { statements = suc b.statements }

load_messages_good :
    (tid : String) (b : Board)
    → NoFaults b
    → load_messages tid false b ≡ (ok (read_messages tid false b.db.messages), next b)
unfolding load_messages
load_messages_good tid b good = rw (good b.statements) refl

pub load_thread_good :
    (tid : String) (b : Board) (row : ThreadRow)
    → NoFaults b
    → lookup tid b.db.threads ≡ some row
    → load_thread tid false b
      ≡ (ok (scan_thread tid row (read_messages tid false b.db.messages)), next (next b))
unfolding load_thread
load_thread_good tid b row good found =
    rw (good b.statements, found, load_messages_good tid (next b) good) refl

like_status_good :
    (tid viewer : String) (b : Board) → NoFaults b → is_ok (like_status tid viewer b).0 ≡ true
unfolding like_status
like_status_good tid viewer b good = elim (Bool-cases (viewer == "")) [
  | inl empty ↦ rw (good b.statements, empty) refl
  | inr named ↦ rw (good b.statements, named, good (suc b.statements)) refl
]

pub with_likes_good :
    (th : Thread) (tid viewer : String) (b : Board)
    → NoFaults b
    → is_ok (with_likes th tid viewer b).0 ≡ true
unfolding with_likes
with_likes_good th tid viewer b good = elim (Result-cases (like_status tid viewer b).0) [
  | inl (a, h) ↦ rw h refl
  | inr (e, h) ↦ absurd (ground (arith, h, like_status_good tid viewer b good))
]

visible_to_participant_lem :
    (viewer tid : String) (row : ThreadRow) (ms : List Message)
    → visible_to_participant (scan_thread tid row ms) viewer ≡ listed viewer false (tid, row)
unfolding visible_to_participant
visible_to_participant_lem viewer tid row ms = ground arith

-- What GetThread answers a participant when no statement fails.
get_thread_found :
    (viewer tid : String) (b : Board) (row : ThreadRow)
    → NoFaults b
    → lookup tid b.db.threads ≡ some row
    → listed viewer false (tid, row) ≡ true
    → is_ok (get_thread viewer false tid b).0 ≡ true
unfolding get_thread
get_thread_found viewer tid b row good found h =
    let ms = read_messages tid false b.db.messages in
    rw (load_thread_good tid b row good found, visible_to_participant_lem viewer tid row ms, h)
      (with_likes_good (scan_thread tid row ms) tid viewer (next (next b)) good)

get_thread_hidden :
    (viewer tid : String) (b : Board) (row : ThreadRow)
    → NoFaults b
    → lookup tid b.db.threads ≡ some row
    → listed viewer false (tid, row) ≡ false
    → (get_thread viewer false tid b).0 ≡ err not_found
unfolding get_thread
get_thread_hidden viewer tid b row good found h =
    let ms = read_messages tid false b.db.messages in
    rw (load_thread_good tid b row good found, visible_to_participant_lem viewer tid row ms, h) refl

get_thread_missing :
    (viewer tid : String) (b : Board)
    → NoFaults b
    → lookup tid b.db.threads ≡ none
    → (get_thread viewer false tid b).0 ≡ err not_found
unfolding get_thread load_thread
get_thread_missing viewer tid b good found = rw (good b.statements, found) refl

-- When no statement fails, GetThread gives a participant a thread exactly when it is visible and
-- either public or the participant's own.
pub get_thread_iff :
    (viewer tid : String) (b : Board)
    → NoFaults b
    → (is_ok (get_thread viewer false tid b).0 ≡ true) ↔ CanRead viewer tid b.db
get_thread_iff viewer tid b good = elim (Option-cases (lookup tid b.db.threads)) [
  | inl missing ↦ (
    λ h. absurd (ground (arith, get_thread_missing viewer tid b good missing)),
    λ c. absurd (ground (arith, c.found)),
  )
  | inr (row, found) ↦ elim (Bool-cases (listed viewer false (tid, row))) [
    | inl shown ↦ (
      λ _. record { row = row; found = found; readable = (listed_iff viewer tid row).0 shown },
      λ _. get_thread_found viewer tid b row good found shown,
    )
    | inr hidden ↦ (
      λ h. absurd (ground (arith, get_thread_hidden viewer tid b row good found hidden)),
      λ c. absurd (ground (arith, c.found, (listed_iff viewer tid c.row).1 c.readable)),
    )
  ]
]

-- When no statement fails, a thread that the participant may not read is answered as a missing one.
pub get_thread-not_found :
    (viewer tid : String) (b : Board)
    → NoFaults b
    → ¬ CanRead viewer tid b.db
    → (get_thread viewer false tid b).0 ≡ err not_found
get_thread-not_found viewer tid b good barred = elim (Option-cases (lookup tid b.db.threads)) [
  | inl missing ↦ get_thread_missing viewer tid b good missing
  | inr (row, found) ↦ elim (Bool-cases (listed viewer false (tid, row))) [
    | inl shown ↦ absurd (
        barred
          (record { row = row; found = found; readable = (listed_iff viewer tid row).0 shown }))
    | inr hidden ↦ get_thread_hidden viewer tid b row good found hidden
  ]
]
