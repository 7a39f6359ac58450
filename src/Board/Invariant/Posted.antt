-- ===== src/Board/Invariant/Posted.antt =====
-- The methods of internal/board/board.go that post keep the invariant of the tables.
use falco_ctf_app.Prelude.{
  suc, String, Bool, true, false, not, ◌&&◌, ◌||◌, ◌≡◌, refl, ◌∙◌, inl, inr, arith, ◌==◌, string_eq,
  Bool-cases, Option-cases, if◌then◌else◌,
}
use falco_ctf_app.Prelude.Maps.{lookup, has}
use falco_ctf_app.Prelude.Results.{Result-cases}
use falco_ctf_app.Board.State.{
  ThreadRow, MessageRow, like_eq, Board, ◌>>◌, exec, staged, pure, audience_admin, audience_all,
  role_participant, role_admin,
}
use falco_ctf_app.Board.Reads.{Thread, load_thread, load_messages, like_status, with_likes}
use falco_ctf_app.Board.Writes.{
  append_tx, reload, answer_if, create_tx, create_thread, append_own_message, append_admin_reply,
  new_thread, new_message, add_message, add_thread, set_answered,
}
use falco_ctf_app.Board.Invariant.Tables.{
  IsSound, add_message-IsSound, create-IsSound, update_threads-IsSound,
}

-- The read that ends a method leaves the tables alone.
load_messages-db :
    (tid : String) (is_admin : Bool) (b : Board) → (load_messages tid is_admin b).1.db ≡ b.db
unfolding load_messages
load_messages-db tid is_admin b = ground arith

load_thread-db :
    (tid : String) (is_admin : Bool) (b : Board) → (load_thread tid is_admin b).1.db ≡ b.db
unfolding load_thread
load_thread-db tid is_admin b = elim (Bool-cases (b.faulty b.statements)) [
  | inl bad ↦ rw bad refl
  | inr fine ↦ elim (Option-cases (lookup tid b.db.threads)) [
    | inl missing ↦ rw (fine, missing) refl
    | inr (row, found) ↦
        let b' = record b { statements = suc b.statements } in
        elim (Result-cases (load_messages tid is_admin b').0) [
          | inl (ms, loaded) ↦ rw (fine, found, loaded) (load_messages-db tid is_admin b')
          | inr (e, failed) ↦ rw (fine, found, failed) (load_messages-db tid is_admin b')
        ]
  ]
]

with_likes-db :
    (th : Thread) (tid viewer : String) (b : Board) → (with_likes th tid viewer b).1.db ≡ b.db
unfolding with_likes like_status
with_likes-db th tid viewer b = ground arith

reload-db :
    (tid : String) (is_admin : Bool) (viewer : String) (b : Board)
    → (reload tid is_admin viewer b).1.db ≡ b.db
unfolding reload
reload-db tid is_admin viewer b =
    let loaded = load_thread tid is_admin b in
    elim (Result-cases loaded.0) [
      | inl (th, ran) ↦
          rw ran (with_likes-db th tid viewer loaded.1 ∙ load_thread-db tid is_admin b)
      | inr (e, failed) ↦ rw failed (load_thread-db tid is_admin b)
    ]

-- Whether the transaction commits.
abbrev commits : String → String → Board → Bool
commits tid mid b =
    let n = b.statements in
    not (b.faulty n)
    && not (b.faulty (suc n))
    && not (has tid b.db.threads)
    && not (b.faulty (suc (suc n)))
    && not (has mid b.db.messages)
    && not (b.faulty (suc (suc (suc n))))

create_tx-db :
    (tid mid : String) (row : ThreadRow) (m : MessageRow) (b : Board)
    → (create_tx tid mid row m b).1.db
      ≡ (if commits tid mid b then add_message mid m (add_thread tid row b.db) else b.db)
unfolding create_tx
create_tx-db tid mid row m b = ground arith

create_tx-IsSound :
    (tid mid : String) (row : ThreadRow) (m : MessageRow) (b : Board)
    → m.thread ≡ tid
    → IsSound b.db
    → IsSound (create_tx tid mid row m b).1.db
create_tx-IsSound tid mid row m b own s = elim (Bool-cases (commits tid mid b)) [
  | inr stopped ↦ rw (create_tx-db tid mid row m b, stopped) s
  | inl done ↦
      rw (create_tx-db tid mid row m b, done)
        (create-IsSound tid mid row m b.db (ground arith) own s)
]

pub create_thread-IsSound :
    (author audience subject body at : String) (b : Board)
    → IsSound b.db
    → IsSound (create_thread author audience subject body at b).1.db
unfolding create_thread
create_thread-IsSound author audience subject body at b s =
    elim (Bool-cases (audience == audience_admin || audience == audience_all)) [
      | inr bad ↦ rw bad s
      | inl good ↦ elim (Option-cases (b.ids b.drawn)) [
        | inl none_drawn ↦ rw (good, none_drawn) s
        | inr (tid, one) ↦ elim (Option-cases (b.ids (suc b.drawn))) [
          | inl none_drawn ↦ rw (good, one, none_drawn) s
          | inr (mid, two) ↦
              let row = new_thread author audience subject at in
              let m = new_message tid role_participant author body at in
              let b' = record b { drawn = suc (suc b.drawn) } in
              let kept = create_tx-IsSound tid mid row m b' refl s in
              elim (Result-cases (create_tx tid mid row m b').0) [
                | inl (_, ran) ↦ rw (good, one, two, ran) kept
                | inr (e, failed) ↦ rw (good, one, two, failed) kept
              ]
        ]
      ]
    ]

commit-IsSound :
    (answers : Bool) (tid mid : String) (m : MessageRow) (b : Board)
    → IsSound b.db
    → IsSound
        (((if answers then staged else pure tt)
            >> exec (λ t. add_message mid m (answer_if answers tid t)))
          b).1.db
commit-IsSound false tid mid m b s = elim (Bool-cases (b.faulty b.statements)) [
  | inl bad ↦ rw bad s
  | inr fine ↦ rw fine (add_message-IsSound mid m b.db s)
]
commit-IsSound true tid mid m b s = elim (Bool-cases (b.faulty b.statements)) [
  | inl bad ↦ rw bad s
  | inr fine ↦ elim (Bool-cases (b.faulty (suc b.statements))) [
    | inl bad ↦ rw (fine, bad) s
    | inr good ↦
        rw (fine, good)
          (add_message-IsSound mid m (answer_if true tid b.db)
            (update_threads-IsSound tid set_answered b.db (λ row. (refl, refl)) s))
  ]
]

append_tx-IsSound :
    (answers : Bool) (tid : String) (m : MessageRow) (b : Board)
    → IsSound b.db
    → IsSound (append_tx answers tid m b).1.db
unfolding append_tx
append_tx-IsSound answers tid m b s = elim (Option-cases (b.ids b.drawn)) [
  | inl none_drawn ↦ rw none_drawn s
  | inr (mid, drawn) ↦ elim (Bool-cases (b.faulty b.statements)) [
    | inl bad ↦ rw (drawn, bad) s
    | inr fine ↦ elim (Bool-cases (has mid b.db.messages)) [
      | inl used ↦ rw (drawn, fine, used) s
      | inr new ↦ rw (drawn, fine, new) (commit-IsSound answers tid mid m _ s)
    ]
  ]
]

-- The rest of the two appending methods after their checks.
post-IsSound :
    (answers : Bool) (tid : String) (m : MessageRow) (is_admin : Bool) (viewer : String) (b : Board)
    → IsSound b.db
    → IsSound ((append_tx answers tid m >> reload tid is_admin viewer) b).1.db
post-IsSound answers tid m is_admin viewer b s =
    let posted = append_tx answers tid m b in
    let kept = append_tx-IsSound answers tid m b s in
    elim (Result-cases posted.0) [
      | inl (_, ran) ↦ rw (ran, reload-db tid is_admin viewer posted.1) kept
      | inr (e, failed) ↦ rw failed kept
    ]

pub append_own_message-IsSound :
    (author tid body at : String) (b : Board)
    → IsSound b.db
    → IsSound (append_own_message author tid body at b).1.db
unfolding append_own_message
append_own_message-IsSound author tid body at b s =
    let m = new_message tid role_participant author body at in
    let b' = record b { statements = suc (suc b.statements) } in
    elim (Bool-cases (b.faulty b.statements)) [
      | inl bad ↦ rw bad s
      | inr one ↦ elim (Bool-cases (b.faulty (suc b.statements))) [
        | inl bad ↦ rw (one, bad) s
        | inr two ↦ elim (Option-cases (lookup tid b.db.threads)) [
          | inl missing ↦ rw (one, two, missing) s
          | inr (row, found) ↦ elim (Bool-cases (row.author == author)) [
            | inr other ↦ rw (one, two, found, other) s
            | inl own ↦ rw (one, two, found, own) (post-IsSound false tid m false author b' s)
          ]
        ]
      ]
    ]

pub append_admin_reply-IsSound :
    (admin tid body at : String) (b : Board)
    → IsSound b.db
    → IsSound (append_admin_reply admin tid body at b).1.db
unfolding append_admin_reply
append_admin_reply-IsSound admin tid body at b s =
    let m = new_message tid role_admin admin body at in
    let b' = record b { statements = suc (suc b.statements) } in
    elim (Bool-cases (b.faulty b.statements)) [
      | inl bad ↦ rw bad s
      | inr one ↦ elim (Bool-cases (b.faulty (suc b.statements))) [
        | inl bad ↦ rw (one, bad) s
        | inr two ↦ elim (Bool-cases (has tid b.db.threads)) [
          | inr missing ↦ rw (one, two, missing) s
          | inl had ↦ rw (one, two, had) (post-IsSound true tid m true admin b' s)
        ]
      ]
    ]
