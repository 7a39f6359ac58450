-- ===== src/Board/Invariant/Moderated.antt =====
-- The likes and the moderation of internal/board/board.go keep the invariant of the tables.
use falco_ctf_app.Prelude.{
  suc, String, ◌&&◌, refl, inl, inr, arith, ◌==◌, string_eq, Bool-cases, Option-cases,
}
use falco_ctf_app.Prelude.Maps.{lookup, has}
use falco_ctf_app.Board.State.{like_key, like_eq, Board, audience_all, is_state, state_visible}
use falco_ctf_app.Board.Writes.{
  like, unlike, ThreadStateUpdate, set_thread_state, set_message_state, is_empty, is_state_update,
  update_thread,
}
use falco_ctf_app.Board.Invariant.Tables.{
  IsSound, update_threads-IsSound, update_messages-IsSound, add_like-IsSound, delete_like-IsSound,
}

pub unlike-IsSound :
    (user tid : String) (b : Board) → IsSound b.db → IsSound (unlike user tid b).1.db
unfolding unlike
unlike-IsSound user tid b s = elim (Bool-cases (b.faulty b.statements)) [
  | inl bad ↦ rw bad s
  | inr fine ↦ rw fine (delete_like-IsSound (like_key tid user) b.db s)
]

pub like-IsSound :
    (user tid at : String) (b : Board) → IsSound b.db → IsSound (like user tid at b).1.db
unfolding like
like-IsSound user tid at b s = elim (Bool-cases (b.faulty b.statements)) [
  | inl bad ↦ rw bad s
  | inr fine ↦ elim (Option-cases (lookup tid b.db.threads)) [
    | inl missing ↦ rw (fine, missing) s
    | inr (row, found) ↦
        elim (Bool-cases (row.audience == audience_all && row.state == state_visible)) [
          | inr barred ↦ rw (fine, found, barred) s
          | inl public ↦ elim (Bool-cases (row.author == user)) [
            | inl own ↦ rw (fine, found, public, own) s
            | inr foreign ↦ elim (Bool-cases (b.faulty (suc b.statements))) [
              | inl bad ↦ rw (fine, found, public, foreign, bad) s
              | inr good ↦
                  rw (fine, found, public, foreign, good)
                    (add_like-IsSound (like_key tid user) at b.db
                      (
                        row,
                        found,
                        ground (arith, string_eq.beq_iff row.audience "all"),
                        λ e. absurd (ground (arith, (string_eq.beq_iff row.author user).1 e)),
                      )
                      s)
            ]
          ]
        ]
  ]
]

pub set_message_state-IsSound :
    (mid state : String) (b : Board) → IsSound b.db → IsSound (set_message_state mid state b).1.db
unfolding set_message_state
set_message_state-IsSound mid state b s = elim (Bool-cases (is_state state)) [
  | inr bad ↦ rw bad s
  | inl good ↦ elim (Bool-cases (b.faulty b.statements)) [
    | inl bad ↦ rw (good, bad) s
    | inr fine ↦
        let next = update_messages-IsSound mid state b.db s in
        elim (Bool-cases (has mid b.db.messages)) [
          | inl had ↦ rw (good, fine, had) next
          | inr missing ↦ rw (good, fine, missing) next
        ]
  ]
]

pub set_thread_state-IsSound :
    (tid : String) (u : ThreadStateUpdate) (b : Board)
    → IsSound b.db
    → IsSound (set_thread_state tid u b).1.db
unfolding set_thread_state
set_thread_state-IsSound tid u b s =
    let next = update_threads-IsSound tid (update_thread u) b.db (λ row. (refl, refl)) s in
    elim (Bool-cases (is_state_update u.state)) [
      | inr bad ↦ rw bad s
      | inl good ↦ elim (Bool-cases (is_empty u)) [
        | inl empty ↦ elim (Bool-cases (b.faulty b.statements)) [
          | inl bad ↦ rw (good, empty, bad) s
          | inr fine ↦ elim (Bool-cases (has tid b.db.threads)) [
            | inl had ↦ rw (good, empty, fine, had) s
            | inr missing ↦ rw (good, empty, fine, missing) s
          ]
        ]
        | inr some_field ↦ elim (Bool-cases (b.faulty b.statements)) [
          | inl bad ↦ rw (good, some_field, bad) s
          | inr fine ↦ elim (Bool-cases (has tid b.db.threads)) [
            | inl had ↦ rw (good, some_field, fine, had) next
            | inr missing ↦ rw (good, some_field, fine, missing) next
          ]
        ]
      ]
    ]
