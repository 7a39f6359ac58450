-- ===== src/Board/Invariant/Reached.antt =====
-- The calls of internal/board/board.go in any order, with any statements failing between them.
use falco_ctf_app.Prelude.{String, List, [], ◌∷◌, string_eq}
use falco_ctf_app.Board.State.{like_eq, Board}
use falco_ctf_app.Board.Writes.{
  create_thread, append_own_message, append_admin_reply, like, unlike, ThreadStateUpdate,
  set_thread_state, set_message_state,
}
use falco_ctf_app.Board.Invariant.Tables.{IsSound}
use falco_ctf_app.Board.Invariant.Posted.{
  create_thread-IsSound, append_own_message-IsSound, append_admin_reply-IsSound,
}
use falco_ctf_app.Board.Invariant.Moderated.{
  like-IsSound, unlike-IsSound, set_thread_state-IsSound, set_message_state-IsSound,
}

-- A call of a method that writes, with its arguments.
pub data Call : Type 0 where
  call_create : String → String → String → String → String → Call
  call_append call_reply : String → String → String → String → Call
  call_like : String → String → String → Call
  call_unlike : String → String → Call
  call_set_thread : String → ThreadStateUpdate → Call
  call_set_message : String → String → Call

unfoldable pub perform : Call → Board → Board
perform (call_create author audience subject body at) b =
    (create_thread author audience subject body at b).1
perform (call_append author tid body at) b = (append_own_message author tid body at b).1
perform (call_reply admin tid body at) b = (append_admin_reply admin tid body at b).1
perform (call_like user tid at) b = (like user tid at b).1
perform (call_unlike user tid) b = (unlike user tid b).1
perform (call_set_thread tid u) b = (set_thread_state tid u b).1
perform (call_set_message mid state) b = (set_message_state mid state b).1

unfoldable pub run : List Call → Board → Board
run [] b = b
run (c ∷ cs) b = run cs (perform c b)

perform-IsSound : (c : Call) (b : Board) → IsSound b.db → IsSound (perform c b).db
unfolding perform
perform-IsSound (call_create author audience subject body at) b s =
    create_thread-IsSound author audience subject body at b s
perform-IsSound (call_append author tid body at) b s =
    append_own_message-IsSound author tid body at b s
perform-IsSound (call_reply admin tid body at) b s =
    append_admin_reply-IsSound admin tid body at b s
perform-IsSound (call_like user tid at) b s = like-IsSound user tid at b s
perform-IsSound (call_unlike user tid) b s = unlike-IsSound user tid b s
perform-IsSound (call_set_thread tid u) b s = set_thread_state-IsSound tid u b s
perform-IsSound (call_set_message mid state) b s = set_message_state-IsSound mid state b s

-- Any calls, whichever statements fail, keep this of the tables: every thread has a message, and
-- every like is on a thread that is there, is public, and is not the liker's own.
pub run-IsSound : (cs : List Call) (b : Board) → IsSound b.db → IsSound (run cs b).db
unfolding run
run-IsSound [] b s = s
run-IsSound (c ∷ cs) b s = run-IsSound cs (perform c b) (perform-IsSound c b s)
