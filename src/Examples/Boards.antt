-- ===== src/Examples/Boards.antt =====
-- The board of internal/board/board.go with a public thread and a private one.
use falco_ctf_app.Prelude.{
  String, true, false, ◌≡◌, ◌↔◌, refl, some, nat_eq, if◌then◌else◌, List, [], ◌∷◌, string_eq, any,
  ◌==◌, arith,
}
use falco_ctf_app.Prelude.Maps.{lookup, Distinct}
use falco_ctf_app.Prelude.Results.{ok, is_ok}
use falco_ctf_app.Board.State.{like_eq, Board}
use falco_ctf_app.Board.Reads.{Thread, ThreadSummary, get_thread, list_threads}
use falco_ctf_app.Board.Writes.{new_thread, new_message, append_own_message}
use falco_ctf_app.Board.Readable.{CanRead, get_thread_iff}
use falco_ctf_app.Board.Ownership.{Owns, append_own_message_iff}
use falco_ctf_app.Board.Listing.{list_threads-get_thread}
use falco_ctf_app.Board.Invariant.Tables.{IsSound}
use falco_ctf_app.Board.Invariant.Reached.{
  Call, call_create, call_reply, call_like, run, run-IsSound,
}

abbrev no_threads : Board
no_threads = record {
  db = record { threads = []; messages = []; likes = [] };
  statements = 0;
  faulty = λ n. false;
  drawn = 0;
  ids = λ n. if n == 0 then some "t1" else if n == 1 then some "m1" else some "m2";
}

abbrev two_threads : Board
two_threads = record no_threads {
  db = record {
    threads =
        ("t1", new_thread "user01" "all" "hello" "2026-01-01")
        ∷ ("t2", new_thread "user02" "admin" "help" "2026-01-02")
        ∷ [];
    messages =
        ("m1", new_message "t1" "participant" "user01" "hi" "2026-01-01")
        ∷ ("m2", new_message "t2" "participant" "user02" "stuck" "2026-01-02")
        ∷ [];
    likes = [];
  };
}

no_threads-IsSound : IsSound no_threads.db
unfolding lookup
no_threads-IsSound = record {
  opened = λ tid row found. absurd (ground arith);
  liked = λ k at found. absurd (ground arith);
}

abbrev day : List Call
day =
    call_create "user01" "all" "hello" "hi" "2026-01-01"
    ∷ call_reply "admin01" "t1" "welcome" "2026-01-02"
    ∷ call_like "user02" "t1" "2026-01-03"
    ∷ []

run-IsSound_example : IsSound (run day no_threads).db
run-IsSound_example = run-IsSound day no_threads no_threads-IsSound

get_thread_iff_example :
    (is_ok (get_thread "user02" false "t1" two_threads).0 ≡ true)
    ↔ CanRead "user02" "t1" two_threads.db
get_thread_iff_example = get_thread_iff "user02" "t1" two_threads (λ n. refl)

two_threads-Distinct : Distinct two_threads.db.threads
unfolding lookup
two_threads-Distinct = (refl, (refl, tt))

list_threads-get_thread_example :
    (out : List ThreadSummary) × ((list_threads "user01" false two_threads).0 ≡ ok out)
    × ((tid : String)
        → (any (λ sm. sm.id == tid) out ≡ true)
          ↔ (is_ok (get_thread "user01" false tid two_threads).0 ≡ true))
list_threads-get_thread_example =
    list_threads-get_thread "user01" two_threads (λ n. refl) two_threads-Distinct

-- What user02 is given of the public thread.
abbrev shown : Thread
shown = record {
  id = "t1";
  author = "user01";
  audience = "all";
  subject = "hello";
  created_at = "2026-01-01";
  pinned = false;
  answered = false;
  state = "visible";
  messages =
      record {
        id = "m1";
        author_role = "participant";
        author = "user01";
        body = "hi";
        created_at = "2026-01-01";
        state = "visible";
      }
      ∷ [];
  like_count = 0;
  liked = false;
}

-- The public thread, hidden by a moderator.
abbrev hidden_thread : Board
hidden_thread = record no_threads {
  db = record two_threads.db {
    threads =
        ("t1", record (new_thread "user01" "all" "hello" "2026-01-01") { state = "hidden" }) ∷ [];
  };
}

append_own_message_iff_example :
    (is_ok (append_own_message "user01" "t1" "again" "2026-01-03" hidden_thread).0 ≡ true)
    ↔ Owns "user01" "t1" hidden_thread.db
unfolding lookup
append_own_message_iff_example =
    append_own_message_iff "user01" "t1" "again" "2026-01-03" "t1" hidden_thread (λ n. refl) refl
      refl
