-- ===== src/Board/Writes.antt =====
-- The methods of internal/board/board.go that write.
use falco_ctf_app.Prelude.{
  String, Bool, true, false, ◌||◌, not, ◌&&◌, Option, none, some, [], ◌∷◌, ◌++◌, ◌==◌, string_eq,
  if◌then◌else◌, is_some,
}
use falco_ctf_app.Prelude.Maps.{Map, lookup, insert, delete, has}
use falco_ctf_app.Board.State.{
  ThreadRow, MessageRow, LikeKey, like_key, like_eq, Tables, Action, pure, ◌>>=◌, ◌>>◌, exec,
  staged, query, affected, row_or_not_found, require, new_id, is_state, not_found, self_like,
  invalid_audience, invalid_state, sqlite, audience_admin, audience_all, role_participant,
  role_admin, state_visible,
}
use falco_ctf_app.Board.Reads.{Thread, load_thread, with_likes}

-- The columns that the INSERT leaves out take their defaults.
abbrev pub new_thread : String → String → String → String → ThreadRow
new_thread author audience subject at = record {
  author = author;
  audience = audience;
  subject = subject;
  created_at = at;
  pinned = false;
  answered = false;
  state = state_visible;
}

abbrev pub new_message : String → String → String → String → String → MessageRow
new_message tid role author body at = record {
  thread = tid;
  author_role = role;
  author = author;
  body = body;
  created_at = at;
  state = state_visible;
}

-- A new row has the greatest rowid.
abbrev pub add_message : String → MessageRow → Tables → Tables
add_message mid m t = record t { messages = t.messages ++ (mid, m) ∷ [] }

abbrev pub add_thread : String → ThreadRow → Tables → Tables
add_thread tid row t = record t { threads = insert tid row t.threads }

-- The transaction of CreateThread. An INSERT of a primary key that the table has fails.
unfoldable pub create_tx : String → String → ThreadRow → MessageRow → Action (Unit {0})
create_tx tid mid row m = do
  staged
  taken ← query (λ t. has tid t.threads)
  require sqlite (not taken)
  used ← query (λ t. has mid t.messages)
  require sqlite (not used)
  exec (λ t. add_message mid m (add_thread tid row t))

unfoldable pub create_thread : String → String → String → String → String → Action String
create_thread author audience subject first_body at = do
  require invalid_audience (audience == audience_admin || audience == audience_all)
  tid ← new_id
  mid ← new_id
  create_tx tid mid (new_thread author audience subject at)
      (new_message tid role_participant author first_body at)
  pure tid

abbrev pub set_answered : ThreadRow → ThreadRow
set_answered row = record row { answered = true }

-- UPDATE … WHERE id = ?
unfoldable pub update_row : {A : Type 0} → String → (A → A) → Map String A → Map String A
update_row id f [] = []
update_row id f ((k, a) ∷ m) = (k, if k == id then f a else a) ∷ update_row id f m

abbrev pub answer_if : Bool → String → Tables → Tables
answer_if false tid t = t
answer_if true tid t = record t { threads = update_row tid set_answered t.threads }

-- The end of the transaction of AppendOwnMessage, and, with the UPDATE of `answered`, of
-- AppendAdminReply.
unfoldable pub append_tx : Bool → String → MessageRow → Action (Unit {0})
append_tx answers tid m = do
  mid ← new_id
  used ← query (λ t. has mid t.messages)
  require sqlite (not used)
  if answers then staged else pure tt
  exec (λ t. add_message mid m (answer_if answers tid t))

-- The answer of both methods.
unfoldable pub reload : String → Bool → String → Action Thread
reload tid is_admin viewer = do th ← load_thread tid is_admin; with_likes th tid viewer

unfoldable pub append_own_message : String → String → String → String → Action Thread
append_own_message author tid body at = do
  staged
  found ← query (λ t. lookup tid t.threads)
  row ← row_or_not_found found
  require not_found (row.author == author)
  append_tx false tid (new_message tid role_participant author body at)
  reload tid false author

unfoldable pub append_admin_reply : String → String → String → String → Action Thread
append_admin_reply admin tid body at = do
  staged
  found ← query (λ t. has tid t.threads)
  require not_found found
  append_tx true tid (new_message tid role_admin admin body at)
  reload tid true admin

-- INSERT OR IGNORE
abbrev pub add_like : LikeKey → String → Map LikeKey String → Map LikeKey String
add_like k at m = if has k m then m else insert k at m

unfoldable pub like : String → String → String → Action (Unit {0})
like user tid at = do
  found ← query (λ t. lookup tid t.threads)
  row ← row_or_not_found found
  require not_found (row.audience == audience_all && row.state == state_visible)
  require self_like (not (row.author == user))
  exec (λ t. record t { likes = add_like (like_key tid user) at t.likes })

unfoldable pub unlike : String → String → Action (Unit {0})
unlike user tid = exec (λ t. record t { likes = delete (like_key tid user) t.likes })

-- A field that is `none` is left as it is.
pub record ThreadStateUpdate : Type 0 where
  pub pinned : Option Bool
  pub answered : Option Bool
  pub state : Option String

abbrev pub or_keep : {A : Type 0} → Option A → A → A
or_keep none a = a
or_keep (some b) a = b

abbrev pub update_thread : ThreadStateUpdate → ThreadRow → ThreadRow
update_thread u row = record row {
  pinned = or_keep u.pinned row.pinned;
  answered = or_keep u.answered row.answered;
  state = or_keep u.state row.state;
}

abbrev pub is_state_update : Option String → Bool
is_state_update none = true
is_state_update (some s) = is_state s

abbrev pub is_empty : ThreadStateUpdate → Bool
is_empty u = not (is_some u.pinned) && not (is_some u.answered) && not (is_some u.state)

-- With no field the UPDATE is left out and a query confirms the row.
unfoldable pub set_thread_state : String → ThreadStateUpdate → Action (Unit {0})
set_thread_state tid u = do
  require invalid_state (is_state_update u.state)
  found ←
      if is_empty u
      then query (λ t. has tid t.threads)
      else affected (λ t. has tid t.threads)
          (λ t. record t { threads = update_row tid (update_thread u) t.threads })
  require not_found found

abbrev pub with_state : String → MessageRow → MessageRow
with_state state m = record m { state = state }

unfoldable pub set_message_state : String → String → Action (Unit {0})
set_message_state mid state = do
  require invalid_state (is_state state)
  found ←
      affected (λ t. has mid t.messages)
        (λ t. record t { messages = update_row mid (with_state state) t.messages })
  require not_found found
