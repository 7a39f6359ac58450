-- ===== src/Board/Reads.antt =====
-- What internal/board/board.go reads: the listing, one thread, its messages and its likes.
use falco_ctf_app.Prelude.{
  ℕ, String, Bool, true, false, not, ◌&&◌, ◌||◌, List, [], ◌∷◌, map, keep, length, ◌==◌, string_eq,
  if◌then◌else◌,
}
use falco_ctf_app.Prelude.Maps.{Map, lookup, has}
use falco_ctf_app.Prelude.Sort.{sort, string_le}
use falco_ctf_app.Board.State.{
  ThreadRow, MessageRow, LikeKey, like_key, like_eq, Tables, Action, pure, ◌>>=◌, ◌>>◌, query,
  row_or_not_found, require, not_found, audience_admin, audience_all, state_visible, state_deleted,
}

pub record Message : Type 0 where
  pub id : String
  pub author_role : String
  pub author : String
  pub body : String
  pub created_at : String
  pub state : String

pub record Thread : Type 0 where
  pub id : String
  pub author : String
  pub audience : String
  pub subject : String
  pub created_at : String
  pub pinned : Bool
  pub answered : Bool
  pub state : String
  pub messages : List Message
  pub like_count : ℕ
  pub liked : Bool

pub record ThreadSummary : Type 0 where
  pub id : String
  pub author : String
  pub audience : String
  pub subject : String
  pub created_at : String
  pub updated_at : String
  pub pinned : Bool
  pub answered : Bool
  pub state : String
  pub message_count : ℕ
  pub like_count : ℕ
  pub liked : Bool

unfoldable pub visible_to_participant : Thread → String → Bool
visible_to_participant th viewer =
    if not (th.state == state_visible)
    then false
    else if th.audience == audience_all
    then true
    else th.audience == audience_admin && th.author == viewer

abbrev pub scan_message : String × MessageRow → Message
scan_message (mid, m) = record {
  id = mid;
  author_role = m.author_role;
  author = m.author;
  body = if m.state == state_deleted then "" else m.body;
  created_at = m.created_at;
  state = m.state;
}

-- The WHERE clause of loadMessagesLocked.
abbrev pub selected : String → Bool → String × MessageRow → Bool
selected tid is_admin (mid, m) =
    if is_admin then m.thread == tid else m.thread == tid && m.state == state_visible

abbrev pub read_messages : String → Bool → Map String MessageRow → List Message
read_messages tid is_admin ms = map scan_message (keep (selected tid is_admin) ms)

abbrev pub scan_thread : String → ThreadRow → List Message → Thread
scan_thread tid t ms = record {
  id = tid;
  author = t.author;
  audience = t.audience;
  subject = t.subject;
  created_at = t.created_at;
  pinned = t.pinned;
  answered = t.answered;
  state = t.state;
  messages = ms;
  like_count = 0;
  liked = false;
}

unfoldable pub load_messages : String → Bool → Action (List Message)
load_messages tid is_admin = query (λ t. read_messages tid is_admin t.messages)

unfoldable pub load_thread : String → Bool → Action Thread
load_thread tid is_admin = do
  found ← query (λ t. lookup tid t.threads)
  row ← row_or_not_found found
  ms ← load_messages tid is_admin
  pure (scan_thread tid row ms)

abbrev pub like_count : String → Map LikeKey String → ℕ
like_count tid likes = length (keep (λ l. l.0.thread == tid) likes)

unfoldable pub like_status : String → String → Action (ℕ × Bool)
like_status tid viewer = do
  count ← query (λ t. like_count tid t.likes)
  liked ← if viewer == "" then pure false else query (λ t. has (like_key tid viewer) t.likes)
  pure (count, liked)

-- The assignment of the like count and of `liked` that ends each method.
unfoldable pub with_likes : Thread → String → String → Action Thread
with_likes th tid viewer = do
  status ← like_status tid viewer
  pure (record th { like_count = status.0; liked = status.1 })

unfoldable pub get_thread : String → Bool → String → Action Thread
get_thread viewer is_admin tid = do
  th ← load_thread tid is_admin
  require not_found (is_admin || visible_to_participant th viewer)
  with_likes th tid viewer

-- MAX(m.created_at), where a thread without a message has the thread's own time.
abbrev pub newest : String → List (String × MessageRow) → String
newest at [] = at
newest at ((mid, m) ∷ ms) = newest (if string_le at m.created_at then m.created_at else at) ms

abbrev pub updated_at : String → List (String × MessageRow) → String
updated_at created [] = created
updated_at created ((mid, m) ∷ ms) = newest m.created_at ms

abbrev pub summary : String → Tables → String × ThreadRow → ThreadSummary
summary viewer t (tid, row) =
    let ms = keep (λ m. m.1.thread == tid) t.messages in
    record {
      id = tid;
      author = row.author;
      audience = row.audience;
      subject = row.subject;
      created_at = row.created_at;
      updated_at = updated_at row.created_at ms;
      pinned = row.pinned;
      answered = row.answered;
      state = row.state;
      message_count = length ms;
      like_count = like_count tid t.likes;
      liked = has (like_key tid viewer) t.likes;
    }

-- The WHERE clause of ListThreads.
abbrev pub listed : String → Bool → String × ThreadRow → Bool
listed viewer is_admin (tid, t) =
    is_admin
    || t.state == state_visible
      && (t.audience == audience_all || t.audience == audience_admin && t.author == viewer)

-- ORDER BY pinned DESC, updated_at DESC. SQL leaves the order of equal rows open.
abbrev pub summary_le : ThreadSummary → ThreadSummary → Bool
summary_le a b =
    if a.pinned
    then (if b.pinned then string_le b.updated_at a.updated_at else true)
    else if b.pinned
    then false
    else string_le b.updated_at a.updated_at

unfoldable pub list_threads : String → Bool → Action (List ThreadSummary)
list_threads viewer is_admin =
    query (λ t. sort summary_le (map (summary viewer t) (keep (listed viewer is_admin) t.threads)))
