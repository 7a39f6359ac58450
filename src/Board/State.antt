-- ===== src/Board/State.antt =====
-- The tables of internal/board (board.go and the schema of migrations.go), and the statements that
-- its methods run on them. A method holds the mutex from its first statement to its last, so no other method runs
-- between them.
use falco_ctf_app.Prelude.{
  ℕ, suc, String, Bool, true, ◌&&◌, ◌||◌, ◌≡◌, ◌↔◌, Option, none, some, arith, Eq, ◌==◌, string_eq,
  if◌then◌else◌,
}
use falco_ctf_app.Prelude.Maps.{Map}
use falco_ctf_app.Prelude.Results.{Result, ok, err}

-- The constants of Audience, AuthorRole and State.
abbrev pub audience_admin : String
audience_admin = "admin"

abbrev pub audience_all : String
audience_all = "all"

abbrev pub role_participant : String
role_participant = "participant"

abbrev pub role_admin : String
role_admin = "admin"

abbrev pub state_visible : String
state_visible = "visible"

abbrev pub state_hidden : String
state_hidden = "hidden"

abbrev pub state_deleted : String
state_deleted = "deleted"

pub data BoardError : Type 0 where
  not_found self_like invalid_audience invalid_state : BoardError
  sqlite random_source : BoardError

-- A row of board_threads without its id. The columns pinned and answered hold 0 or 1.
pub record ThreadRow : Type 0 where
  pub author : String
  pub audience : String
  pub subject : String
  pub created_at : String
  pub pinned : Bool
  pub answered : Bool
  pub state : String

-- A row of board_messages without its id.
pub record MessageRow : Type 0 where
  pub thread : String
  pub author_role : String
  pub author : String
  pub body : String
  pub created_at : String
  pub state : String

-- The primary key of board_likes.
pub record LikeKey : Type 0 where
  pub thread : String
  pub user : String

abbrev pub like_beq : LikeKey → LikeKey → Bool
like_beq a b = a.thread == b.thread && a.user == b.user

pub like_beq_iff : (a b : LikeKey) → (like_beq a b ≡ true) ↔ (a ≡ b)
like_beq_iff a b =
    ground (arith, string_eq.beq_iff a.thread b.thread, string_eq.beq_iff a.user b.user)

instance abbrev pub like_eq : Eq LikeKey
like_eq = record { beq = like_beq; beq_iff = like_beq_iff }

abbrev pub like_key : String → String → LikeKey
like_key tid user = record { thread = tid; user = user }

-- `messages` is in the order of rowid, which is the order of insertion.
pub record Tables : Type 0 where
  pub threads : Map String ThreadRow
  pub messages : Map String MessageRow
  pub likes : Map LikeKey String

-- `faulty n` says whether the n-th statement fails; `ids n` is what the n-th newID returns, where
-- `none` is an error of the random source.
pub record Board : Type 0 where
  pub db : Tables
  pub statements : ℕ
  pub faulty : ℕ → Bool
  pub drawn : ℕ
  pub ids : ℕ → Option String

abbrev pub Action : Type 0 → Type 0
Action A = Board → Result BoardError A × Board

abbrev continue :
    {A B : Type 0} → Result BoardError A × Board → (A → Action B) → Result BoardError B × Board
continue (ok a, b) f = f a b
continue (err e, b) f = (err e, b)

infixl 5 ◌>>=◌ ◌>>◌
abbrev pub ◌>>=◌ : {A B : Type 0} → Action A → (A → Action B) → Action B
◌>>=◌ m f b = continue (m b) f

abbrev pub ◌>>◌ : {B : Type 0} → Action (Unit {0}) → Action B → Action B
◌>>◌ m n = m >>= λ _. n

abbrev pub pure : {A : Type 0} → A → Action A
pure a b = (ok a, b)

abbrev pub fail : {A : Type 0} → BoardError → Action A
fail e b = (err e, b)

-- Begin, a statement or Commit, which may fail; `write` is what it leaves when it succeeds.
abbrev pub exec : (Tables → Tables) → Action (Unit {0})
exec write b =
    if b.faulty b.statements
    then (err sqlite, record b { statements = suc b.statements })
    else (ok tt, record b { db = write b.db; statements = suc b.statements })

-- Inside a transaction nothing is written before the commit.
abbrev pub staged : Action (Unit {0})
staged = exec (λ t. t)

abbrev pub query : {A : Type 0} → (Tables → A) → Action A
query read = staged >>= λ _ b. (ok (read b.db), b)

-- An UPDATE of one row, with the row count that it affected as a Bool.
abbrev pub affected : (Tables → Bool) → (Tables → Tables) → Action Bool
affected hit write = query hit >>= λ had b. (ok had, record b { db = write b.db })

-- QueryRow of a row that may be missing.
abbrev pub row_or_not_found : {A : Type 0} → Option A → Action A
row_or_not_found none = fail not_found
row_or_not_found (some a) = pure a

-- A constraint of the schema, which fails the statement that breaks it.
abbrev pub require : BoardError → Bool → Action (Unit {0})
require e test = if test then pure tt else fail e

abbrev drawn_id : Option String → Board → Result BoardError String × Board
drawn_id none b = (err random_source, record b { drawn = suc b.drawn })
drawn_id (some id) b = (ok id, record b { drawn = suc b.drawn })

abbrev pub new_id : Action String
new_id b = drawn_id (b.ids b.drawn) b

abbrev pub is_state : String → Bool
is_state s = s == state_visible || s == state_hidden || s == state_deleted
