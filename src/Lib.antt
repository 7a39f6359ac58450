-- ===== src/Lib.antt =====
-- Falco CTF, the application layer: a scoreboard that grades evade and detect challenges from Falco's
-- rule fires, its store, and its discussion board.
--
-- The scoreboard receives rule fires (internal/scoreboard/ingest), hands each to the grader
-- (internal/scoreboard/scoring), and the grader reads and writes the store (internal/store), whose
-- maps answer every question and whose SQLite tables outlive the process. A forbidden fire taints
-- the current mission of a seat; a taint, a missing expected fire or a missing exfil receipt blocks
-- the solve. The board (internal/board) has its own database. Before a browser's request reaches the
-- scoreboard, auth-policy (internal/authpolicy) has replaced its identity by that of a seat or an admin;
-- the handlers (internal/scoreboard/api) admit the seat to its own actions, and the token buckets
-- (internal/scoreboard/ratelimit) bound what one participant can ask for.
--
-- Store: internal/store/store.go. Store/State has the maps (`Memory`), the tables (`Tables`, from
--   migrations.go) and the statements; Solves, Reveals, Profiles and Rules have one function for each
--   method, under the name of the method in snake_case; Lifecycle has Open, Snapshot and Reset.
--   Store/Coherence relates the maps and the tables. A method holds the one mutex, so calls are
--   a sequence. `faulty n` says whether the n-th statement fails; a statement or a transaction is
--   written whole or not at all. A row counts as a map entry from its primary key. Times of solves
--   and receipts are the strings the callers pass; a rule fire's time is a number of nanoseconds.
-- Identity: internal/identity/seat.go, the pattern as a matcher on character codes.
--   Identity/Domain is identity.go beside it: domains, reserved labels and the admin list. A `Text`
--   (Prelude/Text) is a list of code points. There and in AuthPolicy the source lower-cases only texts it
--   has found ASCII (`lower`); elsewhere `to_lower` is exact where the result is compared with ASCII texts.
-- AuthPolicy: internal/authpolicy. Email and Roster are roster.go, Server is server.go: check-workspace,
--   check-participant and check-admin. The YAML decoder, oauth2-proxy and the query parser are not
--   modelled; what they answer are arguments.
-- RateLimit: internal/scoreboard/ratelimit/ratelimit.go. The limiter's map and list are one list of
--   buckets, the head the most recent. float64 is the parameter `Floats`, with two laws: a minimum that is
--   full is the bound, and a full bucket stays full. Examples/Limits counts tokens in billionths.
-- Ingest: internal/scoreboard/ingest/ingest.go. Events has the tests of a request, Handler has `receive`,
--   in three parts: the gates (`admit`), the limiters (`limit`), and the feed and the grader
--   (`record_fire`). It shares the store and the grader of Store and Scoring. The decoded body and the
--   parsed media type are part of the request; a counter is the list of its increments.
-- Api: the participant's actions of internal/scoreboard/api/api.go. Gates has the identity gates, Actions
--   has stepCheck, openHint, resetDirty (`redo_mission`) and reset (`reset_all`), Submissions has submit and
--   exfilInternal. An index is what Atoi makes of it. SolvedAnswer is about the answers of Submissions,
--   OwnSeat joins the gates to AuthPolicy, and HintLists, HintMap and HintOrder are about hints.
--   Leaderboard (computeLeaderboard), Progress (userMe, state) and Journeys (journey, missionDetail) are the
--   pages, each a function of the store; Detect is submitDetect in two steps, before and after the runner.
-- Avatar: internal/scoreboard/avatar/avatar.go, the table of avatars and the default of a seat.
-- OriginGuard: internal/scoreboard/originguard/originguard.go. url.Parse and strings.ToLower are
--   parameters; Admission relies on schemes without a colon, before and after the folding.
-- Collector: internal/collector/collector.go, the proxy of the workspaces; Forwarded composes it with the
--   scoreboard's header tests and with clientIP.
-- Migrations: internal/store/migrations.go, and the copy of its runner in internal/board/migrations.go. A
--   database is a version and a schema; each call into the driver may fail. Schemas has both lists, and
--   what SQLite's CREATE and DROP do to the tables and indexes of a schema.
-- Catalog: the challenge type and the map of internal/catalog/catalog.go. Load reads YAML from disk
--   and is not modelled; that it stores a challenge under its own id is the hypothesis `IsLoaded`.
-- Scoring: internal/scoreboard/scoring. Points is points.go with the wrap-around of a 64-bit int;
--   Grader, Submit and Sweep are scoring.go. The clock's readings are arguments, in the order of their use,
--   and the DetectRunner is a parameter. Taint, Mission, Accept and Swept hold the theorems.
-- Board: internal/board/board.go and the schema of its migrations.go. State has the rows and the
--   statements, Reads and Writes the methods; newID is a sequence of ids, each of which may be an
--   error. Readable, Listing, Ownership and Invariant hold the theorems. SQL leaves the order of equal rows
--   open; the listing here keeps the table's order for them.
-- Examples: the theorems at concrete inputs.
--
-- Every function is structural. The one loop on fuel is the limiter's eviction (`make_room`): each turn
-- removes a bucket, and the number of buckets is the fuel. A Go map is an association list, and its
-- iteration order is the list's; where the source sorts, the model sorts. Not modelled: the
-- handlers of profiles and of the board, the rendering of pages, metrics, log lines, the ticker of the
-- sweeper, file loading, and the commands, which are input and output around these parts.
pub mod Prelude
pub mod Store
pub mod Identity
pub mod Migrations
pub mod Catalog
pub mod Avatar
pub mod Scoring
pub mod Board
pub mod RateLimit
pub mod OriginGuard
pub mod Collector
pub mod Ingest
pub mod Api
pub mod AuthPolicy
pub mod Examples
