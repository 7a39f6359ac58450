-- ===== src/Board/Listing.antt =====
-- The listing and the messages that internal/board/board.go gives to a participant.
use falco_ctf_app.Prelude.{
  subst, String, Bool, true, false, ◌||◌, ◌≡◌, refl, sym, ap, ◌∙◌, ◌↔◌, inl, inr, some, List, [],
  ◌∷◌, map, keep, any, All, arith, ◌==◌, string_eq, Bool-cases, Option-cases,
}
use falco_ctf_app.Prelude.Maps.{Map, Distinct, lookup}
use falco_ctf_app.Prelude.Results.{ok, is_ok, Result-cases, ok_inj}
use falco_ctf_app.Prelude.Sort.{sort, any-sort}
use falco_ctf_app.Board.State.{ThreadRow, MessageRow, Tables, Board}
use falco_ctf_app.Board.Reads.{
  Thread, Message, ThreadSummary, load_messages, load_thread, with_likes, like_status, scan_thread,
  visible_to_participant, get_thread, list_threads, read_messages, selected, listed, summary,
  summary_le,
}
use falco_ctf_app.Board.Readable.{NoFaults, next, listed_iff, get_thread_iff}

-- A thread of the listing is one that a lookup finds and that the WHERE clause lets through.
abbrev pub IsListed : String → String → Map String ThreadRow → Type 0
IsListed viewer tid m =
    (row : ThreadRow) × (lookup tid m ≡ some row) × (listed viewer false (tid, row) ≡ true)

any-listed :
    (viewer tid : String) (t : Tables) (m : Map String ThreadRow)
    → any (λ sm. sm.id == tid) (map (summary viewer t) (keep (listed viewer false) m)) ≡ true
    → Distinct m
    → IsListed viewer tid m
unfolding lookup
any-listed viewer tid t [] h d = absurd (ground arith)
any-listed viewer tid t ((k, row) ∷ m) h (fresh, d) = elim (Bool-cases (k == tid)) [
  | inl same ↦ elim (Bool-cases (listed viewer false (k, row))) [
    | inl shown ↦ (row, rw same refl, shown)
    | inr hidden ↦
        let (row', found, _) = any-listed viewer tid t m (rw hidden at h) d in
        absurd (ground (arith, found, rw ((string_eq.beq_iff k tid).0 same) at fresh))
  ]
  | inr other ↦
      let (row', found, shown) = any-listed viewer tid t m (ground arith) d in
      (row', rw other found, shown)
]

listed-any :
    (viewer tid : String) (t : Tables) (m : Map String ThreadRow)
    → IsListed viewer tid m
    → any (λ sm. sm.id == tid) (map (summary viewer t) (keep (listed viewer false) m)) ≡ true
unfolding lookup
listed-any viewer tid t [] (row, found, shown) = absurd (ground arith)
listed-any viewer tid t ((k, row) ∷ m) (row', found, shown) = elim (Bool-cases (k == tid)) [
  | inl same ↦ ground arith
  | inr other ↦
      let rest = listed-any viewer tid t m (row', (rw other at found), shown) in
      ground (arith, rest)
]

-- When no statement fails and no id is in the table twice, the participant's listing is answered and
-- names exactly the threads that GetThread gives the participant.
pub list_threads-get_thread :
    (viewer : String) (b : Board)
    → NoFaults b
    → Distinct b.db.threads
    → (out : List ThreadSummary) × ((list_threads viewer false b).0 ≡ ok out)
      × ((tid : String)
          → (any (λ sm. sm.id == tid) out ≡ true)
            ↔ (is_ok (get_thread viewer false tid b).0 ≡ true))
unfolding list_threads
list_threads-get_thread viewer b good d =
    let t = b.db in
    let rows = map (summary viewer t) (keep (listed viewer false) t.threads) in
    (
      sort summary_le rows,
      rw (good b.statements) refl,
      λ tid.
          let (to, from) = get_thread_iff viewer tid b good in
          (
            λ h.
                let (row, found, shown) =
                  any-listed viewer tid t t.threads
                    (sym (any-sort summary_le (λ sm. sm.id == tid) rows) ∙ h) d in
                from (record {
                  row = row;
                  found = found;
                  readable = (listed_iff viewer tid row).0 shown;
                }),
            λ h.
                let c = to h in
                any-sort summary_le (λ sm. sm.id == tid) rows
                ∙ listed-any viewer tid t t.threads
                    (c.row, c.found, (listed_iff viewer tid c.row).1 c.readable),
          ),
    )

-- A message that may be shown: the body of a deleted one is blank, and a participant gets visible
-- ones only.
abbrev pub IsShown : Bool → Message → Type 0
IsShown is_admin m = (m.state ≡ "deleted" → m.body ≡ "") × (is_admin ≡ false → m.state ≡ "visible")

read_messages-IsShown :
    (tid : String) (is_admin : Bool) (ms : Map String MessageRow)
    → All (IsShown is_admin) (read_messages tid is_admin ms)
read_messages-IsShown tid is_admin [] = tt
read_messages-IsShown tid is_admin ((mid, m) ∷ ms) =
    elim (Bool-cases (selected tid is_admin (mid, m))) [
      | inl fits ↦ rw fits (
        (
          ground (arith, string_eq.beq_iff m.state "deleted"),
          ground (arith, string_eq.beq_iff m.state "visible"),
        ),
        read_messages-IsShown tid is_admin ms,
      )
      | inr other ↦ rw other (read_messages-IsShown tid is_admin ms)
    ]

load_messages-IsShown :
    (tid : String) (is_admin : Bool) (b : Board) {ms : List Message}
    → (load_messages tid is_admin b).0 ≡ ok ms
    → All (IsShown is_admin) ms
unfolding load_messages
load_messages-IsShown tid is_admin b h = elim (Bool-cases (b.faulty b.statements)) [
  | inl bad ↦ absurd (ground (arith, rw bad at h))
  | inr fine ↦ rw (← ok_inj (rw fine at h)) (read_messages-IsShown tid is_admin b.db.messages)
]

load_thread-IsShown :
    (tid : String) (is_admin : Bool) (b : Board) {th : Thread}
    → (load_thread tid is_admin b).0 ≡ ok th
    → All (IsShown is_admin) th.messages
unfolding load_thread
load_thread-IsShown tid is_admin b {th} h = elim (Bool-cases (b.faulty b.statements)) [
  | inl bad ↦ absurd (ground (arith, rw bad at h))
  | inr fine ↦ elim (Option-cases (lookup tid b.db.threads)) [
    | inl missing ↦ absurd (ground (arith, rw (fine, missing) at h))
    | inr (row, found) ↦ elim (Result-cases (load_messages tid is_admin (next b)).0) [
      | inr (e, failed) ↦ absurd (ground (arith, rw (fine, found, failed) at h))
      | inl (ms, loaded) ↦
          let same : scan_thread tid row ms ≡ th = ok_inj (rw (fine, found, loaded) at h) in
          subst (λ th'. All (IsShown is_admin) th'.messages) same
            (load_messages-IsShown tid is_admin (next b) loaded)
    ]
  ]
]

with_likes-messages :
    (th : Thread) (tid viewer : String) (b : Board) {out : Thread}
    → (with_likes th tid viewer b).0 ≡ ok out
    → th.messages ≡ out.messages
unfolding with_likes
with_likes-messages th tid viewer b {out} h = elim (Result-cases (like_status tid viewer b).0) [
  | inr (e, failed) ↦ absurd (ground (arith, rw failed at h))
  | inl (status, ran) ↦
      let same : record th { like_count = status.0; liked = status.1 } ≡ out =
        ok_inj (rw ran at h) in
      ap (λ th'. th'.messages) same
]

-- Whoever asks and whichever statements fail: if GetThread gives a thread, a deleted message in
-- it has no body, and a participant gets visible messages only.
pub get_thread-IsShown :
    (viewer tid : String) (is_admin : Bool) (b : Board) {out : Thread}
    → (get_thread viewer is_admin tid b).0 ≡ ok out
    → All (IsShown is_admin) out.messages
unfolding get_thread
get_thread-IsShown viewer tid is_admin b h = elim (Result-cases (load_thread tid is_admin b).0) [
  | inr (e, failed) ↦ absurd (ground (arith, rw failed at h))
  | inl (th, loaded) ↦ elim (Bool-cases (is_admin || visible_to_participant th viewer)) [
    | inr barred ↦ absurd (ground (arith, rw (loaded, barred) at h))
    | inl allowed ↦
        rw
          (← with_likes-messages th tid viewer (load_thread tid is_admin b).1
            (rw (loaded, allowed) at h))
          (load_thread-IsShown tid is_admin b loaded)
  ]
]
