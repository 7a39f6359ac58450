-- ===== src/Board/Invariant/Tables.antt =====
-- The invariant of the tables of internal/board/board.go, and the statements that keep it.
use falco_ctf_app.Prelude.{
  String, Bool, true, ◌≡◌, ◌≢◌, refl, sym, subst, ◌∙◌, inl, inr, none, some, List, [], ◌∷◌, ◌++◌,
  any, arith, ◌==◌, string_eq, Bool-cases, Option-cases, if◌then◌else◌,
}
use falco_ctf_app.Prelude.Maps.{Map, lookup, delete, has, lookup-insert, lookup-delete}
use falco_ctf_app.Board.State.{ThreadRow, MessageRow, LikeKey, like_eq, Tables}
use falco_ctf_app.Board.Writes.{add_message, add_thread, update_row, with_state, add_like}

-- The thread of a like is there, is public, and is not the user's own.
abbrev pub IsLikeable : LikeKey → Map String ThreadRow → Type 0
IsLikeable k m =
    (row : ThreadRow) × (lookup k.thread m ≡ some row)
    × (row.audience ≡ "all")
    × (row.author ≢ k.user)

pub record IsSound (t : Tables) : Type 0 where
  pub opened :
      (tid : String) (row : ThreadRow)
      → lookup tid t.threads ≡ some row
      → any (λ m. m.1.thread == tid) t.messages ≡ true
  pub liked : (k : LikeKey) (at : String) → lookup k t.likes ≡ some at → IsLikeable k t.threads

any_append-left :
    {A : Type 0} (p : A → Bool) (xs ys : List A) → any p xs ≡ true → any p (xs ++ ys) ≡ true
any_append-left p [] ys h = absurd (ground arith)
any_append-left p (x ∷ xs) ys h = ground (arith, any_append-left p xs ys)

any_append-right :
    {A : Type 0} (p : A → Bool) (xs ys : List A) → any p ys ≡ true → any p (xs ++ ys) ≡ true
any_append-right p [] ys h = h
any_append-right p (x ∷ xs) ys h = ground (arith, any_append-right p xs ys h)

pub add_message-IsSound :
    (mid : String) (m : MessageRow) (t : Tables) → IsSound t → IsSound (add_message mid m t)
add_message-IsSound mid m t s = record {
  opened = λ tid row found.
      any_append-left (λ m. m.1.thread == tid) t.messages _ (s.opened tid row found);
  liked = s.liked;
}

pub create-IsSound :
    (tid mid : String) (row : ThreadRow) (m : MessageRow) (t : Tables)
    → lookup tid t.threads ≡ none
    → m.thread ≡ tid
    → IsSound t
    → IsSound (add_message mid m (add_thread tid row t))
create-IsSound tid mid row m t fresh own s = record {
  opened = λ tid' row' found. elim (Bool-cases (tid == tid')) [
    | inl same ↦
        let eq : m.thread ≡ tid' = own ∙ (string_eq.beq_iff tid tid').0 same in
        any_append-right (λ m. m.1.thread == tid') t.messages _
          (ground (arith, (string_eq.beq_iff m.thread tid').1 eq))
    | inr other ↦
        any_append-left (λ m. m.1.thread == tid') t.messages _
          (s.opened tid' row' (ground (arith, lookup-insert tid tid' row t.threads)))
  ];
  liked = λ k at h.
      let (row', found, public, foreign) = s.liked k at h in
      elim (Bool-cases (tid == k.thread)) [
        | inl same ↦ absurd (ground (arith, rw ((string_eq.beq_iff tid k.thread).0 same) at fresh))
        | inr other ↦
            (row', rw (lookup-insert tid k.thread row t.threads, other) found, public, foreign)
      ];
}

-- UPDATE … WHERE id = ? on the row that a lookup finds.
pub lookup-update_row :
    {A : Type 0} (id k : String) (f : A → A) (m : Map String A)
    → lookup k (update_row id f m)
      ≡ elim (lookup k m) [ none ↦ none | some a ↦ some (if k == id then f a else a) ]
unfolding lookup update_row
lookup-update_row id k f [] = refl
lookup-update_row id k f ((j, a) ∷ m) = elim (Bool-cases (j == k)) [
  | inl same ↦ rw (same, (string_eq.beq_iff j k).0 same) refl
  | inr other ↦ rw other (lookup-update_row id k f m)
]

pub update_threads-IsSound :
    (tid : String) (f : ThreadRow → ThreadRow) (t : Tables)
    → ((row : ThreadRow) → ((f row).author ≡ row.author) × ((f row).audience ≡ row.audience))
    → IsSound t
    → IsSound (record t { threads = update_row tid f t.threads })
update_threads-IsSound tid f t same s = record {
  opened = λ tid' row found. elim (Option-cases (lookup tid' t.threads)) [
    | inl missing ↦
        absurd (ground (arith, rw (lookup-update_row tid tid' f t.threads, missing) at found))
    | inr (row', there) ↦ s.opened tid' row' there
  ];
  liked = λ k at h.
      let (row, found, public, foreign) = s.liked k at h in
      (
        if k.thread == tid then f row else row,
        rw (lookup-update_row tid k.thread f t.threads, found) refl,
        elim (Bool-cases (k.thread == tid)) [
          | inl here ↦ rw here ((same row).1 ∙ public)
          | inr other ↦ rw other public
        ],
        elim (Bool-cases (k.thread == tid)) [
          | inl here ↦ rw here (λ e. foreign (sym (same row).0 ∙ e))
          | inr other ↦ rw other foreign
        ],
      );
}

any-update_row :
    (mid state tid : String) (ms : Map String MessageRow)
    → any (λ m. m.1.thread == tid) (update_row mid (with_state state) ms)
      ≡ any (λ m. m.1.thread == tid) ms
unfolding update_row
any-update_row mid state tid [] = refl
any-update_row mid state tid ((k, m) ∷ ms) = ground (arith, any-update_row mid state tid ms)

pub update_messages-IsSound :
    (mid state : String) (t : Tables)
    → IsSound t
    → IsSound (record t { messages = update_row mid (with_state state) t.messages })
update_messages-IsSound mid state t s = record {
  opened = λ tid row found. any-update_row mid state tid t.messages ∙ s.opened tid row found;
  liked = s.liked;
}

pub add_like-IsSound :
    (k : LikeKey) (at : String) (t : Tables)
    → IsLikeable k t.threads
    → IsSound t
    → IsSound (record t { likes = add_like k at t.likes })
add_like-IsSound k at t able s = record {
  opened = s.opened;
  liked = λ k' at' h. elim (Bool-cases (has k t.likes)) [
    | inl had ↦ s.liked k' at' (rw had at h)
    | inr new ↦ elim (Bool-cases (k == k')) [
      | inl same ↦ subst (λ j. IsLikeable j t.threads) ((like_eq.beq_iff k k').0 same) able
      | inr other ↦ s.liked k' at' (ground (arith, rw new at h, lookup-insert k k' at t.likes))
    ]
  ];
}

pub delete_like-IsSound :
    (k : LikeKey) (t : Tables) → IsSound t → IsSound (record t { likes = delete k t.likes })
delete_like-IsSound k t s = record {
  opened = s.opened;
  liked = λ k' at h. s.liked k' at (ground (arith, lookup-delete k k' t.likes));
}
