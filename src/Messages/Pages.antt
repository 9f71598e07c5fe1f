-- ===== src/Messages/Pages.antt =====
-- What the messages of a conversation look like to its owner, over a connection that works.
use gopher_agent_platform.Prelude.{
  ℕ, zero, suc, ◌-◌, ◌*◌, ◌≤◌, ◌<◌, ◌≡◌, ◌≢◌, refl, ◌∙◌, ap, Bool, true, false, some, List, [],
  ◌++◌, ◌==◌, ◌||◌, ◌&&◌, ◌∷◌, ◌⊎◌, inl, inr, Bool-cases, All, ltb, length, take, drop, filter,
  arith,
}
use gopher_agent_platform.Errors.{Sentinel, conversation_not_found}
use gopher_agent_platform.Exec.{Result, ok, Exec, ◌>>=◌, pure}
use gopher_agent_platform.Database.Rows.{Message, Conversation}
use gopher_agent_platform.Database.Table.{conversation_key, find-key}
use gopher_agent_platform.Database.Order.{
  sort_by, IsWeakOrder, IsSorted, sort_by-IsSorted, sort_by_count, page_of, take-page_of,
}
use gopher_agent_platform.Database.{Db, World, Statement, round_trip, is_bigint}
use gopher_agent_platform.Database.Laws.{query_row_healthy, answered}
use gopher_agent_platform.Conversations.Sql.{owned_conversation, get_conversation}
use gopher_agent_platform.Messages.Sql.{older, messages_under, query_messages}
use gopher_agent_platform.Messages.Repository
use gopher_agent_platform.Messages.Repository.{scan_row, scan_rows, or_missing, in_context}
use gopher_agent_platform.Messages.Service
use gopher_agent_platform.Messages.Service.{max_page, max_page_size}

pub scan_row_healthy {ℓ} :
    {A : Type ℓ} (m : Statement A) (t : Sentinel) (w : World)
    → w.faults ≡ []
    → ((scan_row m t w).0 ≡ or_missing t (answered (m w.db).0))
      × ((scan_row m t w).1.db ≡ (m w.db).1)
      × ((scan_row m t w).1.faults ≡ [])
unfolding scan_row
scan_row_healthy m t w q = ground (arith, query_row_healthy m w q)

scan_rows_healthy {ℓ} :
    {A : Type ℓ} (m : Exec Db (List A)) (w : World)
    → w.faults ≡ []
    → ((scan_rows m w).0 ≡ in_context (m w.db).0)
      × ((scan_rows m w).1.db ≡ (m w.db).1)
      × ((scan_rows m w).1.faults ≡ [])
unfolding scan_rows round_trip
scan_rows_healthy m w q = ground arith

-- The messages of a conversation, from the oldest on.
abbrev pub history : ℕ → ℕ → Db → List Message
history user_id conversation_id db = sort_by older (messages_under user_id conversation_id db)

pub owned_id :
    (db : Db) (user_id conversation_id : ℕ) {c : Conversation}
    → owned_conversation db user_id conversation_id ≡ some c
    → c.id ≡ conversation_id
unfolding owned_conversation
owned_id db user_id conversation_id {c} h =
    ground (arith, find-key conversation_id db.conversations {r = c})

older-IsWeakOrder : IsWeakOrder older
older-IsWeakOrder = record { asym = λ a b h. ground arith; trans = λ a b c h k. ground arith }

-- Of two messages, the first is older, or as old with an id that is no greater.
abbrev pub Precedes : Message → Message → Type 0
Precedes a b = (a.created_at < b.created_at) ⊎ ((a.created_at ≡ b.created_at) × (a.id ≤ b.id))

abbrev pub IsChronological : List Message → Type 0
IsChronological [] = Unit
IsChronological (m ∷ ms) = All (Precedes m) ms × IsChronological ms

-- The messages of one conversation in a table, from the oldest on, each as often as it is there.
pub record IsHistory (conversation_id : ℕ) (table xs : List Message) : Type 0 where
  pub chronological : IsChronological xs
  pub same_messages :
      (p : Message → Bool)
      → length (filter p xs)
        ≡ length (filter (λ m. m.conversation_id == conversation_id && p m) table)

older-Precedes : (a b : Message) → older b a ≡ false → Precedes a b
older-Precedes a b h = elim (Bool-cases (ltb a.created_at b.created_at)) [
  | inl p ↦ inl (ground arith)
  | inr p ↦ inr (ground arith)
]

All-Precedes :
    (a : Message) (xs : List Message) → All (λ x. older x a ≡ false) xs → All (Precedes a) xs
All-Precedes a [] h = tt
All-Precedes a (x ∷ xs) h = (older-Precedes a x h.0, All-Precedes a xs h.1)

IsSorted-IsChronological : (xs : List Message) → IsSorted older xs → IsChronological xs
IsSorted-IsChronological [] h = tt
IsSorted-IsChronological (x ∷ xs) h = (All-Precedes x xs h.0, IsSorted-IsChronological xs h.1)

filter-filter :
    (p q : Message → Bool) (xs : List Message)
    → length (filter p (filter q xs)) ≡ length (filter (λ m. q m && p m) xs)
filter-filter p q [] = refl
filter-filter p q (x ∷ xs) = elim (Bool-cases (q x)) [
  | inl h ↦ rw h (ground (arith, filter-filter p q xs))
  | inr h ↦ rw h (filter-filter p q xs)
]

history-IsHistory :
    (user_id conversation_id : ℕ) (db : Db) {c : Conversation}
    → owned_conversation db user_id conversation_id ≡ some c
    → IsHistory conversation_id db.messages (history user_id conversation_id db)
unfolding messages_under
history-IsHistory user_id conversation_id db {c} h =
    let same = owned_id db user_id conversation_id {c = c} h in
    record {
      chronological =
          IsSorted-IsChronological _
            (sort_by-IsSorted older older-IsWeakOrder (messages_under user_id conversation_id db));
      same_messages = λ p.
          sort_by_count older older-IsWeakOrder p (messages_under user_id conversation_id db)
          ∙ rw h
              (rw same (filter-filter p (λ m. m.conversation_id == conversation_id) db.messages));
    }

-- The user owns the conversation, both ids fit a BIGINT, and the connection works.
pub record IsOpen (user_id conversation_id : ℕ) (w : World) : Type 0 where
  pub conversation : Conversation
  pub owned : owned_conversation w.db user_id conversation_id ≡ some conversation
  pub user : user_id ≢ 0
  pub id : conversation_id ≢ 0
  pub user_fits : is_bigint user_id ≡ true
  pub id_fits : is_bigint conversation_id ≡ true
  pub quiet : w.faults ≡ []

abbrev pub Answers {ℓ} : {A : Type ℓ} → Result A × World → A → World → Type ℓ
Answers r a w = (r.0 ≡ ok a) × (r.1.db ≡ w.db) × (r.1.faults ≡ [])

module _ (user_id conversation_id : ℕ) where
  existence_checked :
      (w : World) (o : IsOpen user_id conversation_id w)
      → Answers (Repository.check_conversation_existence user_id conversation_id w) o.conversation w
  unfolding Repository.check_conversation_existence get_conversation
  existence_checked w o = ground (
    arith,
    scan_row_healthy (get_conversation conversation_id user_id) conversation_not_found w o.quiet,
    o.owned,
    o.id_fits,
    o.user_fits,
  )

  repository_page :
      (limit offset : ℕ) (w : World)
      → IsOpen user_id conversation_id w
      → Answers
          (Repository.list_by_conversation_id user_id conversation_id limit offset w)
          (take limit (drop offset (history user_id conversation_id w.db)))
          w
  unfolding Repository.list_by_conversation_id query_messages
  repository_page limit offset w o =
      let (a, b, c) = existence_checked w o in
      let v = (Repository.check_conversation_existence user_id conversation_id w).1 in
      let (d, e, f) = scan_rows_healthy (query_messages user_id conversation_id limit offset) v c in
      rw a (
        rw d (
          ap (λ db. ok (take limit (drop offset (history user_id conversation_id db)))) b,
          e ∙ b,
          f,
        ))

  page_served :
      (page size : ℕ) (w : World)
      → IsOpen user_id conversation_id w
      → 0 < page
      → page ≤ max_page
      → 0 < size
      → size ≤ max_page_size
      → Answers
          (Service.list user_id conversation_id page size w)
          (page_of size page (history user_id conversation_id w.db))
          w
  unfolding Service.list
  page_served page size w o p q s t =
      let u : (user_id == 0) ≡ false = ground (arith, o.user) in
      let i : (conversation_id == 0) ≡ false = ground (arith, o.id) in
      let k : (page == 0 || ltb max_page page) ≡ false = ground arith in
      let l : (size == 0 || ltb max_page_size size) ≡ false = ground arith in
      rw (u, i, k, l) (repository_page size ((page - 1) * size) w o)

  -- A client reads the pages from 1 to `count`, one after the other.
  unfoldable pub read_pages : ℕ → ℕ → Exec World (List Message)
  read_pages size zero = pure []
  read_pages size (suc count) = do
    before ← read_pages size count
    page ← Service.list user_id conversation_id (suc count) size
    pure (before ++ page)

  pages_read :
      (size count : ℕ) (w : World)
      → IsOpen user_id conversation_id w
      → count ≤ max_page
      → 0 < size
      → size ≤ max_page_size
      → Answers
          (read_pages size count w)
          (take (count * size) (history user_id conversation_id w.db))
          w
  unfolding read_pages
  pages_read size zero w o c s t =
      let none_yet : 0 * size ≡ 0 = omega arith in rw none_yet (refl, refl, o.quiet)
  pages_read size (suc count) w o c s t =
      let (a, b, q) = pages_read size count w o (omega arith) s t in
      let v = (read_pages size count w).1 in
      let o' : IsOpen user_id conversation_id v = record {
        conversation = o.conversation;
        owned = rw b o.owned;
        user = o.user;
        id = o.id;
        user_fits = o.user_fits;
        id_fits = o.id_fits;
        quiet = q;
      } in
      let (d, e, f) = page_served (suc count) size v o' (omega arith) c s t in
      let served =
        d ∙ ap (λ db. ok (page_of size (suc count) (history user_id conversation_id db))) b in
      rw a (
        rw served
          (ap ok (take-page_of size count (history user_id conversation_id w.db)), e ∙ b, f))

  -- Reading the pages from 1 to `count`, which is 10000 at most, with 1 to 100 messages each, of a
  -- conversation that the user owns, with ids that fit a BIGINT and over a connection that works, gives
  -- the first `count * size` of the messages of that conversation, from the oldest on, none left out
  -- and none twice, and changes nothing.
  pub pages_served :
      (size count : ℕ) (w : World)
      → IsOpen user_id conversation_id w
      → count ≤ max_page
      → 0 < size
      → size ≤ max_page_size
      → (xs : List Message) × IsHistory conversation_id w.db.messages xs
        × Answers (read_pages size count w) (take (count * size) xs) w
  pages_served size count w o c s t = (
    history user_id conversation_id w.db,
    history-IsHistory user_id conversation_id w.db o.owned,
    pages_read size count w o c s t,
  )
