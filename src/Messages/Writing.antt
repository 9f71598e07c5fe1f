-- ===== src/Messages/Writing.antt =====
-- A message that is written can be read again, by its owner and by nobody else.
use gopher_agent_platform.Prelude.{
  ℕ, ◌<◌, ◌≤◌, ◌≡◌, ◌≢◌, refl, ◌∙◌, true, false, none, some, [], ◌∷◌, ◌==◌, ◌||◌, ltb, length,
  arith, All, ==-refl,
}
use gopher_agent_platform.Errors.{sentinel, is, conversation_not_found, message_not_found}
use gopher_agent_platform.Exec.{ok, err}
use gopher_agent_platform.Text.{Text, trim_space, is_empty}
use gopher_agent_platform.Database.Rows.{Message, Role}
use gopher_agent_platform.Database.Table.{
  message_key, conversation_key, find, find-fresh, find-append_new,
}
use gopher_agent_platform.Database.{Db, World, is_bigint, is_storable}
use gopher_agent_platform.Conversations.Sql.{owned_conversation, get_conversation}
use gopher_agent_platform.Messages.Sql.{insert_message, get_message, write_message}
use gopher_agent_platform.Messages.Repository
use gopher_agent_platform.Messages.Service
use gopher_agent_platform.Messages.Service.{max_content_length, max_page, max_page_size}
use gopher_agent_platform.Messages.Pages.{IsOpen, scan_row_healthy, owned_id}

-- The content that createMessage accepts, once it is trimmed.
abbrev pub IsContent : Text → Type 0
IsContent t = (0 < length t) × (length t ≤ max_content_length)

content_accepted :
    (t : Text)
    → IsContent t
    → (is_empty t ≡ false) × ((is_empty t || ltb max_content_length (length t)) ≡ false)
content_accepted [] h = absurd (omega arith)
content_accepted (c ∷ s) h = (refl, ground arith)

module _ (user_id conversation_id : ℕ) (content : Text) (role : Role) where
  abbrev pub trimmed : Text
  trimmed = trim_space content

  -- The row of the message, column by column.
  abbrev pub written : Db → Message
  written db = record {
    id = db.next_message;
    conversation_id = conversation_id;
    role = role;
    content = trimmed;
    created_at = db.now;
  }

  create_writes :
      (w : World)
      → IsOpen user_id conversation_id w
      → is_storable trimmed ≡ true
      → IsContent trimmed
      → let r = Service.create_message user_id conversation_id content role w in
        (r.0 ≡ ok (written w.db)) × (r.1.db ≡ write_message (written w.db) w.db) × (r.1.faults ≡ [])
  unfolding Service.create_message Repository.create insert_message
  create_writes w o g h =
      let (e, k) = content_accepted trimmed h in
      let u : (user_id == 0) ≡ false = ground (arith, o.user) in
      let i : (conversation_id == 0) ≡ false = ground (arith, o.id) in
      let same = owned_id w.db user_id conversation_id o.owned in
      let s =
        scan_row_healthy (insert_message user_id conversation_id role trimmed)
          conversation_not_found w o.quiet in
      rw (k, u, i) (ground (arith, s, e, o.owned, same, o.user_fits, o.id_fits, g))

  written_found :
      (db : Db)
      → All (λ (m : Message). m.id < db.next_message) db.messages
      → find db.next_message (write_message (written db) db).messages ≡ some (written db)
  written_found db h =
      find-append_new db.next_message db.messages (written db)
        (find-fresh db.next_message db.messages h) refl

  -- What a user writes to a conversation of theirs, over a connection that works, with a content that,
  -- trimmed, has 1 to 20000 runes and no U+0000, ids that fit a BIGINT and a sequence of ids that is
  -- ahead of the table: the answer is the message with the next id, that conversation, that role, the
  -- trimmed content and the time, and reading it by its id gives the same back.
  pub get_by_id-create_message :
      (w : World)
      → IsOpen user_id conversation_id w
      → is_storable trimmed ≡ true
      → IsContent trimmed
      → All (λ (m : Message). m.id < w.db.next_message) w.db.messages
      → 0 < w.db.next_message
      → is_bigint w.db.next_message ≡ true
      → let r = Service.create_message user_id conversation_id content role w in
        (r.0 ≡ ok (written w.db))
        × ((Service.get_by_id user_id conversation_id w.db.next_message r.1).0 ≡ ok (written w.db))
  unfolding Service.get_by_id Repository.get_by_id get_message owned_conversation
  get_by_id-create_message w o g h fresh n big =
      let (a, b, q) = create_writes w o g h in
      let v = (Service.create_message user_id conversation_id content role w).1 in
      let u : (user_id == 0) ≡ false = ground (arith, o.user) in
      let i : (conversation_id == 0) ≡ false = ground (arith, o.id) in
      let m : (w.db.next_message == 0) ≡ false = ground arith in
      let f = written_found w.db fresh in
      let s =
        scan_row_healthy (get_message w.db.next_message conversation_id user_id) message_not_found v
          q in
      let own : owned_conversation v.db user_id conversation_id ≡ some o.conversation =
        rw b o.owned in
      (
        a,
        rw (u, i, m)
            (s.0
              ∙ rw (big, o.id_fits, o.user_fits)
                  (rw b (rw f (rw (==-refl conversation_id) (rw o.owned refl))))),
      )

-- Who does not own a conversation, over a connection that works, with ids that are not 0 and fit a
-- BIGINT, a content that, trimmed, has 1 to 20000 runes and no U+0000, and a page in the bounds, cannot
-- write to it, cannot read a message of it, and cannot list it: each call gives the error of what is
-- missing, and the database stays as it is.
pub stranger_refused :
    (user_id conversation_id message_id page size : ℕ) (content : Text) (role : Role) (w : World)
    → owned_conversation w.db user_id conversation_id ≡ none
    → w.faults ≡ []
    → is_bigint user_id ≡ true
    → is_bigint conversation_id ≡ true
    → is_bigint message_id ≡ true
    → is_storable (trim_space content) ≡ true
    → user_id ≢ 0
    → conversation_id ≢ 0
    → message_id ≢ 0
    → IsContent (trim_space content)
    → 0 < page
    → page ≤ max_page
    → 0 < size
    → size ≤ max_page_size
    → let write = Service.create_message user_id conversation_id content role w in
      let read = Service.get_by_id user_id conversation_id message_id w in
      let list = Service.list user_id conversation_id page size w in
      ((write.0 ≡ err (sentinel conversation_not_found)) × (write.1.db ≡ w.db))
      × ((read.0 ≡ err (sentinel message_not_found)) × (read.1.db ≡ w.db))
      × ((list.0 ≡ err (sentinel conversation_not_found)) × (list.1.db ≡ w.db))
unfolding Service.create_message Repository.create insert_message Service.get_by_id
    Repository.get_by_id get_message Service.list Repository.list_by_conversation_id
    Repository.check_conversation_existence get_conversation is
stranger_refused user_id conversation_id message_id page size content role w none_owned q fu fi fm
      fc u i m h p l s t =
    let u' : (user_id == 0) ≡ false = ground (arith, u) in
    let i' : (conversation_id == 0) ≡ false = ground (arith, i) in
    let m' : (message_id == 0) ≡ false = ground (arith, m) in
    let k : (page == 0 || ltb max_page page) ≡ false = ground arith in
    let z : (size == 0 || ltb max_page_size size) ≡ false = ground arith in
    let e = (content_accepted (trim_space content) h).1 in
    let a =
      scan_row_healthy (insert_message user_id conversation_id role (trim_space content))
        conversation_not_found w q in
    let b =
      scan_row_healthy (get_message message_id conversation_id user_id) message_not_found w q in
    let c =
      scan_row_healthy (get_conversation conversation_id user_id) conversation_not_found w q in
    (
      rw (e, u', i') (ground (arith, a, none_owned, fu, fi, fc)),
      rw (u', i', m') (ground (arith, b, none_owned, fm, fi, fu)),
      rw (u', i', k, z) (ground (arith, c, none_owned, fi, fu)),
    )
