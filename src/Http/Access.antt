-- ===== src/Http/Access.antt =====
-- Who gets to what over HTTP.
use gopher_agent_platform.Prelude.{
  ℕ, ◌<◌, ◌≤◌, ◌≡◌, ◌≢◌, refl, ap, sym, true, false, none, some, [], ◌∷◌, ◌==◌, arith,
}
use gopher_agent_platform.Errors.{sentinel, is, conversation_not_found, insert_chat_job_failed}
use gopher_agent_platform.Exec.{Result, ok, err, Exec}
use gopher_agent_platform.Text.{Text, trim_space, is_empty, decimal}
use gopher_agent_platform.Database.{World, within_tx, undo, rollback, is_bigint, is_storable}
use gopher_agent_platform.Conversations.Sql.{owned_conversation, delete_conversation}
use gopher_agent_platform.Conversations.Deletion.{get_by_id_absent}
use gopher_agent_platform.Conversations.Repository as ConversationRepository
use gopher_agent_platform.Conversations.Service as ConversationService
use gopher_agent_platform.Messages.Service as MessageService
use gopher_agent_platform.Messages.Service.{max_page, max_page_size}
use gopher_agent_platform.Messages.Pages.{scan_row_healthy}
use gopher_agent_platform.Messages.Writing.{IsContent, stranger_refused}
use gopher_agent_platform.Database.Rows.{role_user}
use gopher_agent_platform.Jobs.Sql.{insert_pending_chat_job}
use gopher_agent_platform.Jobs.Held.{scan_healthy}
use gopher_agent_platform.Jobs.Repository as JobRepository
use gopher_agent_platform.Jobs.Service as JobService
use gopher_agent_platform.Jobs.Service.{Publisher}
use gopher_agent_platform.Limits.{Verdict}
use gopher_agent_platform.Http.Request.{Request, status_of, bound, parse_uint, parse_bearer_token}
use gopher_agent_platform.Http.Handlers as Handlers
use gopher_agent_platform.Http.Handlers.{page_of, size_of}
use gopher_agent_platform.Chat.Model.{Providers}
use gopher_agent_platform.Chat.Jobs.{write_message-Sparing}
use gopher_agent_platform.Chat.Service as ChatService
use gopher_agent_platform.Http.Chat.{chat, chat_error}
use gopher_agent_platform.Http.Router.{
  Route, Parts, post_chat, get_conversation_by_id, remove_conversation, get_messages, post_message,
  post_chat_job, authenticate, rate_limit, enforce_rate_limit, serve,
}

-- The error of a conversation that is missing, and the database as it is.
Missing : {A : Type 0} → Exec World A → World → Type 0
Missing m w = ((m w).0 ≡ err (sentinel conversation_not_found)) × ((m w).1.db ≡ w.db)

module _ (user_id conversation_id : ℕ) (w : World)
    (none_owned : owned_conversation w.db user_id conversation_id ≡ none) (quiet : w.faults ≡ [])
    (user : user_id ≢ 0) (id : conversation_id ≢ 0) (user_fits : is_bigint user_id ≡ true)
    (id_fits : is_bigint conversation_id ≡ true) where
  get-Missing : Missing (ConversationService.get_by_id user_id conversation_id) w
  unfolding Missing
  get-Missing =
      get_by_id_absent user_id conversation_id w none_owned quiet user id user_fits id_fits

  delete-Missing : Missing (ConversationService.delete user_id conversation_id) w
  unfolding Missing ConversationService.delete ConversationRepository.delete_by_id_and_user_id
      delete_conversation is
  delete-Missing =
      let u : (user_id == 0) ≡ false = ground (arith, user) in
      let i : (conversation_id == 0) ≡ false = ground (arith, id) in
      let a =
        scan_row_healthy (delete_conversation conversation_id user_id) conversation_not_found w
          quiet in
      rw (u, i) (ground (arith, a, none_owned, user_fits, id_fits))

  list-Missing :
      (page size : ℕ)
      → 0 < page
      → page ≤ max_page
      → 0 < size
      → size ≤ max_page_size
      → Missing (MessageService.list user_id conversation_id page size) w
  unfolding Missing trim_space is_bigint is_storable
  list-Missing page size p q s t =
      (stranger_refused user_id conversation_id 1 page size (b'a' ∷ []) role_user w none_owned quiet
        user_fits id_fits refl refl user id (omega arith) (omega arith, omega arith) p q s t).2

  write-Missing :
      (content : Text)
      → is_storable (trim_space content) ≡ true
      → IsContent (trim_space content)
      → Missing (MessageService.create_user_message user_id conversation_id content) w
  unfolding Missing MessageService.create_user_message is_bigint
  write-Missing content g h =
      (stranger_refused user_id conversation_id 1 1 1 content role_user w none_owned quiet user_fits
        id_fits refl g user id (omega arith) h (omega arith) (omega arith) (omega arith)
        (omega arith)).0

  -- A transaction that fails at once gives its error and takes back what it wrote.
  chat-Missing :
      (p : Providers) (content : Text)
      → is_storable (trim_space content) ≡ true
      → IsContent (trim_space content)
      → Missing (ChatService.chat p user_id conversation_id content) w
  unfolding Missing ChatService.chat ChatService.start_model_call within_tx undo rollback
      MessageService.create_user_message
  chat-Missing p content g h =
      let still : record w { faults = [] } ≡ w = ap (λ f. record w { faults = f }) (sym quiet) in
      let m = write-Missing content g h in
      let f =
        ((write_message-Sparing user_id conversation_id content role_user).spares w).quiet quiet in
      rw (quiet, still, m.0) (rw (f, m.1) (refl, refl))

  job-Missing :
      (publish : Publisher) (content : Text)
      → is_storable (trim_space content) ≡ true
      → is_empty (trim_space content) ≡ false
      → Missing (JobService.create publish user_id conversation_id content) w
  unfolding Missing JobService.create JobRepository.create insert_pending_chat_job is
  job-Missing publish content g h =
      let u : (user_id == 0) ≡ false = ground (arith, user) in
      let i : (conversation_id == 0) ≡ false = ground (arith, id) in
      let a =
        scan_healthy (insert_pending_chat_job user_id conversation_id (trim_space content))
          conversation_not_found insert_chat_job_failed w quiet in
      rw (u, i, h) (ground (arith, a, none_owned, user_fits, id_fits, g))

-- The requests that name one conversation, with arguments that are in order.
pub data NamesConversation (request : Request) : Route → Type 0 where
  reads : NamesConversation request get_conversation_by_id
  removes : NamesConversation request remove_conversation
  lists :
      (page size : ℕ)
      → page_of request ≡ some page
      → size_of request ≡ some size
      → 0 < page
      → page ≤ max_page
      → 0 < size
      → size ≤ max_page_size
      → NamesConversation request get_messages
  writes :
      (content : Text)
      → is_storable (trim_space content) ≡ true
      → IsContent (trim_space content)
      → NamesConversation request (post_message (bound content))
  chats :
      (content : Text)
      → is_storable (trim_space content) ≡ true
      → IsContent (trim_space content)
      → NamesConversation request (post_chat (bound content))
  asks :
      (content : Text)
      → is_storable (trim_space content) ≡ true
      → is_empty (trim_space content) ≡ false
      → NamesConversation request (post_chat_job (bound content))

-- A request with a token that the verifier accepts for a user.
pub record IsFrom (verify : Text → Result ℕ) (request : Request) (user_id : ℕ) : Type 0 where
  pub token : Text
  pub bearer : parse_bearer_token request.authorization ≡ some token
  pub verified : verify token ≡ ok user_id

-- A limiter that lets a user through.
abbrev pub LetsThrough : {L : Type 0} → (Text → Exec L Verdict) → ℕ → L → Type 0
LetsThrough allow user_id l =
    (v : Verdict) × ((allow (decimal user_id) l).0 ≡ ok v) × (v.allowed ≡ true)

module _ {L : Type 0} (parts : Parts L) (verify : Text → Result ℕ) where
  -- Over a connection that works, a user who does not own a conversation, and whom the chat limiter lets
  -- through, with ids that fit a BIGINT and arguments in order, gets 404 where they read, delete or chat
  -- in it, list or write its messages, or create a job for it, and the database stays as it is.
  pub serve_stranger :
      (user_id conversation_id : ℕ) (route : Route) (request : Request) (l : L) (w : World)
      → NamesConversation request route
      → IsFrom verify request user_id
      → (allow : Text → Exec L Verdict) → parts.chat_limiter ≡ some allow
      → LetsThrough allow user_id l
      → parse_uint request.id ≡ some conversation_id
      → owned_conversation w.db user_id conversation_id ≡ none
      → w.faults ≡ []
      → user_id ≢ 0
      → conversation_id ≢ 0
      → is_bigint user_id ≡ true
      → is_bigint conversation_id ≡ true
      → let r = serve parts verify route request (l, w) in (status_of r.0 ≡ 404) × (r.1.1.db ≡ w.db)
  unfolding serve authenticate rate_limit enforce_rate_limit is Missing Handlers.get_conversation
      Handlers.delete_conversation Handlers.conversation_error Handlers.list_messages
      Handlers.list_messages_error Handlers.create_user_message Handlers.create_message_error
      Handlers.create_job Handlers.create_job_error chat chat_error
  serve_stranger user_id c route request l w reads from allow limiter lets p none_owned quiet user
        id fu fi =
      let m = get-Missing user_id c w none_owned quiet user id fu fi in
      rw (from.bearer, from.verified, p, m.0) (refl, m.1)
  serve_stranger user_id c route request l w removes from allow limiter lets p none_owned quiet user
        id fu fi =
      let m = delete-Missing user_id c w none_owned quiet user id fu fi in
      rw (from.bearer, from.verified, p, m.0) (refl, m.1)
  serve_stranger user_id c route request l w (lists page size a b d e f g) from allow limiter lets p
        none_owned quiet user id fu fi =
      let m = list-Missing user_id c w none_owned quiet user id fu fi page size d e f g in
      rw (from.bearer, from.verified, p, a, b, m.0) (refl, m.1)
  serve_stranger user_id c route request l w (writes content g h) from allow limiter lets p
        none_owned quiet user id fu fi =
      let m = write-Missing user_id c w none_owned quiet user id fu fi content g h in
      rw (from.bearer, from.verified, p, m.0) (refl, m.1)
  serve_stranger user_id c route request l w (chats content g h) from allow limiter lets p
        none_owned quiet user id fu fi =
      let m = chat-Missing user_id c w none_owned quiet user id fu fi parts.providers content g h in
      rw (from.bearer, from.verified, limiter, lets.1, lets.2, p, m.0) (refl, m.1)
  serve_stranger user_id c route request l w (asks content g h) from allow limiter lets p none_owned
        quiet user id fu fi =
      let m = job-Missing user_id c w none_owned quiet user id fu fi parts.publisher content g h in
      rw (from.bearer, from.verified, limiter, lets.1, lets.2, p, m.0) (refl, m.1)
