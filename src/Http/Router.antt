-- ===== src/Http/Router.antt =====
-- internal/httpapi/auth_middleware.go, rate_limit_middleware.go and the routes of router.go under
-- /api/v1 that need a user.
use gopher_agent_platform.Prelude.{ℕ, ◌+◌, ◌/◌, Option, none, some, ◌++◌, if◌then◌else◌}
use gopher_agent_platform.Exec.{Result, ok, err, Exec}
use gopher_agent_platform.Text.{Text, text, decimal}
use gopher_agent_platform.Database.{World}
use gopher_agent_platform.Limits.{Verdict}
use gopher_agent_platform.Jobs.Service.{Publisher}
use gopher_agent_platform.Http.Request.{
  Body, Request, Answer, refused, unauthorized, login_first, internal_server_error,
  service_unavailable, parse_bearer_token,
}
use gopher_agent_platform.Chat.Model.{Providers}
use gopher_agent_platform.Http.Chat.{chat}
use gopher_agent_platform.Http.Handlers.{
  Handler, create_user_message, list_messages, create_conversation, list_conversations,
  get_conversation, delete_conversation, create_job, get_job,
}
use gopher_agent_platform.Http.Accounts.{me}

-- The seconds of `Retry-After`, rounded up.
abbrev pub seconds_of : ℕ → ℕ
seconds_of nanoseconds = (nanoseconds + 999999999) / 1000000000

abbrev pub too_many_requests : ℕ → Answer
too_many_requests seconds =
    refused 429 (text "TOO_MANY_REQUESTS")
      (text "too many requests, retry after " ++ decimal seconds ++ text " s")

module _ {L W : Type 0} where
  -- What the limiter lets through goes on to `next`.
  abbrev pub after_verdict : Result Verdict → (W → Answer × W) → L × W → Answer × (L × W)
  after_verdict (err e) next (l, w) = (service_unavailable, (l, w))
  after_verdict (ok verdict) next (l, w) =
      if verdict.allowed
      then ((next w).0, (l, (next w).1))
      else (too_many_requests (seconds_of verdict.retry_after), (l, w))

  -- enforceRateLimit; a limiter that is nil is `none`.
  unfoldable pub enforce_rate_limit :
      Option (Text → Exec L Verdict) → Text → (W → Answer × W) → L × W → Answer × (L × W)
  unfolding decimal
  enforce_rate_limit none identity next s = (service_unavailable, s)
  enforce_rate_limit (some allow) identity next (l, w) =
      after_verdict (allow identity l).0 next ((allow identity l).1, w)

  -- RateLimitMiddleware
  unfoldable pub rate_limit :
      Option (Text → Exec L Verdict) → Option ℕ → (W → Answer × W) → L × W → Answer × (L × W)
  unfolding enforce_rate_limit
  rate_limit limiter none next s = (login_first, s)
  rate_limit limiter (some user_id) next s = enforce_rate_limit limiter (decimal user_id) next s

  -- AnonymousRateLimitMiddleware: `remote` is what remoteIPIdentity gives, the address of net/netip.
  unfoldable pub anonymous_rate_limit :
      Option (Text → Exec L Verdict) → Option Text → (W → Answer × W) → L × W → Answer × (L × W)
  unfolding enforce_rate_limit
  anonymous_rate_limit limiter none next s = (internal_server_error, s)
  anonymous_rate_limit limiter (some identity) next s = enforce_rate_limit limiter identity next s

module _ {ℓ} {S : Type ℓ} where
  abbrev pub identified : Result ℕ → (Option ℕ → S → Answer × S) → S → Answer × S
  identified (ok user_id) next s = next (some user_id) s
  identified (err e) next s = (unauthorized, s)

  abbrev pub admitted :
      (Text → Result ℕ) → Option Text → (Option ℕ → S → Answer × S) → S → Answer × S
  admitted verify none next s = (unauthorized, s)
  admitted verify (some token) next s = identified (verify token) next s

  -- AuthMiddleware: `verify` is that of the tokens.
  unfoldable pub authenticate :
      (Text → Result ℕ) → Text → (Option ℕ → S → Answer × S) → S → Answer × S
  unfolding parse_bearer_token
  authenticate verify authorization next s =
      admitted verify (parse_bearer_token authorization) next s

-- The routes of the group whose handlers are outside of the model.
pub data OutsideRoute : Type 0 where
  post_chat_stream post_image post_document post_speech get_speech : OutsideRoute

-- The routes, with the body that binding gives to those that read one.
pub data Route : Type 0 where
  get_me get_conversations get_conversation_by_id remove_conversation : Route
  post_conversation : Option Text → Route
  get_messages : Route
  post_message post_chat post_chat_job : Body Text → Route
  get_chat_job : Route
  outside : OutsideRoute → Route

-- What the routes are assembled from: the limiters, the publisher, the providers of the chat, and the
-- handlers that are outside.
pub record Parts (L : Type 0) : Type 1 where
  pub chat_limiter : Option (Text → Exec L Verdict)
  pub rag_upload_limiter : Option (Text → Exec L Verdict)
  pub tts_limiter : Option (Text → Exec L Verdict)
  pub publisher : Publisher
  pub providers : Providers
  pub handlers : OutsideRoute → Handler

module _ {L : Type 0} (parts : Parts L) where
  open parts use {chat_limiter, rag_upload_limiter, tts_limiter, publisher, providers, handlers}

  abbrev pub unlimited : (World → Answer × World) → L × World → Answer × (L × World)
  unlimited next (l, w) = ((next w).0, (l, (next w).1))

  abbrev pub handle_outside : OutsideRoute → Option ℕ → Request → L × World → Answer × (L × World)
  handle_outside post_chat_stream user request =
      rate_limit chat_limiter user (handlers post_chat_stream user request)
  handle_outside post_image user request = unlimited (handlers post_image user request)
  handle_outside post_document user request =
      rate_limit rag_upload_limiter user (handlers post_document user request)
  handle_outside post_speech user request =
      rate_limit tts_limiter user (handlers post_speech user request)
  handle_outside get_speech user request = unlimited (handlers get_speech user request)

  -- registerAuthenticatedRoutes
  abbrev pub handle : Route → Option ℕ → Request → L × World → Answer × (L × World)
  handle get_me user request = unlimited (me user)
  handle get_conversations user request = unlimited (list_conversations user request)
  handle get_conversation_by_id user request = unlimited (get_conversation user request)
  handle remove_conversation user request = unlimited (delete_conversation user request)
  handle (post_conversation title) user request = unlimited (create_conversation title user request)
  handle get_messages user request = unlimited (list_messages user request)
  handle (post_message body) user request = unlimited (create_user_message body user request)
  handle (post_chat body) user request =
      rate_limit chat_limiter user (chat providers body user request)
  handle (post_chat_job body) user request =
      rate_limit chat_limiter user (create_job publisher body user request)
  handle get_chat_job user request = unlimited (get_job user request)
  handle (outside route) user request = handle_outside route user request

  -- A request to one of the routes of the authenticated group.
  unfoldable pub serve : (Text → Result ℕ) → Route → Request → L × World → Answer × (L × World)
  unfolding authenticate
  serve verify route request =
      authenticate verify request.authorization λ user. handle route user request
