-- ===== src/Http/Request.antt =====
-- What the handlers of internal/httpapi read of a request and write to an answer. gin, which routes
-- requests and binds bodies, is outside: a body is what binding it gives.
use gopher_agent_platform.Prelude.{
  ℕ, ◌+◌, ◌-◌, ◌*◌, ◌^◌, Bool, true, false, Option, none, some, List, [], ◌∷◌, ◌++◌, map,
  if◌then◌else◌, ltb, leb, ◌==◌, ◌&&◌,
}
use gopher_agent_platform.Errors.{Err, Sentinel, is}
use gopher_agent_platform.Text.{Text, text, text_eq, is_empty, is_space}
use gopher_agent_platform.Chat.Model.{ChatResult}
use gopher_agent_platform.Database.Rows.{Role, JobStatus}

-- What `ShouldBindJSON` gives under a limit of bytes.
pub data Body (A : Type 0) : Type 0 where
  too_large malformed : Body A
  bound : A → Body A

-- The header Authorization, the `:id` of the path, and the two parameters of a page.
pub record Request : Type 0 where
  pub authorization : Text
  pub id : Text
  pub page : Option Text
  pub page_size : Option Text

-- The structs of the answers, under the names of the source.
pub record MessageResponse : Type 0 where
  pub id : ℕ
  pub role : Role
  pub content : Text
  pub created_at : ℕ

pub record ConversationResponse : Type 0 where
  pub id : ℕ
  pub title : Text
  pub created_at : ℕ

pub record GetJobResponse : Type 0 where
  pub id : ℕ
  pub status : JobStatus
  pub assistant_message_id : Option ℕ
  pub error_code : Option Text
  pub created_at : ℕ
  pub started_at : Option ℕ
  pub finished_at : Option ℕ

pub record UserResponse : Type 0 where
  pub id : ℕ
  pub email : Text
  pub created_at : ℕ

pub record RagUploadResponse : Type 0 where
  pub filename : Text
  pub size : ℕ
  pub chunks : ℕ

pub data Payload : Type 0 where
  nothing : Payload
  message : MessageResponse → Payload
  messages : List MessageResponse → ℕ → Payload
  conversation : ConversationResponse → Payload
  conversations : List ConversationResponse → ℕ → ℕ → Payload
  chat_job : ℕ → JobStatus → Payload
  job : GetJobResponse → Payload
  user : UserResponse → Payload
  access_token : Text → Payload
  uploaded : RagUploadResponse → Payload
  chat_result : ChatResult → Payload

-- An `errorResponse` with its status, its code and its message, or an answer with its status.
pub data Answer : Type 0 where
  refused : ℕ → Text → Text → Answer
  answered : ℕ → Payload → Answer

abbrev pub status_of : Answer → ℕ
status_of (refused status code reason) = status
status_of (answered status payload) = status

abbrev pub unauthorized : Answer
unauthorized = refused 401 (text "UNAUTHORIZED") (text "authentication required")

abbrev pub login_first : Answer
login_first = refused 401 (text "UNAUTHORIZED") (text "need to login first")

abbrev pub invalid_request : Text → Answer
invalid_request reason = refused 400 (text "INVALID_REQUEST") reason

abbrev pub not_found : Text → Answer
not_found reason = refused 404 (text "NOT_FOUND") reason

abbrev pub internal_server_error : Answer
internal_server_error = refused 500 (text "INTERNAL_SERVER_ERROR") (text "internal server error")

abbrev pub service_unavailable : Answer
service_unavailable = refused 503 (text "SERVICE_UNAVAILABLE") (text "service is unavailable!")

-- The answer to a body that was not bound.
abbrev pub unbound_large : Answer
unbound_large = refused 413 (text "INVALID_REQUEST") (text "request is too large")

abbrev pub unbound : Answer
unbound = invalid_request (text "request is invalid")

-- `errors.Is` against one of several.
abbrev pub is_any : Err → List Sentinel → Bool
is_any e [] = false
is_any e (s ∷ ss) = if is e s then true else is_any e ss

-- A digit, as a number.
abbrev pub digit : ℕ → Option ℕ
digit c = if leb b'0' c && leb c b'9' then some (c - b'0') else none

abbrev pub append_digit : Option ℕ → Option ℕ → Option ℕ
append_digit none d = none
append_digit (some n) none = none
append_digit (some n) (some d) = some (n * 10 + d)

abbrev pub digits_from : Option ℕ → Text → Option ℕ
digits_from n [] = n
digits_from n (c ∷ s) = digits_from (append_digit n (digit c)) s

abbrev pub below : ℕ → Option ℕ → Option ℕ
below limit none = none
below limit (some n) = if ltb n limit then some n else none

-- `strconv.ParseUint(s, 10, 64)`
unfoldable pub parse_uint : Text → Option ℕ
parse_uint s = if is_empty s then none else below (2 ^ 64) (digits_from (some 0) s)

-- A number below 0 is read as 0, which every caller refuses alike.
abbrev negative : Option ℕ → Option ℕ
negative none = none
negative (some n) = some 0

-- `strconv.Atoi`
unfoldable pub atoi : Text → Option ℕ
atoi [] = none
atoi (c ∷ s) =
    if c == b'-'
    then (if is_empty s then none else negative (below (2 ^ 63 + 1) (digits_from (some 0) s)))
    else if c == b'+'
    then (if is_empty s then none else below (2 ^ 63) (digits_from (some 0) s))
    else below (2 ^ 63) (digits_from (some 0) (c ∷ s))

-- `strings.Fields`, with the word so far.
unfoldable pub fields_from : Text → Text → List Text
fields_from word [] = if is_empty word then [] else word ∷ []
fields_from word (c ∷ s) =
    let rest = fields_from [] s in
    let longer = fields_from (word ++ (c ∷ [])) s in
    if is_space c then (if is_empty word then rest else word ∷ rest) else longer

-- No rune but the two cases of a letter folds to a letter of "bearer".
abbrev lower : ℕ → ℕ
lower c = if leb 65 c && leb c 90 then c + 32 else c

abbrev pub bearer_of : List Text → Option Text
bearer_of [] = none
bearer_of (scheme ∷ []) = none
bearer_of (scheme ∷ token ∷ []) =
    if text_eq (map lower scheme) (text "bearer") then some token else none
bearer_of (scheme ∷ token ∷ more ∷ rest) = none

unfoldable pub parse_bearer_token : Text → Option Text
unfolding fields_from
parse_bearer_token header = bearer_of (fields_from [] header)

abbrev pub default_query : Option Text → Text → Text
default_query none default = default
default_query (some value) default = value
