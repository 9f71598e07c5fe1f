-- ===== src/Database/Rows.antt =====
-- The rows of the tables, which are also the structs that the repositories scan them into:
-- internal/user/model.go, conversation/model.go, message/model.go, modelcall/model.go and
-- chatjob/model.go. A status is a string constant of Go, and a CHECK of the migrations lists its
-- values. A nullable column is an `Option`.
use gopher_agent_platform.Prelude.{ℕ, Bool, true, false, Option}
use gopher_agent_platform.Text.{Text}

pub record User : Type 0 where
  pub id : ℕ
  pub email : Text
  pub password_hash : Text
  pub created_at : ℕ
  pub updated_at : ℕ

pub record Conversation : Type 0 where
  pub id : ℕ
  pub user_id : ℕ
  pub title : Text
  pub created_at : ℕ
  pub updated_at : ℕ

pub data Role : Type 0 where
  role_user role_assistant : Role

pub record Message : Type 0 where
  pub id : ℕ
  pub conversation_id : ℕ
  pub role : Role
  pub content : Text
  pub created_at : ℕ

pub data CallStatus : Type 0 where
  running completed failed cancelled timed_out incomplete : CallStatus

pub record ModelCall : Type 0 where
  pub id : ℕ
  pub conversation_id : ℕ
  pub request_message_id : ℕ
  pub assistant_message_id : Option ℕ
  pub provider : Text
  pub provider_response_id : Option Text
  pub requested_model : Option Text
  pub actual_model : Option Text
  pub status : CallStatus
  pub input_tokens : Option ℕ
  pub output_tokens : Option ℕ
  pub total_tokens : Option ℕ
  pub error_code : Option Text
  pub started_at : Option ℕ
  pub finished_at : Option ℕ

pub data JobStatus : Type 0 where
  pending processing completed failed : JobStatus

-- `request_message_id` is a column of the table that the struct `Job` does not carry.
pub record ChatJob : Type 0 where
  pub id : ℕ
  pub conversation_id : ℕ
  pub content : Text
  pub status : JobStatus
  pub request_message_id : Option ℕ
  pub assistant_message_id : Option ℕ
  pub error_code : Option Text
  pub attempt_count : ℕ
  pub created_at : ℕ
  pub started_at : Option ℕ
  pub finished_at : Option ℕ

abbrev pub is_role_user : Role → Bool
is_role_user role_user = true
is_role_user role_assistant = false

abbrev pub is_role_assistant : Role → Bool
is_role_assistant role_user = false
is_role_assistant role_assistant = true

abbrev pub is_pending : JobStatus → Bool
is_pending JobStatus.pending = true
is_pending _ = false

abbrev pub is_processing : JobStatus → Bool
is_processing JobStatus.processing = true
is_processing _ = false

abbrev pub is_running : CallStatus → Bool
is_running CallStatus.running = true
is_running _ = false

abbrev pub is_completed : CallStatus → Bool
is_completed CallStatus.completed = true
is_completed _ = false
