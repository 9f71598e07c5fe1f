-- ===== src/Errors.antt =====
-- Go's `error` values: the sentinels of internal/*/errors.go and of the platform packages, wrapping
-- by `fmt.Errorf("%w: %w")` and `errors.Join`, and the search of `errors.Is`.
use gopher_agent_platform.Prelude.{ℕ, ◌≡◌, Bool, false, ◌||◌, ◌==◌, refl}

-- One constructor for each `errors.New` that the modelled code returns or tests. The last lines are
-- the sentinels of the standard library and of the drivers.
pub data Sentinel : Type 0 where
  job_not_found job_not_claimable job_not_completable job_not_processing : Sentinel
  invalid_job_id invalid_job_content invalid_chat_result : Sentinel
  insert_chat_job_failed get_chat_jobs_failed claim_pending_chat_job_failed : Sentinel
  complete_chat_job_failed fail_chat_job_failed update_chat_job_failed : Sentinel
  tx_begin_failed tx_commit_failed : Sentinel
  invalid_user_id invalid_page invalid_page_size invalid_title : Sentinel
  conversation_not_found invalid_conversation_id : Sentinel
  invalid_message_content invalid_message_conversation_id invalid_limit : Sentinel
  message_not_found : Sentinel
  invalid_request_message_id invalid_model_call_id invalid_model_provider : Sentinel
  invalid_assistant_message_id invalid_model_call_status model_call_is_empty : Sentinel
  model_call_repository model_call_not_found : Sentinel
  invalid_history_message invalid_rag_message invalid_retriever : Sentinel
  on_delta_missed response_failed response_not_completed not_configured : Sentinel
  invalid_model invalid_tool_executor invalid_planning : Sentinel
  planning_output_too_large multiple_tool_calls invalid_final_result : Sentinel
  rag_invalid_user_id rag_invalid_content unsupported_document_type : Sentinel
  document_too_large invalid_encoding invalid_query invalid_top_k : Sentinel
  chunks_not_found document_not_found : Sentinel
  invalid_embedding_result invalid_vector_size invalid_vector_element : Sentinel
  limit_invalid window_invalid unexpected_result unexpected_ttl : Sentinel
  empty_chunk empty_chunk_vector empty_chunk_content invalid_chunk_vector : Sentinel
  invalid_version email_invalid code_invalid ttl_invalid cooldown_invalid : Sentinel
  max_attempts_invalid identity_invalid client_invalid : Sentinel
  invalid_email invalid_code code_invalid_or_expired too_many_attempts : Sentinel
  send_too_frequent verification_not_configured invalid_code_store invalid_sender : Sentinel
  invalid_config generate_code_failed store_failed send_failed : Sentinel
  job_id_invalid publish_failed publish_not_confirmed publish_unroutable : Sentinel
  user_invalid_email invalid_password email_already_exists password_hash_failed : Sentinel
  user_not_found invalid_credentials mismatched_password : Sentinel
  missing_model unsupported_wire_api missing_api_key invalid_tool_definition : Sentinel
  invalid_tool_call empty_embedding_input embedding_failed : Sentinel
  embedding_response_invalid empty_document store_invalid_user_id : Sentinel
  store_invalid_version not_exist marshal_job_id_failed channel_connection : Sentinel
  deadline_exceeded canceled no_rows : Sentinel

-- Sentinels are compared by identity: each has a number of its own.
abbrev pub code : Sentinel → ℕ
code job_not_found = 0
code job_not_claimable = 1
code job_not_completable = 2
code job_not_processing = 3
code invalid_job_id = 4
code invalid_job_content = 5
code invalid_chat_result = 6
code insert_chat_job_failed = 7
code get_chat_jobs_failed = 8
code claim_pending_chat_job_failed = 9
code complete_chat_job_failed = 10
code fail_chat_job_failed = 11
code update_chat_job_failed = 12
code tx_begin_failed = 13
code tx_commit_failed = 14
code invalid_user_id = 15
code invalid_page = 16
code invalid_page_size = 17
code invalid_title = 18
code conversation_not_found = 19
code invalid_conversation_id = 20
code invalid_message_content = 21
code invalid_message_conversation_id = 22
code invalid_limit = 23
code message_not_found = 24
code invalid_request_message_id = 25
code invalid_model_call_id = 26
code invalid_model_provider = 27
code invalid_assistant_message_id = 28
code invalid_model_call_status = 29
code model_call_is_empty = 30
code model_call_repository = 31
code model_call_not_found = 32
code invalid_history_message = 33
code invalid_rag_message = 34
code invalid_retriever = 35
code on_delta_missed = 36
code response_failed = 37
code response_not_completed = 38
code not_configured = 39
code invalid_model = 40
code invalid_tool_executor = 41
code invalid_planning = 42
code planning_output_too_large = 43
code multiple_tool_calls = 44
code invalid_final_result = 45
code rag_invalid_user_id = 46
code rag_invalid_content = 47
code unsupported_document_type = 48
code document_too_large = 49
code invalid_encoding = 50
code invalid_query = 51
code invalid_top_k = 52
code chunks_not_found = 53
code document_not_found = 54
code invalid_embedding_result = 55
code invalid_vector_size = 56
code invalid_vector_element = 57
code limit_invalid = 58
code window_invalid = 59
code unexpected_result = 60
code unexpected_ttl = 61
code empty_chunk = 62
code empty_chunk_vector = 63
code empty_chunk_content = 64
code invalid_chunk_vector = 65
code invalid_version = 66
code email_invalid = 67
code code_invalid = 68
code ttl_invalid = 69
code cooldown_invalid = 70
code max_attempts_invalid = 71
code identity_invalid = 72
code client_invalid = 73
code invalid_email = 74
code invalid_code = 75
code code_invalid_or_expired = 76
code too_many_attempts = 77
code send_too_frequent = 78
code verification_not_configured = 79
code invalid_code_store = 80
code invalid_sender = 81
code invalid_config = 82
code generate_code_failed = 83
code store_failed = 84
code send_failed = 85
code job_id_invalid = 86
code publish_failed = 87
code publish_not_confirmed = 88
code publish_unroutable = 89
code deadline_exceeded = 90
code canceled = 91
code no_rows = 92
code user_invalid_email = 93
code invalid_password = 94
code email_already_exists = 95
code password_hash_failed = 96
code user_not_found = 97
code invalid_credentials = 98
code mismatched_password = 99
code missing_model = 100
code unsupported_wire_api = 101
code missing_api_key = 102
code invalid_tool_definition = 103
code invalid_tool_call = 104
code empty_embedding_input = 105
code embedding_failed = 106
code embedding_response_invalid = 107
code empty_document = 108
code store_invalid_user_id = 109
code store_invalid_version = 110
code not_exist = 111
code marshal_job_id_failed = 112
code channel_connection = 113

-- `sentinel` is the error itself, `wrap` is an error that `%w` puts under a sentinel, `join` is
-- `errors.Join` of two errors, and `opaque` is an error of a driver that matches no sentinel.
pub data Err : Type 0 where
  sentinel : Sentinel → Err
  opaque : ℕ → Err
  wrap : Sentinel → Err → Err
  context : Err → Err
  join : Err → Err → Err

-- `errors.Is`: a search of the tree of wrapped errors.
unfoldable pub is : Err → Sentinel → Bool
is (sentinel s) t = code s == code t
is (opaque n) t = false
is (wrap s e) t = (code s == code t) || is e t
is (context e) t = is e t
is (join e f) t = is e t || is f t

-- `errors.Join` keeps what either part matches.
pub is-join : (e f : Err) (t : Sentinel) → is (join e f) t ≡ (is e t || is f t)
unfolding is
is-join e f t = refl
