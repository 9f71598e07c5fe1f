-- ===== src/Agent/Openai.antt =====
-- The client of internal/platform/openai as the model of the agent. Its methods give no nil result
-- beside a nil error.
use gopher_agent_platform.Prelude.{Option, some}
use gopher_agent_platform.Exec.{Exec, ◌>>=◌, pure}
use gopher_agent_platform.Agent.{Model, StreamingToolModel}
use gopher_agent_platform.Openai.Client.{Sdk, Client}
use gopher_agent_platform.Openai.Stream

abbrev pub not_nil {ℓ κ} : {S : Type ℓ} {A : Type κ} → Exec S A → Exec S (Option A)
not_nil m = do a ← m; pure (some a)

module _ (sdk : Sdk) (client : Client) where
  abbrev pub openai_model : Model
  openai_model = record {
    generate_with_tools = λ ms tools. not_nil (Stream.generate_with_tools sdk client ms tools);
    generate_with_tool_result = λ ms continuation call output.
        not_nil (Stream.generate_with_tool_result sdk client ms continuation call output);
    generate_stream = λ on_delta ms. not_nil (Stream.generate_stream sdk client on_delta ms);
  }

  abbrev pub openai_streaming : StreamingToolModel
  openai_streaming = record {
    generate_stream_with_tools = λ on_delta ms tools.
        not_nil (Stream.generate_stream_with_tools sdk client on_delta ms tools);
    generate_stream_with_tool_result = λ on_delta ms continuation call output.
        not_nil
          (Stream.generate_stream_with_tool_result sdk client on_delta ms continuation call output);
  }
