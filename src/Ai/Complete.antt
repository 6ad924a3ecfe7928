-- ===== src/Ai/Complete.antt =====
-- pkg/bridge/ai/service.go: GetChatCompletions, GetInvoke and GetOverview. A model is asked through
-- the provider, a parameter that may answer each of its calls in its own way.
pub mod Chat
pub mod Invoke
pub mod Answers
pub mod Asks
pub mod Invoked
use yomo.Common.{ℕ, String, List, [], ◌∷◌, nat_key, string_key}
use yomo.Errors.{Error, Result}
use yomo.Try.{Try}
use yomo.Frame.{Tag}
use yomo.GoMap.{GoMap}
use yomo.Register.{Register, Tool, list_tool_calls}
use yomo.Ai.{FunctionDefinition, ToolCall, Request, Response, ToolMessage}
use yomo.Ai.Stream.{Delta}

-- openai.ChatCompletionStreamChoice
pub record ChunkChoice : Type 0 where
  pub delta : List Delta
  pub finish_reason : String

-- openai.ChatCompletionStreamResponse
pub record Chunk : Type 0 where
  pub choices : List ChunkChoice

-- What Recv returns before the end of a stream.
pub data Received : Type 0 where
  chunk : Chunk → Received
  broken : Error → Received

-- LLMProvider; the number is that of the request, since equal requests may be answered differently.
-- A stream is what its Recv returns up to io.EOF.
pub record Provider : Type 0 where
  pub name : String
  pub chat : ℕ → Request → Result Response
  pub stream : ℕ → Request → Result (List Received)

-- What is written to the client.
pub data Output : Type 0 where
  event_headers : Output
  event : Chunk → Output
  done_event : Output
  flush : Output
  json_response : Response → Output

-- What a completion comes to: what it wrote, what it asked the model, and what it returns.
pub record Outcome {ℓ} (A : Type ℓ) : Type ℓ where
  pub output : List Output
  pub asked : List Request
  pub result : Try A

-- What a service uses: its functions, its provider, its system prompt, and what runFunctionCalls
-- returns for calls that are not empty (Ai/Fan.antt).
pub record Service : Type 0 where
  pub register : Register FunctionDefinition
  pub provider : Provider
  pub system_prompt : String
  pub gather : GoMap Tag (List ToolCall) → List ToolMessage

-- runFunctionCalls(fns, transID, reqID)
unfoldable pub run_function_calls : Service → GoMap Tag (List ToolCall) → List ToolMessage
run_function_calls s [] = []
run_function_calls s (f ∷ fns) = s.gather (f ∷ fns)

-- for tag, tc := range tcs { functions[tag] = tc.Function }
unfoldable pub functions_of : GoMap Tag (Tool FunctionDefinition) → GoMap Tag FunctionDefinition
functions_of [] = []
functions_of ((tag, tool) ∷ tcs) = (tag, tool.function) ∷ functions_of tcs

-- GetOverview(), whose error is nil
unfoldable pub get_overview : Service → GoMap Tag FunctionDefinition
get_overview s = functions_of (list_tool_calls s.register)
