-- ===== src/Ai/Complete/Chat.antt =====
-- pkg/bridge/ai/service.go: GetChatCompletions.
use yomo.Common.{
  String, Bool, true, false, Option, none, some, List, [], ◌∷◌, ◌++◌, map, ◌==◌, nat_key,
  string_key, if◌then◌else◌,
}
use yomo.Errors.{Result, ok, err}
use yomo.Try.{Try, returns, fails, panics}
use yomo.Frame.{Tag}
use yomo.GoMap.{GoMap}
use yomo.Register.{Tool, list_tool_calls}
use yomo.Ai.{FunctionDefinition, ToolCall, Message, Request, Choice, Response, ToolMessage}
use yomo.Ai.Convert.{group_calls}
use yomo.Ai.Prompt.{over_write_system_prompt, add_tools_to_request, tool_message}
use yomo.Ai.Stream.{Delta, ToolCallsMap, collect, map_to_slice_tools}
use yomo.Ai.Complete.{
  ChunkChoice, Chunk, Received, chunk, broken, Output, event_headers, event, done_event, flush,
  json_response, Outcome, Service, run_function_calls,
}

-- What the loop over a stream has come to: the tool calls so far and whether there were any.
pub record Streaming : Type 0 where
  pub calls : ToolCallsMap
  pub is_function_call : Bool

abbrev pub tool_calls_reason : String
tool_calls_reason = "tool_calls"

-- a chunk that is passed on
abbrev pub passed : Chunk → List Output
passed c = event c ∷ flush ∷ []

-- the tool calls of a delta, or else the chunk passed on
unfoldable pub on_delta :
    Streaming → Chunk → ChunkChoice → List Delta → List Output × Option Streaming
on_delta s c choice [] =
    (if choice.finish_reason == tool_calls_reason then [] else passed c, some s)
on_delta s c choice (t ∷ ts) = (
  [],
  elim (collect s.calls (t ∷ ts)) [
    | none ↦ none
    | some m ↦ some (record { calls = m; is_function_call = true })
  ],
)

-- if len(streamRes.Choices) == 0 { continue }
unfoldable pub on_choices : Streaming → Chunk → List ChunkChoice → List Output × Option Streaming
on_choices s c [] = ([], some s)
on_choices s c (choice ∷ others) = on_delta s c choice choice.delta

abbrev pub Streamed : Type 0
Streamed = List Output × Try Streaming

abbrev pub then_read : List Output → Option Streaming → (Streaming → Streamed) → Streamed
then_read out none k = (out, panics)
then_read out (some s) k = let (later, r) = k s in (out ++ later, r)

-- the loop over the first stream
unfoldable pub read_first : Streaming → List Received → Streamed
read_first s [] = ([], returns s)
read_first s (broken e ∷ rs) = ([], fails e)
read_first s (chunk c ∷ rs) =
    let step = on_choices s c c.choices in then_read step.0 step.1 (λ s'. read_first s' rs)

-- the loop over the second stream
unfoldable pub read_second : List Received → List Output × Try (Unit {0})
read_second [] = (done_event ∷ flush ∷ [], returns tt)
read_second (broken e ∷ rs) = ([], fails e)
read_second (chunk c ∷ rs) = let (out, r) = read_second rs in (passed c ++ out, r)

-- the second request: the first messages, the answer of the model and the results; no tools
unfoldable pub second_request : Request → Message → List ToolMessage → Request
second_request req assistant tools = record req {
  messages = req.messages ++ assistant ∷ map tool_message tools;
  tools = [];
}

unfoldable pub finish_chat :
    Request → List Output → List Request → Result Response → Outcome (Unit {0})
finish_chat req out asked (err e) = record { output = out; asked = asked; result = fails e }
finish_chat req out asked (ok resp) = record {
  output = out ++ json_response resp ∷ [];
  asked = asked;
  result = returns tt;
}

unfoldable pub finish_stream :
    List Output → List Request → Result (List Received) → Outcome (Unit {0})
finish_stream out asked (err e) = record { output = out; asked = asked; result = fails e }
finish_stream out asked (ok rs) =
    let (later, r) = read_second rs in record { output = out ++ later; asked = asked; result = r }

module _ (s : Service) (tag_tools : GoMap Tag (Tool FunctionDefinition)) where
  -- the test on req.Stream at the second request
  unfoldable pub second_by_mode : Request → Request → List Output → Bool → Outcome (Unit {0})
  second_by_mode req req' out true = finish_stream out (req ∷ req' ∷ []) (s.provider.stream 1 req')
  second_by_mode req req' out false =
      finish_chat req' out (req ∷ req' ∷ []) (s.provider.chat 1 req')

  -- from "5. find sfns that hit the function call" on
  unfoldable pub second_call : Request → List Output → Message → List ToolCall → Outcome (Unit {0})
  second_call req out assistant calls =
      let req' =
        second_request req assistant
          (run_function_calls s (group_calls false tag_tools calls [])) in
      second_by_mode req req' out req.streaming

  abbrev assistant_of : List ToolCall → Message
  assistant_of calls = record {
    role = "assistant";
    content = "";
    tool_calls = calls;
    tool_call_id = "";
  }

  -- toolCalls = mapToSliceTools(toolCallsMap), and what follows
  unfoldable pub with_slice : Request → List Output → Option (List ToolCall) → Outcome (Unit {0})
  with_slice req out none = record { output = out; asked = req ∷ []; result = panics }
  with_slice req out (some calls) = second_call req (out ++ flush ∷ []) (assistant_of calls) calls

  unfoldable pub after_stream : Request → List Output → Try Streaming → Outcome (Unit {0})
  after_stream req out (fails e) = record { output = out; asked = req ∷ []; result = fails e }
  after_stream req out panics = record { output = out; asked = req ∷ []; result = panics }
  after_stream req out (returns st) =
      if st.is_function_call
      then with_slice req out (map_to_slice_tools st.calls)
      else record { output = out ++ done_event ∷ flush ∷ []; asked = req ∷ []; result = returns tt }

  -- the branch for a stream
  unfoldable pub first_stream : Request → Result (List Received) → Outcome (Unit {0})
  first_stream req (err e) = record {
    output = event_headers ∷ [];
    asked = req ∷ [];
    result = fails e;
  }
  first_stream req (ok rs) =
      let (out, r) = read_first (record { calls = []; is_function_call = false }) rs in
      after_stream req (event_headers ∷ out) r

  -- resp.Choices[0], which panics where there is none
  unfoldable pub first_choice : Request → Response → List Choice → Outcome (Unit {0})
  first_choice req resp [] = record { output = []; asked = req ∷ []; result = panics }
  first_choice req resp (choice ∷ others) =
      if choice.finish_reason == tool_calls_reason
      then second_call req [] choice.message choice.message.tool_calls
      else record { output = json_response resp ∷ []; asked = req ∷ []; result = returns tt }

  -- the branch for a response
  unfoldable pub first_chat : Request → Result Response → Outcome (Unit {0})
  first_chat req (err e) = record { output = []; asked = req ∷ []; result = fails e }
  first_chat req (ok resp) = first_choice req resp resp.choices

  -- the test on req.Stream
  unfoldable pub by_mode : Request → Bool → Outcome (Unit {0})
  by_mode req true = first_stream req (s.provider.stream 0 req)
  by_mode req false = first_chat req (s.provider.chat 0 req)

-- 2. and 3.: the tools and the system prompt
unfoldable pub first_request : Service → Request → Request
first_request s req =
    over_write_system_prompt (add_tools_to_request req (list_tool_calls s.register)) s.system_prompt

-- GetChatCompletions(ctx, req, transID, w, includeCallStack)
unfoldable pub get_chat_completions : Service → Request → Outcome (Unit {0})
get_chat_completions s req =
    let req' = first_request s req in by_mode s (list_tool_calls s.register) req' req'.streaming
