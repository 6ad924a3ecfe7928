-- ===== src/Ai/Convert.antt =====
-- ai/openai.go: the response of a model as the response of an invocation, with its tool calls under
-- the tags of the functions that answer them.
pub mod Groups
use yomo.Common.{
  String, Bool, ◌&&◌, ◌||◌, Option, none, some, List, [], ◌∷◌, ◌++◌, ◌==◌, nat_key, string_key,
  if◌then◌else◌,
}
use yomo.Lower.{lowers_to}
use yomo.Errors.{plain}
use yomo.Try.{Try, returns, fails, panics}
use yomo.Frame.{Tag}
use yomo.GoMap.{GoMap, get, put}
use yomo.Register.{Tool}
use yomo.Ai.{FunctionDefinition, ToolCall, Message, Choice, Response, InvokeResponse}

-- strings.ToLower(s) == "stop"
unfoldable pub is_stop : String → Bool
is_stop s = lowers_to s (b's' ∷ b't' ∷ b'o' ∷ b'p' ∷ [])

abbrev pub gemini : String → Bool
gemini reason = reason == "gemini_tool_calls"

-- The condition of the inner loop; `any` is the test for gemini.
abbrev pub matches : Bool → Tool FunctionDefinition → ToolCall → Bool
matches any tool call =
    (tool.function.name == call.function_name && tool.tool_type == call.call_type) || any

-- a read of a map of slices
abbrev pub calls_of : Option (List ToolCall) → List ToolCall
calls_of none = []
calls_of (some calls) = calls

abbrev pub calls_at : GoMap Tag (List ToolCall) → Tag → List ToolCall
calls_at m tag = calls_of (get m tag)

-- result.ToolCalls[tag] = append(result.ToolCalls[tag], &currentCall)
unfoldable pub add_call : GoMap Tag (List ToolCall) → Tag → ToolCall → GoMap Tag (List ToolCall)
add_call m tag call = put m tag (calls_at m tag ++ call ∷ [])

-- for tag, tc := range tcs
unfoldable pub add_matches :
    Bool
    → GoMap Tag (Tool FunctionDefinition)
    → ToolCall
    → GoMap Tag (List ToolCall)
    → GoMap Tag (List ToolCall)
add_matches any [] call m = m
add_matches any ((tag, tool) ∷ tcs) call m =
    add_matches any tcs call (if matches any tool call then add_call m tag call else m)

-- for _, call := range calls
unfoldable pub group_calls :
    Bool
    → GoMap Tag (Tool FunctionDefinition)
    → List ToolCall
    → GoMap Tag (List ToolCall)
    → GoMap Tag (List ToolCall)
group_calls any tcs [] m = m
group_calls any tcs (call ∷ calls) m = group_calls any tcs calls (add_matches any tcs call m)

abbrev pub calls_reason : String → Bool
calls_reason reason = reason == "tool_calls" || gemini reason

-- the response before its tool calls are looked at
unfoldable pub plain_response : Response → Choice → InvokeResponse
plain_response res choice = record {
  content = choice.message.content;
  tool_calls = [];
  tool_messages = [];
  finish_reason = choice.finish_reason;
  token_usage = res.usage;
  assistant_message = none;
}

-- from the assistant message on
unfoldable pub with_calls :
    InvokeResponse
    → Message
    → List ToolCall
    → GoMap Tag (Tool FunctionDefinition)
    → Try InvokeResponse
with_calls result message [] tcs =
    fails (plain "finish_reason is tool_calls, but no tool calls found")
with_calls result message (call ∷ calls) tcs = returns (record result {
  assistant_message = if calls_reason result.finish_reason then some message else none;
  tool_calls = group_calls (gemini result.finish_reason) tcs (call ∷ calls) [];
})

unfoldable pub convert_choice :
    Response → List Choice → GoMap Tag (Tool FunctionDefinition) → Try InvokeResponse
convert_choice res [] tcs = panics
convert_choice res (choice ∷ others) tcs =
    let result = plain_response res choice in
    if is_stop result.finish_reason
    then returns result
    else with_calls result choice.message choice.message.tool_calls tcs

-- ConvertToInvokeResponse(res, tcs); res.Choices[0] panics where there is none
unfoldable pub convert_to_invoke_response :
    Response → GoMap Tag (Tool FunctionDefinition) → Try InvokeResponse
convert_to_invoke_response res tcs = convert_choice res res.choices tcs

-- The calls that a tool matches, in order.
unfoldable pub matching : Bool → Option (Tool FunctionDefinition) → List ToolCall → List ToolCall
matching any none calls = []
matching any (some tool) [] = []
matching any (some tool) (call ∷ calls) =
    let others = matching any (some tool) calls in
    if matches any tool call then call ∷ others else others
