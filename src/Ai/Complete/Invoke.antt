-- ===== src/Ai/Complete/Invoke.antt =====
-- pkg/bridge/ai/service.go: GetInvoke.
use yomo.Common.{String, Bool, true, false, none, List, [], ◌∷◌, nat_key, string_key, if◌then◌else◌}
use yomo.Errors.{Result, ok, err}
use yomo.Try.{Try, returns, fails, panics}
use yomo.Frame.{Tag}
use yomo.GoMap.{GoMap}
use yomo.Register.{Tool, list_tool_calls}
use yomo.Ai.{
  FunctionDefinition, Message, Request, Response, ToolMessage, ChainMessage, InvokeResponse,
}
use yomo.Ai.Convert.{convert_to_invoke_response, calls_reason}
use yomo.Ai.Prompt.{prepare_messages, prepare_tool_calls, with_tools}
use yomo.Ai.Complete.{Outcome, Service, run_function_calls}

abbrev pub request_of : List Message → Request
request_of messages = record { messages = messages; tools = []; streaming = false }

-- chatCompletionResponse, err := ..., and ConvertToInvokeResponse
unfoldable pub converted :
    GoMap Tag (Tool FunctionDefinition) → Result Response → Try InvokeResponse
converted tcs (err e) = fails e
converted tcs (ok resp) = convert_to_invoke_response resp tcs

abbrev pub no_chain : ChainMessage
no_chain = record { preceeding_assistant_message = none; tool_messages = [] }

-- if includeCallStack { ... }
unfoldable pub with_stack :
    Bool → InvokeResponse → List ToolMessage → Try InvokeResponse → Try InvokeResponse
with_stack include res tools (fails e) = fails e
with_stack include res tools panics = panics
with_stack include res tools (returns res2) =
    returns (
      if include
      then (record res2 { tool_calls = res.tool_calls; tool_messages = tools })
      else res2)

module _ (s : Service) (user base : String) (include : Bool) where
  unfoldable pub first_invoke_request : GoMap Tag (Tool FunctionDefinition) → Request
  first_invoke_request tcs =
      let tools = prepare_tool_calls tcs in
      with_tools (request_of (prepare_messages base user no_chain tools true)) tools

  unfoldable pub second_invoke_request :
      GoMap Tag (Tool FunctionDefinition) → InvokeResponse → List ToolMessage → Request
  second_invoke_request tcs res calls = request_of (
      prepare_messages base user
        (record { preceeding_assistant_message = res.assistant_message; tool_messages = calls })
        (prepare_tool_calls tcs) false)

  -- from "run llm function calls" on
  unfoldable pub second_invoke :
      GoMap Tag (Tool FunctionDefinition) → Request → InvokeResponse → Outcome InvokeResponse
  second_invoke tcs req res =
      let calls = run_function_calls s res.tool_calls in
      let req2 = second_invoke_request tcs res calls in
      record {
        output = [];
        asked = req ∷ req2 ∷ [];
        result = with_stack include res calls (converted tcs (s.provider.chat 1 req2));
      }

  unfoldable pub after_first :
      GoMap Tag (Tool FunctionDefinition) → Request → Try InvokeResponse → Outcome InvokeResponse
  after_first tcs req (fails e) = record { output = []; asked = req ∷ []; result = fails e }
  after_first tcs req panics = record { output = []; asked = req ∷ []; result = panics }
  after_first tcs req (returns res) =
      if calls_reason res.finish_reason
      then second_invoke tcs req res
      else record { output = []; asked = req ∷ []; result = returns res }

  -- GetInvoke(ctx, userInstruction, baseSystemMessage, transID, includeCallStack)
  unfoldable pub get_invoke : Outcome InvokeResponse
  get_invoke =
      let tcs = list_tool_calls s.register in
      let req = first_invoke_request tcs in
      after_first tcs req (converted tcs (s.provider.chat 0 req))
