-- ===== src/Ai/Complete/Invoked.antt =====
-- The second question of an invocation, and the call stack.
use Prim.Native.String.{◌++◌ as join}
use mathlib.Core.Path.{subst}
use yomo.Common.{
  String, ◌≡◌, refl, sym, ap, ◌∙◌, inl, inr, Bool, true, false, some, List, [], ◌∷◌, ◌++◌, map,
  arith, ◌==◌, nat_key, string_key, same_iff, Bool-cases,
}
use yomo.Errors.{ok}
use yomo.Try.{returns}
use yomo.Frame.{Tag}
use yomo.GoMap.{GoMap}
use yomo.Register.{Tool, list_tool_calls}
use yomo.Ai.{FunctionDefinition, ToolCall, Message, Choice, Response, ToolMessage, InvokeResponse}
use yomo.Ai.Convert.{
  convert_to_invoke_response, convert_choice, with_calls, plain_response, calls_reason, is_stop,
  gemini,
}
use yomo.Ai.Prompt.{prepare_messages, chained, system_instructions, message_of, tool_message}
use yomo.Ai.Complete.{Service, run_function_calls}
use yomo.Ai.Complete.Invoke.{
  converted, first_invoke_request, second_invoke_request, second_invoke, after_first, get_invoke,
  request_of,
}

-- What is asked after the calls have run: the system message without the tools, the answer of the
-- model, the results and the instruction, with no tools.
abbrev pub second_messages : String → String → Message → List ToolMessage → List Message
second_messages user base assistant calls =
    message_of "system" (join base (join "\n\n" (join "## Instructions\n" "")))
    ∷ (assistant ∷ map tool_message calls ++ message_of "user" user ∷ [])

with_calls-assistant :
    (result r : InvokeResponse) (message : Message) (calls : List ToolCall)
    (tcs : GoMap Tag (Tool FunctionDefinition))
    → with_calls result message calls tcs ≡ returns r
    → calls_reason result.finish_reason ≡ true
    → r.assistant_message ≡ some message
unfolding with_calls
with_calls-assistant result r message [] tcs h c = cc
with_calls-assistant result r message (call ∷ calls) tcs h c = ground (arith, h, c)

with_calls-reason :
    (result r : InvokeResponse) (message : Message) (calls : List ToolCall)
    (tcs : GoMap Tag (Tool FunctionDefinition))
    → with_calls result message calls tcs ≡ returns r
    → r.finish_reason ≡ result.finish_reason
unfolding with_calls
with_calls-reason result r message [] tcs h = cc
with_calls-reason result r message (call ∷ calls) tcs h = ground (arith, h)

reason-stop : (s : String) → calls_reason s ≡ true → is_stop s ≡ false
unfolding is_stop
reason-stop s h = elim (Bool-cases (s == "tool_calls")) [
  | inl e ↦ subst (λ x. is_stop x ≡ false) (sym ((same_iff {K = String} s "tool_calls").0 e)) refl
  | inr n ↦ elim (Bool-cases (gemini s)) [
    | inl e ↦
        subst (λ x. is_stop x ≡ false) (sym ((same_iff {K = String} s "gemini_tool_calls").0 e))
          refl
    | inr m ↦ absurd (ground (arith, h, n, m))
  ]
]

choice-assistant :
    (res : Response) (choice : Choice) (others : List Choice)
    (tcs : GoMap Tag (Tool FunctionDefinition)) (r : InvokeResponse)
    → convert_choice res (choice ∷ others) tcs ≡ returns r
    → calls_reason choice.finish_reason ≡ true
    → (r.assistant_message ≡ some choice.message) × (r.finish_reason ≡ choice.finish_reason)
unfolding convert_choice plain_response
choice-assistant res choice others tcs r h c =
    let e : with_calls (plain_response res choice) choice.message choice.message.tool_calls tcs
        ≡ returns r =
      ground (arith, h, reason-stop choice.finish_reason c) in
    (
      with_calls-assistant (plain_response res choice) r choice.message choice.message.tool_calls
          tcs e c,
      with_calls-reason _ r choice.message choice.message.tool_calls tcs e,
    )

-- When the first answer of the model to an invocation asks for calls, it is asked a second time:
-- with the system message that names no tools, its own answer, a message for each result of the
-- calls, and the instruction, and with no tools.
pub get_invoke-second_messages :
    (s : Service) (user base : String) (include : Bool) (resp : Response) (choice : Choice)
    (others : List Choice) (res : InvokeResponse)
    → s.provider.chat 0 (first_invoke_request s user base include (list_tool_calls s.register))
      ≡ ok resp
    → resp.choices ≡ choice ∷ others
    → calls_reason choice.finish_reason ≡ true
    → convert_to_invoke_response resp (list_tool_calls s.register) ≡ returns res
    → (get_invoke s user base include).asked
      ≡ first_invoke_request s user base include (list_tool_calls s.register)
        ∷ request_of
            (second_messages user base choice.message (run_function_calls s res.tool_calls))
        ∷ []
unfolding get_invoke convert_to_invoke_response converted after_first second_invoke
    second_invoke_request prepare_messages chained system_instructions
get_invoke-second_messages s user base include resp choice others res e c f h =
    let (a, r) =
      choice-assistant resp choice others (list_tool_calls s.register) res
        (ap (λ l. convert_choice resp l (list_tool_calls s.register)) (sym c) ∙ h) f in
    let f' : calls_reason res.finish_reason ≡ true = ap calls_reason r ∙ f in rw (e, h, f', a) refl
