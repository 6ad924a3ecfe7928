-- ===== src/Ai/Convert/Groups.antt =====
-- Which tool calls stand under a tag.
use mathlib.Core.List.{append-nil, append_assoc}
use yomo.Common.{
  ◌≡◌, refl, sym, Bool, false, Option, none, some, List, [], ◌∷◌, ◌++◌, arith, ◌==◌, nat_key,
  string_key, same_iff, if◌then◌else◌,
}
use yomo.Frame.{Tag}
use yomo.Try.{returns}
use yomo.GoMap.{GoMap, get, IsMap}
use yomo.GoMap.Laws.{get-put}
use yomo.Register.{Tool}
use yomo.Ai.{FunctionDefinition, ToolCall, Message, Choice, Response, InvokeResponse}
use yomo.Ai.Convert.{
  calls_at, add_call, add_matches, group_calls, matching, matches, gemini, is_stop, plain_response,
  with_calls, convert_choice, convert_to_invoke_response,
}

calls_at-add_call :
    (m : GoMap Tag (List ToolCall)) (tag t : Tag) (call : ToolCall)
    → calls_at (add_call m tag call) t
      ≡ (if tag == t then calls_at m t ++ call ∷ [] else calls_at m t)
unfolding add_call
calls_at-add_call m tag t call =
    ground (arith, get-put m tag t (calls_at m tag ++ call ∷ []), same_iff tag t)

-- What one step of the loop over the tools adds under a tag.
one_match :
    (any : Bool) (tool : Tool FunctionDefinition) (call : ToolCall) (m : GoMap Tag (List ToolCall))
    (tag t : Tag)
    → calls_at (if matches any tool call then add_call m tag call else m) t
      ≡ calls_at m t ++ (if tag == t then matching any (some tool) (call ∷ []) else [])
unfolding matching
one_match any tool call m tag t =
    ground (arith, calls_at-add_call m tag t call, append-nil (calls_at m t))

matching-none : (any : Bool) (calls : List ToolCall) → matching any none calls ≡ []
unfolding matching
matching-none any calls = refl

matching-nil : (any : Bool) (o : Option (Tool FunctionDefinition)) → matching any o [] ≡ []
unfolding matching
matching-nil any none = refl
matching-nil any (some tool) = refl

calls_at-add_matches :
    (any : Bool) (tcs : GoMap Tag (Tool FunctionDefinition)) (call : ToolCall)
    (m : GoMap Tag (List ToolCall)) (t : Tag)
    → IsMap tcs
    → calls_at (add_matches any tcs call m) t ≡ calls_at m t ++ matching any (get tcs t) (call ∷ [])
unfolding add_matches get matching
calls_at-add_matches any [] call m t h = sym (append-nil (calls_at m t))
calls_at-add_matches any ((tag, tool) ∷ tcs) call m t (n, h) = ground (
  arith,
  calls_at-add_matches any tcs call (if matches any tool call then add_call m tag call else m) t h,
  one_match any tool call m tag t,
  append-nil (calls_at m t),
  append-nil (calls_at m t ++ matching any (some tool) (call ∷ [])),
  matching-none any (call ∷ []),
)

matching-cons :
    (any : Bool) (o : Option (Tool FunctionDefinition)) (call : ToolCall) (calls : List ToolCall)
    → matching any o (call ∷ calls) ≡ matching any o (call ∷ []) ++ matching any o calls
unfolding matching
matching-cons any none call calls = refl
matching-cons any (some tool) call calls = ground arith

calls_at-group_calls :
    (any : Bool) (tcs : GoMap Tag (Tool FunctionDefinition)) (calls : List ToolCall)
    (m : GoMap Tag (List ToolCall)) (t : Tag)
    → IsMap tcs
    → calls_at (group_calls any tcs calls m) t ≡ calls_at m t ++ matching any (get tcs t) calls
unfolding group_calls
calls_at-group_calls any tcs [] m t h =
    rw (matching-nil any (get tcs t)) (sym (append-nil (calls_at m t)))
calls_at-group_calls any tcs (call ∷ calls) m t h = ground (
  arith,
  calls_at-group_calls any tcs calls (add_matches any tcs call m) t h,
  calls_at-add_matches any tcs call m t h,
  matching-cons any (get tcs t) call calls,
  append_assoc (calls_at m t) (matching any (get tcs t) (call ∷ []))
      (matching any (get tcs t) calls),
)

calls_at-with_calls :
    (result r : InvokeResponse) (message : Message) (calls : List ToolCall)
    (tcs : GoMap Tag (Tool FunctionDefinition)) (t : Tag)
    → IsMap tcs
    → with_calls result message calls tcs ≡ returns r
    → calls_at r.tool_calls t ≡ matching (gemini result.finish_reason) (get tcs t) calls
unfolding with_calls get
calls_at-with_calls result r message [] tcs t h e = cc
calls_at-with_calls result r message (call ∷ calls) tcs t h e =
    ground (arith, e, calls_at-group_calls (gemini result.finish_reason) tcs (call ∷ calls) [] t h)

-- When a response that is not a plain answer is converted, with the tools in a map that has each
-- tag once, the calls under a tag are exactly those that match the tool of the tag, in the order of
-- the response; under a tag without a tool there is none. For the reason gemini_tool_calls every
-- call matches every tool.
pub convert_to_invoke_response-calls_at :
    (res : Response) (choice : Choice) (others : List Choice)
    (tcs : GoMap Tag (Tool FunctionDefinition)) (r : InvokeResponse) (t : Tag)
    → IsMap tcs
    → res.choices ≡ choice ∷ others
    → is_stop choice.finish_reason ≡ false
    → convert_to_invoke_response res tcs ≡ returns r
    → calls_at r.tool_calls t
      ≡ matching (gemini choice.finish_reason) (get tcs t) choice.message.tool_calls
unfolding convert_to_invoke_response convert_choice plain_response
convert_to_invoke_response-calls_at res choice others tcs r t h c n e = ground (
  arith,
  c,
  n,
  e,
  calls_at-with_calls (plain_response res choice) r choice.message choice.message.tool_calls tcs t
      h,
)
