-- ===== src/Ai/Complete/Asks.antt =====
-- What GetChatCompletions asks the model, and what it passes on of a stream.
use yomo.Common.{
  ◌≡◌, refl, ap, ◌∙◌, true, false, Option, none, some, List, [], ◌∷◌, ◌++◌, map, ◌==◌, nat_key,
  string_key, All,
}
use yomo.Errors.{ok}
use yomo.Try.{Try, returns}
use yomo.Frame.{Tag}
use yomo.GoMap.{GoMap}
use yomo.Register.{Tool, list_tool_calls}
use yomo.Ai.{FunctionDefinition, Message, Request}
use yomo.Ai.Convert.{group_calls}
use yomo.Ai.Prompt.{tool_message}
use yomo.Ai.Complete.{
  ChunkChoice, Chunk, chunk, Output, event_headers, event, done_event, flush, Service,
  run_function_calls,
}
use yomo.Ai.Complete.Chat.{
  Streaming, tool_calls_reason, passed, on_delta, on_choices, read_first, after_stream,
  first_stream, by_mode, first_request, get_chat_completions,
}

-- The second request that belongs to a first one, by the answer of the model.
unfoldable pub second_of :
    Service → GoMap Tag (Tool FunctionDefinition) → Request → Message → Request
second_of s tools req a = record req {
  messages =
      req.messages
      ++ a ∷ map tool_message (run_function_calls s (group_calls false tools a.tool_calls []));
  tools = [];
}

-- The requests of a completion, by the answer to the first one.
unfoldable pub requests :
    Service → GoMap Tag (Tool FunctionDefinition) → Request → Option Message → List Request
requests s tools req none = req ∷ []
requests s tools req (some a) = req ∷ second_of s tools req a ∷ []

-- A first choice without tool calls, that does not end with them.
abbrev pub PlainChoice : List ChunkChoice → Type 0
PlainChoice [] = ⊥
PlainChoice (choice ∷ others) =
    (choice.delta ≡ []) × ((choice.finish_reason == tool_calls_reason) ≡ false)

-- Each chunk, written and flushed.
unfoldable pub all_passed : List Chunk → List Output
all_passed [] = []
all_passed (c ∷ cs) = event c ∷ flush ∷ all_passed cs

on_choices-plain :
    (st : Streaming) (c : Chunk) (choices : List ChunkChoice)
    → PlainChoice choices
    → on_choices st c choices ≡ (passed c, some st)
unfolding on_choices on_delta
on_choices-plain st c [] h = absurd h
on_choices-plain st c (choice ∷ others) (d, f) = rw (d, f) refl

read_first-plain :
    (st : Streaming) (cs : List Chunk)
    → All (λ (c : Chunk). PlainChoice c.choices) cs
    → read_first st (map chunk cs) ≡ (all_passed cs, returns st)
unfolding read_first all_passed
read_first-plain st [] h = refl
read_first-plain st (c ∷ cs) (p, h) =
    rw (on_choices-plain st c c.choices p, read_first-plain st cs h) refl

by_mode-plain :
    (s : Service) (tools : GoMap Tag (Tool FunctionDefinition)) (req : Request) (cs : List Chunk)
    → s.provider.stream 0 req ≡ ok (map chunk cs)
    → All (λ (c : Chunk). PlainChoice c.choices) cs
    → by_mode s tools req true ≡ (record {
      output = event_headers ∷ all_passed cs ++ done_event ∷ flush ∷ [];
      asked = req ∷ [];
      result = returns tt;
    })
unfolding by_mode first_stream after_stream
by_mode-plain s tools req cs e h =
    rw (e, read_first-plain (record { calls = []; is_function_call = false }) cs h) refl

-- A stream in which the model answers with text only is passed on chunk by chunk, each one flushed,
-- and ended with DONE; the model is asked once and no error is returned.
pub get_chat_completions-plain :
    (s : Service) (req : Request) (cs : List Chunk)
    → (first_request s req).streaming ≡ true
    → s.provider.stream 0 (first_request s req) ≡ ok (map chunk cs)
    → All (λ (c : Chunk). PlainChoice c.choices) cs
    → get_chat_completions s req ≡ (record {
      output = event_headers ∷ all_passed cs ++ done_event ∷ flush ∷ [];
      asked = first_request s req ∷ [];
      result = returns tt;
    })
unfolding get_chat_completions
get_chat_completions-plain s req cs b e h =
    ap (by_mode s (list_tool_calls s.register) (first_request s req)) b
    ∙ by_mode-plain s (list_tool_calls s.register) (first_request s req) cs e h
