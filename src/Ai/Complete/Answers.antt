-- ===== src/Ai/Complete/Answers.antt =====
-- pkg/bridge/ai/service.go: the answer of the model to the first request of GetChatCompletions.
use yomo.Common.{
  ◌≡◌, refl, sym, ap, ◌∙◌, fun_ext, inl, inr, Bool, true, false, Option, none, some, List, [], ◌∷◌,
  ◌++◌, ◌==◌, nat_key, string_key, if◌then◌else◌, Bool-cases,
}
use yomo.Errors.{Result, ok, err}
use yomo.Try.{Try, returns, fails, panics}
use yomo.Ai.{ToolCall, Message, Request, Choice, Response}
use yomo.Ai.Stream.{Delta, ToolCallsMap, add_at, and_then, collect, map_to_slice_tools}
use yomo.Ai.Complete.{ChunkChoice, Chunk, Received, chunk, broken, Output, Service}
use yomo.Ai.Complete.Chat.{
  Streaming, then_read, tool_calls_reason, on_delta, on_choices, read_first,
}

-- Of a response: the message of the first choice, if that choice ends with tool calls.
unfoldable pub from_choices : List Choice → Option Message
from_choices [] = none
from_choices (choice ∷ others) =
    if choice.finish_reason == tool_calls_reason then some choice.message else none

abbrev pub from_response : Result Response → Option Message
from_response (err e) = none
from_response (ok resp) = from_choices resp.choices

-- Of a stream: a message with the tool calls that the pieces make up, if the stream came to its end,
-- brought a piece at all, and neither the pieces nor their indexes make the code panic.
abbrev pub from_calls : Option (List ToolCall) → Option Message
from_calls none = none
from_calls (some calls) =
    some (record { role = "assistant"; content = ""; tool_calls = calls; tool_call_id = "" })

abbrev pub from_map : Option ToolCallsMap → Option Message
from_map none = none
from_map (some m) = from_calls (map_to_slice_tools m)

abbrev pub from_pieces : List Delta → Option Message
from_pieces [] = none
from_pieces (t ∷ ts) = from_map (collect [] (t ∷ ts))

abbrev pub first_pieces : List ChunkChoice → List Delta
first_pieces [] = []
first_pieces (choice ∷ others) = choice.delta

-- the pieces of the first choices, in the order of the chunks
unfoldable pub pieces_of : List Received → List Delta
pieces_of [] = []
pieces_of (broken e ∷ rs) = []
pieces_of (chunk c ∷ rs) = first_pieces c.choices ++ pieces_of rs

unfoldable pub ends_well : List Received → Bool
ends_well [] = true
ends_well (broken e ∷ rs) = false
ends_well (chunk c ∷ rs) = ends_well rs

abbrev pub if_well : Bool → List Delta → Option Message
if_well true ts = from_pieces ts
if_well false ts = none

abbrev pub from_stream : Result (List Received) → Option Message
from_stream (err e) = none
from_stream (ok rs) = if_well (ends_well rs) (pieces_of rs)

-- the answer by the mode of the request
unfoldable pub answer_in : Service → Request → Bool → Option Message
answer_in s req true = from_stream (s.provider.stream 0 req)
answer_in s req false = from_response (s.provider.chat 0 req)

and_then-and_then :
    (o : Option ToolCallsMap) (f g : ToolCallsMap → Option ToolCallsMap)
    → and_then (and_then o f) g ≡ and_then o (λ m. and_then (f m) g)
unfolding and_then
and_then-and_then none f g = refl
and_then-and_then (some m) f g = refl

collect-append :
    (m : ToolCallsMap) (xs ys : List Delta)
    → collect m (xs ++ ys) ≡ and_then (collect m xs) (λ m'. collect m' ys)
unfolding collect and_then
collect-append m [] ys = refl
collect-append m (t ∷ xs) ys =
    ap (and_then (add_at m t.index t)) (fun_ext (λ m'. collect-append m' xs ys))
    ∙ sym (and_then-and_then (add_at m t.index t) (λ m'. collect m' xs) (λ m'. collect m' ys))

-- whether there have been pieces
abbrev called : Bool → List Delta → Bool
called b [] = b
called b (t ∷ ts) = true

called-true : (ts : List Delta) → called true ts ≡ true
called-true [] = refl
called-true (t ∷ ts) = refl

abbrev read_as : Bool → Option ToolCallsMap → Try Streaming
read_as b none = panics
read_as b (some m) = returns (record { calls = m; is_function_call = b })

abbrev read_all : Streaming → List Delta → Try Streaming
read_all st ts = read_as (called st.is_function_call ts) (collect st.calls ts)

-- the answer that belongs to what the loop over the stream came to
unfoldable pub answer_after : Try Streaming → Option Message
answer_after (fails e) = none
answer_after panics = none
answer_after (returns st) =
    if st.is_function_call then from_calls (map_to_slice_tools st.calls) else none

then_read-read_all :
    (out : List Output) (o : Option ToolCallsMap) (b : Bool) (t : Delta) (ts later : List Delta)
    (rs : List Received)
    → ((st : Streaming) → (read_first st rs).1 ≡ read_all st later)
    → (then_read out
        (elim o [ none ↦ none | some m ↦ some (record { calls = m; is_function_call = true }) ])
        (λ s. read_first s rs)).1
      ≡ read_as true (and_then o (λ m. collect m later))
unfolding and_then
then_read-read_all out none b t ts later rs h = refl
then_read-read_all out (some m) b t ts later rs h =
    h (record { calls = m; is_function_call = true })
    ∙ ap (λ c. read_as c (collect m later)) (called-true later)

abbrev after_delta : Streaming → Chunk → ChunkChoice → List Delta → List Received → Try Streaming
after_delta st c choice ts rs =
    let step = on_delta st c choice ts in (then_read step.0 step.1 (λ s'. read_first s' rs)).1

after_delta-read_all :
    (st : Streaming) (c : Chunk) (choice : ChunkChoice) (ts : List Delta) (rs : List Received)
    → ((st : Streaming) → (read_first st rs).1 ≡ read_all st (pieces_of rs))
    → after_delta st c choice ts rs ≡ read_all st (ts ++ pieces_of rs)
unfolding on_delta
after_delta-read_all st c choice [] rs h = h st
after_delta-read_all st c choice (t ∷ ts) rs h =
    then_read-read_all [] (collect st.calls (t ∷ ts)) true t ts (pieces_of rs) rs h
    ∙ ap (read_as true) (sym (collect-append st.calls (t ∷ ts) (pieces_of rs)))

abbrev after_choices : Streaming → Chunk → List ChunkChoice → List Received → Try Streaming
after_choices st c choices rs =
    let step = on_choices st c choices in (then_read step.0 step.1 (λ s'. read_first s' rs)).1

after_choices-read_all :
    (st : Streaming) (c : Chunk) (choices : List ChunkChoice) (rs : List Received)
    → ((st : Streaming) → (read_first st rs).1 ≡ read_all st (pieces_of rs))
    → after_choices st c choices rs ≡ read_all st (first_pieces choices ++ pieces_of rs)
unfolding on_choices
after_choices-read_all st c [] rs h = h st
after_choices-read_all st c (choice ∷ others) rs h =
    after_delta-read_all st c choice choice.delta rs h

read_first-read_all :
    (rs : List Received) (st : Streaming)
    → ends_well rs ≡ true
    → (read_first st rs).1 ≡ read_all st (pieces_of rs)
unfolding read_first ends_well pieces_of collect
read_first-read_all [] st h = refl
read_first-read_all (broken e ∷ rs) st h = cc
read_first-read_all (chunk c ∷ rs) st h =
    after_choices-read_all st c c.choices rs (λ st'. read_first-read_all rs st' h)

answer_after-then_read :
    (out : List Output) (o : Option Streaming) (rs : List Received)
    → ((st : Streaming) → answer_after (read_first st rs).1 ≡ none)
    → answer_after (then_read out o (λ s. read_first s rs)).1 ≡ none
unfolding answer_after
answer_after-then_read out none rs h = refl
answer_after-then_read out (some st) rs h = h st

answer_after-broken :
    (rs : List Received) (st : Streaming)
    → ends_well rs ≡ false
    → answer_after (read_first st rs).1 ≡ none
unfolding read_first ends_well answer_after
answer_after-broken [] st h = cc
answer_after-broken (broken e ∷ rs) st h = refl
answer_after-broken (chunk c ∷ rs) st h =
    answer_after-then_read _ (on_choices st c c.choices).1 rs (λ st'. answer_after-broken rs st' h)

answer_after-read_as : (o : Option ToolCallsMap) → answer_after (read_as true o) ≡ from_map o
unfolding answer_after
answer_after-read_as none = refl
answer_after-read_as (some m) = refl

answer_after-read_all :
    (ts : List Delta)
    → answer_after (read_all (record { calls = []; is_function_call = false }) ts) ≡ from_pieces ts
unfolding answer_after collect
answer_after-read_all [] = refl
answer_after-read_all (t ∷ ts) = answer_after-read_as (collect [] (t ∷ ts))

pub answer_after-read_first :
    (rs : List Received)
    → answer_after (read_first (record { calls = []; is_function_call = false }) rs).1
      ≡ if_well (ends_well rs) (pieces_of rs)
answer_after-read_first rs =
    let st : Streaming = record { calls = []; is_function_call = false } in
    elim (Bool-cases (ends_well rs)) [
      | inl h ↦
          ap answer_after (read_first-read_all rs st h)
          ∙ answer_after-read_all (pieces_of rs)
          ∙ ap (λ b. if_well b (pieces_of rs)) (sym h)
      | inr h ↦ answer_after-broken rs st h ∙ ap (λ b. if_well b (pieces_of rs)) (sym h)
    ]
