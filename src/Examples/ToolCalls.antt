-- ===== src/Examples/ToolCalls.antt =====
-- A request with one tool call, its streamed pieces, and its answer.
use mathlib.Core.Path.{subst}
use yomo.Common.{
  ℕ, ◌+◌, ◌≤◌, String, ◌≡◌, refl, sym, ap, inl, inr, true, false, none, some, List, [], ◌∷◌, arith,
  ◌==◌, nat_key, string_key, same_iff, if◌then◌else◌, Bool-cases, is_some,
}
use yomo.Errors.{Result, plain, ok, err}
use yomo.Try.{◌>>=◌}
use yomo.Frame.{Tag, Bytes, DataFrame}
use yomo.GoMap.{get, put, delete}
use yomo.Metadata.{encode}
use yomo.Client.{taken, write_frame, block_write_frame}
use yomo.Frame.{is_reserved_tag}
use yomo.Register.{Register, sfn_factor}
use yomo.Serverless.{write, send, unless_reserved}
use yomo.Examples.Serverless.{plain_context}
use yomo.Examples.Sources.{sent}
use yomo.Ai.{FunctionDefinition, ToolCall, FunctionCall, ToolMessage, reducer_tag}
use yomo.Ai.Stream.{
  Delta, ToolCallsMap, collect, add_at, and_then, item_of, extend, map_to_slice_tools,
}
use yomo.Ai.Stream.Slice.{keys_below, is_some-map_to_slice_tools}
use yomo.Ai.Stream.Order.{InOrder, collect-map_to_slice_tools}
use yomo.Ai.Stream.Pieces.{pieces_at, arguments_of, arguments-collect}
use yomo.Ai.Fan.{
  Request, Reach, here, next, fire, add, end_loop, wait, receive, start, firings, firings_of,
  firing, adding, waiting, returned, crashed, Step, after_fire, add_factor, AsyncCall, reduce,
  reduce_at, add_answer, call_data, messages,
}
use yomo.Ai.Fan.Balance.{Complete, start-Complete}
use yomo.Ai.Fan.Turns.{weight, Reach-bounded, waiting_returns}
use yomo.Ai.Fan.Crashes.{start_crashes, returned_crashes}
use yomo.Ai.Llm.{
  Json, LlmContext, bytes, no_call, read_llm_arguments, write_llm_result, read_llm_function_call,
  from_bytes, read_call, write_call, send_result, assign, assign_read,
}
use yomo.Serverless.Handed.{frame_of}
use yomo.Ai.Llm.Answers.{answered, write_llm_result-read_llm_function_call}

-- Two calls whose pieces are mixed.
abbrev mixed : List Delta
mixed =
    record { index = some 0; id = "a"; call_type = "function"; name = "f"; arguments = "{" }
    ∷ record { index = some 1; id = "b"; call_type = "function"; name = "g"; arguments = "[" }
    ∷ record { index = some 0; id = ""; call_type = ""; name = ""; arguments = "}" }
    ∷ []

abbrev mixed_calls : ToolCallsMap
mixed_calls =
    (0, record { id = "a"; call_type = "function"; function_name = "f"; arguments = "{}" })
    ∷ (1, record { id = "b"; call_type = "function"; function_name = "g"; arguments = "[" })
    ∷ []

mixed_collected : collect [] mixed ≡ some mixed_calls
unfolding collect add_at and_then item_of extend put delete get
mixed_collected = refl

is_some-map_to_slice_tools_example :
    is_some (map_to_slice_tools mixed_calls) ≡ keys_below mixed_calls 2
is_some-map_to_slice_tools_example = is_some-map_to_slice_tools mixed_calls

mixed-InOrder : InOrder 0 mixed
mixed-InOrder = (0, refl, omega arith, (1, refl, omega arith, (0, refl, omega arith, tt)))

collect-map_to_slice_tools_example :
    (m : ToolCallsMap) × (collect [] mixed ≡ some m) × (is_some (map_to_slice_tools m) ≡ true)
collect-map_to_slice_tools_example = collect-map_to_slice_tools mixed mixed-InOrder

arguments-collect_example : arguments_of (get mixed_calls 0) ≡ pieces_at mixed 0
arguments-collect_example = arguments-collect mixed mixed_calls 0 mixed_collected

abbrev one_call : ToolCall
one_call = record { id = "c1"; call_type = "function"; function_name = "f"; arguments = "{}" }

abbrev one_group : Tag × List ToolCall
one_group = (7, one_call ∷ [])

abbrev one_answer : FunctionCall
one_answer = record {
  trans_id = "t";
  req_id = "r";
  result_ = "sunny";
  retrieval_result = "";
  arguments = "{}";
  tool_call_id = "c1";
  function_name = "f";
  is_ok = true;
  error_ = "";
}

one_firing : firings (one_group ∷ []) ≡ (7, one_call) ∷ []
unfolding firings firings_of
one_firing = refl

start_crashes_example :
    (t : Request) × Reach (start [] (one_group ∷ []) "t" "r" []) 2 t × (t.phase ≡ crashed)
start_crashes_example = start_crashes [] one_group [] "t" one_answer (7, one_call) [] one_firing

-- A request that waits for one answer that is on its way.
abbrev waiting_request : Request
waiting_request = record {
  cache = ("r", record { counter = 1; val = [] }) ∷ [];
  req_id = "r";
  trans_id = "t";
  phase = waiting;
  sent = [];
  flight = one_answer ∷ [];
  awaited = 1;
  answered = [];
  taken = 0;
}

waits_for_one : get waiting_request.cache "r" ≡ some (record { counter = 1; val = [] })
unfolding get
waits_for_one = refl

waiting_returns_example :
    (n : ℕ) × (t : Request) × (ms : List ToolMessage) × Reach waiting_request n t
    × (t.phase ≡ returned ms)
waiting_returns_example =
    waiting_returns (one_answer ∷ []) waiting_request (record { counter = 1; val = [] }) refl refl
      (refl, tt) waits_for_one refl

-- A run in which the call is answered twice; the first answer is enough to return.
abbrev one_register : Register FunctionDefinition
one_register =
    (
      1,
      record {
        conn_id = 1;
        tag = 7;
        tools = record {
          tool_type = "function";
          function = record { name = "f"; description = "" };
        };
      },
    )
    ∷ []

abbrev sunny : ToolMessage
sunny = record { role = "tool"; content = "sunny"; tool_call_id = "c1" }

abbrev kept_answer : AsyncCall
kept_answer = record {
  counter = 0;
  val = ("c1", record { role = ""; content = "sunny"; tool_call_id = "c1" }) ∷ [];
}

abbrev started : Request
started = record {
  cache = ("r", record { counter = 0; val = [] }) ∷ [];
  req_id = "r";
  trans_id = "t";
  phase = firing ((7, one_call) ∷ []);
  sent = [];
  flight = [];
  awaited = 0;
  answered = [];
  taken = 0;
}

abbrev fired : Request
fired = record started {
  phase = adding 7 [];
  sent =
      (
        7,
        record {
          trans_id = "t";
          req_id = "r";
          result_ = "";
          retrieval_result = "";
          arguments = "{}";
          tool_call_id = "c1";
          function_name = "f";
          is_ok = false;
          error_ = "";
        },
      )
      ∷ [];
  flight = one_answer ∷ one_answer ∷ [];
}

abbrev added : Request
added = record fired {
  phase = firing [];
  cache = ("r", record { counter = 1; val = [] }) ∷ [];
  awaited = 1;
}

abbrev received : Request
received = record added {
  phase = waiting;
  cache = ("r", kept_answer) ∷ [];
  flight = one_answer ∷ [];
  answered = "c1" ∷ [];
  taken = 1;
}

abbrev finished : Request
finished = record received { phase = returned (sunny ∷ []) }

fire_step : Step (start [] (one_group ∷ []) "t" "r" []) fired
unfolding start after_fire call_data firings firings_of put delete
fire_step = fire (7, one_call) [] none (one_answer ∷ one_answer ∷ []) refl

add_step : Step fired added
unfolding add_factor sfn_factor put delete get
add_step = add one_register 7 [] refl

receive_step : Step (record added { phase = waiting }) received
unfolding reduce reduce_at add_answer put delete get ◌>>=◌
receive_step = receive [] one_answer (one_answer ∷ []) (("r", kept_answer) ∷ []) (λ q. cc) refl refl

wait_step : Step received finished
unfolding messages get
wait_step = wait refl refl

answered_run : Reach (start [] (one_group ∷ []) "t" "r" []) 5 finished
answered_run =
    next (next (next (next (next here fire_step) add_step) (end_loop refl)) receive_step) wait_step

start-Complete_example : Complete finished (sunny ∷ [])
start-Complete_example = start-Complete [] one_group [] "t" "r" [] (sunny ∷ []) answered_run refl

Reach-bounded_example : 5 + weight (returned (sunny ∷ [])) + 0 ≤ weight started.phase + 1
unfolding start firings firings_of
Reach-bounded_example = Reach-bounded answered_run

returned_crashes_example : (t : Request) × Step finished t × (t.phase ≡ crashed)
returned_crashes_example =
    returned_crashes [] one_group [] "t" "r" [] [] (sunny ∷ []) one_answer answered_run refl refl
      refl

-- A JSON library that knows two calls: the one that is sent, and its answer.
abbrev sent_call : FunctionCall
sent_call = record {
  trans_id = "t";
  req_id = "r";
  result_ = "";
  retrieval_result = "";
  arguments = "{}";
  tool_call_id = "c1";
  function_name = "f";
  is_ok = false;
  error_ = "";
}

String-discrete : Discrete String
String-discrete a b = elim (Bool-cases (a == b)) [
  | inl e ↦ yes ((same_iff a b).0 e)
  | inr n ↦ no (λ p. ground (arith, n, (same_iff a b).1 p))
]

FunctionCall-discrete : Discrete FunctionCall
FunctionCall-discrete = hlevel (String-discrete)

marshal_by : {f : FunctionCall} → Dec (f ≡ sent_call) → Dec (f ≡ one_answer) → Result Bytes
marshal_by (yes p) d = ok (1 ∷ [])
marshal_by (no n) (yes p) = ok (2 ∷ [])
marshal_by (no n) (no m) = err (plain "unknown")

unmarshal_two : Bytes → Result FunctionCall
unmarshal_two [] = err (plain "no JSON")
unmarshal_two (b ∷ bs) = ok (if b == 1 then sent_call else one_answer)

unmarshal-marshal_by :
    (f : FunctionCall) (b : Bytes) (d : Dec (f ≡ sent_call)) (d' : Dec (f ≡ one_answer))
    → marshal_by d d' ≡ ok b
    → unmarshal_two b ≡ ok f
unfolding marshal_by unmarshal_two
unmarshal-marshal_by f b (yes p) d' h =
    let e : 1 ∷ [] ≡ b = ground (arith, h) in subst (λ x. unmarshal_two x ≡ ok f) e (ap ok (sym p))
unmarshal-marshal_by f b (no n) (yes p) h =
    let e : 2 ∷ [] ≡ b = ground (arith, h) in subst (λ x. unmarshal_two x ≡ ok f) e (ap ok (sym p))
unmarshal-marshal_by f b (no n) (no m) h = cc

abbrev two_calls : Json
two_calls = record {
  marshal =
      λ f. marshal_by (FunctionCall-discrete f sent_call) (FunctionCall-discrete f one_answer);
  unmarshal = unmarshal_two;
  unmarshal-marshal = λ f b h.
      unmarshal-marshal_by f b (FunctionCall-discrete f sent_call)
        (FunctionCall-discrete f one_answer) h;
}

marshal_by-sent :
    (d : Dec (sent_call ≡ sent_call)) (d' : Dec (sent_call ≡ one_answer))
    → marshal_by d d' ≡ ok (1 ∷ [])
unfolding marshal_by
marshal_by-sent (yes p) d' = refl
marshal_by-sent (no n) d' = absurd (n refl)

marshal_by-answer :
    (d : Dec (one_answer ≡ sent_call)) (d' : Dec (one_answer ≡ one_answer))
    → marshal_by d d' ≡ ok (2 ∷ [])
unfolding marshal_by
marshal_by-answer (yes p) d' = absurd (ground (arith, ap (λ (f : FunctionCall). f.is_ok) p))
marshal_by-answer (no n) (yes p) = refl
marshal_by-answer (no n) (no m) = absurd (m refl)

sent_bytes : bytes two_calls (call_data one_call "t" "r") ≡ ok (1 ∷ [])
unfolding bytes call_data
sent_bytes = marshal_by-sent _ _

abbrev called : LlmContext
called = record {
  context = record plain_context { md = sent; data_ = 1 ∷ [] };
  fn_call = none;
  nil_data = false;
}

abbrev reducing : LlmContext
reducing = record {
  context = record plain_context { data_ = 2 ∷ [] };
  fn_call = none;
  nil_data = false;
}

abbrev answer_frame : DataFrame
answer_frame = record { metadata = 131 ∷ []; tag = reducer_tag; payload = 2 ∷ [] }

answer_bytes : bytes two_calls one_answer ≡ ok (2 ∷ [])
unfolding bytes
answer_bytes = marshal_by-answer _ _

answer_written :
    frame_of
      (write_llm_result two_calls
        (read_llm_arguments two_calls called (λ s. none) true).0
        taken
        "sunny").1
    ≡ some answer_frame
unfolding write_llm_result read_llm_arguments from_bytes read_call write_call send_result assign
    assign_read unmarshal_two write unless_reserved send is_reserved_tag encode write_frame
    block_write_frame
answer_written = rw answer_bytes refl

write_llm_result-read_llm_function_call_example :
    (answer_frame.tag ≡ reducer_tag)
    × (read_llm_function_call two_calls reducing no_call
        ≡ ok (answered (call_data one_call "t" "r") "sunny"))
write_llm_result-read_llm_function_call_example =
    write_llm_result-read_llm_function_call two_calls one_call "t" "r" called reducing (λ s. none)
      true taken "sunny" answer_frame sent_bytes answer_written refl refl
