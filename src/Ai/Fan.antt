-- ===== src/Ai/Fan.antt =====
-- pkg/bridge/ai/service.go: the handler of the reducer, runFunctionCalls and the WaitGroup between
-- them. The goroutine of a request and those of the reducer's handler interleave as steps.
pub mod Balance
pub mod Turns
pub mod Crashes
use yomo.Common.{
  ℕ, suc, ◌+◌, ◌-◌, String, ◌≡◌, ◌≢◌, false, Option, none, some, List, [], ◌∷◌, ◌++◌, ◌==◌, nat_key,
  string_key, if◌then◌else◌,
}
use yomo.Errors.{Error, Result, ok, err}
use yomo.Try.{Try, returns, panics, ◌>>=◌}
use yomo.Frame.{Tag}
use yomo.GoMap.{GoMap, get, put}
use yomo.Register.{Register, sfn_factor}
use yomo.Ai.{FunctionDefinition, ToolCall, ToolMessage, FunctionCall}

-- sfnAsyncCall: the counter of its WaitGroup and its map
pub record AsyncCall : Type 0 where
  pub counter : ℕ
  pub val : GoMap String ToolMessage

-- s.sfnCallCache; the pointer that a request holds is the entry of its own identifier
abbrev pub CallCache : Type 0
CallCache = GoMap String AsyncCall

abbrev answer_message : FunctionCall → ToolMessage
answer_message invoke = record {
  role = "";
  content = invoke.result_;
  tool_call_id = invoke.tool_call_id;
}

-- c.val[...] = ..., and c.wg.Done(), which panics where the counter is zero
unfoldable pub add_answer : AsyncCall → FunctionCall → Try AsyncCall
add_answer c invoke =
    if c.counter == 0
    then panics
    else returns (record {
      counter = c.counter - 1;
      val = put c.val invoke.tool_call_id (answer_message invoke);
    })

-- c, ok := s.sfnCallCache[reqID]
unfoldable pub reduce_at : CallCache → Option AsyncCall → FunctionCall → Try CallCache
reduce_at cache none invoke = returns cache
reduce_at cache (some c) invoke = add_answer c invoke >>= λ c'. returns (put cache invoke.req_id c')

-- the handler of the reducer, by what ReadLLMFunctionCall returns
unfoldable pub reduce : CallCache → Result FunctionCall → Try CallCache
reduce cache (err e) = returns cache
reduce cache (ok invoke) = reduce_at cache (get cache invoke.req_id) invoke

-- the data of fireLlmSfn
unfoldable pub call_data : ToolCall → String → String → FunctionCall
call_data fn trans_id req_id = record {
  trans_id = trans_id;
  req_id = req_id;
  result_ = "";
  retrieval_result = "";
  arguments = fn.arguments;
  tool_call_id = fn.id;
  function_name = fn.function_name;
  is_ok = false;
  error_ = "";
}

abbrev pub Firing : Type 0
Firing = Tag × ToolCall

-- the two loops over the calls, in their order
unfoldable pub firings_of : Tag → List ToolCall → List Firing → List Firing
firings_of tag [] others = others
firings_of tag (fn ∷ tcs) others = (tag, fn) ∷ firings_of tag tcs others

unfoldable pub firings : GoMap Tag (List ToolCall) → List Firing
firings [] = []
firings ((tag, tcs) ∷ fns) = firings_of tag tcs (firings fns)

-- Where the goroutine of a request stands: before a call, between its Write and its Add, at Wait,
-- returned, or with the whole process gone by a panic.
pub data Phase : Type 0 where
  firing : List Firing → Phase
  adding : Tag → List Firing → Phase
  waiting : Phase
  returned : List ToolMessage → Phase
  crashed : Phase

-- A request; `sent` is what went to the zipper, `flight` the answers that are on their way,
-- `awaited` the sum of what was added, `answered` the calls whose answers have come in, and `taken`
-- the number of all answers that the reducer took.
pub record Request : Type 0 where
  pub cache : CallCache
  pub req_id : String
  pub trans_id : String
  pub phase : Phase
  pub sent : List (Tag × FunctionCall)
  pub flight : List FunctionCall
  pub awaited : ℕ
  pub answered : List String
  pub taken : ℕ

-- if len(fns) == 0 { return nil, nil }, and the new entry of the cache
unfoldable pub start :
    CallCache → GoMap Tag (List ToolCall) → String → String → List FunctionCall → Request
start cache [] trans_id req_id flight = record {
  cache = cache;
  req_id = req_id;
  trans_id = trans_id;
  phase = returned [];
  sent = [];
  flight = flight;
  awaited = 0;
  answered = [];
  taken = 0;
}
start cache (f ∷ fns) trans_id req_id flight = record {
  cache = put cache req_id (record { counter = 0; val = [] });
  req_id = req_id;
  trans_id = trans_id;
  phase = firing (firings (f ∷ fns));
  sent = [];
  flight = flight;
  awaited = 0;
  answered = [];
  taken = 0;
}

-- after fireLlmSfn: `continue`, or on to Add; an answer may be on its way by then
unfoldable pub after_fire :
    Request → Option Error → Firing → List Firing → List FunctionCall → Request
after_fire s (some e) (tag, fn) rest answers = record s { phase = firing rest }
after_fire s none (tag, fn) rest answers = record s {
  phase = adding tag rest;
  sent = s.sent ++ (tag, call_data fn s.trans_id s.req_id) ∷ [];
  flight = s.flight ++ answers;
}

abbrev pub call_at : Option AsyncCall → AsyncCall
call_at none = record { counter = 0; val = [] }
call_at (some c) = c

-- the entry that the request holds
abbrev pub own : Request → AsyncCall
own s = call_at (get s.cache s.req_id)

-- asyncCall.wg.Add(1 * register.SfnFactor(tag, s.Metadata))
unfoldable pub add_factor : Request → ℕ → List Firing → Request
add_factor s n rest = record s {
  phase = firing rest;
  cache = put s.cache s.req_id (record { counter = (own s).counter + n; val = (own s).val });
  awaited = s.awaited + n;
}

-- the loop over asyncCall.val
unfoldable pub messages : GoMap String ToolMessage → List ToolMessage
messages [] = []
messages ((k, call) ∷ val) = record call { role = "tool" } ∷ messages val

-- what has been answered, once the reducer took an answer
abbrev pub note_answer : Request → FunctionCall → List String
note_answer s invoke =
    if invoke.req_id == s.req_id then invoke.tool_call_id ∷ s.answered else s.answered

pub data Step (s : Request) : Request → Type 0 where
  fire :
      (f : Firing) (rest : List Firing) (write : Option Error) (answers : List FunctionCall)
      → s.phase ≡ firing (f ∷ rest)
      → Step s (after_fire s write f rest answers)
  add :
      (r : Register FunctionDefinition) (tag : Tag) (rest : List Firing)
      → s.phase ≡ adding tag rest
      → Step s (add_factor s (sfn_factor r tag) rest)
  end_loop : s.phase ≡ firing [] → Step s (record s { phase = waiting })
  wait :
      s.phase ≡ waiting
      → (own s).counter ≡ 0
      → Step s (record s { phase = returned (messages (own s).val) })
  receive :
      (before : List FunctionCall) (invoke : FunctionCall) (after : List FunctionCall)
      (cache : CallCache)
      → s.phase ≢ crashed
      → s.flight ≡ before ++ invoke ∷ after
      → reduce s.cache (ok invoke) ≡ returns cache
      → Step s (record s {
        cache = cache;
        flight = before ++ after;
        answered = note_answer s invoke;
        taken = s.taken + 1;
      })
  crash :
      (before : List FunctionCall) (invoke : FunctionCall) (after : List FunctionCall)
      → s.phase ≢ crashed
      → s.flight ≡ before ++ invoke ∷ after
      → reduce s.cache (ok invoke) ≡ panics
      → Step s (record s { phase = crashed })

-- A run, with the number of its steps.
pub data Reach (s : Request) : ℕ → Request → Type 0 where
  here : Reach s 0 s
  next : {n : ℕ} {t u : Request} → Reach s n t → Step t u → Reach s (suc n) u
