-- ===== src/Ai/Llm/Answers.antt =====
-- That an answer finds its way back to the request and the call it is for.
use yomo.Common.{
  String, ◌≡◌, refl, sym, ap, ◌∙◌, Bool, true, false, Option, none, some, arith, nat_key,
  string_key,
}
use yomo.Errors.{Error, Result, ok, err}
use yomo.Frame.{Bytes, DataFrame}
use yomo.Client.{Choice}
use yomo.Ai.{FunctionCall, ToolCall, reducer_tag}
use yomo.Serverless.Handed.{frame_of, write-frame_of}
use yomo.Ai.Fan.{call_data}
use yomo.Ai.Llm.{
  Json, LlmContext, no_call, assign, assign_read, bytes, from_bytes, read_call, read_llm_arguments,
  send_result, write_call, write_llm_result, read_llm_function_call,
}

-- What is read of the bytes of a call is the call, but for its error, which FromBytes leaves as it
-- was in the object that it fills.
pub from_bytes-bytes :
    (json : Json) (f g : FunctionCall) (b : Bytes)
    → bytes json f ≡ ok b
    → from_bytes json g b ≡ ok (record f { error_ = g.error_ })
unfolding bytes from_bytes assign_read assign
from_bytes-bytes json f g b h = rw (json.unmarshal-marshal f b h) refl

send_result-frame_of :
    (json : Json) (c : LlmContext) (choice : Choice) (r : Result Bytes) (f : DataFrame)
    → frame_of (send_result json c choice r).1 ≡ some f
    → (f.tag ≡ reducer_tag) × (r ≡ ok f.payload)
unfolding send_result
send_result-frame_of json c choice (err e) f h = (cc, cc)
send_result-frame_of json c choice (ok b) f h =
    let (t, p) = write-frame_of c.context choice reducer_tag b f h in (t, ap ok (sym p))

-- the call with its result
abbrev pub answered : FunctionCall → String → FunctionCall
answered call result = record call { is_ok = true; result_ = result }

write_call-frame_of :
    (json : Json) (c : LlmContext) (o : Option FunctionCall) (call : FunctionCall) (choice : Choice)
    (result : String) (f : DataFrame)
    → o ≡ some call
    → frame_of (write_call json c o choice result).1 ≡ some f
    → (f.tag ≡ reducer_tag) × (bytes json (answered call result) ≡ ok f.payload)
unfolding write_call
write_call-frame_of json c none call choice result f e h = (cc, cc)
write_call-frame_of json c (some x) call choice result f e h =
    let (t, p) = send_result-frame_of json _ choice _ f h in
    let same : x ≡ call = ground (arith, e) in
    (t, ap (λ y. bytes json (answered y result)) (sym same) ∙ p)

fn_call-read_llm_arguments :
    (json : Json) (c : LlmContext) (parse : String → Option Error) (has_args : Bool)
    (call : FunctionCall)
    → bytes json call ≡ ok c.context.data_
    → call.error_ ≡ ""
    → (read_llm_arguments json c parse has_args).0.fn_call ≡ some call
unfolding read_llm_arguments read_call
fn_call-read_llm_arguments json c parse has_args call h e =
    rw (from_bytes-bytes json call no_call c.context.data_ h) (ground (arith, e))

-- A function that is given the data of a call, reads its arguments and writes a result hands over
-- a frame with the tag of the reducer, from whose data the reducer reads that result with the
-- request and the call that the service had sent, whatever came of the arguments.
pub write_llm_result-read_llm_function_call :
    (json : Json) (fn : ToolCall) (trans_id req_id : String) (c d : LlmContext)
    (parse : String → Option Error) (has_args : Bool) (choice : Choice) (result : String)
    (f : DataFrame)
    → bytes json (call_data fn trans_id req_id) ≡ ok c.context.data_
    → frame_of (write_llm_result json (read_llm_arguments json c parse has_args).0 choice result).1
      ≡ some f
    → d.nil_data ≡ false
    → d.context.data_ ≡ f.payload
    → (f.tag ≡ reducer_tag)
      × (read_llm_function_call json d no_call
          ≡ ok (answered (call_data fn trans_id req_id) result))
unfolding write_llm_result read_llm_function_call call_data
write_llm_result-read_llm_function_call json fn trans_id req_id c d parse has_args choice result f b
      w n e =
    let call = call_data fn trans_id req_id in
    let c' = (read_llm_arguments json c parse has_args).0 in
    let (t, p) =
      write_call-frame_of json c' c'.fn_call call choice result f
        (fn_call-read_llm_arguments json c parse has_args call b refl) w in
    (t, rw (n, e) (from_bytes-bytes json (answered call result) no_call f.payload p))
