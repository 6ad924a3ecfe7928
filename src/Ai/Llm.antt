-- ===== src/Ai/Llm.antt =====
-- core/serverless/context_llm.go, and Bytes and FromBytes of ai/function_call.go: what a function that
-- a model calls reads of its call, and the answer that it writes.
pub mod Answers
use yomo.Common.{
  String, ◌≡◌, Bool, true, false, ◌&&◌, Option, none, some, ◌==◌, nat_key, string_key,
  if◌then◌else◌,
}
use yomo.Errors.{Error, Result, plain, ok, err}
use yomo.Frame.{Bytes}
use yomo.Client.{Choice}
use yomo.Serverless.{Context, Written, failed, write}
use yomo.Ai.{FunctionCall, reducer_tag}

-- encoding/json on function calls, as the code uses it: what is written can be read back.
pub record Json : Type 0 where
  pub marshal : FunctionCall → Result Bytes
  pub unmarshal : Bytes → Result FunctionCall
  pub unmarshal-marshal : (f : FunctionCall) (b : Bytes) → marshal f ≡ ok b → unmarshal b ≡ ok f

-- the zero value
abbrev pub no_call : FunctionCall
no_call = record {
  trans_id = "";
  req_id = "";
  result_ = "";
  retrieval_result = "";
  arguments = "";
  tool_call_id = "";
  function_name = "";
  is_ok = false;
  error_ = "";
}

-- A serverless context with its fnCall; `nil_data` tells whether its data is a nil slice.
pub record LlmContext : Type 0 where
  pub context : Context
  pub fn_call : Option FunctionCall
  pub nil_data : Bool

-- the assignments of FromBytes
unfoldable pub assign : FunctionCall → FunctionCall → FunctionCall
assign fco obj = record fco {
  trans_id = obj.trans_id;
  req_id = obj.req_id;
  arguments = obj.arguments;
  function_name = obj.function_name;
  tool_call_id = obj.tool_call_id;
  result_ = obj.result_;
  retrieval_result = obj.retrieval_result;
  is_ok = obj.is_ok;
}

unfoldable pub assign_read : FunctionCall → Result FunctionCall → Result FunctionCall
assign_read fco (err e) = err e
assign_read fco (ok obj) = ok (assign fco obj)

module _ (json : Json) where
  -- fco.Bytes()
  unfoldable pub bytes : FunctionCall → Result Bytes
  bytes fco = json.marshal fco

  -- fco.FromBytes(b)
  unfoldable pub from_bytes : FunctionCall → Bytes → Result FunctionCall
  from_bytes fco b = assign_read fco (json.unmarshal b)

  -- what follows FromBytes; `parse` is json.Unmarshal into the given object
  unfoldable pub read_call :
      LlmContext → (String → Option Error) → Bool → Result FunctionCall → LlmContext × Option Error
  read_call c parse has_args (err e) = (c, some e)
  read_call c parse has_args (ok call) = (
    record c { fn_call = some call },
    if call.arguments == "" && has_args
        then some (plain "function arguments is empty, can't read to the given object")
        else parse call.arguments,
  )

  -- ReadLLMArguments(args)
  unfoldable pub read_llm_arguments :
      LlmContext → (String → Option Error) → Bool → LlmContext × Option Error
  read_llm_arguments c parse has_args =
      read_call c parse has_args (from_bytes no_call c.context.data_)

  -- buf, err := c.fnCall.Bytes(), and the Write
  unfoldable pub send_result : LlmContext → Choice → Result Bytes → LlmContext × Written
  send_result c choice (err e) = (c, failed e)
  send_result c choice (ok b) =
      let (context, written) = write c.context choice reducer_tag (some b) in
      (record c { context = context }, written)

  unfoldable pub write_call :
      LlmContext → Option FunctionCall → Choice → String → LlmContext × Written
  write_call c none choice result = (c, failed (plain "no function call, can't write result"))
  write_call c (some call) choice result =
      let call' = record call { is_ok = true; result_ = result } in
      send_result (record c { fn_call = some call' }) choice (bytes call')

  -- WriteLLMResult(result)
  unfoldable pub write_llm_result : LlmContext → Choice → String → LlmContext × Written
  write_llm_result c choice result = write_call c c.fn_call choice result

  -- ReadLLMFunctionCall(fnCall), whose argument is an *ai.FunctionCall wherever the code calls it
  unfoldable pub read_llm_function_call : LlmContext → FunctionCall → Result FunctionCall
  read_llm_function_call c fco =
      if c.nil_data then err (plain "ctx.Data() is nil") else from_bytes fco c.context.data_
