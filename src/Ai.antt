-- ===== src/Ai.antt =====
-- ai/model.go and ai/function_call.go, and of go-openai's records the fields that the code reads.
-- A slice of Go is a list, and the nil slice is the empty one.
pub mod Convert
pub mod Prompt
pub mod Stream
pub mod Fan
pub mod Llm
pub mod Complete
pub mod Providers
pub mod Middleware
pub mod Services
pub mod Api
pub mod Config
use yomo.Common.{ℕ, String, Bool, Option, List, nat_key, string_key}
use yomo.Frame.{Tag}
use yomo.GoMap.{GoMap}
use yomo.Register.{Tool}

-- openai.FunctionDefinition
pub record FunctionDefinition : Type 0 where
  pub name : String
  pub description : String

-- openai.ToolCall with its function
pub record ToolCall : Type 0 where
  pub id : String
  pub call_type : String
  pub function_name : String
  pub arguments : String

-- openai.ChatCompletionMessage
pub record Message : Type 0 where
  pub role : String
  pub content : String
  pub tool_calls : List ToolCall
  pub tool_call_id : String

-- openai.ChatCompletionRequest
pub record Request : Type 0 where
  pub messages : List Message
  pub tools : List (Tool FunctionDefinition)
  pub streaming : Bool

-- openai.ChatCompletionChoice
pub record Choice : Type 0 where
  pub message : Message
  pub finish_reason : String

pub record TokenUsage : Type 0 where
  pub prompt_tokens : ℕ
  pub completion_tokens : ℕ

-- openai.ChatCompletionResponse
pub record Response : Type 0 where
  pub choices : List Choice
  pub usage : TokenUsage

pub record ToolMessage : Type 0 where
  pub role : String
  pub content : String
  pub tool_call_id : String

pub record InvokeResponse : Type 0 where
  pub content : String
  pub tool_calls : GoMap Tag (List ToolCall)
  pub tool_messages : List ToolMessage
  pub finish_reason : String
  pub token_usage : TokenUsage
  pub assistant_message : Option Message

-- The assistant message is an openai.ChatCompletionMessage wherever the code sets one.
pub record ChainMessage : Type 0 where
  pub preceeding_assistant_message : Option Message
  pub tool_messages : List ToolMessage

-- ai.FunctionCall, without the context of the function that answers
pub record FunctionCall : Type 0 where
  pub trans_id : String
  pub req_id : String
  pub result_ : String
  pub retrieval_result : String
  pub arguments : String
  pub tool_call_id : String
  pub function_name : String
  pub is_ok : Bool
  pub error_ : String

abbrev pub reducer_tag : Tag
reducer_tag = 0xE001
