-- ===== src/Examples/Completions.antt =====
-- A service with one function, and a model that calls it.
use yomo.Common.{
  ◌+◌, String, ◌≡◌, refl, ap, ◌∙◌, true, false, some, [], ◌∷◌, ◌++◌, map, arith, nat_key,
  string_key, same_iff, is_some,
}
use yomo.Errors.{ok}
use yomo.Try.{returns}
use yomo.Frame.{Tag}
use yomo.GoMap.{GoMap, get, put, delete, IsMap}
use yomo.Register.{Register, Tool, fill, list_tool_calls, sfn_factor}
use yomo.Register.Factor.{offers}
use yomo.Metadata.{made, lookup, set, set_entry, set_all, clone}
use yomo.Connection.{Connection, client_type_stream_function}
use yomo.Server.Handshake.{function_definition_key}
use yomo.Ai.{FunctionDefinition, ToolCall, Request, Choice, Response, InvokeResponse}
use yomo.Ai.Convert.{
  is_stop, calls_at, matching, group_calls, add_matches, add_call, plain_response, with_calls,
  convert_choice, convert_to_invoke_response,
}
use yomo.Ai.Convert.Groups.{convert_to_invoke_response-calls_at}
use yomo.Ai.Prompt.{over_write_system_prompt, add_tools_to_request, prepare_tool_calls, with_tools}
use yomo.Ai.Prompt.System.{Prompted, over_write_system_prompt-Prompted}
use yomo.Ai.Complete.{
  Provider, Service, chunk, event_headers, done_event, flush, run_function_calls,
}
use yomo.Ai.Complete.Chat.{first_request, get_chat_completions}
use yomo.Ai.Complete.Asks.{all_passed, get_chat_completions-plain}
use yomo.Ai.Complete.Invoke.{first_invoke_request, get_invoke, request_of}
use yomo.Ai.Complete.Invoked.{second_messages, get_invoke-second_messages}
use yomo.Ai.Middleware.{
  register_tags, register_tags-last, conn_middleware, conn_middleware-AbsentIn, AbsentIn,
}

abbrev weather : FunctionDefinition
weather = record { name = "weather"; description = "the weather" }

abbrev weather_tool : Tool FunctionDefinition
weather_tool = record { tool_type = "function"; function = weather }

abbrev one_tool : GoMap Tag (Tool FunctionDefinition)
one_tool = (7, weather_tool) ∷ []

abbrev weather_call : ToolCall
weather_call = record {
  id = "c1";
  call_type = "function";
  function_name = "weather";
  arguments = "{}";
}

abbrev asks_weather : Choice
asks_weather = record {
  message = record {
    role = "assistant";
    content = "";
    tool_calls = weather_call ∷ [];
    tool_call_id = "";
  };
  finish_reason = "tool_calls";
}

abbrev weather_response : Response
weather_response = record {
  choices = asks_weather ∷ [];
  usage = record { prompt_tokens = 1; completion_tokens = 2 };
}

abbrev weather_invoke : InvokeResponse
weather_invoke = record {
  content = "";
  tool_calls = (7, weather_call ∷ []) ∷ [];
  tool_messages = [];
  finish_reason = "tool_calls";
  token_usage = record { prompt_tokens = 1; completion_tokens = 2 };
  assistant_message = some asks_weather.message;
}

one_tool-IsMap : IsMap one_tool
unfolding get
one_tool-IsMap = (refl, tt)

not_stop : is_stop "tool_calls" ≡ false
unfolding is_stop
not_stop = refl

weather_converted : convert_to_invoke_response weather_response one_tool ≡ returns weather_invoke
unfolding convert_to_invoke_response convert_choice is_stop plain_response with_calls group_calls
    add_matches add_call put get delete
weather_converted = refl

convert_to_invoke_response-calls_at_example :
    calls_at weather_invoke.tool_calls 7
    ≡ matching false (get one_tool 7) asks_weather.message.tool_calls
convert_to_invoke_response-calls_at_example =
    convert_to_invoke_response-calls_at weather_response asks_weather [] one_tool weather_invoke 7
      one_tool-IsMap refl not_stop weather_converted

abbrev hello : Request
hello = record {
  messages = record { role = "user"; content = "hello"; tool_calls = []; tool_call_id = "" } ∷ [];
  tools = [];
  streaming = false;
}

over_write_system_prompt-Prompted_example :
    Prompted hello.messages (over_write_system_prompt hello "be kind").messages "be kind"
over_write_system_prompt-Prompted_example =
    over_write_system_prompt-Prompted hello "be kind"
      (λ e. ground (arith, same_iff {K = String} "be kind" "", e))

abbrev weather_register : Register FunctionDefinition
weather_register = (1, record { conn_id = 1; tag = 7; tools = weather_tool }) ∷ []

abbrev weather_provider : Provider
weather_provider = record {
  name = "openai";
  chat = λ n req. ok weather_response;
  stream = λ n req. ok (map chunk []);
}

abbrev weather_service : Service
weather_service = record {
  register = weather_register;
  provider = weather_provider;
  system_prompt = "";
  gather = λ fns. record { role = "tool"; content = "sunny"; tool_call_id = "c1" } ∷ [];
}

abbrev hello_stream : Request
hello_stream = record {
  messages = record { role = "user"; content = "hello"; tool_calls = []; tool_call_id = "" } ∷ [];
  tools = [];
  streaming = true;
}

streams : (first_request weather_service hello_stream).streaming ≡ true
unfolding first_request over_write_system_prompt add_tools_to_request with_tools prepare_tool_calls
    list_tool_calls fill put delete
streams = refl

get_chat_completions-plain_example : get_chat_completions weather_service hello_stream ≡ (record {
  output = event_headers ∷ all_passed [] ++ done_event ∷ flush ∷ [];
  asked = first_request weather_service hello_stream ∷ [];
  result = returns tt;
})
get_chat_completions-plain_example =
    get_chat_completions-plain weather_service hello_stream [] streams refl tt

registered_tool : list_tool_calls weather_register ≡ one_tool
unfolding list_tool_calls fill put delete
registered_tool = refl

weather_converted_registered :
    convert_to_invoke_response weather_response (list_tool_calls weather_register)
    ≡ returns weather_invoke
weather_converted_registered =
    ap (convert_to_invoke_response weather_response) registered_tool ∙ weather_converted

get_invoke-second_messages_example :
    (get_invoke weather_service "hello" "be kind" true).asked
    ≡ first_invoke_request weather_service "hello" "be kind" true (list_tool_calls weather_register)
      ∷ request_of (
          second_messages "hello" "be kind" asks_weather.message
            (run_function_calls weather_service weather_invoke.tool_calls))
      ∷ []
get_invoke-second_messages_example =
    get_invoke-second_messages weather_service "hello" "be kind" true weather_response asks_weather
      [] weather_invoke refl refl refl weather_converted_registered

weather_register-IsMap : IsMap weather_register
unfolding get
weather_register-IsMap = (refl, tt)

register_tags-last_example :
    sfn_factor (register_tags weather_register (8 ∷ 9 ∷ []) 2 (ok weather)) 8
      + offers (get weather_register 2) 8
    ≡ sfn_factor weather_register 8 + 0
register_tags-last_example =
    register_tags-last weather_register (8 ∷ []) 9 2 weather 8 weather_register-IsMap

abbrev weather_connection : Connection
weather_connection = record {
  id = 2;
  name = "weather";
  client_id = "w";
  client_type = client_type_stream_function;
  metadata = made ((function_definition_key, "{}") ∷ []);
  observe_data_tags = 8 ∷ [];
  fconn = 2;
}

defined : lookup (clone weather_connection.metadata) function_definition_key ≡ some "{}"
unfolding lookup clone set_all set_entry get put delete
defined = refl

settable : is_some (set weather_connection.metadata function_definition_key "") ≡ true
unfolding set
settable = refl

conn_middleware-AbsentIn_example :
    AbsentIn 2 (conn_middleware (λ s. ok weather) (λ conn r. r) weather_connection weather_register)
conn_middleware-AbsentIn_example =
    conn_middleware-AbsentIn (λ s. ok weather) (λ conn r. r) weather_connection "{}"
      weather_register defined settable
