-- ===== src/Ai/Api.antt =====
-- pkg/bridge/ai/api_server.go: the handlers of the HTTP interface over a ResponseWriter. Deadlines and
-- the encoding of bodies are not modelled.
pub mod Replies
use yomo.Common.{
  ℕ, String, Bool, true, false, Option, none, some, List, [], ◌∷◌, ◌++◌, nat_key, string_key,
}
use yomo.Errors.{Error, Result, message, ok, err}
use yomo.Try.{Try, returns, fails, panics}
use yomo.Frame.{Tag}
use yomo.GoMap.{GoMap}
use yomo.Ai.{FunctionDefinition, Request, InvokeResponse}
use yomo.Ai.Complete.{
  Output, event_headers, event, done_event, flush, json_response, Service, get_overview,
}
use yomo.Ai.Complete.Chat.{get_chat_completions}
use yomo.Ai.Complete.Invoke.{get_invoke}

-- What is written as a body.
pub data Body : Type 0 where
  error_json : String → Body
  api_error : ℕ → String → Body
  overview_json : GoMap Tag FunctionDefinition → Body
  invoke_json : InvokeResponse → Body
  output_body : Output → Body

-- http.ResponseWriter: the status and the content type that were sent, which the first write of a
-- header or of a body fixes, the content type that is set, and the bodies.
pub record Writer : Type 0 where
  pub sent_status : Option ℕ
  pub sent_type : String
  pub set_type : String
  pub bodies : List Body

abbrev pub new_writer : Writer
new_writer = record { sent_status = none; sent_type = ""; set_type = ""; bodies = [] }

-- w.Header().Set("Content-Type", t)
unfoldable pub set_content_type : Writer → String → Writer
set_content_type w t = record w { set_type = t }

unfoldable pub commit : Writer → Option ℕ → ℕ → Writer
commit w none code = record w { sent_status = some code; sent_type = w.set_type }
commit w (some sent) code = w

-- w.WriteHeader(code), which is ignored once a header was sent
unfoldable pub write_header : Writer → ℕ → Writer
write_header w code = commit w w.sent_status code

-- a write of a body, which sends the status 200 if none was sent
unfoldable pub write_body : Writer → Body → Writer
write_body w b = let w' = write_header w 200 in record w' { bodies = w'.bodies ++ b ∷ [] }

-- the writes of a completion
unfoldable pub write_output : Writer → Output → Writer
write_output w event_headers = set_content_type w "text/event-stream"
write_output w flush = write_header w 200
write_output w (event c) = write_body w (output_body (event c))
write_output w done_event = write_body w (output_body done_event)
write_output w (json_response r) =
    write_body (set_content_type w "application/json") (output_body (json_response r))

unfoldable pub write_outputs : Writer → List Output → Writer
write_outputs w [] = w
write_outputs w (o ∷ os) = write_outputs (write_output w o) os

-- RespondWithError(w, code, err)
unfoldable pub respond_with_error : Writer → ℕ → Error → Writer
respond_with_error w code e =
    write_body (set_content_type (write_header w code) "application/json")
      (api_error code (message e))

-- the error branch of WithContextService, for every request
unfoldable pub handle_unavailable : Writer → Error → Writer
handle_unavailable w e = write_body (write_header w 500) (error_json (message e))

-- HandleOverview(w, r); the error of GetOverview is nil
unfoldable pub handle_overview : Service → Writer → Writer
handle_overview s w =
    write_body (write_header (set_content_type w "application/json") 200)
      (overview_json (get_overview s))

abbrev pub base_system_message : String
base_system_message =
    "You are a very helpful assistant. Your job is to choose the best possible action to solve the user question or task. Don't make assumptions about what values to plug into functions. Ask for clarification if a user request is ambiguous."

-- ai.InvokeRequest
pub record InvokeRequest : Type 0 where
  pub prompt : String
  pub include_call_stack : Bool

-- The three cases of the select: the response, the error, or the end of the context's time, which may
-- come first. A panic in the goroutine of the call ends the process.
pub data Selected : Type 0 where
  responded : InvokeResponse → Selected
  errored : Error → Selected
  timed_out : Selected
  gone : Selected

unfoldable pub selected : Bool → Try InvokeResponse → Selected
selected true r = timed_out
selected false (returns res) = responded res
selected false (fails e) = errored e
selected false panics = gone

unfoldable pub reply_invoke : Writer → Selected → Option Writer
reply_invoke w (responded res) = some (write_body (write_header w 200) (invoke_json res))
reply_invoke w (errored e) = some (write_body (write_header w 500) (error_json (message e)))
reply_invoke w timed_out = some (write_body (write_header w 408) (error_json "request timed out"))
reply_invoke w gone = none

-- HandleInvoke(w, r), by what the decoder returns; `late` tells whether the time ran out first
unfoldable pub handle_invoke : Service → Writer → Result InvokeRequest → Bool → Option Writer
handle_invoke s w (err e) late = some (write_body (write_header w 400) (error_json (message e)))
handle_invoke s w (ok req) late =
    reply_invoke (set_content_type w "application/json")
      (selected late (get_invoke s req.prompt base_system_message req.include_call_stack).result)

unfoldable pub reply_chat : Writer → Try (Unit {0}) → Option Writer
reply_chat w (returns u) = some w
reply_chat w (fails e) = some (respond_with_error w 400 e)
reply_chat w panics = none

-- HandleChatCompletions(w, r), by what the decoder returns; `none` is a panic, which net/http
-- recovers from
unfoldable pub handle_chat_completions : Service → Writer → Result Request → Option Writer
handle_chat_completions s w (err e) = some (respond_with_error w 400 e)
handle_chat_completions s w (ok req) =
    let r = get_chat_completions s req in reply_chat (write_outputs w r.output) r.result
