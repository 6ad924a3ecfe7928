-- ===== src/Ai/Api/Replies.antt =====
-- The status and the type of a reply.
use yomo.Common.{
  if◌then◌else◌, ℕ, ◌≡◌, false, Option, none, some, List, [], ◌∷◌, arith, ◌==◌, nat_key, string_key,
}
use yomo.Errors.{Error, Result, message, ok, err}
use yomo.Try.{Try, returns, fails, panics, tried}
use yomo.GoMap.{GoMap}
use yomo.Frame.{Tag}
use yomo.Register.{Tool, list_tool_calls}
use yomo.Ai.{FunctionDefinition, Request, Response, Choice}
use yomo.Ai.Complete.{Output, json_response, Outcome, Service}
use yomo.Ai.Complete.Asks.{second_of}
use yomo.Ai.Complete.Chat.{tool_calls_reason, first_request}
use yomo.Ai.Api.{
  Writer, api_error, output_body, set_content_type, commit, write_header, write_body,
  respond_with_error,
}

-- An error that is the first thing written is sent with its status, but with the content type that
-- was set before: the one set by RespondWithError comes after the header was sent.
pub respond_with_error-sent :
    (w : Writer) (code : ℕ) (e : Error)
    → w.sent_status ≡ none
    → ((respond_with_error w code e).sent_status ≡ some code)
      × ((respond_with_error w code e).sent_type ≡ w.set_type)
unfolding respond_with_error write_body write_header set_content_type commit
respond_with_error-sent w code e h = (ground (arith, h), ground (arith, h))

-- What a completion without a stream says in the end: the response to the second request, where the
-- first choice of the first response ends with tool calls, or else the first response.
unfoldable pub said_by : Service → Request → Response → List Choice → Try Response
said_by s req resp [] = panics
said_by s req resp (choice ∷ others) =
    if choice.finish_reason == tool_calls_reason
    then tried (s.provider.chat 1 (second_of s (list_tool_calls s.register) req choice.message))
    else returns resp

unfoldable pub said_to : Service → Request → Result Response → Try Response
said_to s req (err e) = fails e
said_to s req (ok resp) = said_by s req resp resp.choices

-- a request that cannot be decoded is an error
unfoldable pub said : Service → Result Request → Try Response
said s (err e) = fails e
said s (ok req) = said_to s (first_request s req) (s.provider.chat 0 (first_request s req))

-- The one reply with a response, or with an error; the type of an error's reply is set too late.
unfoldable pub reply_of : Try Response → Option Writer
reply_of (returns r) = some (record {
  sent_status = some 200;
  sent_type = "application/json";
  set_type = "application/json";
  bodies = output_body (json_response r) ∷ [];
})
reply_of (fails e) = some (record {
  sent_status = some 400;
  sent_type = "";
  set_type = "application/json";
  bodies = api_error 400 (message e) ∷ [];
})
reply_of panics = none

-- An outcome that writes nothing but the response that is said.
abbrev written : Try Response → List Output
written (returns r) = json_response r ∷ []
written (fails e) = []
written panics = []

abbrev finished : Try Response → Try (Unit {0})
finished (returns r) = returns tt
finished (fails e) = fails e
finished panics = panics

abbrev Says : Outcome (Unit {0}) → Try Response → Type 0
Says o t = (o.output ≡ written t) × (o.result ≡ finished t)

module _ (s : Service) (req : Request) (b : req.streaming ≡ false) where
  abbrev tools : GoMap Tag (Tool FunctionDefinition)
  tools = list_tool_calls s.register

-- The request that was decoded does not ask for a stream.
abbrev pub NotStreamed : Service → Result Request → Type 0
NotStreamed s (err e) = Unit
NotStreamed s (ok req) = (first_request s req).streaming ≡ false
