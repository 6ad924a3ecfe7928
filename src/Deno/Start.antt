-- ===== src/Deno/Start.antt =====
-- cli/serverless/deno/runtime.go: the stream function of a script.
use yomo.Common.{suc, some, List, map, length}
use yomo.Frame.{Bytes, Tag}
use yomo.Client.{Client, Choice}
use yomo.Client.Connect.{Attempt}
use yomo.Serverless.{Context, Call, call_write}
use yomo.Sfn.{
  Connected, new_stream_function, set_observed_tags, set_handler, set_sfn_error_handler,
  connect_sfn,
}
use yomo.Deno.{read_replies}

-- the calls of the handler, for what the script sends in answer to its request
unfoldable pub calls_of : Choice → Bytes → List Call
calls_of choice s =
    map (λ m. call_write choice m.0 (some m.1)) (read_replies (suc (length s)) s).calls

-- startSfn(...), of the client that core.NewClient makes; `answer` is what the script sends for a frame
unfoldable pub start_sfn : Client → List Tag → Choice → (Context → Bytes) → List Attempt → Connected
start_sfn c observed choice answer attempts =
    let observing = set_observed_tags (new_stream_function c) observed in
    let handling = set_handler observing (λ ctx. calls_of choice (answer ctx)) in
    connect_sfn (set_sfn_error_handler handling) attempts
