-- ===== src/Wasm/Served.antt =====
-- cli/serverless/wasm/serverless.go: a module that is run as a stream function.
use yomo.Common.{String, Option, none, some, List}
use yomo.Errors.{Error}
use yomo.Frame.{Tag}
use yomo.Client.{Client}
use yomo.Client.Connect.{Attempt}
use yomo.Serverless.{Context, Call}
use yomo.Sfn.{
  Connected, new_stream_function, set_observed_tags, want_target, set_handler,
  set_sfn_error_handler, connect_sfn,
}

-- What the runtime gave when the module was loaded, what RunInit returns, and the calls that
-- RunHandler makes on a context.
pub record WasmServerless : Type 0 where
  pub observed : List Tag
  pub wanted_target : String
  pub init_result : Option Error
  pub run_handler : Context → List Call

pub data WasmRun : Type 0 where
  not_initialized : Error → WasmRun
  connecting : Connected → WasmRun

unfoldable pub after_init : Client → WasmServerless → List Attempt → Option Error → WasmRun
after_init c s attempts (some e) = not_initialized e
after_init c s attempts none =
    let observing = set_observed_tags (new_stream_function c) s.observed in
    let wanting = want_target observing s.wanted_target in
    connecting (connect_sfn (set_sfn_error_handler (set_handler wanting s.run_handler)) attempts)

-- Run(verbose), up to its Wait, of the client that core.NewClient makes
unfoldable pub run_wasm : Client → WasmServerless → List Attempt → WasmRun
run_wasm c s attempts = after_init c s attempts s.init_result
