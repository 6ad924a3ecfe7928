-- ===== src/Sfn.antt =====
-- sfn.go: a stream function, its settings and its Connect. What it does with a frame that arrives is
-- in Serverless.antt.
pub mod Cron
pub mod Pipe
pub mod Connects
use yomo.Common.{
  String, Bool, true, false, not, ◌&&◌, Option, none, some, List, [], ◌∷◌, ◌==◌, nat_key,
  string_key, if◌then◌else◌,
}
use yomo.Errors.{Error, Result, plain, ok, err}
use yomo.Frame.{Tag}
use yomo.Client.{
  Client, Effect, set_wanted_target, set_observe_data_tags, set_error_handler, close, wait,
}
use yomo.Client.Connect.{Attempt}
use yomo.Client.Background.{Progress, Trying, connected, gave_up, trying, connect_loop}
use yomo.Serverless.{Context, Call, Handler, async_handler, pipe_handler, no_handler}

-- streamFunction; the handlers are given by the calls that they make, and `cron_running` and
-- `piping` tell whether the cron and the goroutines of the pipe have been started.
pub record StreamFunction : Type 0 where
  pub client : Client
  pub observe_tags : List Tag
  pub fn : Option (Context → List Call)
  pub has_pfn : Bool
  pub cron_spec : String
  pub has_cron_fn : Bool
  pub cron_running : Bool
  pub observing : Bool
  pub piping : Bool

-- NewStreamFunction(name, zipperAddr, opts...), of the client that core.NewClient makes
unfoldable pub new_stream_function : Client → StreamFunction
new_stream_function c = record {
  client = c;
  observe_tags = [];
  fn = none;
  has_pfn = false;
  cron_spec = "";
  has_cron_fn = false;
  cron_running = false;
  observing = false;
  piping = false;
}

-- SetWantedTarget(target)
unfoldable pub want_target : StreamFunction → String → StreamFunction
want_target s target =
    if target == "" then s else (record s { client = set_wanted_target s.client target })

-- SetObserveDataTags(tag...)
unfoldable pub set_observed_tags : StreamFunction → List Tag → StreamFunction
set_observed_tags s tags = record s {
  observe_tags = tags;
  client = set_observe_data_tags s.client tags;
}

-- SetHandler(fn)
unfoldable pub set_handler : StreamFunction → (Context → List Call) → StreamFunction
set_handler s f = record s { fn = some f }

-- SetCronHandler(cronSpec, fn)
unfoldable pub set_cron_handler : StreamFunction → String → StreamFunction
set_cron_handler s spec = record s { cron_spec = spec; has_cron_fn = true }

-- SetPipeHandler(fn)
unfoldable pub set_pipe_handler : StreamFunction → StreamFunction
set_pipe_handler s = record s { has_pfn = true }

-- SetErrorHandler(fn)
unfoldable pub set_sfn_error_handler : StreamFunction → StreamFunction
set_sfn_error_handler s = record s { client = set_error_handler s.client }

abbrev pub has_cron : StreamFunction → Bool
has_cron s = s.has_cron_fn && not (s.cron_spec == "")

-- the tests of onDataFrame: the async handler comes before the pipe
abbrev pub handler_of : Option (Context → List Call) → Bool → Handler
handler_of (some f) piped = async_handler f
handler_of none true = pipe_handler
handler_of none false = no_handler

-- What Connect comes to: the function, what its client did, and its result, or that it still tries.
pub data Connecting : Type 0 where
  done : Result (Unit {0}) → Connecting
  tries : Connecting

pub record Connected : Type 0 where
  pub function : StreamFunction
  pub effects : List Effect
  pub outcome : Connecting

abbrev pub outcome_of : Progress → Connecting
outcome_of connected = done (ok tt)
outcome_of (gave_up e) = done (err e)
outcome_of trying = tries

-- err := s.client.Connect(ctx)
unfoldable pub connect_client : StreamFunction → Trying → Connected
connect_client s t = record {
  function = record s { client = t.client };
  effects = t.effects;
  outcome = outcome_of t.progress;
}

abbrev pub no_tags : List Tag → Bool
no_tags [] = true
no_tags (t ∷ ts) = false

abbrev pub tag_missing : Error
tag_missing = plain "streamFunction cannot observe data because the required tag has not been set"

-- from SetDataFrameObserver on
abbrev pub connect_observing : StreamFunction → List Attempt → Connected
connect_observing s attempts =
    connect_client (record s { observing = true; piping = s.has_pfn })
      (connect_loop s.client attempts)

-- the tests for a cron and for the tags
unfoldable pub connect_with : StreamFunction → List Attempt → Bool → Bool → Connected
connect_with s attempts true tagless = connect_observing (record s { cron_running = true }) attempts
connect_with s attempts false true = record {
  function = s;
  effects = [];
  outcome = done (err tag_missing);
}
connect_with s attempts false false = connect_observing s attempts

-- Connect(), for the attempts that are given
unfoldable pub connect_sfn : StreamFunction → List Attempt → Connected
connect_sfn s attempts = connect_with s attempts (has_cron s) (no_tags s.observe_tags)

-- Close(), to the point where the client's Close waits: whether that wait is over
unfoldable pub close_sfn : StreamFunction → StreamFunction × Bool
close_sfn s =
    let (c, over) = close s.client in (record s { client = c; cron_running = false }, over)

-- Wait()
unfoldable pub wait_sfn : StreamFunction → Bool
wait_sfn s = wait s.client
