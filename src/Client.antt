-- ===== src/Client.antt =====
-- core/client.go and the options of core/client_options.go: the client's state and the calls that
-- do not wait. Its loops are in the children.
pub mod Connect
pub mod Serve
pub mod Background
pub mod Ends
pub mod Reconnects
pub mod Waits
use Prim.Native.String.{◌++◌ as join, slice}
use yomo.Common.{
  ℕ, zero, suc, ◌/◌, ◌%◌, String, Bool, true, false, ◌||◌, Option, none, some, List, [], ◌∷◌,
  nat_key, string_key, ltb, if◌then◌else◌,
}
use yomo.Auth.{Credential, new_credential}
use yomo.Errors.{Error, plain, Result}
use yomo.Frame.{Frame, DataFrame, Tag}
use yomo.Connection.{client_type_string}

-- fmt's %d of a number of at most that many digits
unfoldable pub decimal : ℕ → ℕ → String
decimal zero n = ""
decimal (suc k) n =
    let high = decimal k (n / 10) in
    if ltb n 10
    then slice "0123456789" n (suc n)
    else join high (slice "0123456789" (n % 10) (suc (n % 10)))

-- clientOptions. The input model is kept as what `parseAIFunctionParameters` and `json.Marshal`
-- make of the definition with it, since both are reflection by other libraries.
pub record ClientOptions : Type 0 where
  pub observe_data_tags : List Tag
  pub credential : Credential
  pub reconnect : Bool
  pub non_block_write : Bool
  pub ai_function_description : String
  pub marshal_definition : String → String → Result String

-- defaultClientOption()
unfoldable pub default_client_option : (String → String → Result String) → ClientOptions
default_client_option marshal = record {
  observe_data_tags = [];
  credential = new_credential "";
  reconnect = false;
  non_block_write = false;
  ai_function_description = "";
  marshal_definition = marshal;
}

-- WithCredential(payload)
unfoldable pub with_credential : String → ClientOptions → ClientOptions
with_credential payload o = record o { credential = new_credential payload }

-- WithReConnect()
unfoldable pub with_reconnect : ClientOptions → ClientOptions
with_reconnect o = record o { reconnect = true }

-- WithNonBlockWrite()
unfoldable pub with_non_block_write : ClientOptions → ClientOptions
with_non_block_write o = record o { non_block_write = true }

-- WithAIFunctionDefinition(description, inputModel)
unfoldable pub with_ai_function_definition :
    String → (String → String → Result String) → ClientOptions → ClientOptions
with_ai_function_definition description marshal o = record o {
  ai_function_description = description;
  marshal_definition = marshal;
}

-- The client. `cause` is the cause its context was cancelled with, `done` and `re_connect` tell
-- whether the channels of those names have been closed, `has_errorfn` whether an error handler
-- is set, and `crashed` whether a closed channel was closed again, which panics in Go.
pub record Client : Type 0 where
  pub zipper_addr : String
  pub name : String
  pub client_id : String
  pub reconn_counter : ℕ
  pub client_type : ℕ
  pub has_errorfn : Bool
  pub wanted_target : String
  pub opts : ClientOptions
  pub cause : Option Error
  pub done : Bool
  pub re_connect : Bool
  pub crashed : Bool

-- NewClient(appName, zipperAddr, clientType, opts...), with the id that `id.New` makes and the
-- options applied in turn
unfoldable pub apply_options : ClientOptions → List (ClientOptions → ClientOptions) → ClientOptions
apply_options option [] = option
apply_options option (o ∷ opts) = apply_options (o option) opts

unfoldable pub new_client :
    (String → String → Result String)
    → String
    → String
    → String
    → ℕ
    → List (ClientOptions → ClientOptions)
    → Client
new_client marshal id app_name zipper_addr client_type opts = record {
  zipper_addr = zipper_addr;
  name = app_name;
  client_id = id;
  reconn_counter = 0;
  client_type = client_type;
  has_errorfn = false;
  wanted_target = "";
  opts = apply_options (default_client_option marshal) opts;
  cause = none;
  done = false;
  re_connect = false;
  crashed = false;
}

-- SetWantedTarget(target)
unfoldable pub set_wanted_target : Client → String → Client
set_wanted_target c target = record c { wanted_target = target }

-- SetObserveDataTags(tag...)
unfoldable pub set_observe_data_tags : Client → List Tag → Client
set_observe_data_tags c tags = record c { opts = record (c.opts) { observe_data_tags = tags } }

-- SetErrorHandler(fn)
unfoldable pub set_error_handler : Client → Client
set_error_handler c = record c { has_errorfn = true }

-- c.ctxCancel(cause): the first cause stays.
unfoldable pub ctx_cancel : Client → Error → Client
ctx_cancel c e = record c { cause = elim c.cause [ none ↦ some e | some first ↦ some first ] }

-- close(c.reConnect)
unfoldable pub close_re_connect : Client → Client
close_re_connect c = record c { re_connect = true; crashed = c.crashed || c.re_connect }

-- close(c.done)
unfoldable pub close_done : Client → Client
close_done c = record c { done = true; crashed = c.crashed || c.done }

abbrev pub shutdown : ℕ → Error
shutdown client_type = plain (join (client_type_string client_type) ": shutdown")

-- Close(), to the point where it waits: the client, and whether the wait for `done` or `reConnect`
-- is over.
unfoldable pub close : Client → Client × Bool
close c = (ctx_cancel c (shutdown c.client_type), c.done || c.re_connect)

-- Wait() without a signal: whether it returns.
unfoldable pub wait : Client → Bool
wait c = c.done || c.re_connect

-- What a client does on the network and with its callbacks.
pub data Effect : Type 0 where
  dialed_to : String → Effect
  wrote : Frame → Effect
  closed_with : String → Effect
  reported : Error → Effect
  processed : DataFrame → Effect

-- if c.errorfn != nil && err != nil { c.errorfn(err) }
unfoldable pub report : Client → Option Error → List Effect
report c none = []
report c (some e) = if c.has_errorfn then reported e ∷ [] else []

-- The case that the `select` of a write takes.
pub data Choice : Type 0 where
  taken : Choice
  ctx_done : Choice
  timed_out : Choice

-- blockWriteFrame(f): the error; the case of the context waits while it is not cancelled, which is
-- `none` in front.
unfoldable pub block_write_frame : Client → Choice → Option (Option Error)
block_write_frame c taken = some none
block_write_frame c ctx_done = elim c.cause [ none ↦ none | some e ↦ some (some e) ]
block_write_frame c timed_out = none

-- nonBlockWriteFrame(f)
unfoldable pub non_block_write_frame : Client → Choice → Option (Option Error)
non_block_write_frame c taken = some none
non_block_write_frame c ctx_done = elim c.cause [ none ↦ none | some e ↦ some (some e) ]
non_block_write_frame c timed_out = some (some (plain "yomo: non-block write frame timeout"))

-- WriteFrame(f), by the case that its select takes
unfoldable pub write_frame : Client → Choice → Option (Option Error)
write_frame c choice =
    if c.opts.non_block_write then non_block_write_frame c choice else block_write_frame c choice
