-- ===== src/Server/Handshake.antt =====
-- core/server.go: `handshake` and the functions that it calls, in order. Each step returns early
-- on an error, as the source does; a write to nil metadata panics.
pub mod Refusal
pub mod Acceptance
pub mod Carried
pub mod Panic
use Prim.Native.String.{◌++◌ as join}
use yomo.Common.{
  ℕ, String, Option, none, some, List, [], ◌∷◌, ◌==◌, nat_key, string_key, if◌then◌else◌,
}
use yomo.Auth.{authenticate}
use yomo.Connection.{Connection, new_connection, client_type_stream_function}
use yomo.Connector.{store}
use yomo.Errors.{Error, plain, rejected, connect_to, conn_closed, message, Result, ok, err}
use yomo.Frame.{
  Frame, HandshakeFrame, data_frame, handshake_frame, handshake_ack_frame, rejected_frame,
  goaway_frame, connect_to_frame, frame_type, type_string,
}
use yomo.Metadata.{M, set, wanted_target_key}
use yomo.Server.Routers.{RouterImpl}
use yomo.Server.State.{Config, Server, Effect, write, incr_id}
use yomo.Version.{version}

-- ai.FunctionDefinitionKey
abbrev pub function_definition_key : String
function_definition_key = "function-definition"

-- What `handshake` returns, or the panic that it ends in.
pub data Verdict : Type 0 where
  accepted : Connection → Verdict
  refused : Error → Verdict
  panicked : Verdict

-- The server afterwards, what was written to the new `frame.Conn`, and the verdict.
pub record Outcome (S : Type 0) : Type 0 where
  pub server : Server S
  pub effects : List Effect
  pub verdict : Verdict

module _ {S : Type 0} where
  -- rejectHandshake(w, err) with an error
  unfoldable pub reject_handshake : Server S → ℕ → Error → Outcome S
  reject_handshake s fconn e = record {
    server = s;
    effects = write fconn (rejected_frame (message e)) ∷ [];
    verdict = refused e;
  }

  -- connectToNewEndpoint(w, err) with an error
  unfoldable pub connect_to_new_endpoint : Server S → ℕ → String → Outcome S
  connect_to_new_endpoint s fconn endpoint = record {
    server = s;
    effects = write fconn (connect_to_frame endpoint) ∷ [];
    verdict = refused (connect_to endpoint);
  }

  abbrev pub panic : Server S → Outcome S
  panic s = record { server = s; effects = []; verdict = panicked }

  -- The error of `versionNegotiateFunc`: a new endpoint, or a rejection.
  unfoldable pub refuse_version : Server S → ℕ → Error → Outcome S
  refuse_version s fconn (connect_to endpoint) = connect_to_new_endpoint s fconn endpoint
  refuse_version s fconn (plain e) = reject_handshake s fconn (plain e)
  refuse_version s fconn (rejected e) = reject_handshake s fconn (rejected e)
  refuse_version s fconn (conn_closed remote e) = reject_handshake s fconn (conn_closed remote e)

-- md.Set(metadata.WantedTargetKey, hf.WantedTarget) if it is not empty
unfoldable pub set_wanted_target : M → String → Option M
set_wanted_target md target = if target == "" then some md else set md wanted_target_key target

-- conn.Metadata().Set(ai.FunctionDefinitionKey, string(hf.FunctionDefinition)) if it is not nil
unfoldable pub set_definition : M → Option String → Option M
set_definition md none = some md
set_definition md (some definition) = set md function_definition_key definition

module _ (R : RouterImpl) (cfg : Config) where
  -- s.addSfnRouteRule(connID, hf, md)
  unfoldable pub add_sfn_route_rule :
      Server R.State → ℕ → HandshakeFrame → M → Server R.State × Option Error
  add_sfn_route_rule s conn_id hf md =
      if hf.client_type == client_type_stream_function
      then (let (router, e) = R.add s.router conn_id hf.observe_data_tags md in
          (record s { router = router }, e))
      else (s, none)

  abbrev pub finish : Server R.State → ℕ → Connection → Option Error → Outcome R.State
  finish s fconn conn none = record { server = s; effects = []; verdict = accepted conn }
  finish s fconn conn (some e) = reject_handshake s fconn e

  -- 5. add route rules
  unfoldable pub add_rules : Server R.State → ℕ → HandshakeFrame → Connection → Outcome R.State
  add_rules s fconn hf conn =
      let (s', e) = add_sfn_route_rule s conn.id hf conn.metadata in finish s' fconn conn e

  abbrev pub after_definition :
      Server R.State → ℕ → HandshakeFrame → Connection → Option M → Outcome R.State
  after_definition s fconn hf conn none = panic s
  after_definition s fconn hf conn (some md) =
      let conn' = record conn { metadata = md } in
      let s' = record s { connector = (store s.connector conn.id conn').0 } in
      add_rules s' fconn hf conn'

  -- 4. store function definition to metadata. The connector holds the same connection, so the
  -- metadata changes there too.
  unfoldable pub define_function :
      Server R.State → ℕ → HandshakeFrame → Connection → Outcome R.State
  define_function s fconn hf conn =
      after_definition s fconn hf conn (set_definition conn.metadata hf.function_definition)

  abbrev pub after_store :
      Server R.State → ℕ → HandshakeFrame → Connection → Option Error → Outcome R.State
  after_store s fconn hf conn none = define_function s fconn hf conn
  after_store s fconn hf conn (some e) = reject_handshake s fconn e

  abbrev pub after_target : Server R.State → ℕ → HandshakeFrame → Option M → Outcome R.State
  after_target s fconn hf none = panic s
  after_target s fconn hf (some md) =
      let (s', id) = incr_id s in
      let conn = new_connection id hf.name hf.id hf.client_type md hf.observe_data_tags fconn in
      let (connector, e) = store s'.connector id conn in
      after_store (record s' { connector = connector }) fconn hf conn e

  -- 3. create connection: `createConnection(hf, md, fconn)`
  unfoldable pub create_connection : Server R.State → ℕ → HandshakeFrame → M → Outcome R.State
  create_connection s fconn hf md = after_target s fconn hf (set_wanted_target md hf.wanted_target)

  abbrev pub after_auth : Server R.State → ℕ → HandshakeFrame → Result M → Outcome R.State
  after_auth s fconn hf (err e) = reject_handshake s fconn e
  after_auth s fconn hf (ok md) = create_connection s fconn hf md

  -- 2. authentication
  unfoldable pub authenticate_frame : Server R.State → ℕ → HandshakeFrame → Outcome R.State
  authenticate_frame s fconn hf = after_auth s fconn hf (authenticate cfg.auths (some hf))

  abbrev pub after_version : Server R.State → ℕ → HandshakeFrame → Option Error → Outcome R.State
  after_version s fconn hf (some e) = refuse_version s fconn e
  after_version s fconn hf none = authenticate_frame s fconn hf

  -- 1. version negotiation
  unfoldable pub handshake_with : Server R.State → ℕ → HandshakeFrame → Outcome R.State
  handshake_with s fconn hf = after_version s fconn hf (cfg.version_negotiate hf.version version)

  -- The `switch` on the type of the first frame.
  unfoldable pub unexpected : Server R.State → ℕ → Frame → Outcome R.State
  unexpected s fconn f =
      reject_handshake s fconn
        (plain (join "yomo: handshake read unexpected frame, read: " (type_string (frame_type f))))

  unfoldable pub first_frame : Server R.State → ℕ → Frame → Outcome R.State
  first_frame s fconn (handshake_frame hf) = handshake_with s fconn hf
  first_frame s fconn (data_frame f) = unexpected s fconn (data_frame f)
  first_frame s fconn handshake_ack_frame = unexpected s fconn handshake_ack_frame
  first_frame s fconn (rejected_frame m) = unexpected s fconn (rejected_frame m)
  first_frame s fconn (goaway_frame m) = unexpected s fconn (goaway_frame m)
  first_frame s fconn (connect_to_frame e) = unexpected s fconn (connect_to_frame e)

  -- s.handshake(fconn), given what the first `ReadFrame` returned
  unfoldable pub handshake : Server R.State → ℕ → Result Frame → Outcome R.State
  handshake s fconn (err e) = record { server = s; effects = []; verdict = refused e }
  handshake s fconn (ok f) = first_frame s fconn f
