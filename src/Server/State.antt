-- ===== src/Server/State.antt =====
-- core/server.go: what a server holds, and what it does to its connections.
use yomo.Common.{ℕ, ◌+◌, ◌%◌, String, nat_key, string_key}
use yomo.Auth.{Authentication}
use yomo.Connector.{Connector}
use yomo.Frame.{Frame}
use yomo.GoMap.{GoMap, put}
use yomo.Metadata.{Msgpack}
use yomo.Trace.{Span}
use yomo.Version.{VersionNegotiateFunc}

-- The options of a server that change what it does, the msgpack library and the tracer.
pub record Config : Type 0 where
  pub auths : GoMap String Authentication
  pub version_negotiate : VersionNegotiateFunc
  pub msgpack : Msgpack
  pub start_span : GoMap String String → Span

-- The methods `ID` and `LocalName` of the interface `Downstream`.
pub record Downstream : Type 0 where
  pub id : String
  pub local_name : String

-- `router` is a state of the router; `increment` is the package's variable of core/connection.go.
pub record Server (S : Type 0) : Type 0 where
  pub connector : Connector
  pub router : S
  pub counter : ℕ  -- the bits of an int64
  pub increment : ℕ  -- uint64
  pub downstreams : GoMap String Downstream

abbrev pub two_to_64 : ℕ
two_to_64 = 18446744073709551616

-- What the server does to the outside: a frame written to the `frame.Conn` of a number, a frame
-- written to a downstream of an identifier, and `CloseWithError`. Errors of these are only logged.
pub data Effect : Type 0 where
  write : ℕ → Frame → Effect
  write_downstream : String → Frame → Effect
  close_with_error : ℕ → String → Effect

module _ {S : Type 0} where
  -- incrID()
  unfoldable pub incr_id : Server S → Server S × ℕ
  incr_id s = let next : ℕ = (s.increment + 1) % two_to_64 in (record s { increment = next }, next)

  -- s.AddDownstreamServer(c)
  unfoldable pub add_downstream_server : Server S → Downstream → Server S
  add_downstream_server s c = record s { downstreams = put s.downstreams c.id c }

  -- s.StatsCounter()
  abbrev pub stats_counter : Server S → ℕ
  stats_counter s = s.counter
