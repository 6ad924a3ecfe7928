-- ===== src/Server/Frames.antt =====
-- core/server.go: what happens to a data frame that a connection sent.
pub mod Delivery
pub mod Downstreams
use Prim.Native.String.{◌++◌ as join}
use yomo.Common.{
  ℕ, ◌+◌, ◌%◌, String, Option, none, some, List, [], ◌∷◌, ◌++◌, ◌==◌, nat_key, string_key,
  if◌then◌else◌,
}
use yomo.Connection.{client_type_upstream_zipper}
use yomo.Connector.{Connector, closed, missing, found, get_conn}
use yomo.Context.{Context}
use yomo.Errors.{Error, message, Result, ok, err}
use yomo.Frame.{Bytes, DataFrame, data_frame}
use yomo.GoMap.{GoMap}
use yomo.Metadata.{made, encode}
use yomo.Server.Routers.{RouterImpl}
use yomo.Server.State.{
  Config, Server, Downstream, Effect, write, write_downstream, close_with_error, two_to_64,
}
use yomo.Trace.{propagate_trace}

-- The loop of `routingDataFrame` over the identifiers that the router gave. Errors of a write are
-- logged, and the loop goes on.
unfoldable pub deliver : Connector → DataFrame → List ℕ → List Effect
deliver c df [] = []
deliver c df (to_id ∷ ids) =
    let others = deliver c df ids in
    elim (get_conn c to_id) [
      | closed e ↦ others
      | missing ↦ others
      | found conn ↦ write conn.fconn (data_frame df) ∷ others
    ]

-- The loop of `dispatchToDownstreams`.
unfoldable pub dispatch_all : GoMap String Downstream → DataFrame → List Effect
dispatch_all [] df = []
dispatch_all ((k, ds) ∷ downstreams) df =
    write_downstream ds.id (data_frame df) ∷ dispatch_all downstreams df

-- The server, the frame's context, the effects and the error that a step returns.
pub record Step (S A : Type 0) : Type 0 where
  pub server : Server S
  pub context : Context A
  pub effects : List Effect
  pub error : Option Error

-- atomic.AddInt64(&s.counterOfDataFrame, 1)
abbrev pub counted : {S : Type 0} → Server S → Server S
counted s = record s { counter = (s.counter + 1) % two_to_64 }

module _ (R : RouterImpl) (cfg : Config) {A : Type 0} where
  -- The metadata once the span `zipper endpoint` has started.
  abbrev pub traced : Context A → GoMap String String
  traced c = propagate_trace c.frame_metadata (cfg.start_span c.frame_metadata)

  -- The rest of `routingDataFrame`, given the encoded metadata.
  abbrev pub route_encoded : Server R.State → Context A → Result Bytes → Step R.State A
  route_encoded s c (err e) = record {
    server = counted s;
    context = record c { frame_metadata = traced c };
    effects = [];
    error = some e;
  }
  route_encoded s c (ok md_bytes) =
      let df : DataFrame = record (c.frame) { metadata = md_bytes } in
      record {
        server = counted s;
        context = record c { frame = df; frame_metadata = traced c };
        effects = deliver s.connector df (R.route s.router df.tag (made (traced c)));
        error = none;
      }

  -- s.routingDataFrame(c)
  unfoldable pub routing_data_frame : Server R.State → Context A → Step R.State A
  routing_data_frame s c = route_encoded s c (encode cfg.msgpack (traced c))

  -- The rest of `dispatchToDownstreams`, given the encoded metadata.
  abbrev pub dispatch_encoded : Server R.State → Context A → Result Bytes → Step R.State A
  dispatch_encoded s c (err e) = record { server = s; context = c; effects = []; error = some e }
  dispatch_encoded s c (ok md_bytes) =
      let df : DataFrame = record (c.frame) { metadata = md_bytes } in
      record {
        server = s;
        context = record c { frame = df };
        effects = dispatch_all s.downstreams df;
        error = none;
      }

  -- s.dispatchToDownstreams(c)
  unfoldable pub dispatch_to_downstreams : Server R.State → Context A → Step R.State A
  dispatch_to_downstreams s c =
      if c.connection.client_type == client_type_upstream_zipper
      then record { server = s; context = c; effects = []; error = none }
      else dispatch_encoded s c (encode cfg.msgpack c.frame_metadata)

  -- c.CloseWithError(errString), if the step returned an error
  abbrev pub close_on : Context A → String → Option Error → List Effect
  close_on c what none = []
  close_on c what (some e) = close_with_error c.connection.fconn (join what (message e)) ∷ []

  abbrev pub and_dispatch : Step R.State A → Option Error → Server R.State × List Effect
  and_dispatch r (some e) =
      (r.server, r.effects ++ close_on r.context "handle dataFrame err: " (some e))
  and_dispatch r none =
      let d = dispatch_to_downstreams r.server r.context in
      (
        d.server,
        r.effects ++ (d.effects ++ close_on d.context "dispatch to downstream err: " d.error),
      )

  -- s.handleFrame(c)
  unfoldable pub handle_frame : Server R.State → Context A → Server R.State × List Effect
  handle_frame s c = let r = routing_data_frame s c in and_dispatch r r.error
