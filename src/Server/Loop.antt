-- ===== src/Server/Loop.antt =====
-- core/server.go: the loop over a connection's frames, and the life of a connection. Middlewares
-- wrap a handler (`composeFrameHandler`, `composeConnHandler`); the life below has none.
pub mod Life
use yomo.Common.{
  ℕ, Option, none, some, List, [], ◌∷◌, ◌++◌, ◌==◌, nat_key, string_key, if◌then◌else◌,
}
use yomo.Connection.{Connection, client_type_stream_function}
use yomo.Connector.{remove}
use yomo.Context.{Context, new_context}
use yomo.Errors.{Result, ok, err}
use yomo.Frame.{
  Frame, DataFrame, data_frame, handshake_frame, handshake_ack_frame, rejected_frame, goaway_frame,
  connect_to_frame,
}
use yomo.Server.Frames.{handle_frame}
use yomo.Server.Handshake.{Verdict, accepted, refused, panicked, Outcome, handshake}
use yomo.Server.Routers.{RouterImpl}
use yomo.Server.State.{Config, Server, Effect, write}

-- composeFrameHandler(handler, middlewares...), composeConnHandler(handler, middlewares...): the
-- loop runs from the last middleware to the first.
unfoldable pub compose_handler {ℓ} : {H : Type ℓ} → H → List (H → H) → H
compose_handler handler [] = handler
compose_handler handler (m ∷ middlewares) = m (compose_handler handler middlewares)

-- The frames that are data frames; the loop of `handleConn` returns at any other.
abbrev pub as_data : Frame → Option DataFrame
as_data (data_frame df) = some df
as_data (handshake_frame hf) = none
as_data handshake_ack_frame = none
as_data (rejected_frame m) = none
as_data (goaway_frame m) = none
as_data (connect_to_frame e) = none

module _ (R : RouterImpl) (cfg : Config) where
  abbrev pub on_context :
      Server R.State → Result (Context (Unit {0})) → Option (Server R.State × List Effect)
  on_context s (err e) = none
  on_context s (ok c) = some (handle_frame R cfg s c)

  abbrev pub on_data :
      Server R.State → Connection → Option DataFrame → Option (Server R.State × List Effect)
  on_data s conn none = none
  on_data s conn (some df) = on_context s (new_context cfg.msgpack conn df none)

  -- The `switch` on the type of a frame: `none` where the loop returns. No handler sets keys, so
  -- the contexts of the pool are as good as new (Context/Laws.antt).
  unfoldable pub on_frame :
      Server R.State → Connection → Frame → Option (Server R.State × List Effect)
  on_frame s conn f = on_data s conn (as_data f)

  -- The next round of the loop, unless it returned.
  abbrev pub continue :
      Server R.State
      → Option (Server R.State × List Effect)
      → (Server R.State → Server R.State × List Effect)
      → Server R.State × List Effect
  continue s none next = (s, [])
  continue s (some (s', effects)) next = let (s'', later) = next s' in (s'', effects ++ later)

  -- s.handleConn(conn), given what the calls of `ReadFrame` return. The list may end while the
  -- loop waits for the next frame.
  unfoldable pub handle_conn :
      Server R.State → Connection → List (Result Frame) → Server R.State × List Effect
  handle_conn s conn [] = (s, [])
  handle_conn s conn (err e ∷ reads) = (s, [])
  handle_conn s conn (ok f ∷ reads) =
      continue s (on_frame s conn f) (λ s'. handle_conn s' conn reads)

  -- What follows `s.connHandler(conn)` in `handleFrameConn`.
  unfoldable pub leave : Server R.State → Connection → Server R.State
  leave s conn =
      let router : R.State =
        (if conn.client_type == client_type_stream_function
          then R.remove s.router conn.id
          else s.router) in
      record s { router = router; connector = (remove s.connector conn.id).0 }

  abbrev pub serve_accepted :
      Outcome R.State → ℕ → List (Result Frame) → Verdict → Server R.State × List Effect
  serve_accepted o fconn reads (accepted conn) =
      let (s, later) = handle_conn o.server conn reads in
      (leave s conn, o.effects ++ (write fconn handshake_ack_frame ∷ later))
  serve_accepted o fconn reads (refused e) = (o.server, o.effects)
  serve_accepted o fconn reads panicked = (o.server, o.effects)

  -- s.handleFrameConn(fconn, logger), given what the calls of `ReadFrame` return
  unfoldable pub handle_frame_conn :
      Server R.State → ℕ → Result Frame → List (Result Frame) → Server R.State × List Effect
  handle_frame_conn s fconn first reads =
      let o = handshake R cfg s fconn first in serve_accepted o fconn reads o.verdict
