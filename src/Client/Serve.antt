-- ===== src/Client/Serve.antt =====
-- core/client.go: serveConn and handleFrame.
use Prim.Native.String.{◌++◌ as join}
use yomo.Common.{
  String, Bool, true, false, not, ◌||◌, Option, none, some, List, [], ◌∷◌, ◌++◌, nat_key,
  string_key,
}
use yomo.Errors.{Error, plain, message, Result, ok, err}
use yomo.Frame.{
  Frame, DataFrame, data_frame, handshake_frame, handshake_ack_frame, rejected_frame, goaway_frame,
  connect_to_frame,
}
use yomo.Client.{
  Client, Effect, wrote, closed_with, report, processed, close, close_done, ctx_cancel,
}

-- One turn of serveConn's loop: the case that its select takes, with what the connection gives to
-- a write or a read; or a cancellation of the client's context by another goroutine. The processor's
-- panic is the error of its message.
pub data Event : Type 0 where
  cancelled : Error → Event
  ctx_done : Event
  write : Frame → Option Error → Event
  read : Result Frame → Option String → Event

-- Where a loop stands: it goes on, waits for ever, or has returned.
pub data Status : Type 0 where
  running : Status
  blocked : Status
  returned : Error → Status

pub record Serving : Type 0 where
  pub client : Client
  pub status : Status
  pub effects : List Effect

abbrev pub waits : Client × Bool → Serving
waits (c, true) = record { client = c; status = running; effects = [] }
waits (c, false) = record { client = c; status = blocked; effects = [] }

-- c.processor(ff), with the recover that serveConn puts around it. The recovery calls errorfn
-- without a test, so that without an error handler it panics itself.
unfoldable pub process : Client → DataFrame → Option String → Serving
process c f none = record { client = c; status = running; effects = processed f ∷ [] }
process c f (some e) = record {
  client = record c { crashed = c.crashed || not c.has_errorfn };
  status = running;
  effects = processed f ∷ report c (some (plain (join "yomo: stream panic: " e)));
}

-- handleFrame(f)
unfoldable pub handle_frame : Client → Frame → Option String → Serving
handle_frame c (goaway_frame m) panics = waits (close c)
handle_frame c (rejected_frame m) panics = waits (close c)
handle_frame c (data_frame f) panics = process c f panics
handle_frame c (handshake_frame f) panics = record { client = c; status = running; effects = [] }
handle_frame c handshake_ack_frame panics = record { client = c; status = running; effects = [] }
handle_frame c (connect_to_frame e) panics = record { client = c; status = running; effects = [] }

abbrev pub stop : Client → Error → List Effect → Serving
stop c e out = record { client = c; status = returned e; effects = out }

-- case <-c.ctx.Done(): not taken before the context is cancelled
unfoldable pub on_done : Client → Option Error → Serving
on_done c none = record { client = c; status = running; effects = [] }
on_done c (some cause) = stop (close_done c) cause (closed_with (message cause) ∷ [])

-- one turn of the loop
unfoldable pub turn : Client → Event → Serving
turn c (cancelled e) = record { client = ctx_cancel c e; status = running; effects = [] }
turn c ctx_done = on_done c c.cause
turn c (write f none) = record { client = c; status = running; effects = wrote f ∷ [] }
turn c (write f (some e)) = stop c e []
turn c (read (err e) panics) = stop c e []
turn c (read (ok f) panics) = handle_frame c f panics

-- the turn, and the rest of the loop if it goes on
unfoldable pub go_on : Client → List Effect → Status → Serving → Serving
go_on c out running rest = record rest { effects = out ++ rest.effects }
go_on c out blocked rest = record { client = c; status = blocked; effects = out }
go_on c out (returned e) rest = stop c e out

-- serveConn(conn), for the turns that are given
unfoldable pub serve_conn : Client → List Event → Serving
serve_conn c [] = record { client = c; status = running; effects = [] }
serve_conn c (e ∷ es) =
    go_on (turn c e).client (turn c e).effects (turn c e).status (serve_conn (turn c e).client es)
