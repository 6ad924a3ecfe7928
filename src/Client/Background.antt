-- ===== src/Client/Background.antt =====
-- core/client.go: Connect, runBackground and handleConn.
use Prim.Native.String.{◌++◌ as join}
use yomo.Common.{Bool, true, false, Option, none, some, List, [], ◌∷◌, ◌++◌, nat_key, string_key}
use yomo.Connection.{client_type_string}
use yomo.Errors.{Error, plain, rejected, connect_to, conn_closed}
use yomo.Client.{Client, Effect, ctx_cancel, report}
use yomo.Client.Connect.{Attempt, Connected, Handled, connect, handle_connect_result}
use yomo.Client.Serve.{Event, Status, running, blocked, returned, serve_conn}

-- the attempt to connect with a cancellation that comes meanwhile
abbrev pub cancelled_by : Client → Option Error → Client
cancelled_by c none = c
cancelled_by c (some e) = ctx_cancel c e

-- connect and handleConnectResult, as the loops call them
unfoldable pub handled_of : Connected → Option Error → Bool → Handled
handled_of r cancels always =
    let h = handle_connect_result (cancelled_by r.client cancels) r.error always in
    record h { effects = r.effects ++ h.effects }

unfoldable pub attempt : Client → Attempt → Bool → Handled
attempt c a always = handled_of (connect c a) a.cancels always

-- What a loop of attempts has come to: connected, an error, or still trying.
pub data Progress : Type 0 where
  connected : Progress
  gave_up : Error → Progress
  trying : Progress

pub record Trying : Type 0 where
  pub client : Client
  pub progress : Progress
  pub effects : List Effect

-- return err, goto CONNECT, or go c.runBackground(fconn)
unfoldable pub decide : Option Error → Bool → Handled → Trying → Trying
decide (some e) reconnect h rest = record {
  client = h.client;
  progress = gave_up e;
  effects = h.effects;
}
decide none true h rest = record rest { effects = h.effects ++ rest.effects }
decide none false h rest = record { client = h.client; progress = connected; effects = h.effects }

-- Connect(ctx), for the attempts that are given
unfoldable pub connect_loop : Client → List Attempt → Trying
connect_loop c [] = record { client = c; progress = trying; effects = [] }
connect_loop c (a ∷ attempts) =
    let h = attempt c a c.opts.reconnect in
    decide h.error h.reconnect h (connect_loop h.client attempts)

-- Where runBackground stands after a connection: `stopped` is its return, `again` its loop.
pub data Next : Type 0 where
  again : Next
  stopped : Next
  waiting : Next
  stuck : Next

pub record Background : Type 0 where
  pub client : Client
  pub next : Next
  pub effects : List Effect

-- the errors of serveConn that handleConn tells apart
unfoldable pub closed_by : Client → Error → Background
closed_by c (conn_closed true text_) = record {
  client =
      ctx_cancel c
        (plain (join (join (client_type_string c.client_type) ": shutdown with error=") text_));
  next = stopped;
  effects = report c (some (conn_closed true text_));
}
closed_by c (conn_closed false text_) = record {
  client = c;
  next = stopped;
  effects = report c (some (conn_closed false text_));
}
closed_by c (plain m) = record { client = c; next = again; effects = report c (some (plain m)) }
closed_by c (rejected m) = record {
  client = c;
  next = again;
  effects = report c (some (rejected m));
}
closed_by c (connect_to m) = record {
  client = c;
  next = again;
  effects = report c (some (connect_to m));
}

unfoldable pub after_serving : Client → List Effect → Status → Background
after_serving c out running = record { client = c; next = waiting; effects = out }
after_serving c out blocked = record { client = c; next = stuck; effects = out }
after_serving c out (returned e) = let b = closed_by c e in record b { effects = out ++ b.effects }

-- handleConn(conn)
unfoldable pub handle_conn : Client → List Event → Background
handle_conn c events = let s = serve_conn c events in after_serving s.client s.effects s.status

-- An attempt to reconnect, and the turns of the connection if it comes to one.
abbrev pub Session : Type 0
Session = Attempt × List Event

-- the for-loop of runBackground, in the order of its tests
unfoldable pub continue_with : Next → Client → List Effect → Background → Background
continue_with again c out rest = record rest { effects = out ++ rest.effects }
continue_with stopped c out rest = record { client = c; next = stopped; effects = out }
continue_with waiting c out rest = record { client = c; next = waiting; effects = out }
continue_with stuck c out rest = record { client = c; next = stuck; effects = out }

-- one round: return, continue, or serve the new connection
unfoldable pub round : Option Error → Bool → Handled → List Event → Background
round (some e) reconnect h events = record {
  client = h.client;
  next = stopped;
  effects = h.effects;
}
round none true h events = record { client = h.client; next = again; effects = h.effects }
round none false h events =
    let b = handle_conn h.client events in record b { effects = h.effects ++ b.effects }

abbrev pub session : Client → Session → Background
session c (a, events) = let h = attempt c a true in round h.error h.reconnect h events

unfoldable pub reconnect_loop : Client → List Session → Background
reconnect_loop c [] = record { client = c; next = waiting; effects = [] }
reconnect_loop c (s ∷ sessions) =
    let b = session c s in
    continue_with b.next b.client b.effects (reconnect_loop b.client sessions)

-- runBackground(conn), for the turns of the connection and the sessions after it
unfoldable pub run_background : Client → List Event → List Session → Background
run_background c events sessions =
    let b = handle_conn c events in
    continue_with b.next b.client b.effects (reconnect_loop b.client sessions)
