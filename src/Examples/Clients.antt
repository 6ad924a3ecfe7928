-- ===== src/Examples/Clients.antt =====
-- Runs of a client.
use yomo.Common.{
  ◌≡◌, refl, inl, true, false, none, some, List, [], ◌∷◌, ◌++◌, map, nat_key, string_key,
}
use yomo.Errors.{plain, ok}
use yomo.Frame.{Frame, data_frame, goaway_frame, rejected_frame, handshake_ack_frame, frame_type}
use yomo.Connection.{client_type_source}
use yomo.Client.{Client, ctx_cancel, close, wait}
use yomo.Client.Connect.{
  Attempt, connect, after_dial, after_definition, after_write, after_read,
  handshake_with_definition, count_up, handshake_of,
}
use yomo.Client.Serve.{
  Event, cancelled, ctx_done, write, read as read_event, serve_conn, turn, go_on, handle_frame,
  process, running,
}
use yomo.Client.Background.{connect_loop, run_background, connected, stuck, stopped}
use yomo.Client.Ends.{run_background-goaway}
use yomo.Client.Waits.{run_background-close, connect_crashes}
use yomo.Client.Reconnects.{
  connect_loop-accepted, dials, visited, unreachable, redirected, accepted, as_attempt,
}

abbrev pub plain_client : Client
plain_client = record {
  zipper_addr = "zipper:9000";
  name = "source";
  client_id = "id";
  reconn_counter = 0;
  client_type = client_type_source;
  has_errorfn = false;
  wanted_target = "";
  opts = record {
    observe_data_tags = [];
    credential = record { name = "none"; payload = "" };
    reconnect = true;
    non_block_write = false;
    ai_function_description = "";
    marshal_definition = λ name d. ok d;
  };
  cause = none;
  done = false;
  re_connect = false;
  crashed = false;
}

abbrev hello_world : Frame
hello_world = data_frame (record { metadata = []; tag = 1; payload = 104 ∷ [] })

abbrev turns : List Event
turns = write hello_world none ∷ read_event (ok hello_world) none ∷ []

turns-running : (serve_conn plain_client turns).status ≡ running
unfolding serve_conn turn go_on handle_frame process
turns-running = refl

run_background-goaway_example :
    let b =
      run_background plain_client
        (turns ++ (read_event (ok (goaway_frame "bye")) none ∷ turns))
        [] in
    (b.next ≡ stuck) × ((close b.client).1 ≡ false) × (wait b.client ≡ false)
unfolding frame_type
run_background-goaway_example =
    run_background-goaway plain_client turns (goaway_frame "bye") none turns [] (refl, refl)
      turns-running (inl refl)

abbrev cancelled_turns : List Event
cancelled_turns = write hello_world none ∷ cancelled (plain "Source: shutdown") ∷ []

cancelled_turns-running : (serve_conn plain_client cancelled_turns).status ≡ running
unfolding serve_conn turn go_on
cancelled_turns-running = refl

cause_cancelled :
    (serve_conn plain_client cancelled_turns).client.cause ≡ some (plain "Source: shutdown")
unfolding serve_conn turn go_on ctx_cancel
cause_cancelled = refl

abbrev refused_dial : Attempt
refused_dial = record {
  dialed = some (plain "context canceled");
  written = none;
  received = ok handshake_ack_frame;
  cancels = none;
}

run_background-close_example :
    let b =
      run_background plain_client (cancelled_turns ++ (ctx_done ∷ [])) ((refused_dial, []) ∷ []) in
    (b.next ≡ stopped)
    × (b.client.done ≡ true)
    × (b.client.re_connect ≡ true)
    × ((close b.client).1 ≡ true)
    × (wait b.client ≡ true)
    × (b.client.crashed ≡ (serve_conn plain_client cancelled_turns).client.crashed)
run_background-close_example =
    run_background-close plain_client cancelled_turns [] refused_dial [] [] "Source: shutdown"
      (plain "context canceled") (refl, refl) cancelled_turns-running cause_cancelled refl refl

abbrev overtaken : Attempt
overtaken = record accepted { cancels = some (plain "Source: shutdown") }

connect-overtaken :
    ((connect plain_client overtaken).error ≡ none)
    × ((connect plain_client overtaken).client.cause ≡ none)
unfolding connect after_dial after_definition after_write after_read handshake_with_definition
    count_up
connect-overtaken = (refl, refl)

connect_crashes_example :
    let t = connect_loop plain_client (overtaken ∷ []) in
    (t.progress ≡ connected)
    × ((run_background t.client (ctx_done ∷ []) ((refused_dial, []) ∷ [])).client.crashed ≡ true)
connect_crashes_example =
    connect_crashes plain_client overtaken refused_dial "Source: shutdown"
      (plain "context canceled") [] [] connect-overtaken.0 connect-overtaken.1 refl refl refl

connect_loop-accepted_example :
    let troubles = unreachable "timeout" ∷ redirected "other:9000" ∷ unreachable "timeout" ∷ [] in
    let t = connect_loop plain_client (map as_attempt troubles ++ (accepted ∷ [])) in
    (t.progress ≡ connected)
    × (t.client.zipper_addr ≡ "other:9000")
    × (dials t.effects ≡ visited plain_client.zipper_addr troubles)
connect_loop-accepted_example =
    connect_loop-accepted plain_client
      (unreachable "timeout" ∷ redirected "other:9000" ∷ unreachable "timeout" ∷ []) []
      (refl, refl, refl)

abbrev rejecting : Attempt
rejecting = record accepted { received = ok (rejected_frame "no") }

rejecting_definition :
    handshake_with_definition (count_up plain_client) (handshake_of plain_client)
    ≡ ok (handshake_of plain_client)
unfolding handshake_with_definition count_up
rejecting_definition = refl
