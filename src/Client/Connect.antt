-- ===== src/Client/Connect.antt =====
-- core/client.go: connect, handleConnectResult and the loop of Connect.
use Prim.Native.String.{◌++◌ as join}
use yomo.Common.{
  ◌+◌, ◌%◌, String, Bool, true, false, Option, none, some, List, [], ◌∷◌, ◌==◌, nat_key, string_key,
  if◌then◌else◌,
}
use yomo.Errors.{Error, plain, rejected, connect_to, conn_closed, message, Result, ok, err}
use yomo.Frame.{
  Frame, HandshakeFrame, data_frame, handshake_frame, handshake_ack_frame, rejected_frame,
  goaway_frame, connect_to_frame, frame_type, type_string,
}
use yomo.Connection.{client_type_stream_function}
use yomo.Version.{version}
use yomo.Client.{Client, decimal, Effect, wrote, closed_with, report, close_re_connect, dialed_to}

-- What the network answers to one call of connect: the error of `DialAddr`, the error of
-- `WriteFrame`, and what `ReadFrame` gives. `cancels` is a cancellation that comes meanwhile.
pub record Attempt : Type 0 where
  pub dialed : Option Error
  pub written : Option Error
  pub received : Result Frame
  pub cancels : Option Error

-- parseAIFunctionDefinition(...), a nil definition being `none`
unfoldable pub parse_ai_function_definition : Client → Result (Option String)
parse_ai_function_definition c =
    if c.opts.ai_function_description == ""
    then ok none
    else elim (c.opts.marshal_definition c.name c.opts.ai_function_description) [
      | ok buf ↦ ok (some buf)
      | err e ↦ err e
    ]

-- handshakeWithDefinition(hf)
unfoldable pub handshake_with_definition : Client → HandshakeFrame → Result HandshakeFrame
handshake_with_definition c hf =
    if c.client_type == client_type_stream_function
    then elim (parse_ai_function_definition c) [
      | err e ↦ err e
      | ok none ↦ ok hf
      | ok (some d) ↦ ok (record hf { function_definition = some d })
    ]
    else ok hf

-- fmt.Sprintf("%s-%d", c.clientID, c.reconnCounter)
unfoldable pub refreshed_id : Client → String
refreshed_id c = join (join c.client_id "-") (decimal 20 c.reconn_counter)

-- c.reconnCounter++, a uint of 64 bits
unfoldable pub count_up : Client → Client
count_up c = record c { reconn_counter = (c.reconn_counter + 1) % 18446744073709551616 }

-- hf := &frame.HandshakeFrame{...}
unfoldable pub handshake_of : Client → HandshakeFrame
handshake_of c = record {
  name = c.name;
  id = refreshed_id c;
  client_type = c.client_type;
  observe_data_tags = c.opts.observe_data_tags;
  auth_name = c.opts.credential.name;
  auth_payload = c.opts.credential.payload;
  version = version;
  function_definition = none;
  wanted_target = c.wanted_target;
}

-- What connect returns: `none` is a connection, and what it has done.
pub record Connected : Type 0 where
  pub client : Client
  pub error : Option Error
  pub effects : List Effect

abbrev pub unexpected_frame : Frame → String
unexpected_frame f =
    join "handshake failed: read unexpected frame, frame read: " (type_string (frame_type f))

-- _ = conn.CloseWithError(err.Error()); return nil, err
unfoldable pub refuse : Client → HandshakeFrame → Error → Connected
refuse c hf e = record {
  client = c;
  error = some e;
  effects = wrote (handshake_frame hf) ∷ closed_with (message e) ∷ [];
}

-- received, err := conn.ReadFrame(), and the switch on its type
unfoldable pub after_read : Client → HandshakeFrame → Result Frame → Connected
after_read c hf (err e) = record {
  client = c;
  error = some e;
  effects = wrote (handshake_frame hf) ∷ [];
}
after_read c hf (ok handshake_ack_frame) = record {
  client = c;
  error = none;
  effects = wrote (handshake_frame hf) ∷ [];
}
after_read c hf (ok (rejected_frame m)) = refuse c hf (rejected m)
after_read c hf (ok (connect_to_frame e)) = refuse c hf (connect_to e)
after_read c hf (ok (goaway_frame m)) = refuse c hf (rejected (unexpected_frame (goaway_frame m)))
after_read c hf (ok (data_frame f)) = refuse c hf (rejected (unexpected_frame (data_frame f)))
after_read c hf (ok (handshake_frame f)) =
    refuse c hf (rejected (unexpected_frame (handshake_frame f)))

-- if err := conn.WriteFrame(hf); err != nil { return conn, err }
unfoldable pub after_write : Client → HandshakeFrame → Attempt → Option Error → Connected
after_write c hf a (some e) = record { client = c; error = some e; effects = [] }
after_write c hf a none = after_read c hf a.received

-- the handshake, once its frame is complete
unfoldable pub after_definition : Client → Attempt → Result HandshakeFrame → Connected
after_definition c a (err e) = record { client = c; error = some e; effects = [] }
after_definition c a (ok hf) = after_write c hf a a.written

unfoldable pub after_dial : Client → Attempt → Option Error → Connected
after_dial c a (some e) = record { client = c; error = some e; effects = [] }
after_dial c a none =
    after_definition (count_up c) a (handshake_with_definition (count_up c) (handshake_of c))

-- connect(ctx, addr)
unfoldable pub connect : Client → Attempt → Connected
connect c a =
    let r = after_dial c a a.dialed in record r { effects = dialed_to c.zipper_addr ∷ r.effects }

-- What handleConnectResult returns, and the client.
pub record Handled : Type 0 where
  pub client : Client
  pub reconnect : Bool
  pub error : Option Error
  pub effects : List Effect

-- the errors that handleConnectResult tells apart
unfoldable pub handle_error : Client → Error → Bool → List Effect → Handled
handle_error c (rejected m) always out = record {
  client = close_re_connect c;
  reconnect = false;
  error = some (rejected m);
  effects = out;
}
handle_error c (connect_to endpoint) always out = record {
  client = record c { zipper_addr = endpoint };
  reconnect = true;
  error = none;
  effects = out;
}
handle_error c (plain m) always out = record {
  client = c;
  reconnect = always;
  error = if always then none else some (plain m);
  effects = out;
}
handle_error c (conn_closed r m) always out = record {
  client = c;
  reconnect = always;
  error = if always then none else some (conn_closed r m);
  effects = out;
}

unfoldable pub not_done : Client → Option Error → Bool → List Effect → Handled
not_done c none always out = record { client = c; reconnect = false; error = none; effects = out }
not_done c (some e) always out = handle_error c e always out

-- select { case <-c.ctx.Done(): ... default: }. Without an error and with the context cancelled,
-- the code returns a nil error too.
unfoldable pub unless_done : Client → Option Error → Bool → List Effect → Option Error → Handled
unless_done c e always out (some cause) = record {
  client = close_re_connect c;
  reconnect = false;
  error = e;
  effects = out;
}
unless_done c e always out none = not_done c e always out

-- handleConnectResult(err, alwaysReconnect)
unfoldable pub handle_connect_result : Client → Option Error → Bool → Handled
handle_connect_result c e always = unless_done c e always (report c e) c.cause
