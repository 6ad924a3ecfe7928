-- ===== src/Quic.antt =====
-- pkg/listener/quic/quic.go: `FrameConn`. QUIC is not modelled: reading and writing a packet give
-- what the stream gives, a packet or one of QUIC's errors.
pub mod Roundtrip
use yomo.Try.{Try, returns, fails, panics, tried, ◌>>=◌}
use yomo.Common.{
  ℕ, String, Bool, true, ◌&&◌, Option, none, some, ◌==◌, nat_key, string_key, if◌then◌else◌,
}
use yomo.Errors.{Error, plain, conn_closed, ok, err}
use yomo.Frame.{Frame, new_frame}
use yomo.Codec.{Y3, encode}
use yomo.Codec.Decode.{decode, packet_type}

-- quic.ApplicationError and the other errors of a stream, with their messages
pub data StreamError : Type 0 where
  application_error : Bool → ℕ → String → StreamError
  other_error : String → StreamError

abbrev pub yomo_close_error_code : ℕ
yomo_close_error_code = 0x13

-- handleError(err)
unfoldable pub handle_error : StreamError → Error
handle_error (application_error remote code text_) =
    if code == 0 && text_ == ""
    then conn_closed true "yomo: listener closed"
    else if code == yomo_close_error_code
    then conn_closed remote text_
    else plain text_
handle_error (other_error text_) = plain text_

-- What ReadPacket gives of the stream.
pub data Arrival (P : Type 0) : Type 0 where
  packet : P → Arrival P
  broken : StreamError → Arrival P

-- ReadFrame()
unfoldable pub read_frame : (y : Y3) → Arrival y.Packet → Try Frame
read_frame y (broken e) = fails (handle_error e)
read_frame y (packet b) = do f ← tried (new_frame (packet_type y b)); decode y b f

-- WriteFrame(f): the packet that is written, and the error. The argument is the stream's error, if
-- it has one.
unfoldable pub write_frame : (y : Y3) → Option StreamError → Frame → Option y.Packet × Option Error
write_frame y failure f = elim (encode y f) [
  | err e ↦ (none, some e)
  | ok b ↦ elim failure [ none ↦ (some b, none) | some e ↦ (none, some (handle_error e)) ]
]
