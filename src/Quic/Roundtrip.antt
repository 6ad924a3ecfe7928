-- ===== src/Quic/Roundtrip.antt =====
-- Frames from one end of a connection to the other.
use yomo.Try.{returns, ◌>>=◌}
use yomo.Common.{ℕ, ◌<◌, ◌≡◌, refl, none, some, List, [], arith, nat_key, string_key}
use yomo.Errors.{ok}
use yomo.Frame.{
  Frame, new_frame, data_frame, handshake_frame, handshake_ack_frame, rejected_frame, goaway_frame,
  connect_to_frame, frame_type, zero_data_frame, zero_handshake_frame,
}
use yomo.Codec.{
  Y3, encode, encode_data_frame, encode_handshake_frame, encode_handshake_ack_frame,
  encode_rejected_frame, encode_goaway_frame, encode_connect_to_frame,
}
use yomo.Codec.Decode.{decode, packet_type, read_frame_of}
use yomo.Codec.Roundtrip.{IsY3, Fits, arrived, decode-data, decode-handshake, decode-message}
use yomo.Quic.{write_frame, read_frame, packet}

made_of :
    (y : Y3) (l : IsY3 y) (t : ℕ) (bs : List (ℕ × y.Value)) (f g : Frame)
    → t < 64
    → new_frame t ≡ ok f
    → decode y (y.encode_node t bs) f ≡ returns g
    → read_frame y (packet (y.encode_node t bs)) ≡ returns g
unfolding ◌>>=◌ read_frame packet_type
made_of y l t bs f g h e d = rw (l.node_type t bs h, e, d)

decode-ack :
    (y : Y3) (l : IsY3 y)
    → decode y (y.encode_node 0x29 []) handshake_ack_frame ≡ returns handshake_ack_frame
unfolding ◌>>=◌ decode read_frame_of
decode-ack y l = rw (l.node _ _)

-- With a y3 that keeps its promises, a frame whose numbers fit their fields is written without an error, and the packet written is
-- read as the frame that arrives: the same, but for a function definition, which the bytes of its
-- block may change.
pub read_frame-write_frame :
    (y : Y3) (l : IsY3 y) (f : Frame)
    → Fits f
    → (b : y.Packet) × (write_frame y none f ≡ (some b, none))
      × (read_frame y (packet b) ≡ returns (arrived y f))
unfolding write_frame encode encode_data_frame encode_handshake_frame encode_handshake_ack_frame
    encode_rejected_frame encode_goaway_frame encode_connect_to_frame frame_type new_frame
    read_frame_of
read_frame-write_frame y l (data_frame f) h = (
  _,
  refl,
  made_of y l _ _ (data_frame zero_data_frame) _ (omega arith) refl (decode-data y l f h),
)
read_frame-write_frame y l (handshake_frame f) h = (
  _,
  refl,
  made_of y l _ _ (handshake_frame zero_handshake_frame) _ (omega arith) refl
      (decode-handshake y l f h),
)
read_frame-write_frame y l handshake_ack_frame h =
    (_, refl, made_of y l _ _ handshake_ack_frame _ (omega arith) refl (decode-ack y l))
read_frame-write_frame y l (rejected_frame m) h = (
  _,
  refl,
  made_of y l _ _ (rejected_frame "") _ (omega arith) refl
      (decode-message y l _ m rejected_frame (λ node s. refl)),
)
read_frame-write_frame y l (goaway_frame m) h = (
  _,
  refl,
  made_of y l _ _ (goaway_frame "") _ (omega arith) refl
      (decode-message y l _ m goaway_frame (λ node s. refl)),
)
read_frame-write_frame y l (connect_to_frame e) h = (
  _,
  refl,
  made_of y l _ _ (connect_to_frame "") _ (omega arith) refl
      (decode-message y l _ e connect_to_frame (λ node s. refl)),
)
