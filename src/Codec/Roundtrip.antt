-- ===== src/Codec/Roundtrip.antt =====
-- Encoding and decoding, frame by frame.
use yomo.Try.{returns, ◌>>=◌}
use yomo.Common.{
  ℕ, ◌+◌, ◌*◌, ◌/◌, ◌%◌, ◌<◌, String, ◌≡◌, refl, List, [], ◌∷◌, arith, nat_key, string_key, All,
}
use yomo.Errors.{ok}
use yomo.Frame.{
  Bytes, Tag, DataFrame, HandshakeFrame, Frame, data_frame, handshake_frame, zero_data_frame,
  zero_handshake_frame,
}
use yomo.GoMap.{get}
use yomo.Codec.{Y3, put_uint32, tag_bytes, encode_data_frame, encode_handshake_frame}
use yomo.Codec.Decode.{
  block, first, read_tags, read_data_frame, read_handshake_frame, read_message, read_frame_of,
  decode,
}

-- What y3 promises: a value that was set is got, and a node packet of a frame's type decodes to its
-- blocks and starts with the type and y3's mark of a node.
pub record IsY3 (y : Y3) : Type 0 where
  pub uint32 : (n : ℕ) → n < 4294967296 → y.to_uint32 (y.uint32_value n) ≡ ok n
  pub utf8_string : (s : String) → y.to_utf8_string (y.string_value s) ≡ ok s
  pub bytes : (b : Bytes) → y.to_bytes (y.bytes_value b) ≡ b
  pub node :
      (t : ℕ) (blocks : List (ℕ × y.Value)) → y.decode_node (y.encode_node t blocks) ≡ ok blocks
  pub node_type :
      (t : ℕ) (blocks : List (ℕ × y.Value))
      → t < 64
      → y.first_byte (y.encode_node t blocks) % 128 ≡ t

-- The numbers of a frame fit in the 32 bits they are sent in.
abbrev pub Fits : Frame → Type 0
Fits (data_frame f) = f.tag < 4294967296
Fits (handshake_frame f) = All (λ t. t < 4294967296) f.observe_data_tags
Fits _ = Unit

-- The frame as it arrives: a function definition passes through the bytes of its block, which may
-- turn a nil slice into an empty one.
abbrev pub arrived : Y3 → Frame → Frame
arrived y (handshake_frame f) =
    handshake_frame (record f {
      function_definition = y.to_definition (y.definition_value f.function_definition);
    })
arrived y f = f

little_endian :
    (t : ℕ)
    → t < 4294967296
    → t % 256 + 256 * (t / 256 % 256) + 65536 * (t / 65536 % 256) + 16777216 * (t / 16777216 % 256)
      ≡ t
little_endian t h = omega arith

read_tags-tag_bytes :
    (tags : List Tag) → All (λ t. t < 4294967296) tags → read_tags (tag_bytes tags) ≡ tags
unfolding read_tags tag_bytes put_uint32
read_tags-tag_bytes [] h = refl
read_tags-tag_bytes (t ∷ tags) (h, hs) = rw (little_endian t h, read_tags-tag_bytes tags hs)

pub decode-data :
    (y : Y3) (l : IsY3 y) (f : DataFrame)
    → f.tag < 4294967296
    → decode y (encode_data_frame y f) (data_frame zero_data_frame) ≡ returns (data_frame f)
unfolding ◌>>=◌ block decode read_frame_of read_data_frame encode_data_frame get
decode-data y l f h = rw (l.node _ _, l.uint32 f.tag h, l.bytes f.metadata, l.bytes f.payload)

pub decode-handshake :
    (y : Y3) (l : IsY3 y) (f : HandshakeFrame)
    → All (λ t. t < 4294967296) f.observe_data_tags
    → decode y (encode_handshake_frame y f) (handshake_frame zero_handshake_frame)
      ≡ returns (arrived y (handshake_frame f))
unfolding ◌>>=◌ block decode read_frame_of read_handshake_frame encode_handshake_frame get first
decode-handshake y l f h = rw (
  l.node _ _,
  l.utf8_string f.name,
  l.utf8_string f.id,
  l.bytes (f.client_type ∷ []),
  l.bytes (tag_bytes f.observe_data_tags),
  read_tags-tag_bytes f.observe_data_tags h,
  l.utf8_string f.auth_name,
  l.utf8_string f.auth_payload,
  l.utf8_string f.version,
  l.utf8_string f.wanted_target,
)

pub decode-message :
    (y : Y3) (l : IsY3 y) (t : ℕ) (m : String) (f : String → Frame)
    → ((node : List (ℕ × y.Value)) (s : String)
        → read_frame_of y node (f s) ≡ (read_message y node s >>= (λ s'. returns (f s'))))
    → decode y (y.encode_node t ((1, y.string_value m) ∷ [])) (f "") ≡ returns (f m)
unfolding ◌>>=◌ block decode read_message get
decode-message y l t m f e = rw (l.node _ _, e _ _, l.utf8_string m)
