-- ===== src/Examples/Codecs.antt =====
-- Frames through the codec with a y3 that keeps what is set.
use yomo.Try.{returns, panics, ◌>>=◌}
use yomo.Common.{
  ℕ, ◌+◌, String, ◌≡◌, refl, Option, none, some, List, [], ◌∷◌, arith, nat_key, string_key,
}
use yomo.Errors.{plain, Result, ok, err}
use yomo.Frame.{Bytes, HandshakeFrame, handshake_frame, zero_handshake_frame, frame_type}
use yomo.GoMap.{GoMap, get}
use yomo.Connection.{client_type_source}
use yomo.Codec.{Y3}
use yomo.Codec.Decode.{decode, read_frame_of, read_handshake_frame, first, block}
use yomo.Codec.Roundtrip.{IsY3}
use yomo.Codec.Panics.{decode_panics, NoClientType}
use yomo.Quic.{read_frame, write_frame, packet}
use yomo.Quic.Roundtrip.{read_frame-write_frame}

-- A y3 whose values keep what was set.
data Value : Type 0 where
  number : ℕ → Value
  string : String → Value
  byte_list : Bytes → Value
  definition : Option String → Value

abbrev get_number : Value → Result ℕ
get_number (number n) = ok n
get_number _ = err (plain "not a number")

abbrev get_string : Value → Result String
get_string (string s) = ok s
get_string _ = err (plain "not a string")

abbrev get_bytes : Value → Bytes
get_bytes (byte_list b) = b
get_bytes _ = []

abbrev get_definition : Value → Option String
get_definition (definition d) = d
get_definition _ = none

abbrev plain_y3 : Y3
plain_y3 = record {
  Packet = ℕ × List (ℕ × Value);
  Value = Value;
  uint32_value = number;
  string_value = string;
  bytes_value = byte_list;
  definition_value = definition;
  to_uint32 = get_number;
  to_utf8_string = get_string;
  to_bytes = get_bytes;
  to_definition = get_definition;
  encode_node = λ t blocks. (t + 128, blocks);
  decode_node = λ p. ok p.1;
  first_byte = λ p. p.0;
}

plain_y3-IsY3 : IsY3 plain_y3
plain_y3-IsY3 = record {
  uint32 = λ n h. refl;
  utf8_string = λ s. refl;
  bytes = λ b. refl;
  node = λ t blocks. refl;
  node_type = λ t blocks h. omega arith;
}

abbrev hello : HandshakeFrame
hello = record zero_handshake_frame {
  name = "source";
  client_type = client_type_source;
  observe_data_tags = 1 ∷ 65536 ∷ [];
}

read_frame-write_frame_example :
    (b : ℕ × List (ℕ × Value)) × (write_frame plain_y3 none (handshake_frame hello)
      ≡ (some b, none))
    × (read_frame plain_y3 (packet b) ≡ returns (handshake_frame hello))
read_frame-write_frame_example =
    read_frame-write_frame plain_y3 plain_y3-IsY3 (handshake_frame hello)
      (omega arith, (omega arith, tt))

abbrev no_client_type : ℕ × List (ℕ × Value)
no_client_type = (177, (2, byte_list []) ∷ [])

no_client_type-decode :
    decode plain_y3 no_client_type (handshake_frame zero_handshake_frame) ≡ panics
unfolding decode read_frame_of read_handshake_frame first ◌>>=◌ block get
no_client_type-decode = refl

decode_panics_example :
    (frame_type (handshake_frame zero_handshake_frame) ≡ 0x31)
    × ((node : GoMap ℕ Value) × (plain_y3.decode_node no_client_type ≡ ok node)
        × NoClientType plain_y3 node)
decode_panics_example =
    decode_panics plain_y3 no_client_type (handshake_frame zero_handshake_frame)
      no_client_type-decode
