-- ===== src/Codec.antt =====
-- pkg/frame-codec/y3codec: the encoders. The library y3 is a parameter: packets and the values of
-- their blocks are types of its own.
pub mod Decode
pub mod Roundtrip
pub mod Panics
use yomo.Common.{ℕ, ◌/◌, ◌%◌, String, Option, List, [], ◌∷◌, nat_key, string_key}
use yomo.Errors.{Result, ok}
use yomo.Frame.{
  Bytes, Tag, DataFrame, HandshakeFrame, Frame, data_frame, handshake_frame, handshake_ack_frame,
  rejected_frame, goaway_frame, connect_to_frame, frame_type,
}
use yomo.GoMap.{GoMap}

-- What y3codec uses of y3: the setters and getters of a primitive packet's value, a node packet's
-- `Encode` and `DecodeToNodePacket`, whose result has the map `PrimitivePackets`, and the first
-- byte of a packet. A function definition is set and got as bytes, which this model keeps as a text.
pub record Y3 : Type 1 where
  pub Packet : Type 0
  pub Value : Type 0
  pub uint32_value : ℕ → Value
  pub string_value : String → Value
  pub bytes_value : Bytes → Value
  pub definition_value : Option String → Value
  pub to_uint32 : Value → Result ℕ
  pub to_utf8_string : Value → Result String
  pub to_bytes : Value → Bytes
  pub to_definition : Value → Option String
  pub encode_node : ℕ → List (ℕ × Value) → Packet
  pub decode_node : Packet → Result (GoMap ℕ Value)
  pub first_byte : Packet → ℕ

abbrev pub tag_data_frame_tag : ℕ
tag_data_frame_tag = 0x01

abbrev pub tag_data_frame_payload : ℕ
tag_data_frame_payload = 0x02

abbrev pub tag_data_frame_metadata : ℕ
tag_data_frame_metadata = 0x03

-- tagGoawayMessage, tagRejectedMessage and tagConnectToEndpoint
abbrev pub tag_message : ℕ
tag_message = 0x01

abbrev pub tag_handshake_name : ℕ
tag_handshake_name = 0x01

abbrev pub tag_handshake_client_type : ℕ
tag_handshake_client_type = 0x02

abbrev pub tag_handshake_id : ℕ
tag_handshake_id = 0x03

abbrev pub tag_authentication_name : ℕ
tag_authentication_name = 0x04

abbrev pub tag_authentication_payload : ℕ
tag_authentication_payload = 0x05

abbrev pub tag_handshake_observe_data_tags : ℕ
tag_handshake_observe_data_tags = 0x06

abbrev pub tag_handshake_version : ℕ
tag_handshake_version = 0x07

abbrev pub tag_handshake_wanted_target : ℕ
tag_handshake_wanted_target = 0x08

abbrev pub tag_handshake_function_definition : ℕ
tag_handshake_function_definition = 0x09

-- binary.LittleEndian.PutUint32
unfoldable pub put_uint32 : ℕ → Bytes → Bytes
put_uint32 v rest = v % 256 ∷ v / 256 % 256 ∷ v / 65536 % 256 ∷ v / 16777216 % 256 ∷ rest

-- the loop over f.ObserveDataTags: the bytes that are added to the block
unfoldable pub tag_bytes : List Tag → Bytes
tag_bytes [] = []
tag_bytes (v ∷ tags) = put_uint32 v (tag_bytes tags)

-- encodeDataFrame(f)
unfoldable pub encode_data_frame : (y : Y3) → DataFrame → y.Packet
encode_data_frame y f = y.encode_node (frame_type (data_frame f)) (
    (tag_data_frame_tag, y.uint32_value f.tag)
    ∷ (tag_data_frame_metadata, y.bytes_value f.metadata)
    ∷ (tag_data_frame_payload, y.bytes_value f.payload)
    ∷ [])

-- encodeHandshakeFrame(f)
unfoldable pub encode_handshake_frame : (y : Y3) → HandshakeFrame → y.Packet
encode_handshake_frame y f = y.encode_node (frame_type (handshake_frame f)) (
    (tag_handshake_name, y.string_value f.name)
    ∷ (tag_handshake_id, y.string_value f.id)
    ∷ (tag_handshake_client_type, y.bytes_value (f.client_type ∷ []))
    ∷ (tag_handshake_observe_data_tags, y.bytes_value (tag_bytes f.observe_data_tags))
    ∷ (tag_authentication_name, y.string_value f.auth_name)
    ∷ (tag_authentication_payload, y.string_value f.auth_payload)
    ∷ (tag_handshake_version, y.string_value f.version)
    ∷ (tag_handshake_function_definition, y.definition_value f.function_definition)
    ∷ (tag_handshake_wanted_target, y.string_value f.wanted_target)
    ∷ [])

-- encodeHandshakeAckFrame(f)
unfoldable pub encode_handshake_ack_frame : (y : Y3) → y.Packet
encode_handshake_ack_frame y = y.encode_node (frame_type handshake_ack_frame) []

-- encodeRejectedFrame(f)
unfoldable pub encode_rejected_frame : (y : Y3) → String → y.Packet
encode_rejected_frame y m =
    y.encode_node (frame_type (rejected_frame m)) ((tag_message, y.string_value m) ∷ [])

-- encodeGoawayFrame(f)
unfoldable pub encode_goaway_frame : (y : Y3) → String → y.Packet
encode_goaway_frame y m =
    y.encode_node (frame_type (goaway_frame m)) ((tag_message, y.string_value m) ∷ [])

-- encodeConnectToFrame(f)
unfoldable pub encode_connect_to_frame : (y : Y3) → String → y.Packet
encode_connect_to_frame y e =
    y.encode_node (frame_type (connect_to_frame e)) ((tag_message, y.string_value e) ∷ [])

-- Encode(f); the frames of this model are all known, so that it does not fail.
unfoldable pub encode : (y : Y3) → Frame → Result y.Packet
encode y (rejected_frame m) = ok (encode_rejected_frame y m)
encode y (handshake_frame f) = ok (encode_handshake_frame y f)
encode y handshake_ack_frame = ok (encode_handshake_ack_frame y)
encode y (data_frame f) = ok (encode_data_frame y f)
encode y (goaway_frame m) = ok (encode_goaway_frame y m)
encode y (connect_to_frame e) = ok (encode_connect_to_frame y e)
