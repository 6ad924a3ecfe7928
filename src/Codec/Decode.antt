-- ===== src/Codec/Decode.antt =====
-- pkg/frame-codec/y3codec: the decoders, and ReadPacket.
use yomo.Try.{Try, returns, panics, tried, ◌>>=◌}
use yomo.Common.{
  ℕ, ◌+◌, ◌*◌, ◌%◌, String, Option, none, some, List, [], ◌∷◌, ◌++◌, nat_key, string_key,
}
use yomo.Frame.{
  Bytes, Tag, DataFrame, HandshakeFrame, Frame, data_frame, handshake_frame, handshake_ack_frame,
  rejected_frame, goaway_frame, connect_to_frame,
}
use yomo.GoMap.{GoMap, get}
use yomo.Codec.{
  Y3, tag_data_frame_tag, tag_data_frame_payload, tag_data_frame_metadata, tag_message,
  tag_handshake_name, tag_handshake_client_type, tag_handshake_id, tag_authentication_name,
  tag_authentication_payload, tag_handshake_observe_data_tags, tag_handshake_version,
  tag_handshake_wanted_target, tag_handshake_function_definition,
}

-- if block, ok := node.PrimitivePackets[...]; ok { ... }: what is read, or what the frame had
unfoldable pub block {ℓ κ} : {V : Type κ} {A : Type ℓ} → Option V → (V → Try A) → A → Try A
block none value old = returns old
block (some v) value old = value v

-- clientType[0]
unfoldable pub first : Bytes → Try ℕ
first [] = panics
first (b ∷ bs) = returns b

-- the loop over the bytes of the observe data tags, four by four: what is appended
unfoldable pub read_tags : Bytes → List Tag
read_tags (a ∷ b ∷ c ∷ d ∷ bs) = (a + 256 * b + 65536 * c + 16777216 * d) ∷ read_tags bs
read_tags _ = []

-- decodeDataFrame(data, f), from the map of blocks on
unfoldable pub read_data_frame : (y : Y3) → GoMap ℕ y.Value → DataFrame → Try DataFrame
read_data_frame y packet f = do
  tag ← block (get packet tag_data_frame_tag) (λ v. tried (y.to_uint32 v)) f.tag
  metadata ← block (get packet tag_data_frame_metadata) (λ v. returns (y.to_bytes v)) f.metadata
  payload ← block (get packet tag_data_frame_payload) (λ v. returns (y.to_bytes v)) f.payload
  returns (record { metadata = metadata; tag = tag; payload = payload })

-- decodeHandshakeFrame(data, f), from the map of blocks on
unfoldable pub read_handshake_frame :
    (y : Y3) → GoMap ℕ y.Value → HandshakeFrame → Try HandshakeFrame
read_handshake_frame y node f = do
  name ← block (get node tag_handshake_name) (λ v. tried (y.to_utf8_string v)) f.name
  id ← block (get node tag_handshake_id) (λ v. tried (y.to_utf8_string v)) f.id
  client_type ← block (get node tag_handshake_client_type) (λ v. first (y.to_bytes v)) f.client_type
  tags ←
      block (get node tag_handshake_observe_data_tags)
        (λ v. returns (f.observe_data_tags ++ read_tags (y.to_bytes v))) f.observe_data_tags
  auth_name ← block (get node tag_authentication_name) (λ v. tried (y.to_utf8_string v)) f.auth_name
  auth_payload ←
      block (get node tag_authentication_payload) (λ v. tried (y.to_utf8_string v)) f.auth_payload
  version ← block (get node tag_handshake_version) (λ v. tried (y.to_utf8_string v)) f.version
  definition ←
      block (get node tag_handshake_function_definition) (λ v. returns (y.to_definition v))
        f.function_definition
  wanted ←
      block (get node tag_handshake_wanted_target) (λ v. tried (y.to_utf8_string v)) f.wanted_target
  returns (record {
    name = name;
    id = id;
    client_type = client_type;
    observe_data_tags = tags;
    auth_name = auth_name;
    auth_payload = auth_payload;
    version = version;
    function_definition = definition;
    wanted_target = wanted;
  })

-- decodeRejectedFrame, decodeGoawayFrame and decodeConnectToFrame, from the map of blocks on
unfoldable pub read_message : (y : Y3) → GoMap ℕ y.Value → String → Try String
read_message y node m = block (get node tag_message) (λ v. tried (y.to_utf8_string v)) m

-- the frame filled with what the blocks give
unfoldable pub read_frame_of : (y : Y3) → GoMap ℕ y.Value → Frame → Try Frame
read_frame_of y node (rejected_frame m) = do m' ← read_message y node m; returns (rejected_frame m')
read_frame_of y node (handshake_frame f) = do
  f' ← read_handshake_frame y node f
  returns (handshake_frame f')
read_frame_of y node handshake_ack_frame = returns handshake_ack_frame
read_frame_of y node (data_frame f) = do f' ← read_data_frame y node f; returns (data_frame f')
read_frame_of y node (goaway_frame m) = do m' ← read_message y node m; returns (goaway_frame m')
read_frame_of y node (connect_to_frame e) = do
  e' ← read_message y node e
  returns (connect_to_frame e')

-- Decode(data, f): the frame as it is left when no error is returned
unfoldable pub decode : (y : Y3) → y.Packet → Frame → Try Frame
decode y data_ f = do node ← tried (y.decode_node data_); read_frame_of y node f

-- ReadPacket: the type of the packet read
unfoldable pub packet_type : (y : Y3) → y.Packet → ℕ
packet_type y buf = y.first_byte buf % 128
