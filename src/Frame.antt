-- ===== src/Frame.antt =====
-- core/frame/frame.go: the frames, their type bytes and the reserved tags.
use yomo.Common.{
  ℕ, String, ◌&&◌, Option, none, some, List, [], ◌==◌, nat_key, string_key, leb, if◌then◌else◌,
}
use yomo.Errors.{Error, plain, Result, ok, err}

abbrev pub Bytes : Type 0
Bytes = List ℕ

-- frame.Tag, a uint32
abbrev pub Tag : Type 0
Tag = ℕ

pub record DataFrame : Type 0 where
  pub metadata : Bytes
  pub tag : Tag
  pub payload : Bytes

pub record HandshakeFrame : Type 0 where
  pub name : String
  pub id : String
  pub client_type : ℕ
  pub observe_data_tags : List Tag
  pub auth_name : String
  pub auth_payload : String
  pub version : String
  -- a JSON text as bytes, kept as the text that `string()` makes of them; `none` is a nil slice
  pub function_definition : Option String
  pub wanted_target : String

-- The implementations of the interface `Frame`.
pub data Frame : Type 0 where
  data_frame : DataFrame → Frame
  handshake_frame : HandshakeFrame → Frame
  handshake_ack_frame : Frame
  rejected_frame : String → Frame
  goaway_frame : String → Frame
  connect_to_frame : String → Frame

abbrev pub type_data_frame : ℕ
type_data_frame = 0x3F

abbrev pub type_handshake_frame : ℕ
type_handshake_frame = 0x31

abbrev pub type_handshake_ack_frame : ℕ
type_handshake_ack_frame = 0x29

abbrev pub type_rejected_frame : ℕ
type_rejected_frame = 0x39

abbrev pub type_goaway_frame : ℕ
type_goaway_frame = 0x2E

abbrev pub type_connect_to_frame : ℕ
type_connect_to_frame = 0x3E

-- f.Type()
unfoldable pub frame_type : Frame → ℕ
frame_type (data_frame f) = type_data_frame
frame_type (handshake_frame f) = type_handshake_frame
frame_type handshake_ack_frame = type_handshake_ack_frame
frame_type (rejected_frame m) = type_rejected_frame
frame_type (goaway_frame m) = type_goaway_frame
frame_type (connect_to_frame e) = type_connect_to_frame

-- Type.String()
unfoldable pub type_string : ℕ → String
type_string t =
    if t == type_data_frame
    then "DataFrame"
    else if t == type_handshake_frame
    then "HandshakeFrame"
    else if t == type_handshake_ack_frame
    then "HandshakeAckFrame"
    else if t == type_rejected_frame
    then "RejectedFrame"
    else if t == type_goaway_frame
    then "GoawayFrame"
    else if t == type_connect_to_frame
    then "ConnectToFrame"
    else "UnknownFrame"

abbrev pub zero_data_frame : DataFrame
zero_data_frame = record { metadata = []; tag = 0; payload = [] }

abbrev pub zero_handshake_frame : HandshakeFrame
zero_handshake_frame = record {
  name = "";
  id = "";
  client_type = 0;
  observe_data_tags = [];
  auth_name = "";
  auth_payload = "";
  version = "";
  function_definition = none;
  wanted_target = "";
}

-- NewFrame: the constructors of `frameTypeNewFuncMap`. The character that the message formats
-- is left out of the error's text.
unfoldable pub new_frame : ℕ → Result Frame
new_frame t =
    if t == type_data_frame
    then ok (data_frame zero_data_frame)
    else if t == type_handshake_frame
    then ok (handshake_frame zero_handshake_frame)
    else if t == type_handshake_ack_frame
    then ok handshake_ack_frame
    else if t == type_rejected_frame
    then ok (rejected_frame "")
    else if t == type_goaway_frame
    then ok (goaway_frame "")
    else if t == type_connect_to_frame
    then ok (connect_to_frame "")
    else err (plain "frame: cannot new a frame")

abbrev pub err_reserved_tag : Error
err_reserved_tag = plain "[0xF000, 0xFFFF] is reserved; please do not write within this range"

-- IsReservedTag
unfoldable pub is_reserved_tag : Tag → Option Error
is_reserved_tag tag = if leb 0xF000 tag && leb tag 0xFFFF then some err_reserved_tag else none
