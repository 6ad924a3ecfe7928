-- ===== src/Connection.antt =====
-- core/connection.go and core/client_type.go.
use yomo.Common.{ℕ, String, List, ◌==◌, nat_key, string_key, if◌then◌else◌}
use yomo.Frame.{Tag}
use yomo.Metadata.{M}

-- ClientType, a byte
abbrev pub client_type_source : ℕ
client_type_source = 0x5F

abbrev pub client_type_upstream_zipper : ℕ
client_type_upstream_zipper = 0x5E

abbrev pub client_type_stream_function : ℕ
client_type_stream_function = 0x5D

-- ClientType.String()
unfoldable pub client_type_string : ℕ → String
client_type_string c =
    if c == client_type_source
    then "Source"
    else if c == client_type_upstream_zipper
    then "UpstreamZipper"
    else if c == client_type_stream_function
    then "StreamFunction"
    else "Unknown"

-- The underlying `frame.Conn` is known by a number, which the effects on it carry.
pub record Connection : Type 0 where
  pub id : ℕ
  pub name : String
  pub client_id : String
  pub client_type : ℕ
  pub metadata : M
  pub observe_data_tags : List Tag
  pub fconn : ℕ

-- newConnection(...)
unfoldable pub new_connection : ℕ → String → String → ℕ → M → List Tag → ℕ → Connection
new_connection id name client_id client_type md tags fconn = record {
  id = id;
  name = name;
  client_id = client_id;
  client_type = client_type;
  metadata = md;
  observe_data_tags = tags;
  fconn = fconn;
}
