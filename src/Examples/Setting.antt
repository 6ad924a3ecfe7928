-- ===== src/Examples/Setting.antt =====
-- Data for the examples: a msgpack that knows one map, a server with token authentication, and
-- frames.
use text.Mathlib.TextEquality.{eq_iff}
use yomo.Common.{
  String, ◌≡◌, refl, ◌&&◌, none, [], ◌∷◌, arith, ◌==◌, nat_key, string_key, if◌then◌else◌,
}
use yomo.Auth.{with_token_auth}
use yomo.Connection.{Connection}
use yomo.Connector
use yomo.Connector.{Connector}
use yomo.Errors.{plain, Result, ok, err}
use yomo.Frame.{Bytes, DataFrame, HandshakeFrame}
use yomo.GoMap.{GoMap, get, SameMap}
use yomo.Metadata.{made, Msgpack, tid_key}
use yomo.Router
use yomo.Router.{Router}
use yomo.Server.State.{Config, Server}
use yomo.Version.{default_version_negotiate, version}

abbrev pub tid_map : GoMap String String
tid_map = (tid_key, "t") ∷ []

abbrev pub pack : GoMap String String → Result Bytes
pack [] = err (plain "unsupported")
pack ((k, v) ∷ []) = if k == tid_key && v == "t" then ok (129 ∷ []) else err (plain "unsupported")
pack (a ∷ b ∷ m) = err (plain "unsupported")

abbrev pub unpack : Bytes → Result (GoMap String String)
unpack b = ok tid_map

pub unpack-pack :
    (m : GoMap String String) (b : Bytes)
    → pack m ≡ ok b
    → (n : GoMap String String) × (unpack b ≡ ok n) × SameMap n m
unfolding get
unpack-pack [] b h = cc
unpack-pack ((k, v) ∷ []) b h =
    (tid_map, refl, λ j. ground (arith, h, eq_iff k tid_key, eq_iff v "t"))
unpack-pack (a ∷ b ∷ m) c h = cc

pub pack_not_empty : (m : GoMap String String) → ¬ (pack m ≡ ok [])
pack_not_empty [] h = cc
pack_not_empty ((k, v) ∷ []) h = ground arith
pack_not_empty (a ∷ b ∷ m) h = cc

abbrev pub small_msgpack : Msgpack
small_msgpack = record {
  marshal = pack;
  unmarshal = unpack;
  unmarshal-marshal = unpack-pack;
  marshal_not_empty = pack_not_empty;
}

abbrev pub config : Config
config = record {
  auths = with_token_auth [] "token" ("secret" ∷ []);
  version_negotiate = default_version_negotiate;
  msgpack = small_msgpack;
  start_span = λ md. record { trace_id = none; span_id = none };
}

abbrev pub server : Server Router
server = record {
  connector = Connector.new;
  router = Router.default;
  counter = 0;
  increment = 0;
  downstreams = [];
}

abbrev pub sfn_frame : HandshakeFrame
sfn_frame = record {
  name = "sfn";
  id = "a-0";
  client_type = 0x5D;
  observe_data_tags = 7 ∷ 8 ∷ [];
  auth_name = "token";
  auth_payload = "secret";
  version = version;
  function_definition = none;
  wanted_target = "";
}

abbrev pub frame_seven : DataFrame
frame_seven = record { metadata = 129 ∷ []; tag = 7; payload = 1 ∷ 2 ∷ [] }

abbrev pub conn_one : Connection
conn_one = record {
  id = 1;
  name = "sfn";
  client_id = "a-0";
  client_type = 0x5D;
  metadata = made [];
  observe_data_tags = 7 ∷ 8 ∷ [];
  fconn = 5;
}
