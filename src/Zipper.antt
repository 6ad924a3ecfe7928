-- ===== src/Zipper.antt =====
-- zipper.go and pkg/config/config.go: a zipper's configuration, and the downstreams of its mesh.
pub mod Downstreams
use Prim.Native.String.{◌++◌ as join}
use yomo.Common.{
  ℕ, String, ◌||◌, Option, none, some, List, [], ◌∷◌, ◌==◌, nat_key, string_key, if◌then◌else◌,
}
use yomo.Auth.{Authentication, with_token_auth}
use yomo.Client.{
  Client, ClientOptions, decimal, new_client, with_credential, with_non_block_write, with_reconnect,
}
use yomo.Connection.{client_type_upstream_zipper}
use yomo.Errors.{Error, plain, Result}
use yomo.GoMap.{GoMap, get}
use yomo.Server.State.{Server, Downstream, add_downstream_server}

pub record Mesh : Type 0 where
  pub host : String
  pub port : ℕ
  pub credential : String

-- config.Config; the bridges are of any type and are not read here.
pub record Config : Type 0 where
  pub name : String
  pub host : String
  pub port : ℕ
  pub auth : GoMap String String
  pub mesh : GoMap String Mesh

-- validateConfig(conf)
unfoldable pub validate_config : Config → Option Error
validate_config conf =
    if conf.name == ""
    then some (plain "config: the name is required")
    else if conf.host == ""
    then some (plain "config: the host is required")
    else if conf.port == 0
    then some (plain "config: the port is required")
    else none

-- The options of RunZipper: the authentications of its server.
unfoldable pub auths_of : Option String → Option String → GoMap String Authentication
auths_of none token = []
auths_of (some t) none = []
auths_of (some t) (some token_string) = with_token_auth [] "token" (token_string ∷ [])

unfoldable pub run_zipper_auths : Config → GoMap String Authentication
run_zipper_auths conf = auths_of (get conf.auth "type") (get conf.auth "token")

-- downstream
pub record MeshDownstream : Type 0 where
  pub local_name : String
  pub client : Client

-- d.ID() and d.LocalName()
unfoldable pub as_downstream : MeshDownstream → Downstream
as_downstream d = record { id = d.client.client_id; local_name = d.local_name }

-- fmt.Sprintf("%s:%d", meshConf.Host, meshConf.Port)
unfoldable pub address : Mesh → String
address m = join (join m.host ":") (decimal 20 m.port)

-- The options of a mesh client, and those of the zipper after them.
unfoldable pub client_options :
    Mesh → List (ClientOptions → ClientOptions) → List (ClientOptions → ClientOptions)
client_options m opts = with_credential m.credential ∷ with_non_block_write ∷ with_reconnect ∷ opts

-- What NewZipper is given beside the mesh: `new_id` is what `id.New` makes for the client of a mesh
-- name, `marshal` the JSON of a definition.
module _ (marshal : String → String → Result String) (new_id : String → String) (name : String)
    (opts : List (ClientOptions → ClientOptions)) where
  -- &downstream{localName: meshName, client: core.NewClient(...)}
  unfoldable pub mesh_downstream : String → Mesh → MeshDownstream
  mesh_downstream mesh_name m = record {
    local_name = mesh_name;
    client =
        new_client marshal (new_id mesh_name) name (address m) client_type_upstream_zipper
          (client_options m opts);
  }

  -- The loop of NewZipper over the mesh.
  unfoldable pub add_mesh : {S : Type 0} → Server S → GoMap String Mesh → Server S
  add_mesh s [] = s
  add_mesh s ((mesh_name, m) ∷ mesh) =
      add_mesh
        (if mesh_name == "" || mesh_name == name
          then s
          else add_downstream_server s (as_downstream (mesh_downstream mesh_name m)))
        mesh
