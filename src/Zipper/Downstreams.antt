-- ===== src/Zipper/Downstreams.antt =====
-- The downstreams that a zipper has for its mesh.
use yomo.Common.{
  String, ◌≡◌, refl, ◌∙◌, Bool, not, ◌&&◌, ◌||◌, List, [], ◌∷◌, arith, ◌==◌, nat_key, string_key,
  same_iff, if◌then◌else◌,
}
use yomo.Client.{ClientOptions, new_client}
use yomo.Errors.{Result}
use yomo.GoMap.{GoMap, get, has}
use yomo.GoMap.Laws.{get-put}
use yomo.Server.State.{Server, Downstream, add_downstream_server}
use yomo.Zipper.{Mesh, as_downstream, mesh_downstream, add_mesh}

-- A mesh name that stands for another zipper.
abbrev pub is_other : String → String → Bool
is_other name m = not (m == "" || m == name)

module _ (marshal : String → String → Result String) (new_id : String → String) (name : String)
    (opts : List (ClientOptions → ClientOptions)) where
  id-mesh_downstream :
      (m : String) (x : Mesh)
      → (as_downstream (mesh_downstream marshal new_id name opts m x)).id ≡ new_id m
  unfolding as_downstream mesh_downstream new_client
  id-mesh_downstream m x = refl

  -- One turn of the loop.
  has-add_downstream_server :
      {S : Type 0} (s : Server S) (d : Downstream) (id : String)
      → has (add_downstream_server s d).downstreams id ≡ (d.id == id || has s.downstreams id)
  unfolding add_downstream_server
  has-add_downstream_server s d id = ground (arith, get-put s.downstreams d.id id d)

  same_ids :
      ((a b : String) → new_id a ≡ new_id b → a ≡ b)
      → (a b : String) → (new_id a == new_id b) ≡ (a == b)
  same_ids inj a b = ground (arith, inj a b, same_iff a b, same_iff (new_id a) (new_id b))

  abbrev turn : {S : Type 0} → Server S → String → Mesh → Server S
  turn s k x =
      if k == "" || k == name
      then s
      else add_downstream_server s (as_downstream (mesh_downstream marshal new_id name opts k x))

  has-turn :
      {S : Type 0} (s : Server S) (k m : String) (x : Mesh)
      → ((a b : String) → new_id a ≡ new_id b → a ≡ b)
      → has (turn s k x).downstreams (new_id m)
        ≡ (has s.downstreams (new_id m) || (k == m && is_other name k))
  has-turn s k m x inj =
      let d = as_downstream (mesh_downstream marshal new_id name opts k x) in
      ground
        (arith, has-add_downstream_server s d (new_id m), id-mesh_downstream k x, same_ids inj k m)

  -- If the identifiers that are made for mesh names differ, a zipper has, beside the downstreams it
  -- had, exactly one for each name of its mesh that is neither empty nor its own.
  pub has-add_mesh :
      {S : Type 0} (s : Server S) (mesh : GoMap String Mesh) (m : String)
      → ((a b : String) → new_id a ≡ new_id b → a ≡ b)
      → has (add_mesh marshal new_id name opts s mesh).downstreams (new_id m)
        ≡ (has s.downstreams (new_id m) || (has mesh m && is_other name m))
  unfolding add_mesh get
  has-add_mesh s [] m inj = ground arith
  has-add_mesh s ((k, x) ∷ mesh) m inj =
      has-add_mesh (turn s k x) mesh m inj ∙ ground (arith, has-turn s k m x inj, same_iff k m)
