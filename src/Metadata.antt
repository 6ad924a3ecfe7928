-- ===== src/Metadata.antt =====
-- core/metadata/metadata.go and core/metadata.go.
pub mod Laws
use yomo.Common.{
  String, ◌≡◌, Option, none, some, List, [], ◌∷◌, ◌==◌, nat_key, string_key, if◌then◌else◌,
}
use yomo.GoMap
use yomo.GoMap.{GoMap, get, put, SameMap}
use yomo.Errors.{Result, ok}
use yomo.Frame.{Bytes}

-- `type M map[string]string`, with Go's nil map kept apart: it reads as empty, and a write panics.
pub data M : Type 0 where
  nil : M
  made : GoMap String String → M

abbrev pub entries : M → GoMap String String
entries nil = []
entries (made m) = m

abbrev pub source_id_key : String
source_id_key = "yomo-source-id"

abbrev pub tid_key : String
tid_key = "yomo-tid"

abbrev pub trace_id_key : String
trace_id_key = "yomo-trace-id"

abbrev pub span_id_key : String
span_id_key = "yomo-span-id"

abbrev pub target_key : String
target_key = "yomo-target"

abbrev pub wanted_target_key : String
wanted_target_key = "yomo-wanted-target"

-- m.Get(k)
unfoldable pub lookup : M → String → Option String
lookup m k = get (entries m) k

-- m.Set(k, v) on the map that is there; an empty key does nothing.
unfoldable pub set_entry : GoMap String String → String → String → GoMap String String
set_entry m k v = if k == "" then m else put m k v

-- m.Set(k, v); `none` is the panic of a write to a nil map.
unfoldable pub set : M → String → String → Option M
set nil k v = if k == "" then some nil else none
set (made m) k v = some (made (set_entry m k v))

-- The loop of `Set` over the entries of a map.
unfoldable pub set_all : GoMap String String → GoMap String String → GoMap String String
set_all m [] = m
set_all m ((k, v) ∷ others) = set_all (set_entry m k v) others

-- New(mds...)
unfoldable pub new_from : GoMap String String → List (GoMap String String) → GoMap String String
new_from m [] = m
new_from m (md ∷ mds) = new_from (set_all m md) mds

unfoldable pub new : List (GoMap String String) → M
unfolding new_from
new mds = made (new_from [] mds)

-- m.Clone()
unfoldable pub clone : M → M
clone nil = nil
clone (made []) = made []
clone (made (e ∷ m)) = made (set_all [] (e ∷ m))

-- The msgpack library, as the code uses it: what it writes is not empty, and it reads back a map
-- with the same entries.
pub record Msgpack : Type 0 where
  pub marshal : GoMap String String → Result Bytes
  pub unmarshal : Bytes → Result (GoMap String String)
  pub unmarshal-marshal :
      (m : GoMap String String) (b : Bytes)
      → marshal m ≡ ok b
      → (n : GoMap String String) × (unmarshal b ≡ ok n) × SameMap n m
  pub marshal_not_empty : (m : GoMap String String) → ¬ (marshal m ≡ ok [])

module _ (mp : Msgpack) where
  -- m.Encode(); the nil slice is the empty one.
  unfoldable pub encode : GoMap String String → Result Bytes
  encode [] = ok []
  encode (e ∷ m) = mp.marshal (e ∷ m)

  -- Decode(data)
  unfoldable pub decode : Bytes → Result (GoMap String String)
  decode [] = ok []
  decode (b ∷ bs) = mp.unmarshal (b ∷ bs)

-- core.NewMetadata(sourceID, tid)
unfoldable pub new_metadata : String → String → GoMap String String
new_metadata source_id tid = (source_id_key, source_id) ∷ (tid_key, tid) ∷ []

-- core.GetTIDFromMetadata(m); a missing entry reads as "".
unfoldable pub get_tid : GoMap String String → String
get_tid m = elim (get m tid_key) [ none ↦ "" | some tid ↦ tid ]

-- core.SetMetadataTarget(m, target)
unfoldable pub set_target : GoMap String String → String → GoMap String String
set_target m target = set_entry m target_key target
