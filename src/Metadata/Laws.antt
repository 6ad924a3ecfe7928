-- ===== src/Metadata/Laws.antt =====
-- Reads after writes, merging, cloning, and the round trip through msgpack.
use text.Mathlib.TextEquality.{eq_iff}
use yomo.Common.{
  String, ◌≡◌, refl, Option, none, some, [], ◌∷◌, arith, ◌==◌, nat_key, string_key, if◌then◌else◌,
}
use yomo.GoMap.{GoMap, get, SameMap, IsMap}
use yomo.GoMap.Laws.{get-put, put-IsMap, get-nil}
use yomo.Errors.{ok}
use yomo.Frame.{Bytes}
use yomo.Metadata.{
  M, nil, made, entries, lookup, set_entry, set_all, clone, Msgpack, encode, decode,
}

pub get-set_entry :
    (m : GoMap String String) (k j v : String)
    → get (set_entry m k v) j ≡ (if k == "" then get m j else if k == j then some v else get m j)
unfolding set_entry
get-set_entry m k j v = ground (arith, get-put m k j v)

-- Go's `||` on optional values: the first that is there.
abbrev pub or_else : Option String → Option String → Option String
or_else none b = b
or_else (some a) b = some a

-- Merging one map over another: its entries win, but for an empty key.
pub get-set_all :
    (m n : GoMap String String) (j : String)
    → IsMap n
    → get (set_all m n) j ≡ (if j == "" then get m j else or_else (get n j) (get m j))
unfolding set_all get
get-set_all m [] j h = ground arith
get-set_all m ((k, v) ∷ n) j h = ground (
  arith,
  get-set_all (set_entry m k v) n j h.1,
  get-set_entry m k j v,
  eq_iff k j,
  eq_iff k "",
  eq_iff j "",
  h.0,
)

pub set_entry-IsMap : (m : GoMap String String) (k v : String) → IsMap m → IsMap (set_entry m k v)
unfolding set_entry
set_entry-IsMap m k v h = ground (arith, put-IsMap m k v h)

pub set_all-IsMap : (m n : GoMap String String) → IsMap m → IsMap (set_all m n)
unfolding set_all
set_all-IsMap m [] h = h
set_all-IsMap m ((k, v) ∷ n) h = set_all-IsMap (set_entry m k v) n (set_entry-IsMap m k v h)

-- A clone reads as the original, under every key, if no key of that stands twice or is empty.
pub lookup-clone :
    (m : M) (j : String) → IsMap (entries m) → lookup m "" ≡ none → lookup (clone m) j ≡ lookup m j
unfolding lookup clone
lookup-clone nil j h e = refl
lookup-clone (made []) j h e = refl
lookup-clone (made (x ∷ m)) j h e =
    ground (arith, get-set_all [] (x ∷ m) j h, get-nil {V = String} j, eq_iff j "")

module _ (mp : Msgpack) where
  -- Whatever map is encoded, decoding gives a map that every read sees as the same.
  pub decode-encode :
      (m : GoMap String String) (b : Bytes)
      → encode mp m ≡ ok b
      → (n : GoMap String String) × (decode mp b ≡ ok n) × SameMap n m
  unfolding encode decode
  decode-encode [] [] h = ([], refl, λ k. refl)
  decode-encode [] (c ∷ b) h = absurd (ground arith)
  decode-encode (e ∷ m) [] h = absurd (mp.marshal_not_empty (e ∷ m) h)
  decode-encode (e ∷ m) (c ∷ b) h = mp.unmarshal-marshal (e ∷ m) (c ∷ b) h
