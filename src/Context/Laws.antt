-- ===== src/Context/Laws.antt =====
-- What a frame's context starts with.
use yomo.Common.{
  String, ◌≡◌, refl, ◌∙◌, Option, none, some, arith, ◌==◌, nat_key, string_key, if◌then◌else◌,
}
use yomo.Connection.{Connection}
use yomo.Errors.{ok}
use yomo.Frame.{DataFrame}
use yomo.GoMap.{GoMap, get, IsMap}
use yomo.GoMap.Laws.{get-nil}
use yomo.Metadata.{entries, set_all, Msgpack, encode}
use yomo.Metadata.Laws.{get-set_all, or_else, decode-encode}
use yomo.Context.{Context, Released, set_value, get_value, pooled_keys, new_context, release}

-- The frame's metadata that a sender encoded is merged under the connection's: for each key but
-- the empty one the connection's value if it has one, else the sender's. The context keeps the
-- frame and the connection.
pub new_context-encode :
    {A : Type 0} (mp : Msgpack) (conn : Connection) (df : DataFrame) (pooled : Option (Released A))
    (sent : GoMap String String)
    → IsMap (entries conn.metadata)
    → encode mp sent ≡ ok df.metadata
    → (c : Context A) × (new_context mp conn df pooled ≡ ok c)
      × (c.connection ≡ conn)
      × (c.frame ≡ df)
      × ((j : String)
          → get c.frame_metadata j ≡ (
              if j == "" then get sent j else or_else (get (entries conn.metadata) j) (get sent j)))
unfolding new_context
new_context-encode mp conn df pooled sent h e =
    let (n, decoded, same) = decode-encode mp sent df.metadata e in
    (
      record {
        connection = conn;
        frame = df;
        frame_metadata = set_all n (entries conn.metadata);
        keys = pooled_keys pooled;
      },
      rw decoded,
      refl,
      refl,
      λ j. get-set_all n (entries conn.metadata) j h ∙ rw (same j),
    )

-- A value that was set on one frame's context is not seen in a context made from the same object
-- after its release, under any key.
pub get_value-release :
    {A : Type 0} (mp : Msgpack) (conn : Connection) (df : DataFrame) (old c : Context A)
    (key j : String) (value : A)
    → new_context mp conn df (some (release (set_value old key value))) ≡ ok c
    → get_value c j ≡ none
unfolding new_context release get_value
get_value-release {A} mp conn df old c key j value h = ground (arith, get-nil {V = A} j)
