-- ===== src/Context.antt =====
-- core/context.go: the context of one frame. `A` stands for Go's `any`. A nil map of keys reads
-- as an empty one, and `Set` makes it, so both are the empty map here.
pub mod Laws
use yomo.Common.{String, Option, none, some, [], nat_key, string_key}
use yomo.Connection.{Connection}
use yomo.Errors.{Result, ok, ◌>>=◌}
use yomo.Frame.{DataFrame}
use yomo.GoMap.{GoMap, get, put}
use yomo.Metadata.{entries, set_all, Msgpack, decode}

pub record Context (A : Type 0) : Type 0 where
  pub connection : Connection
  pub frame : DataFrame
  pub frame_metadata : GoMap String String
  pub keys : GoMap String A

-- A context in `ctxPool`: `reset` has set all but the map of keys to nil.
pub record Released (A : Type 0) : Type 0 where
  pub keys : GoMap String A

module _ {A : Type 0} where
  -- c.Set(key, value)
  unfoldable pub set_value : Context A → String → A → Context A
  set_value c key value = record c { keys = put c.keys key value }

  -- c.Get(key)
  unfoldable pub get_value : Context A → String → Option A
  get_value c key = get c.keys key

  -- v := ctxPool.Get(), a new context if it is nil
  abbrev pub pooled_keys : Option (Released A) → GoMap String A
  pooled_keys none = []
  pooled_keys (some v) = v.keys

  -- newContext(conn, df); `pooled` is what the pool gave.
  unfoldable pub new_context :
      Msgpack → Connection → DataFrame → Option (Released A) → Result (Context A)
  new_context mp conn df pooled = do
    fmd ← decode mp df.metadata
    ok (record {
      connection = conn;
      frame = df;
      frame_metadata = set_all fmd (entries conn.metadata);
      keys = pooled_keys pooled;
    })

  -- c.Release(): reset, whose `clear` empties the keys; the context goes to the pool.
  unfoldable pub release : Context A → Released A
  release c = record { keys = [] }
