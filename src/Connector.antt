-- ===== src/Connector.antt =====
-- core/connector.go. The `sync.Map` makes each access one step. `done` says that the connector's
-- context is done: `Close` cancels it, and so does the server that made it.
pub mod Laws
pub mod Closing
use yomo.Common.{
  ℕ, String, Bool, true, false, Option, none, some, List, [], ◌∷◌, nat_key, string_key,
  if◌then◌else◌,
}
use yomo.GoMap.{GoMap, get, put, delete}
use yomo.Errors.{Error, plain}
use yomo.Connection.{Connection}

pub record Connector : Type 0 where
  pub done : Bool
  pub connections : GoMap ℕ Connection

abbrev pub err_connector_closed : Error
err_connector_closed = plain "yomo: connector closed"

-- NewConnector(ctx)
unfoldable pub new : Connector
new = record { done = false; connections = [] }

-- The parent context, the server's, is cancelled.
unfoldable pub cancel : Connector → Connector
cancel c = record c { done = true }

-- c.Store(connID, conn)
unfoldable pub store : Connector → ℕ → Connection → Connector × Option Error
store c conn_id conn =
    if c.done
    then (c, some err_connector_closed)
    else (record c { connections = put c.connections conn_id conn }, none)

-- c.Remove(connID)
unfoldable pub remove : Connector → ℕ → Connector × Option Error
remove c conn_id =
    if c.done
    then (c, some err_connector_closed)
    else (record c { connections = delete c.connections conn_id }, none)

-- The results of `Get`: an error, (nil, false) or (conn, true).
pub data Found : Type 0 where
  closed : Error → Found
  missing : Found
  found : Connection → Found

abbrev pub found_of : Option Connection → Found
found_of none = missing
found_of (some conn) = found conn

-- c.Get(id)
unfoldable pub get_conn : Connector → ℕ → Found
get_conn c id = if c.done then closed err_connector_closed else found_of (get c.connections id)

-- The loop of `Find` over the entries of the map.
unfoldable pub select : (Connection → Bool) → GoMap ℕ Connection → List Connection
select find_func [] = []
select find_func ((k, conn) ∷ others) =
    let rest = select find_func others in if find_func conn then conn ∷ rest else rest

-- c.Find(findFunc)
unfoldable pub find : Connector → (Connection → Bool) → List Connection × Option Error
find c find_func =
    if c.done then ([], some err_connector_closed) else (select find_func c.connections, none)

-- The loop of `Close`: each key of the map that is iterated is deleted from the map.
unfoldable pub delete_keys : GoMap ℕ Connection → GoMap ℕ Connection → GoMap ℕ Connection
delete_keys [] m = m
delete_keys ((k, conn) ∷ others) m = delete_keys others (delete m k)

-- c.Close()
unfoldable pub close : Connector → Connector × Option Error
close c =
    if c.done
    then (c, some err_connector_closed)
    else (record { done = true; connections = delete_keys c.connections c.connections }, none)

-- The keys of the loop of `Snapshot`, before they are printed, each with its connection's name.
unfoldable pub snapshot : GoMap ℕ Connection → GoMap ℕ String
snapshot [] = []
snapshot ((k, conn) ∷ others) = (k, conn.name) ∷ snapshot others
