-- ===== src/Connector/Closing.antt =====
-- A connector that is closed: what every method answers, and what is left in the map.
use yomo.Common.{
  ℕ, ◌≡◌, refl, Bool, true, false, none, some, [], ◌∷◌, arith, nat_key, string_key, if◌then◌else◌,
  is_some,
}
use yomo.GoMap.{GoMap, get, delete}
use yomo.GoMap.Laws.{get-delete}
use yomo.Connection.{Connection}
use yomo.Connector.{
  Connector, err_connector_closed, cancel, store, remove, get_conn, closed, find, close,
  delete_keys,
}

get-delete_keys :
    (n m : GoMap ℕ Connection) (j : ℕ)
    → get (delete_keys n m) j ≡ (if is_some (get n j) then none else get m j)
unfolding delete_keys get
get-delete_keys [] m j = refl
get-delete_keys ((k, conn) ∷ n) m j =
    ground (arith, get-delete_keys n (delete m k) j, get-delete m k j)

-- `Close` on an open connector empties the map and marks the connector closed.
pub close_empties :
    (c : Connector) (j : ℕ)
    → c.done ≡ false
    → ((close c).1 ≡ none) × ((close c).0.done ≡ true) × (get (close c).0.connections j ≡ none)
unfolding close
close_empties c j h = ground (arith, get-delete_keys c.connections c.connections j)

pub done-close : (c : Connector) → (close c).0.done ≡ true
unfolding close
done-close c = ground arith

-- Once its context is done, every method of a connector fails with `ErrConnectorClosed` and
-- changes nothing.
pub closed_absorbs :
    (c : Connector) (conn_id : ℕ) (conn : Connection) (find_func : Connection → Bool)
    → c.done ≡ true
    → (store c conn_id conn ≡ (c, some err_connector_closed))
      × (remove c conn_id ≡ (c, some err_connector_closed))
      × (get_conn c conn_id ≡ closed err_connector_closed)
      × (find c find_func ≡ ([], some err_connector_closed))
      × (close c ≡ (c, some err_connector_closed))
unfolding store remove get_conn find close
closed_absorbs c conn_id conn find_func h = (rw h, rw h, rw h, rw h, rw h)

-- A connector whose parent context was cancelled first keeps its connections: `Close` returns
-- before its loop.
pub close-cancel : (c : Connector) → (close (cancel c)).0.connections ≡ c.connections
unfolding close cancel
close-cancel c = refl
