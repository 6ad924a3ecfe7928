-- ===== src/Connector/Laws.antt =====
-- Reads after writes while the connector is open.
use yomo.Common.{ℕ, ◌≡◌, false, none, arith, ◌==◌, nat_key, string_key, if◌then◌else◌}
use yomo.GoMap.Laws.{get-put, get-delete}
use yomo.Connection.{Connection}
use yomo.Connector.{Connector, store, remove, get_conn, missing, found}

-- While the connector is open, a store returns no error, is seen by the reads of its own key
-- alone, and replaces what was there.
pub get_conn-store :
    (c : Connector) (conn_id j : ℕ) (conn : Connection)
    → c.done ≡ false
    → ((store c conn_id conn).1 ≡ none)
      × (get_conn (store c conn_id conn).0 j ≡ (if conn_id == j then found conn else get_conn c j))
unfolding store get_conn
get_conn-store c conn_id j conn h = ground (arith, get-put c.connections conn_id j conn)

-- While the connector is open, a removal returns no error; the removed key is then missing and the
-- others stay.
pub get_conn-remove :
    (c : Connector) (conn_id j : ℕ)
    → c.done ≡ false
    → ((remove c conn_id).1 ≡ none)
      × (get_conn (remove c conn_id).0 j ≡ (if conn_id == j then missing else get_conn c j))
unfolding remove get_conn
get_conn-remove c conn_id j h = ground (arith, get-delete c.connections conn_id j)
