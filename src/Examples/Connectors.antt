-- ===== src/Examples/Connectors.antt =====
-- The connector, contexts and metadata at concrete inputs.
use yomo.Common.{ℕ, ◌≡◌, refl, true, false, none, some, [], ◌∷◌, nat_key, string_key}
use yomo.Connector.{Connector, closed, err_connector_closed, get_conn, store, remove, find, close}
use yomo.Connector.Closing.{closed_absorbs}
use yomo.Context.{Context, new_context, get_value, set_value, release}
use yomo.Context.Laws.{get_value-release}
use yomo.Errors.{ok}
use yomo.Metadata.{set_all, encode, decode}
use yomo.Examples.Setting.{conn_one, small_msgpack, tid_map, frame_seven}

abbrev open_one : Connector
open_one = record { done = false; connections = (1, conn_one) ∷ [] }

abbrev done_one : Connector
done_one = record { done = true; connections = (1, conn_one) ∷ [] }

closed_absorbs_example :
    (store done_one 1 conn_one ≡ (done_one, some err_connector_closed))
    × (remove done_one 1 ≡ (done_one, some err_connector_closed))
    × (get_conn done_one 1 ≡ closed err_connector_closed)
    × (find done_one (λ conn. true) ≡ ([], some err_connector_closed))
    × (close done_one ≡ (done_one, some err_connector_closed))
closed_absorbs_example = closed_absorbs done_one 1 conn_one (λ conn. true) refl

tid_encodes : encode small_msgpack tid_map ≡ ok (129 ∷ [])
unfolding encode
tid_encodes = refl

abbrev used : Context ℕ
used = record {
  connection = conn_one;
  frame = frame_seven;
  frame_metadata = tid_map;
  keys = ("user", 1) ∷ [];
}

abbrev reused : Context ℕ
reused = record { connection = conn_one; frame = frame_seven; frame_metadata = tid_map; keys = [] }

reused_context :
    new_context small_msgpack conn_one frame_seven (some (release (set_value used "k" 2)))
    ≡ ok reused
unfolding new_context release decode set_all
reused_context = refl

get_value-release_example : get_value reused "user" ≡ none
get_value-release_example =
    get_value-release small_msgpack conn_one frame_seven used reused "k" "user" 2 reused_context
