-- ===== src/Server/Frames/Delivery.antt =====
-- To which connections a data frame is written.
use yomo.Common.{
  ℕ, ◌≡◌, refl, ap, ◌∙◌, inl, inr, false, ◌&&◌, Option, none, some, List, [], ◌∷◌, map, arith,
  nat_key, string_key, nat_eq_iff, if◌then◌else◌, Option-cases, occurrences, All,
}
use yomo.Connection.{Connection}
use yomo.Connector.{Connector, get_conn}
use yomo.Context.{Context}
use yomo.Errors.{ok}
use yomo.Frame.{DataFrame, Bytes, data_frame}
use yomo.GoMap.{get, has}
use yomo.Metadata.{made, encode}
use yomo.Router.Rules.{receives}
use yomo.Server.Frames.{deliver, routing_data_frame, traced, counted}
use yomo.Server.Routers.{RouterImpl, RouterLaws}
use yomo.Server.State.{Config, Server, Effect, write}

-- Each connection is stored under its own identifier.
pub record IsKeyed (c : Connector) : Type 0 where
  pub at_key : (k : ℕ) (conn : Connection) → get c.connections k ≡ some conn → conn.id ≡ k

-- The connections that stand under the identifiers, in their order.
abbrev pub reached_from : Option Connection → List Connection → List Connection
reached_from none others = others
reached_from (some conn) others = conn ∷ others

pub reached : Connector → List ℕ → List Connection
reached c [] = []
reached c (id ∷ ids) = reached_from (get c.connections id) (reached c ids)

abbrev pub conn_ids : List Connection → List ℕ
conn_ids = map (λ conn. conn.id)

abbrev pub write_to : DataFrame → Connection → Effect
write_to df conn = write conn.fconn (data_frame df)

deliver-eq-map :
    (c : Connector) (df : DataFrame) (ids : List ℕ)
    → c.done ≡ false
    → deliver c df ids ≡ map (write_to df) (reached c ids)
unfolding deliver reached get_conn
deliver-eq-map c df [] h = refl
deliver-eq-map c df (id ∷ ids) h = elim (Option-cases (get c.connections id)) [
  | inl e ↦ ground (arith, e, deliver-eq-map c df ids h)
  | inr (conn, e) ↦ ground (arith, e, deliver-eq-map c df ids h)
]

occurrences-reached :
    (c : Connector) (ids : List ℕ) (j : ℕ)
    → IsKeyed c
    → occurrences j (conn_ids (reached c ids))
      ≡ (if has c.connections j then occurrences j ids else 0)
unfolding occurrences reached
occurrences-reached c [] j k = ground arith
occurrences-reached c (id ∷ ids) j k = elim (Option-cases (get c.connections id)) [
  | inl e ↦ ground (arith, e, occurrences-reached c ids j k, nat_eq_iff id j)
  | inr (conn, e) ↦ ground (
    arith,
    e,
    k.at_key id conn e,
    occurrences-reached c ids j k,
    nat_eq_iff id j,
    nat_eq_iff conn.id j,
  )
]

-- The connections that are reached are those that the connector holds.
reached-held :
    (c : Connector) (ids : List ℕ)
    → IsKeyed c
    → All (λ (conn : Connection). get c.connections conn.id ≡ some conn) (reached c ids)
unfolding reached
reached-held c [] k = tt
reached-held c (id ∷ ids) k = elim (Option-cases (get c.connections id)) [
  | inl e ↦ rw e (reached-held c ids k)
  | inr (conn, e) ↦ rw e (ap (get c.connections) (k.at_key id conn e) ∙ e, reached-held c ids k)
]

-- While the connector is open and holds each connection under its own id, and the router is in a
-- state of its laws, a frame whose metadata can be encoded is written, with its tag and
-- payload and the traced metadata, to a list of connections of the connector, over the link of each,
-- in which each connection that is connected and receives the frame by the router's rules stands
-- once, and no other. The step
-- returns no error, counts the frame, and leaves the connector and the router as they were.
pub routing_data_frame_delivers :
    (R : RouterImpl) (laws : RouterLaws R) (cfg : Config) {A : Type 0} (s : Server R.State)
    (c : Context A) (b : Bytes)
    → laws.IsState s.router
    → IsKeyed s.connector
    → s.connector.done ≡ false
    → encode cfg.msgpack (traced R cfg c) ≡ ok b
    → let r = routing_data_frame R cfg s c in
      (conns : List Connection) × (r.effects
        ≡ map
            (write_to (record { metadata = b; tag = c.frame.tag; payload = c.frame.payload }))
            conns)
      × All (λ (conn : Connection). get s.connector.connections conn.id ≡ some conn) conns
      × ((j : ℕ)
          → occurrences j (conn_ids conns) ≡ (
              if has s.connector.connections j
                && receives (laws.rules s.router) c.frame.tag (made (traced R cfg c)) j
              then 1
              else 0))
      × (r.error ≡ none)
      × (r.server ≡ counted s)
unfolding routing_data_frame
routing_data_frame_delivers R laws cfg s c b h k o e =
    let ids = R.route s.router c.frame.tag (made (traced R cfg c)) in
    (
      reached s.connector ids,
      rw (e, routing_data_frame) (deliver-eq-map s.connector _ ids o),
      reached-held s.connector ids k,
      λ j. ground (
        arith,
        occurrences-reached s.connector ids j k,
        laws.occurrences-route s.router c.frame.tag (made (traced R cfg c)) j h,
      ),
      rw (e, routing_data_frame),
      rw (e, routing_data_frame),
    )
