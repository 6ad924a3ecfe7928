-- ===== src/Server/Handshake/Acceptance.antt =====
-- Handshakes that the server accepts: under which conditions, and what the server holds then.
use yomo.Common.{
  ℕ, ◌+◌, ◌%◌, String, ◌≡◌, refl, ◌≢◌, ◌⊎◌, false, Option, none, some, arith, ◌==◌, nat_key,
  string_key, if◌then◌else◌,
}
use yomo.Auth.{authenticate}
use yomo.Connection.{Connection, new_connection, client_type_stream_function}
use yomo.Connector.{store, get_conn, found}
use yomo.Errors.{Error, plain, rejected, connect_to, conn_closed, Result, ok, err}
use yomo.Frame.{Frame, HandshakeFrame, handshake_frame}
use yomo.GoMap.{GoMap, get, put}
use yomo.GoMap.Laws.{get-put}
use yomo.Metadata.{M, made}
use yomo.Server.Routers.{RouterImpl}
use yomo.Server.State.{Config, Server, incr_id, two_to_64}
use yomo.Server.Handshake.{
  accepted, refused, reject_handshake, connect_to_new_endpoint, refuse_version, set_wanted_target,
  set_definition, add_sfn_route_rule, add_rules, define_function, after_target, after_auth,
  after_version, after_target, after_auth, after_version, create_connection, authenticate_frame,
  handshake_with, unexpected, first_frame, handshake,
}
use yomo.Server.Handshake.Carried.{
  with_target, admitted_metadata, set_wanted_target-made, set_definition-made, Carries, set-Carries,
}
use yomo.Version.{version}

-- What an accepted handshake has made of the server `s`: the connection `conn` has a new identifier
-- and the frame's fields and, with the metadata `m` of the authentication, its wanted target and
-- function definition; the connector and, for a stream function, the router know it, and
-- nothing else changed.
pub record Admits (R : RouterImpl) (s : Server R.State) (link : ℕ) (hf : HandshakeFrame) (m : M)
    (t : Server R.State) (conn : Connection) : Type 0 where
  pub was_open : s.connector.done ≡ false
  pub stays_open : t.connector.done ≡ false
  pub id : conn.id ≡ (s.increment + 1) % two_to_64
  pub increment : t.increment ≡ conn.id
  pub name : conn.name ≡ hf.name
  pub client_id : conn.client_id ≡ hf.id
  pub metadata : Carries m hf conn.metadata
  pub client_type : conn.client_type ≡ hf.client_type
  pub tags : conn.observe_data_tags ≡ hf.observe_data_tags
  pub fconn : conn.fconn ≡ link
  pub stored :
      (j : ℕ)
      → get t.connector.connections j
        ≡ (if conn.id == j then some conn else get s.connector.connections j)
  pub routed :
      ((hf.client_type ≡ client_type_stream_function)
        × (R.add s.router conn.id hf.observe_data_tags conn.metadata ≡ (t.router, none)))
      ⊎ ((hf.client_type ≢ client_type_stream_function) × (t.router ≡ s.router))
  pub counter : t.counter ≡ s.counter
  pub downstreams : t.downstreams ≡ s.downstreams

module _ (R : RouterImpl) (cfg : Config) (s : Server R.State) (fconn : ℕ)
    (hf : HandshakeFrame) where
  metadata-after_target :
      (md : M) (conn : Connection)
      → (after_target R cfg s fconn hf (some md)).verdict ≡ accepted conn
      → set_definition md hf.function_definition ≡ some conn.metadata
  unfolding incr_id new_connection store define_function add_rules add_sfn_route_rule
      reject_handshake
  metadata-after_target md conn h = ground arith

  after_target-Admits :
      (m : M) (o : Option M) (conn : Connection)
      → set_wanted_target m hf.wanted_target ≡ o
      → (after_target R cfg s fconn hf o).verdict ≡ accepted conn
      → Admits R s fconn hf m (after_target R cfg s fconn hf o).server conn
  unfolding incr_id new_connection store define_function add_rules add_sfn_route_rule
      reject_handshake
  after_target-Admits m none conn e h = cc
  after_target-Admits m (some md) conn e h = record {
    was_open = ground arith;
    stays_open = ground arith;
    id = ground arith;
    increment = ground arith;
    name = ground arith;
    client_id = ground arith;
    metadata = set-Carries m md conn.metadata hf e (metadata-after_target md conn h);
    client_type = ground arith;
    tags = ground arith;
    fconn = ground arith;
    stored = λ j. ground (
      arith,
      get-put s.connector.connections next j fresh,
      get-put (put s.connector.connections next fresh) next j conn,
    );
    routed = ground arith;
    counter = ground arith;
    downstreams = ground arith;
  }
    where
      next : ℕ
      next = (s.increment + 1) % two_to_64

      fresh : Connection
      fresh = new_connection next hf.name hf.id hf.client_type md hf.observe_data_tags fconn

  after_auth-Admits :
      (md : Result M) (conn : Connection)
      → let o = after_auth R cfg s fconn hf md in
        o.verdict ≡ accepted conn → (m : M) × (md ≡ ok m) × Admits R s fconn hf m o.server conn
  unfolding create_connection reject_handshake
  after_auth-Admits (err e) conn h = cc
  after_auth-Admits (ok m) conn h =
      (m, refl, after_target-Admits m (set_wanted_target m hf.wanted_target) conn refl h)

  after_version-Admits :
      (e : Option Error) (conn : Connection)
      → let o = after_version R cfg s fconn hf e in
        o.verdict ≡ accepted conn
        → (e ≡ none)
          × ((m : M) × (authenticate cfg.auths (some hf) ≡ ok m)
              × Admits R s fconn hf m o.server conn)
  unfolding authenticate_frame refuse_version connect_to_new_endpoint reject_handshake
  after_version-Admits none conn h =
      let (m, p, a) = after_auth-Admits (authenticate cfg.auths (some hf)) conn h in
      (refl, (m, p, a))
  after_version-Admits (some (plain e)) conn h = cc
  after_version-Admits (some (rejected e)) conn h = cc
  after_version-Admits (some (connect_to e)) conn h = cc
  after_version-Admits (some (conn_closed r e)) conn h = cc

-- A handshake that is accepted began with a handshake frame whose version was negotiated and whose
-- credential was authenticated, on a connector that was open. The connection then has the next
-- identifier, the link, the frame's name, id, client type and tags, and as metadata what this
-- authentication gave with the frame's wanted target and function definition; the connector finds it and is otherwise as before; the router
-- has its rule if it is a stream function, and is as before if not.
pub handshake-Admits :
    (R : RouterImpl) (cfg : Config) (s : Server R.State) (fconn : ℕ) (first : Result Frame)
    (conn : Connection)
    → (handshake R cfg s fconn first).verdict ≡ accepted conn
    → (hf : HandshakeFrame) × (first ≡ ok (handshake_frame hf))
      × (cfg.version_negotiate hf.version version ≡ none)
      × ((m : M) × (authenticate cfg.auths (some hf) ≡ ok m)
          × Admits R s fconn hf m (handshake R cfg s fconn first).server conn)
unfolding handshake first_frame handshake_with unexpected reject_handshake
handshake-Admits R cfg s fconn (err e) conn h = absurd (ground arith)
handshake-Admits R cfg s fconn (ok (handshake_frame hf)) conn h =
    let (v, admits) =
      after_version-Admits R cfg s fconn hf (cfg.version_negotiate hf.version version) conn h in
    (hf, refl, v, admits)
handshake-Admits R cfg s fconn (ok _) conn h = absurd (ground arith)

module _ (R : RouterImpl) (cfg : Config) (s : Server R.State) (fconn : ℕ) (hf : HandshakeFrame)
    (m : GoMap String String) where
  abbrev pub next_id : ℕ
  next_id = (s.increment + 1) % two_to_64

  abbrev pub admitted : Connection
  admitted =
      new_connection next_id hf.name hf.id hf.client_type (admitted_metadata m hf)
        hf.observe_data_tags fconn

  after_target_complete :
      s.connector.done ≡ false
      → (R.add s.router next_id hf.observe_data_tags (admitted_metadata m hf)).1 ≡ none
      → (after_target R cfg s fconn hf (some (made (with_target m hf.wanted_target)))).verdict
        ≡ accepted admitted
  unfolding incr_id new_connection store define_function add_rules add_sfn_route_rule
  after_target_complete o adds =
      ground (arith, set_definition-made (with_target m hf.wanted_target) hf.function_definition)

  -- A handshake frame that passes the negotiation and the authentication, with metadata that is not
  -- nil, is accepted if the connector is open and the router takes the rule: the connection has the
  -- next identifier, the frame's fields, and the authentication's metadata with the frame's wanted
  -- target and function definition.
  pub handshake_complete :
      cfg.version_negotiate hf.version version ≡ none
      → authenticate cfg.auths (some hf) ≡ ok (made m)
      → s.connector.done ≡ false
      → (R.add s.router next_id hf.observe_data_tags (admitted_metadata m hf)).1 ≡ none
      → (handshake R cfg s fconn (ok (handshake_frame hf))).verdict ≡ accepted admitted
  unfolding handshake first_frame handshake_with authenticate_frame create_connection
  handshake_complete v a o adds =
      rw (v, a) (rw (set_wanted_target-made m hf.wanted_target) (after_target_complete o adds))

  after_target_leaks :
      (e : Error)
      → s.connector.done ≡ false
      → hf.client_type ≡ client_type_stream_function
      → (R.add s.router next_id hf.observe_data_tags (admitted_metadata m hf)).1 ≡ some e
      → let o = after_target R cfg s fconn hf (some (made (with_target m hf.wanted_target))) in
        (o.verdict ≡ refused e) × (get_conn o.server.connector next_id ≡ found admitted)
  unfolding incr_id new_connection store define_function add_rules add_sfn_route_rule get_conn
      reject_handshake
  after_target_leaks e o sfn adds = ground (
    arith,
    set_definition-made (with_target m hf.wanted_target) hf.function_definition,
    get-put (put s.connector.connections next_id fresh) next_id next_id admitted,
  )
    where
      fresh : Connection
      fresh =
          new_connection next_id hf.name hf.id hf.client_type
            (made (with_target m hf.wanted_target)) hf.observe_data_tags fconn

  -- If the router refuses the rule of a stream function, the handshake is refused, and the
  -- connection stays in the connector.
  pub handshake_leaks :
      (e : Error)
      → cfg.version_negotiate hf.version version ≡ none
      → authenticate cfg.auths (some hf) ≡ ok (made m)
      → s.connector.done ≡ false
      → hf.client_type ≡ client_type_stream_function
      → (R.add s.router next_id hf.observe_data_tags (admitted_metadata m hf)).1 ≡ some e
      → let o = handshake R cfg s fconn (ok (handshake_frame hf)) in
        (o.verdict ≡ refused e) × (get_conn o.server.connector next_id ≡ found admitted)
  unfolding handshake first_frame handshake_with authenticate_frame create_connection
  handshake_leaks e v a o sfn adds =
      rw (v, a) (rw (set_wanted_target-made m hf.wanted_target) (after_target_leaks e o sfn adds))
