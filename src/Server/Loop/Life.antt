-- ===== src/Server/Loop/Life.antt =====
-- The life of a connection, from its first frame to the end of its loop.
use yomo.Common.{
  ℕ, ◌≡◌, refl, sym, ap, ◌∙◌, ◌≢◌, inl, inr, Option, none, some, List, [], ◌∷◌, ◌++◌, arith, ◌==◌,
  nat_key, string_key, if◌then◌else◌,
}
use yomo.Connection.{Connection, client_type_stream_function}
use yomo.Connector.{remove}
use yomo.Context.{Context}
use yomo.Errors.{Result, ok, err}
use yomo.Frame.{Frame, HandshakeFrame, DataFrame, Tag}
use yomo.GoMap.{get}
use yomo.GoMap.Laws.{get-delete}
use yomo.Metadata.{M}
use yomo.Router.Rules.{add_rule, remove_rule}
use yomo.Server.Frames.{handle_frame, routing_data_frame, dispatch_to_downstreams}
use yomo.Server.Handshake.{accepted, handshake}
use yomo.Server.Handshake.Acceptance.{Admits, handshake-Admits}
use yomo.Server.Loop.{
  compose_handler, as_data, on_context, on_data, on_frame, continue, handle_conn, leave,
  handle_frame_conn,
}
use yomo.Server.Routers.{RouterImpl, RouterLaws}
use yomo.Server.State.{Config, Server, Effect}

-- The first middleware is the outermost: handling with two groups of middlewares is handling with
-- the first group round a handler that has the second.
pub compose_handler-append {ℓ} :
    {H : Type ℓ} (handler : H) (ms ns : List (H → H))
    → compose_handler handler (ms ++ ns) ≡ compose_handler (compose_handler handler ns) ms
unfolding compose_handler
compose_handler-append handler [] ns = refl
compose_handler-append handler (m ∷ ms) ns = ap m (compose_handler-append handler ms ns)

-- What serving frames leaves alone.
pub record SameTables {S : Type 0} (s t : Server S) : Type 0 where
  pub connector : t.connector ≡ s.connector
  pub router : t.router ≡ s.router
  pub increment : t.increment ≡ s.increment
  pub downstreams : t.downstreams ≡ s.downstreams

SameTables-refl : {S : Type 0} (s : Server S) → SameTables s s
SameTables-refl s = record { connector = refl; router = refl; increment = refl; downstreams = refl }

SameTables-trans :
    {S : Type 0} {s t u : Server S} → SameTables s t → SameTables t u → SameTables s u
SameTables-trans h k = record {
  connector = k.connector ∙ h.connector;
  router = k.router ∙ h.router;
  increment = k.increment ∙ h.increment;
  downstreams = k.downstreams ∙ h.downstreams;
}

module _ (R : RouterImpl) (cfg : Config) where
  handle_frame-SameTables :
      {A : Type 0} (s : Server R.State) (c : Context A) → SameTables s (handle_frame R cfg s c).0
  unfolding handle_frame routing_data_frame dispatch_to_downstreams
  handle_frame-SameTables s c = record {
    connector = ground arith;
    router = ground arith;
    increment = ground arith;
    downstreams = ground arith;
  }

  -- The server in what a frame does, if the loop goes on.
  abbrev Keeps : Server R.State → Option (Server R.State × List Effect) → Type 0
  Keeps s none = Unit
  Keeps s (some r) = SameTables s r.0

  on_context-Keeps :
      (s : Server R.State) (c : Result (Context (Unit {0}))) → Keeps s (on_context R cfg s c)
  on_context-Keeps s (err e) = tt
  on_context-Keeps s (ok c) = handle_frame-SameTables s c

  on_frame-Keeps :
      (s : Server R.State) (conn : Connection) (df : Option DataFrame)
      → Keeps s (on_data R cfg s conn df)
  on_frame-Keeps s conn none = tt
  on_frame-Keeps s conn (some df) = on_context-Keeps s _

  continue-SameTables :
      (s : Server R.State) (r : Option (Server R.State × List Effect))
      (next : Server R.State → Server R.State × List Effect)
      → Keeps s r
      → ((t : Server R.State) → SameTables t (next t).0)
      → SameTables s (continue R cfg s r next).0
  continue-SameTables s none next h k = SameTables-refl s
  continue-SameTables s (some (t, effects)) next h k = SameTables-trans h (k t)

  -- The loop over a connection's frames leaves the connector, the router, the identifiers and the
  -- downstreams as they were, whatever is read.
  pub handle_conn-SameTables :
      (s : Server R.State) (conn : Connection) (reads : List (Result Frame))
      → SameTables s (handle_conn R cfg s conn reads).0
  unfolding handle_conn on_frame
  handle_conn-SameTables s conn [] = SameTables-refl s
  handle_conn-SameTables s conn (err e ∷ reads) = SameTables-refl s
  handle_conn-SameTables s conn (ok f ∷ reads) =
      continue-SameTables s (on_frame R cfg s conn f) _ (on_frame-Keeps s conn (as_data f))
        (λ t. handle_conn-SameTables t conn reads)

  -- What is left of a connection when its loop has returned.
  pub record Gone (laws : RouterLaws R) (s t : Server R.State) (conn : Connection) : Type 0 where
    -- the connector has lost it, and holds the others as before
    pub connections :
        (j : ℕ)
        → get t.connector.connections j
          ≡ (if conn.id == j then none else get s.connector.connections j)
    -- the router has no rule of it, and the others' rules as before
    pub rules :
        (conn.client_type ≡ client_type_stream_function)
        → laws.rules t.router
          ≡ remove_rule
              (add_rule (laws.rules s.router) conn.id conn.observe_data_tags conn.metadata)
              conn.id
    pub router : conn.client_type ≢ client_type_stream_function → t.router ≡ s.router

  leave_router :
      (u : Server R.State) (conn : Connection)
      → conn.client_type ≡ client_type_stream_function
      → (leave R cfg u conn).router ≡ R.remove u.router conn.id
  unfolding leave
  leave_router u conn h = ground arith

  leave_other :
      (u : Server R.State) (conn : Connection)
      → conn.client_type ≢ client_type_stream_function
      → (leave R cfg u conn).router ≡ u.router
  unfolding leave
  leave_other u conn h = ground arith

  leave_rules :
      (laws : RouterLaws R) (router router' u : R.State) (id : ℕ) (tags : List Tag) (md : M)
      → R.add router id tags md ≡ (router', none)
      → u ≡ router'
      → laws.rules (R.remove u id) ≡ remove_rule (add_rule (laws.rules router) id tags md) id
  leave_rules laws router router' u id tags md p q =
      laws.rules-remove u id
      ∙ ap (λ r. remove_rule (laws.rules r) id) (q ∙ ap (λ r. r.0) (sym p))
      ∙ ap (λ rules. remove_rule rules id) (laws.rules-add router id tags md (ap (λ r. r.1) p))

  leave-Gone :
      (laws : RouterLaws R) (s t u : Server R.State) (fconn : ℕ) (hf : HandshakeFrame) (m : M)
      (conn : Connection)
      → Admits R s fconn hf m t conn
      → SameTables t u
      → Gone laws s (leave R cfg u conn) conn
  unfolding leave remove
  leave-Gone laws s t u fconn hf m conn a h = record {
    connections = λ j. ground (arith, a.stored j, get-delete t.connector.connections conn.id j);
    rules = λ sfn. elim a.routed [
      | inl p ↦
          ap laws.rules (leave_router u conn sfn)
          ∙ leave_rules laws s.router t.router u.router conn.id hf.observe_data_tags conn.metadata
              p.1 h.router
          ∙ ap
              (λ tags.
                remove_rule (add_rule (laws.rules s.router) conn.id tags conn.metadata) conn.id)
              (sym a.tags)
      | inr q ↦ absurd (q.0 (sym a.client_type ∙ sfn))
    ];
    router = λ other. elim a.routed [
      | inl p ↦ absurd (other (a.client_type ∙ p.0))
      | inr q ↦ leave_other u conn other ∙ h.router ∙ q.1
    ];
  }

  -- A connection whose handshake was accepted and whose loop has returned is gone, whatever frames
  -- it sent: the connector has lost it, the router has no rule of it, and the other connections and
  -- their rules are as they were before the handshake.
  pub handle_frame_conn-Gone :
      (laws : RouterLaws R) (s : Server R.State) (fconn : ℕ) (first : Result Frame)
      (reads : List (Result Frame)) (conn : Connection)
      → (handshake R cfg s fconn first).verdict ≡ accepted conn
      → Gone laws s (handle_frame_conn R cfg s fconn first reads).0 conn
  unfolding handle_frame_conn
  handle_frame_conn-Gone laws s fconn first reads conn h =
      let (hf, _, _, (m, _, a)) = handshake-Admits R cfg s fconn first conn h in
      let o = handshake R cfg s fconn first in
      rw h (
        leave-Gone laws s o.server (handle_conn R cfg o.server conn reads).0 fconn hf m conn a
          (handle_conn-SameTables o.server conn reads))
