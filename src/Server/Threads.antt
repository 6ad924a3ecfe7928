-- ===== src/Server/Threads.antt =====
-- core/server.go: the goroutines of `handleFrameConn` of stream functions, as interleavings of
-- the steps in which they touch the connector and the router: `incrID`, `connector.Store`,
-- `router.Add`, `router.Remove`, `connector.Remove`. The server may cancel its context, close the
-- connector and release the router between any two of them. `incrID` is taken not to wrap.
pub mod Consistent
use yomo.Common.{ℕ, ◌+◌, ◌<◌, ◌≡◌, Bool, some, List, [], nat_key, string_key, if◌then◌else◌}
use yomo.Connection.{Connection}
use yomo.Connector
use yomo.Connector.{Connector}
use yomo.Frame.{Tag}
use yomo.GoMap.{GoMap, get, put}
use yomo.Metadata.{M}
use yomo.Router
use yomo.Router.{Router}
use yomo.Server.State.{two_to_64}

-- How far the goroutine of a connection is.
pub data Phase : Type 0 where
  numbered stored serving leaving ended : Phase

pub record System : Type 0 where
  pub connector : Connector
  pub router : Router
  pub increment : ℕ
  pub phases : GoMap ℕ Phase

abbrev pub start : System
start = record { connector = Connector.new; router = Router.default; increment = 0; phases = [] }

-- A goroutine whose store fails ends with a rejection.
abbrev pub phase_stored : Bool → Phase
phase_stored done = if done then ended else stored

abbrev pub do_number : System → System
do_number s = record s {
  increment = s.increment + 1;
  phases = put s.phases (s.increment + 1) numbered;
}

abbrev pub do_store : System → ℕ → Connection → System
do_store s id conn = record s {
  connector = (Connector.store s.connector id conn).0;
  phases = put s.phases id (phase_stored s.connector.done);
}

abbrev pub do_add : System → ℕ → List Tag → M → System
do_add s id tags md = record s {
  router = Router.add s.router id tags md;
  phases = put s.phases id serving;
}

abbrev pub do_remove_rule : System → ℕ → System
do_remove_rule s id = record s {
  router = Router.remove s.router id;
  phases = put s.phases id leaving;
}

abbrev pub do_remove_conn : System → ℕ → System
do_remove_conn s id = record s {
  connector = (Connector.remove s.connector id).0;
  phases = put s.phases id ended;
}

abbrev pub do_cancel : System → System
do_cancel s = record s { connector = Connector.cancel s.connector }

abbrev pub do_close : System → System
do_close s = record s { connector = (Connector.close s.connector).0 }

abbrev pub do_release : System → System
do_release s = record s { router = Router.release s.router }

pub data Step (s : System) : System → Type 0 where
  number : s.increment + 1 < two_to_64 → Step s (do_number s)
  store :
      (id : ℕ) (conn : Connection) → get s.phases id ≡ some numbered → Step s (do_store s id conn)
  add :
      (id : ℕ) (tags : List Tag) (md : M)
      → get s.phases id ≡ some stored
      → Step s (do_add s id tags md)
  remove_rule : (id : ℕ) → get s.phases id ≡ some serving → Step s (do_remove_rule s id)
  remove_conn : (id : ℕ) → get s.phases id ≡ some leaving → Step s (do_remove_conn s id)
  cancel : Step s (do_cancel s)
  close : Step s (do_close s)
  release : Step s (do_release s)

pub data Reach (s : System) : System → Type 0 where
  here : Reach s s
  next : {t u : System} → Reach s t → Step t u → Reach s u
