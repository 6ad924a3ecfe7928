-- ===== src/Examples/Servers.antt =====
-- The server's handshake, frames and goroutines at concrete inputs.
use yomo.Common.{
  ℕ, ◌≡◌, refl, ◌≢◌, false, ◌&&◌, none, some, List, [], ◌∷◌, map, arith, nat_key, string_key,
  if◌then◌else◌, occurrences, All,
}
use yomo.Auth.{authenticate, with_token_auth, register, init, token_authentication}
use yomo.Connection.{Connection}
use yomo.Connector
use yomo.Connector.{Connector, found, get_conn}
use yomo.Context.{Context}
use yomo.Errors.{plain, ok, err}
use yomo.Frame.{HandshakeFrame, handshake_frame, data_frame, goaway_frame}
use yomo.GoMap.{get, put, delete, has}
use yomo.GoMap.Laws.{get-nil}
use yomo.Metadata.{M, nil, made, set, encode, lookup}
use yomo.Router
use yomo.Router.{Router}
use yomo.Router.Rules.{receives}
use yomo.Router.Routing.{default-IsRouter, apply-IsRouter}
use yomo.Server.Frames.{routing_data_frame, handle_frame, traced, counted}
use yomo.Server.Frames.Delivery.{IsKeyed, conn_ids, write_to, routing_data_frame_delivers}
use yomo.Server.Frames.Downstreams.{sent_down, sent_down-handle_frame}
use yomo.Server.Handshake.{
  accepted, refused, panicked, set_wanted_target, create_connection, authenticate_frame,
  handshake_with, first_frame, handshake,
}
use yomo.Server.Handshake.Acceptance.{
  Admits, handshake-Admits, handshake_complete, handshake_leaks, admitted,
}
use yomo.Server.Handshake.Refusal.{IsAnswered, first_frame-IsAnswered}
use yomo.Server.Loop.{handle_frame_conn}
use yomo.Server.Loop.Life.{Gone, handle_frame_conn-Gone}
use yomo.Server.Routers.{RouterImpl, default_impl, default_laws}
use yomo.Server.State.{Config, Server}
use yomo.Server.Threads.{
  System, start, Step as Move, Reach, here, next, do_number, do_store, do_add,
}
use yomo.Server.Threads.Consistent.{route_found}
use yomo.Trace.{propagate_trace}
use yomo.Version.{version, default_version_negotiate}
use yomo.Examples.Setting.{config, server, sfn_frame, frame_seven, conn_one, tid_map}

-- The handshake of a stream function.
versions_agree : config.version_negotiate version version ≡ none
unfolding default_version_negotiate
versions_agree = refl

secret_known : authenticate config.auths (some sfn_frame) ≡ ok (made [])
unfolding authenticate with_token_auth register init token_authentication put delete get
secret_known = refl

abbrev server_open : server.connector.done ≡ false
unfolding Connector.new
server_open = refl

sfn_accepted :
    (handshake default_impl config server 5 (ok (handshake_frame sfn_frame))).verdict
    ≡ accepted (admitted default_impl config server 5 sfn_frame [])
sfn_accepted =
    handshake_complete default_impl config server 5 sfn_frame [] versions_agree secret_known
      server_open refl

handshake_complete_example :
    (handshake default_impl config server 5 (ok (handshake_frame sfn_frame))).verdict
    ≡ accepted (admitted default_impl config server 5 sfn_frame [])
handshake_complete_example =
    handshake_complete default_impl config server 5 sfn_frame [] versions_agree secret_known
      server_open refl

handshake-Admits_example :
    (hf : HandshakeFrame) × (ok (handshake_frame sfn_frame) ≡ ok (handshake_frame hf))
    × (config.version_negotiate hf.version version ≡ none)
    × ((m : M) × (authenticate config.auths (some hf) ≡ ok m)
        × Admits default_impl server 5 hf m
            (handshake default_impl config server 5 (ok (handshake_frame sfn_frame))).server
            (admitted default_impl config server 5 sfn_frame []))
handshake-Admits_example =
    handshake-Admits default_impl config server 5 (ok (handshake_frame sfn_frame))
      (admitted default_impl config server 5 sfn_frame []) sfn_accepted

handle_frame_conn-Gone_example :
    Gone default_impl config default_laws server
      (handle_frame_conn default_impl config server 5
        (ok (handshake_frame sfn_frame))
        (ok (data_frame frame_seven) ∷ err (plain "EOF") ∷ [])).0
      (admitted default_impl config server 5 sfn_frame [])
handle_frame_conn-Gone_example =
    handle_frame_conn-Gone default_impl config default_laws server 5
      (ok (handshake_frame sfn_frame)) (ok (data_frame frame_seven) ∷ err (plain "EOF") ∷ [])
      (admitted default_impl config server 5 sfn_frame []) sfn_accepted

first_frame-IsAnswered_example :
    IsAnswered 5 (handshake default_impl config server 5 (ok (goaway_frame "bye")))
first_frame-IsAnswered_example =
    first_frame-IsAnswered default_impl config server 5 (goaway_frame "bye")

abbrev old_frame : HandshakeFrame
old_frame = record sfn_frame { version = "2023" }

abbrev wrong_frame : HandshakeFrame
wrong_frame = record sfn_frame { auth_payload = "guess" }

wrong_token : authenticate config.auths (some wrong_frame) ≡ err (plain "invalid token: guess")
unfolding authenticate with_token_auth register init token_authentication put delete get
wrong_token = refl

-- A router that takes no rules.
abbrev full_impl : RouterImpl
full_impl = record {
  State = Unit;
  add = λ s id tags md. (s, some (plain "router is full"));
  route = λ s tag md. [];
  remove = λ s id. s;
  release = λ s. s;
}

abbrev full_server : Server (Unit {0})
full_server = record {
  connector = Connector.new;
  router = tt;
  counter = 0;
  increment = 0;
  downstreams = [];
}

handshake_leaks_example :
    let o = handshake full_impl config full_server 5 (ok (handshake_frame sfn_frame)) in
    (o.verdict ≡ refused (plain "router is full"))
    × (get_conn o.server.connector 1 ≡ found (admitted full_impl config full_server 5 sfn_frame []))
handshake_leaks_example =
    handshake_leaks full_impl config full_server 5 sfn_frame [] (plain "router is full")
      versions_agree secret_known server_open refl refl

-- An authentication that returns a nil map.
abbrev nil_config : Config
nil_config = record config {
  auths = ("token", record { name = "token"; authenticate = λ payload. ok nil }) ∷ [];
}

abbrev target_frame : HandshakeFrame
target_frame = record sfn_frame { wanted_target = "b" }

nil_map_panics :
    (handshake default_impl nil_config server 5 (ok (handshake_frame target_frame))).verdict
    ≡ panicked
unfolding handshake first_frame handshake_with authenticate_frame create_connection
    set_wanted_target set authenticate get default_version_negotiate
nil_map_panics = refl

-- A frame of tag 7 on a server with the one stream function.
abbrev served : Server Router
served = record {
  connector = record { done = false; connections = (1, conn_one) ∷ [] };
  router = Router.add Router.default 1 (7 ∷ []) nil;
  counter = 0;
  increment = 1;
  downstreams = ("d", record { id = "d"; local_name = "eu" }) ∷ [];
}

abbrev context : Context (Unit {0})
context = record { connection = conn_one; frame = frame_seven; frame_metadata = tid_map; keys = [] }

served-IsKeyed : IsKeyed served.connector
unfolding get
served-IsKeyed = record { at_key = λ k conn h. ground (arith, h) }

served-IsRouter : Router.IsRouter served.router
served-IsRouter = apply-IsRouter Router.default (Router.add_op 1 (7 ∷ []) nil) default-IsRouter

traced_encodes : encode config.msgpack (traced default_impl config context) ≡ ok (129 ∷ [])
unfolding encode propagate_trace
traced_encodes = refl

routing_data_frame_delivers_example :
    let r = routing_data_frame default_impl config served context in
    (conns : List Connection) × (r.effects ≡ map (write_to frame_seven) conns)
    × All (λ (conn : Connection). get served.connector.connections conn.id ≡ some conn) conns
    × ((j : ℕ)
        → occurrences j (conn_ids conns) ≡ (
            if has served.connector.connections j
              && receives
                  (default_laws.rules served.router)
                  7
                  (made (traced default_impl config context))
                  j
            then 1
            else 0))
    × (r.error ≡ none)
    × (r.server ≡ counted served)
routing_data_frame_delivers_example =
    routing_data_frame_delivers default_impl default_laws config served context (129 ∷ [])
      served-IsRouter served-IsKeyed refl traced_encodes

sent_down-handle_frame_example :
    sent_down "d" (handle_frame default_impl config served context).1
    ≡ (if has served.downstreams "d" then data_frame frame_seven ∷ [] else [])
sent_down-handle_frame_example =
    sent_down-handle_frame default_impl config served context (129 ∷ []) "d" (refl, get-nil "d", tt)
      traced_encodes

-- One goroutine, up to its loop.
abbrev running : System
running = do_add (do_store (do_number start) 1 conn_one) 1 (7 ∷ []) nil

Reach-running : Reach start running
unfolding get put delete Connector.new
Reach-running =
    next (next (next here (Move.number (omega arith))) (Move.store 1 conn_one refl))
      (Move.add 1 (7 ∷ []) nil refl)

routes_to_one : occurrences 1 (Router.route running.router 7 nil) ≢ 0
unfolding occurrences Router.route Router.add Router.default Router.observe_all Router.observe
    Router.add_target Router.collect Router.accepts get put delete lookup
routes_to_one = omega arith

running_open : running.connector.done ≡ false
unfolding Connector.store Connector.new
running_open = refl

route_found_example : (conn : Connection) × (get_conn running.connector 1 ≡ found conn)
route_found_example = route_found 7 nil 1 Reach-running running_open routes_to_one
