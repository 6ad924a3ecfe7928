-- ===== src/Server/Handshake/Panic.antt =====
-- Where a handshake panics.
use yomo.Common.{
  ℕ, String, ◌≡◌, refl, ◌≢◌, inl, inr, Option, none, some, arith, nat_key, string_key, Option-cases,
}
use yomo.Auth.{authenticate}
use yomo.Connection.{Connection, new_connection}
use yomo.Connector.{store}
use yomo.Errors.{Error, Result, ok, err}
use yomo.Frame.{HandshakeFrame, handshake_frame}
use yomo.GoMap.{GoMap}
use yomo.Metadata.{M, nil, made, set}
use yomo.Server.Routers.{RouterImpl}
use yomo.Server.State.{Config, Server, incr_id}
use yomo.Server.Handshake.{
  panicked, reject_handshake, connect_to_new_endpoint, refuse_version, set_wanted_target,
  set_definition, add_sfn_route_rule, finish, add_rules, define_function, after_definition,
  after_target, after_auth, after_version, create_connection, authenticate_frame, handshake_with,
  first_frame, handshake,
}
use yomo.Version.{version}

set_made : (m : GoMap String String) (k v : String) → set (made m) k v ≢ none
unfolding set
set_made m k v = cc

module _ (R : RouterImpl) (cfg : Config) (s : Server R.State) (fconn : ℕ)
    (hf : HandshakeFrame) where
  finish-ne-panicked :
      (t : Server R.State) (conn : Connection) (e : Option Error)
      → (finish R cfg t fconn conn e).verdict ≢ panicked
  unfolding reject_handshake
  finish-ne-panicked t conn none = cc
  finish-ne-panicked t conn (some e) = cc

  after_definition_panics :
      (t : Server R.State) (conn : Connection) (md : Option M)
      → (after_definition R cfg t fconn hf conn md).verdict ≡ panicked
      → md ≡ none
  unfolding add_rules
  after_definition_panics t conn none h = refl
  after_definition_panics t conn (some md) h = absurd (finish-ne-panicked _ _ _ h)

  made-ne-panicked :
      (m : GoMap String String) (md : Option M)
      → md ≡ set_wanted_target (made m) hf.wanted_target
      → (after_target R cfg s fconn hf md).verdict ≢ panicked
  unfolding set_wanted_target set define_function set_definition new_connection store incr_id
      add_rules add_sfn_route_rule reject_handshake
  made-ne-panicked m none e = λ h. ground arith
  made-ne-panicked m (some md) e = λ h. ground arith

  after_auth_panics :
      (md : Result M) → (after_auth R cfg s fconn hf md).verdict ≡ panicked → md ≡ ok nil
  unfolding create_connection reject_handshake
  after_auth_panics (err e) h = absurd (ground arith)
  after_auth_panics (ok nil) h = refl
  after_auth_panics (ok (made m)) h = absurd (made-ne-panicked m _ refl h)

-- A handshake that panics had a frame whose authentication succeeded with a nil map.
pub handshake_panics :
    (R : RouterImpl) (cfg : Config) (s : Server R.State) (fconn : ℕ) (hf : HandshakeFrame)
    → (handshake R cfg s fconn (ok (handshake_frame hf))).verdict ≡ panicked
    → authenticate cfg.auths (some hf) ≡ ok nil
unfolding handshake first_frame handshake_with authenticate_frame refuse_version
    connect_to_new_endpoint reject_handshake
handshake_panics R cfg s fconn hf h =
    elim (Option-cases (cfg.version_negotiate hf.version version)) [
      | inl e ↦ after_auth_panics R cfg s fconn hf _ (rw (e, after_version) at h)
      | inr (e, p) ↦ absurd (ground arith)
    ]
