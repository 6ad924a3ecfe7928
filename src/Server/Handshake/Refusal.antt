-- ===== src/Server/Handshake/Refusal.antt =====
-- Handshakes that the server refuses: what the client is told, and what is left behind.
use text.Mathlib.TextEquality.{eq_iff}
use yomo.Common.{
  ℕ, String, ◌≡◌, refl, ◌≢◌, Option, none, some, List, [], ◌∷◌, arith, nat_key, string_key,
}
use yomo.Auth.{authenticate}
use yomo.Connection.{Connection}
use yomo.Errors.{Error, plain, rejected, connect_to, conn_closed, message, Result, ok, err}
use yomo.Frame.{Frame, HandshakeFrame, handshake_frame, rejected_frame, connect_to_frame}
use yomo.Metadata.{M}
use yomo.Server.Routers.{RouterImpl}
use yomo.Server.State.{Config, Server, Effect, write}
use yomo.Server.Handshake.{
  Verdict, accepted, refused, panicked, Outcome, reject_handshake, connect_to_new_endpoint,
  refuse_version, finish, add_rules, define_function, after_store, after_definition, after_target,
  after_auth, after_version, create_connection, authenticate_frame, handshake_with, unexpected,
  first_frame, handshake,
}
use yomo.Version.{version, default_version_negotiate, version_mismatch}

-- What a refusal writes to the client.
pub data Told (e : Error) : Frame → Type 0 where
  told_rejected : (f : Frame) → f ≡ rejected_frame (message e) → Told e f
  told_endpoint :
      (f : Frame) (endpoint : String)
      → e ≡ connect_to endpoint
      → f ≡ connect_to_frame endpoint
      → Told e f

-- The one frame that a refusal writes, and nothing if the handshake was accepted or panicked.
abbrev pub Answered : ℕ → List Effect → Verdict → Type 0
Answered fconn effects (accepted conn) = effects ≡ []
Answered fconn effects (refused e) = (f : Frame) × (effects ≡ write fconn f ∷ []) × Told e f
Answered fconn effects panicked = effects ≡ []

abbrev pub IsAnswered : {S : Type 0} → ℕ → Outcome S → Type 0
IsAnswered fconn o = Answered fconn o.effects o.verdict

module _ {S : Type 0} (fconn : ℕ) where
  reject-IsAnswered : (s : Server S) (e : Error) → IsAnswered fconn (reject_handshake s fconn e)
  unfolding reject_handshake
  reject-IsAnswered s e = (_, refl, told_rejected _ refl)

  refuse_version-IsAnswered :
      (s : Server S) (e : Error) → IsAnswered fconn (refuse_version s fconn e)
  unfolding refuse_version connect_to_new_endpoint
  refuse_version-IsAnswered s (connect_to endpoint) = (_, refl, told_endpoint _ endpoint refl refl)
  refuse_version-IsAnswered s (plain e) = reject-IsAnswered s (plain e)
  refuse_version-IsAnswered s (rejected e) = reject-IsAnswered s (rejected e)
  refuse_version-IsAnswered s (conn_closed r e) = reject-IsAnswered s (conn_closed r e)

module _ (R : RouterImpl) (cfg : Config) (fconn : ℕ) (hf : HandshakeFrame) where
  finish-IsAnswered :
      (s : Server R.State) (conn : Connection) (e : Option Error)
      → IsAnswered fconn (finish R cfg s fconn conn e)
  finish-IsAnswered s conn none = refl
  finish-IsAnswered s conn (some e) = reject-IsAnswered fconn s e

  after_definition-IsAnswered :
      (s : Server R.State) (conn : Connection) (md : Option M)
      → IsAnswered fconn (after_definition R cfg s fconn hf conn md)
  unfolding add_rules
  after_definition-IsAnswered s conn none = refl
  after_definition-IsAnswered s conn (some md) = finish-IsAnswered _ _ _

  after_store-IsAnswered :
      (s : Server R.State) (conn : Connection) (e : Option Error)
      → IsAnswered fconn (after_store R cfg s fconn hf conn e)
  unfolding define_function
  after_store-IsAnswered s conn none = after_definition-IsAnswered s conn _
  after_store-IsAnswered s conn (some e) = reject-IsAnswered fconn s e

  after_target-IsAnswered :
      (s : Server R.State) (md : Option M) → IsAnswered fconn (after_target R cfg s fconn hf md)
  after_target-IsAnswered s none = refl
  after_target-IsAnswered s (some md) = after_store-IsAnswered _ _ _

  after_auth-IsAnswered :
      (s : Server R.State) (md : Result M) → IsAnswered fconn (after_auth R cfg s fconn hf md)
  unfolding create_connection
  after_auth-IsAnswered s (err e) = reject-IsAnswered fconn s e
  after_auth-IsAnswered s (ok md) = after_target-IsAnswered s _

  after_version-IsAnswered :
      (s : Server R.State) (e : Option Error) → IsAnswered fconn (after_version R cfg s fconn hf e)
  unfolding authenticate_frame
  after_version-IsAnswered s (some e) = refuse_version-IsAnswered fconn s e
  after_version-IsAnswered s none = after_auth-IsAnswered s _

-- Once a first frame was read, a handshake that is refused has written exactly one frame to the
-- client, a rejection with the error's message or the endpoint to connect to; one that is accepted
-- or panics has written nothing yet.
pub first_frame-IsAnswered :
    (R : RouterImpl) (cfg : Config) (s : Server R.State) (fconn : ℕ) (f : Frame)
    → IsAnswered fconn (handshake R cfg s fconn (ok f))
unfolding handshake first_frame unexpected handshake_with
first_frame-IsAnswered R cfg s fconn (handshake_frame hf) =
    after_version-IsAnswered R cfg fconn hf s _
first_frame-IsAnswered R cfg s fconn _ = reject-IsAnswered fconn s _

-- With the default negotiation a client of another version is refused with a rejection, and the
-- server is as before.
pub handshake-other_version :
    (R : RouterImpl) (cfg : Config) (s : Server R.State) (fconn : ℕ) (hf : HandshakeFrame)
    → cfg.version_negotiate ≡ default_version_negotiate
    → hf.version ≢ version
    → handshake R cfg s fconn (ok (handshake_frame hf)) ≡ record {
      server = s;
      effects = write fconn (rejected_frame (version_mismatch hf.version version)) ∷ [];
      verdict = refused (rejected (version_mismatch hf.version version));
    }
unfolding handshake first_frame handshake_with refuse_version reject_handshake
    default_version_negotiate message
handshake-other_version R cfg s fconn hf d h = rw d (ground (arith, eq_iff hf.version version))

-- A client that fails to authenticate is refused with the authentication's message, and the server
-- is as before.
pub handshake-unauthenticated :
    (R : RouterImpl) (cfg : Config) (s : Server R.State) (fconn : ℕ) (hf : HandshakeFrame)
    (e : Error)
    → cfg.version_negotiate hf.version version ≡ none
    → authenticate cfg.auths (some hf) ≡ err e
    → handshake R cfg s fconn (ok (handshake_frame hf)) ≡ record {
      server = s;
      effects = write fconn (rejected_frame (message e)) ∷ [];
      verdict = refused e;
    }
unfolding handshake first_frame handshake_with authenticate_frame reject_handshake
handshake-unauthenticated R cfg s fconn hf e v a = rw (v, a)
