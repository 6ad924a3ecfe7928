-- ===== src/Auth/Token.antt =====
-- Whom a server with token authentication lets in.
use text.Mathlib.TextEquality.{eq_iff}
use yomo.Common.{String, ◌≡◌, refl, ◌↔◌, Option, some, [], ◌∷◌, arith, nat_key, string_key}
use yomo.Errors.{ok}
use yomo.Frame.{HandshakeFrame}
use yomo.GoMap.{get, put, delete}
use yomo.Metadata.{M, made}
use yomo.Auth.{authenticate, register, init, token_authentication, with_token_auth}

-- With `WithAuth("token", token)` a handshake is authenticated if and only if it names the token
-- authentication and carries the token; it then has empty metadata.
pub authenticate-with_token_auth :
    (token : String) (hf : HandshakeFrame) (md : M)
    → (authenticate (with_token_auth [] "token" (token ∷ [])) (some hf) ≡ ok md)
      ↔ ((hf.auth_name ≡ "token") × (hf.auth_payload ≡ token) × (md ≡ made []))
unfolding authenticate with_token_auth register init token_authentication put delete get
authenticate-with_token_auth token hf md =
    ground (arith, eq_iff "token" hf.auth_name, eq_iff token hf.auth_payload)

-- Without authentications every handshake is let in, whatever credential it carries.
pub authenticate-nil : (hf : Option HandshakeFrame) → authenticate [] hf ≡ ok (made [])
unfolding authenticate
authenticate-nil hf = refl
