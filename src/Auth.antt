-- ===== src/Auth.antt =====
-- core/auth/auth.go, and the token authentication of pkg/auth/token.go.
pub mod Credentials
pub mod Token
use Prim.Native.Char.{code}
use Prim.Native.String.{◌++◌ as join}
use yomo.Common.{
  ℕ, zero, suc, ◌+◌, String, Option, none, some, List, [], ◌∷◌, ◌==◌, nat_key, string_key,
  if◌then◌else◌,
}
use yomo.Errors.{plain, Result, ok, err}
use yomo.Frame.{HandshakeFrame}
use yomo.GoMap.{GoMap, get, put}
use yomo.Metadata.{M, made}

-- The interface `Authentication`, once `Init` has been called.
pub record Authentication : Type 0 where
  pub name : String
  pub authenticate : String → Result M

-- Authenticate(auths, hf); `none` is a nil handshake frame. On an error the metadata is not used.
unfoldable pub authenticate : GoMap String Authentication → Option HandshakeFrame → Result M
authenticate [] hf = ok (made [])
authenticate (a ∷ auths) none = err (plain "handshake frame cannot be nil")
authenticate (a ∷ auths) (some hf) = elim (get (a ∷ auths) hf.auth_name) [
  | none ↦ err (plain (join "authentication not found: " hf.auth_name))
  | some auth ↦ auth.authenticate hf.auth_payload
]

-- Register(authentication)
unfoldable pub register : GoMap String Authentication → Authentication → GoMap String Authentication
register auths auth = put auths auth.name auth

-- GetAuth(name)
unfoldable pub get_auth : GoMap String Authentication → String → Option Authentication
get_auth auths name = get auths name

-- strings.Index(payload, ":"), in characters; `none` is -1.
unfoldable pub index_colon : String → Option ℕ
index_colon String.[] = none
index_colon (String.◌∷◌ c s) =
    let later = index_colon s in
    if code c == b':' then some 0 else elim later [ none ↦ none | some i ↦ some (suc i) ]

-- s[:i]
unfoldable pub take_text : ℕ → String → String
take_text zero s = ""
take_text (suc i) String.[] = ""
take_text (suc i) (String.◌∷◌ c s) = String.◌∷◌ c (take_text i s)

-- s[i:]
unfoldable pub drop_text : ℕ → String → String
drop_text zero s = s
drop_text (suc i) String.[] = ""
drop_text (suc i) (String.◌∷◌ c s) = drop_text i s

pub record Credential : Type 0 where
  pub name : String
  pub payload : String

-- NewCredential(payload)
unfoldable pub new_credential : String → Credential
new_credential payload = elim (index_colon payload) [
  | none ↦ record { name = "none"; payload = "" }
  | some i ↦ record { name = take_text i payload; payload = drop_text (i + 1) payload }
]

-- TokenAuth
pub record TokenAuth : Type 0 where
  pub token : String

-- NewTokenAuth()
unfoldable pub new_token_auth : TokenAuth
new_token_auth = record { token = "" }

-- a.Init(args...)
unfoldable pub init : TokenAuth → List String → TokenAuth
init a [] = a
init a (arg ∷ args) = record { token = arg }

-- a.Authenticate(payload), a.Name()
unfoldable pub token_authentication : TokenAuth → Authentication
token_authentication a = record {
  name = "token";
  authenticate = λ payload.
      if a.token == payload then ok (made []) else err (plain (join "invalid token: " payload));
}

-- WithAuth(name, args...) of core/server_options.go for the token authentication, which is the
-- only one that is registered.
unfoldable pub with_token_auth :
    GoMap String Authentication → String → List String → GoMap String Authentication
with_token_auth auths name args =
    if name == "token"
    then register auths (token_authentication (init new_token_auth args))
    else auths
