-- ===== src/Examples/Texts.antt =====
-- Credentials and the token authentication at concrete inputs.
use yomo.Common.{◌≡◌, ◌↔◌, some, [], ◌∷◌, nat_key, string_key}
use yomo.Auth.{authenticate, with_token_auth, Credential}
use yomo.Auth.Token.{authenticate-with_token_auth}
use yomo.Errors.{ok}
use yomo.Metadata.{made}
use yomo.Examples.Setting.{sfn_frame}

abbrev token_credential : Credential
token_credential = record { name = "token"; payload = "a:b" }

authenticate-with_token_auth_example :
    (authenticate (with_token_auth [] "token" ("secret" ∷ [])) (some sfn_frame) ≡ ok (made []))
    ↔ ((sfn_frame.auth_name ≡ "token") × (sfn_frame.auth_payload ≡ "secret") × (made [] ≡ made []))
authenticate-with_token_auth_example = authenticate-with_token_auth "secret" sfn_frame (made [])
