-- ===== src/Errors.antt =====
-- Go's `error` values as the code tells them apart: core/version.go (`ErrRejected`, `ErrConnectTo`),
-- core/frame/frame.go (`ErrConnClosed`), and the plain errors of `errors.New` and `fmt.Errorf`.
use Prim.Native.String.{◌++◌ as join}
use yomo.Common.{Bool, String, if◌then◌else◌}

pub data Error : Type 0 where
  plain : String → Error
  rejected : String → Error
  connect_to : String → Error
  conn_closed : Bool → String → Error

-- err.Error()
unfoldable pub message : Error → String
message (plain s) = s
message (rejected s) = s
message (connect_to endpoint) = join "connect to " endpoint
message (conn_closed remote s) =
    if remote then join "remote conn closed: " s else join "local conn closed: " s

-- What a function with a result and an `error` returns.
pub data Result {ℓ} (A : Type ℓ) : Type ℓ where
  ok : A → Result A
  err : Error → Result A

infixl 5 ◌>>=◌
abbrev pub ◌>>=◌ {ℓ κ} : {A : Type ℓ} {B : Type κ} → Result A → (A → Result B) → Result B
ok a >>= f = f a
err e >>= f = err e
