-- ===== src/Try.antt =====
-- What a Go function returns that may also panic: a result, an error, or a panic.
use yomo.Common.{◌≡◌, refl}
use yomo.Errors.{Error, Result, ok, err}

pub data Try {ℓ} (A : Type ℓ) : Type ℓ where
  returns : A → Try A
  fails : Error → Try A
  panics : Try A

abbrev pub tried {ℓ} : {A : Type ℓ} → Result A → Try A
tried (ok a) = returns a
tried (err e) = fails e

infixl 5 ◌>>=◌
unfoldable pub ◌>>=◌ {ℓ κ} : {A : Type ℓ} {B : Type κ} → Try A → (A → Try B) → Try B
returns a >>= f = f a
fails e >>= f = fails e
panics >>= f = panics

-- Inversion of a run that returned.
pub >>=-eq-returns {ℓ κ} :
    {A : Type ℓ} {B : Type κ} (m : Try A) (f : A → Try B) {b : B}
    → (m >>= f) ≡ returns b
    → (a : A) × (m ≡ returns a) × (f a ≡ returns b)
unfolding ◌>>=◌
>>=-eq-returns (returns a) f h = (a, refl, h)
>>=-eq-returns (fails e) f h = cc
>>=-eq-returns panics f h = cc
