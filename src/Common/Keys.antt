-- ===== src/Common/Keys.antt =====
-- Keys that a map can compare, as an interface with instances for numbers and texts.
use Prim.Native.Nat.{ℕ}
use Prim.Native.String.{String}
use mathlib.Core.Path.{◌≡◌, refl}
use mathlib.Core.Logic.{◌↔◌}
use mathlib.Core.Bool.{Bool, true}
use text.Mathlib.Text.{◌==◌ as text_eq}
use text.Mathlib.TextEquality.{eq_iff}
use yomo.Common.Tests.{nat_eq, nat_eq_iff}

pub record Key {ℓ} (K : Type ℓ) : Type ℓ where
  pub same : K → K → Bool
  pub same_iff : (a b : K) → (same a b ≡ true) ↔ (a ≡ b)

infix 50 ◌==◌
abbrev pub ◌==◌ {ℓ} : {K : Type ℓ} ⦃key : Key K⦄ → K → K → Bool
◌==◌ ⦃key⦄ = key.same

instance abbrev pub nat_key : Key ℕ
nat_key = record { same = nat_eq; same_iff = nat_eq_iff }

instance abbrev pub string_key : Key String
string_key = record { same = text_eq; same_iff = eq_iff }

module _ {ℓ} {K : Type ℓ} ⦃key : Key K⦄ where
  pub same_iff : (a b : K) → ((a == b) ≡ true) ↔ (a ≡ b)
  same_iff = key.same_iff

  pub same_self : (a : K) → (a == a) ≡ true
  same_self a = (key.same_iff a a).1 refl
