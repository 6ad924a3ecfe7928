-- ===== src/Ai/Providers.antt =====
-- pkg/bridge/ai/provider.go: the registry of the providers. Each method is one step: the map is a
-- sync.Map, and the default has its mutex.
use yomo.Common.{
  String, ◌≡◌, refl, sym, true, Option, none, some, List, [], ◌∷◌, arith, nat_key, string_key,
  same_iff, is_some,
}
use mathlib.Core.Path.{subst}
use yomo.Errors.{Error, Result, plain, ok, err}
use yomo.GoMap.{GoMap, get, put, delete}
use yomo.Ai.Complete.{Provider}

pub record Providers : Type 0 where
  pub providers : GoMap String Provider
  pub default_provider : Option Provider

abbrev pub err_not_exists_provider : Error
err_not_exists_provider = plain "llm provider does not exist"

-- RegisterProvider(provider), of a provider that is not nil
unfoldable pub register_provider : Providers → Provider → Providers
register_provider r p = record r { providers = put r.providers p.name p }

-- the keys, in the order of the Range
unfoldable pub names_of : GoMap String Provider → List String
names_of [] = []
names_of ((name, p) ∷ ps) = name ∷ names_of ps

-- ListProviders()
unfoldable pub list_providers : Providers → List String
list_providers r = names_of r.providers

-- GetProvider(name)
unfoldable pub get_provider : Providers → String → Option Provider
get_provider r name = get r.providers name

unfoldable pub set_if_found : Providers → Option Provider → Providers
set_if_found r none = r
set_if_found r (some p) = record r { default_provider = some p }

-- SetDefaultProvider(name)
unfoldable pub set_default_provider : Providers → String → Providers
set_default_provider r name = set_if_found r (get_provider r name)

abbrev pub or_not_exists : Option Provider → Result Provider
or_not_exists none = err err_not_exists_provider
or_not_exists (some p) = ok p

-- GetProviderAndSetDefault(name)
unfoldable pub get_provider_and_set_default : Providers → String → Providers × Result Provider
get_provider_and_set_default r name =
    (set_if_found r (get_provider r name), or_not_exists (get_provider r name))

unfoldable pub first_of : Providers → List String → Result Provider
first_of r [] = err err_not_exists_provider
first_of r (name ∷ names) = or_not_exists (get_provider r name)

unfoldable pub default_or_first : Providers → Option Provider → Result Provider
default_or_first r (some p) = ok p
default_or_first r none = first_of r (list_providers r)

-- GetDefaultProvider()
unfoldable pub get_default_provider : Providers → Result Provider
get_default_provider r = default_or_first r r.default_provider

-- Whether there is a provider to fall back on.
abbrev pub Provides : Result Provider → Type 0
Provides (ok p) = Unit
Provides (err e) = ⊥

found-Provides : (o : Option Provider) → is_some o ≡ true → Provides (or_not_exists o)
found-Provides none h = cc
found-Provides (some p) h = tt

first_of-Provides :
    (r : Providers) (ps : GoMap String Provider) (name : String) (p : Provider)
    → r.providers ≡ (name, p) ∷ ps
    → Provides (first_of r (names_of ((name, p) ∷ ps)))
unfolding first_of get_provider get names_of
first_of-Provides r ps name p h =
    found-Provides (get r.providers name) (ground (arith, h, same_iff {K = String} name name))

registered_first :
    (r : Providers) (ps : GoMap String Provider) (p : Provider)
    → r.providers ≡ put ps p.name p
    → Provides (first_of r (list_providers r))
unfolding list_providers put
registered_first r ps p h =
    subst (λ l. Provides (first_of r (names_of l))) (sym h)
      (first_of-Provides r (delete ps p.name) p.name p h)

by_default :
    (r : Providers) (o : Option Provider)
    → Provides (first_of r (list_providers r))
    → Provides (default_or_first r o)
unfolding default_or_first
by_default r none h = h
by_default r (some p) h = tt

-- Once a provider has been registered there is a default one, whether or not a default was set, and
-- whichever provider the iteration begins with.
pub get_default_provider-register_provider :
    (r : Providers) (p : Provider) → Provides (get_default_provider (register_provider r p))
unfolding get_default_provider register_provider
get_default_provider-register_provider r p =
    by_default (register_provider r p) r.default_provider
      (registered_first (register_provider r p) r.providers p refl)
