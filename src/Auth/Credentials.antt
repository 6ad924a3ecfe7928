-- ===== src/Auth/Credentials.antt =====
-- How a client's credential text is taken apart.
use Prim.Native.Char.{code}
use Prim.Native.String.{◌++◌ as join}
use text.Mathlib.TextLemmas.{cons-append, nil-append}
use native.Mathlib.Numerals.{add-one}
use yomo.Common.{ℕ, suc, String, ◌≡◌, refl, ap, ◌∙◌, ◌≢◌, none, some, arith, nat_key, string_key}
use yomo.Auth.{index_colon, take_text, drop_text, new_credential}

-- No character is a colon.
abbrev pub HasNoColon : String → Type 0
HasNoColon String.[] = Unit
HasNoColon (String.◌∷◌ c s) = (code c ≢ b':') × HasNoColon s

abbrev pub size : String → ℕ
size String.[] = 0
size (String.◌∷◌ c s) = suc (size s)

colon_text : (payload : String) → join ":" payload ≡ String.◌∷◌ ":" payload
colon_text payload = cons-append ":" "" payload ∙ ap (String.◌∷◌ ":") (nil-append payload)

-- The text before the colon, and behind it.
abbrev parts : String → String → String
parts name payload = join name (String.◌∷◌ ":" payload)

index_colon-parts :
    (name payload : String) → HasNoColon name → index_colon (parts name payload) ≡ some (size name)
unfolding index_colon
index_colon-parts String.[] payload h = rw nil-append
index_colon-parts (String.◌∷◌ c s) payload h =
    rw cons-append (ground (arith, index_colon-parts s payload h.1, h.0))

take_text-parts : (name payload : String) → take_text (size name) (parts name payload) ≡ name
unfolding take_text
take_text-parts String.[] payload = refl
take_text-parts (String.◌∷◌ c s) payload =
    rw cons-append (ap (String.◌∷◌ c) (take_text-parts s payload))

drop_text-parts :
    (name payload : String) → drop_text (suc (size name)) (parts name payload) ≡ payload
unfolding drop_text
drop_text-parts String.[] payload = rw nil-append
drop_text-parts (String.◌∷◌ c s) payload = rw cons-append (drop_text-parts s payload)

-- A credential text `name:payload` whose name has no colon gives back that name and that payload,
-- whatever colons the payload has.
pub new_credential-join :
    (name payload : String)
    → HasNoColon name
    → new_credential (join name (join ":" payload)) ≡ record { name = name; payload = payload }
unfolding new_credential
new_credential-join name payload h = rw (colon_text payload) (
    rw (index_colon-parts name payload h, new_credential)
      (rw (add-one (size name)) (cc (take_text-parts name payload, drop_text-parts name payload))))

index_colon-none : (s : String) → HasNoColon s → index_colon s ≡ none
unfolding index_colon
index_colon-none String.[] h = refl
index_colon-none (String.◌∷◌ c s) h = ground (arith, index_colon-none s h.1, h.0)

-- A text with no colon is no credential: its name is "none" and its payload is dropped.
pub new_credential_none :
    (s : String) → HasNoColon s → new_credential s ≡ record { name = "none"; payload = "" }
unfolding new_credential
new_credential_none s h = rw (index_colon-none s h, new_credential)
