-- ===== src/Server/Handshake/Carried.antt =====
-- The metadata of a connection that was accepted.
use yomo.Common.{
  String, ◌≡◌, refl, sym, ap, ◌∙◌, Bool, true, false, Option, none, some, arith, ◌==◌, nat_key,
  string_key, same_iff, if◌then◌else◌,
}
use yomo.Frame.{HandshakeFrame}
use yomo.GoMap.{GoMap}
use yomo.Metadata.{M, nil, made, set, set_entry, wanted_target_key}
use yomo.Server.Handshake.{function_definition_key, set_wanted_target, set_definition}

-- The metadata of an accepted connection: what the authentication gave, with the frame's wanted
-- target and function definition.
abbrev pub with_target : GoMap String String → String → GoMap String String
with_target m target = if target == "" then m else set_entry m wanted_target_key target

abbrev pub with_definition : GoMap String String → Option String → GoMap String String
with_definition m none = m
with_definition m (some definition) = set_entry m function_definition_key definition

abbrev pub admitted_metadata : GoMap String String → HandshakeFrame → M
admitted_metadata m hf =
    made (with_definition (with_target m hf.wanted_target) hf.function_definition)

pub set_wanted_target-made :
    (m : GoMap String String) (target : String)
    → set_wanted_target (made m) target ≡ some (made (with_target m target))
unfolding set_wanted_target set
set_wanted_target-made m target = ground arith

pub set_definition-made :
    (m : GoMap String String) (d : Option String)
    → set_definition (made m) d ≡ some (made (with_definition m d))
unfolding set_definition set
set_definition-made m none = refl
set_definition-made m (some d) = refl

some-injective {ℓ} : {A : Type ℓ} {a b : A} → some a ≡ some b → a ≡ b
some-injective h = cc

-- Whether a connection's metadata is that of the authentication with the frame's wanted target and
-- function definition. A nil map takes neither.
abbrev pub Carries : M → HandshakeFrame → M → Type 0
Carries nil hf md = (md ≡ nil) × (hf.wanted_target ≡ "") × (hf.function_definition ≡ none)
Carries (made m) hf md = md ≡ admitted_metadata m hf

definition-nil :
    (d : Option String) (md : M) → set_definition nil d ≡ some md → (md ≡ nil) × (d ≡ none)
unfolding set_definition set
definition-nil none md h = (cc, refl)
definition-nil (some d) md h = cc

target_by :
    (b : Bool) (target : String) (md : M)
    → (target == "") ≡ b
    → (if b then some nil else set nil wanted_target_key target) ≡ some md
    → (md ≡ nil) × (target ≡ "")
unfolding set
target_by true target md e h = (cc, (same_iff {K = String} target "").0 e)
target_by false target md e h = cc

target-nil :
    (target : String) (md : M) → set_wanted_target nil target ≡ some md → (md ≡ nil) × (target ≡ "")
unfolding set_wanted_target set
target-nil target md h = target_by (target == "") target md refl h

pub set-Carries :
    (m md md' : M) (hf : HandshakeFrame)
    → set_wanted_target m hf.wanted_target ≡ some md
    → set_definition md hf.function_definition ≡ some md'
    → Carries m hf md'
set-Carries nil md md' hf h k =
    let (e, t) = target-nil hf.wanted_target md h in
    let (e', d) =
      definition-nil hf.function_definition md'
        (ap (λ x. set_definition x hf.function_definition) (sym e) ∙ k) in
    (e', t, d)
set-Carries (made m) md md' hf h k =
    let e : made (with_target m hf.wanted_target) ≡ md =
      some-injective (sym (set_wanted_target-made m hf.wanted_target) ∙ h) in
    some-injective (
      sym k
      ∙ ap (λ x. set_definition x hf.function_definition) (sym e)
      ∙ set_definition-made (with_target m hf.wanted_target) hf.function_definition)
