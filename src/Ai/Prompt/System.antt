-- ===== src/Ai/Prompt/System.antt =====
-- The system messages after a prompt was written over them, and the messages beside them.
use yomo.Common.{
  String, ◌≡◌, refl, ◌∙◌, ◌≢◌, inl, inr, Bool, true, false, List, [], ◌∷◌, ◌++◌, arith, ◌==◌,
  nat_key, string_key, same_iff, same_self, if◌then◌else◌, Bool-cases, All,
}
use yomo.Ai.{Message, Request}
use yomo.Ai.Prompt.{message_of, is_system, set_prompts, has_system, over_write_system_prompt}

-- The messages that are no system messages.
unfoldable pub beside : List Message → List Message
beside [] = []
beside (m ∷ ms) = if is_system m then beside ms else m ∷ beside ms

-- A system message says the prompt.
abbrev pub Says : String → Message → Type 0
Says prompt m = is_system m ≡ true → m.content ≡ prompt

set_prompts-Says : (ms : List Message) (prompt : String) → All (Says prompt) (set_prompts ms prompt)
unfolding set_prompts
set_prompts-Says [] prompt = tt
set_prompts-Says (m ∷ ms) prompt = (ground arith, set_prompts-Says ms prompt)

has_system-set_prompts :
    (ms : List Message) (prompt : String) → has_system (set_prompts ms prompt) ≡ has_system ms
unfolding set_prompts has_system
has_system-set_prompts [] prompt = refl
has_system-set_prompts (m ∷ ms) prompt = ground (arith, has_system-set_prompts ms prompt)

beside-set_prompts :
    (ms : List Message) (prompt : String) → beside (set_prompts ms prompt) ≡ beside ms
unfolding set_prompts beside
beside-set_prompts [] prompt = refl
beside-set_prompts (m ∷ ms) prompt = ground (arith, beside-set_prompts ms prompt)

-- The appended message is the only system message.
has_system-append :
    (ms : List Message) (m : Message) → is_system m ≡ true → has_system (ms ++ m ∷ []) ≡ true
unfolding has_system
has_system-append [] m h = ground arith
has_system-append (n ∷ ms) m h = ground (arith, has_system-append ms m h)

beside-append :
    (ms : List Message) (m : Message) → is_system m ≡ true → beside (ms ++ m ∷ []) ≡ beside ms
unfolding beside
beside-append [] m h = ground arith
beside-append (n ∷ ms) m h = ground (arith, beside-append ms m h)

All-append {ℓ κ} :
    {A : Type ℓ} (P : A → Type κ) (xs : List A) (x : A) → All P xs → P x → All P (xs ++ x ∷ [])
All-append P [] x h p = (p, tt)
All-append P (y ∷ xs) x (q, h) p = (q, All-append P xs x h p)

-- What holds of the messages after the prompt was written.
pub record Prompted (before after : List Message) (prompt : String) : Type 0 where
  pub present : has_system after ≡ true
  pub says : All (Says prompt) after
  pub kept : beside after ≡ beside before

written-Prompted :
    (ms : List Message) (prompt : String) (b : Bool)
    → has_system ms ≡ b
    → Prompted ms
        (if b
          then set_prompts ms prompt
          else set_prompts ms prompt ++ message_of "system" prompt ∷ [])
        prompt
written-Prompted ms prompt true h = record {
  present = has_system-set_prompts ms prompt ∙ h;
  says = set_prompts-Says ms prompt;
  kept = beside-set_prompts ms prompt;
}
written-Prompted ms prompt false h = record {
  present = has_system-append (set_prompts ms prompt) _ (same_self {K = String} "system");
  says =
      All-append (Says prompt) (set_prompts ms prompt) _ (set_prompts-Says ms prompt) (λ _. refl);
  kept =
      beside-append (set_prompts ms prompt) _ (same_self {K = String} "system")
      ∙ beside-set_prompts ms prompt;
}

-- Once a prompt that is not empty is written, the request has a system message, each of its system
-- messages says that prompt, and the other messages are the ones before, in their order.
pub over_write_system_prompt-Prompted :
    (req : Request) (prompt : String)
    → prompt ≢ ""
    → Prompted req.messages (over_write_system_prompt req prompt).messages prompt
unfolding over_write_system_prompt
over_write_system_prompt-Prompted req prompt n = elim (Bool-cases (prompt == "")) [
  | inl e ↦ absurd (n ((same_iff {K = String} prompt "").0 e))
  | inr e ↦ rw e (written-Prompted req.messages prompt (has_system req.messages) refl)
]
