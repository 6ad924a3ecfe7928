-- ===== src/Register/Factor.antt =====
-- How registrations and the factor of a tag hang together.
use yomo.Common.{
  ℕ, ◌+◌, ◌≡◌, refl, ◌∙◌, ◌||◌, Option, none, some, [], ◌∷◌, arith, ◌==◌, nat_key, string_key,
  same_iff, ltb, if◌then◌else◌,
}
use yomo.Frame.{Tag}
use yomo.GoMap.{GoMap, get, put, delete, IsMap, has}
use yomo.GoMap.Laws.{get-put}
use yomo.Register.{
  ConnectedFn, Register, Tool, fill, list_tool_calls, register_function, unregister_function,
  sfn_factor,
}

-- One if the connection offers a function under the tag.
abbrev pub offers : {Definition : Type 0} → Option (ConnectedFn Definition) → Tag → ℕ
offers none tag = 0
offers (some fn) tag = if fn.tag == tag then 1 else 0

sfn_factor-absent :
    {Definition : Type 0} (r : Register Definition) (id : ℕ) (tag : Tag)
    → get r id ≡ none
    → sfn_factor (delete r id) tag ≡ sfn_factor r tag
unfolding delete sfn_factor get
sfn_factor-absent [] id tag h = refl
sfn_factor-absent ((j, fn) ∷ r) id tag h = ground (arith, sfn_factor-absent r id tag, h)

sfn_factor-delete :
    {Definition : Type 0} (r : Register Definition) (id : ℕ) (tag : Tag)
    → IsMap r
    → sfn_factor (delete r id) tag + offers (get r id) tag ≡ sfn_factor r tag
unfolding delete sfn_factor get
sfn_factor-delete [] id tag h = refl
sfn_factor-delete ((j, fn) ∷ r) id tag (n, h) =
    ground (arith, sfn_factor-delete r id tag h, sfn_factor-absent r id tag, same_iff j id)

has-fill :
    {Definition : Type 0} (r : Register Definition) (m : GoMap Tag (Tool Definition)) (tag : Tag)
    → has (fill r m) tag ≡ (ltb 0 (sfn_factor r tag) || has m tag)
unfolding fill sfn_factor
has-fill [] m tag = refl
has-fill ((id, fn) ∷ r) m tag =
    ground (arith, has-fill r (put m fn.tag fn.tools) tag, get-put m fn.tag tag fn.tools)

-- In a register that holds a connection once, a registration counts for its own tag, in place of what its connection offered before.
pub sfn_factor-register_function :
    {Definition : Type 0} (r : Register Definition) (tag : Tag) (definition : Definition) (id : ℕ)
    (t : Tag)
    → IsMap r
    → sfn_factor (register_function r tag definition id) t + offers (get r id) t
      ≡ sfn_factor r t + (if tag == t then 1 else 0)
unfolding register_function put sfn_factor
sfn_factor-register_function r tag definition id t h = ground (arith, sfn_factor-delete r id t h)

-- Once a connection is unregistered from a register that holds a connection once, exactly its own function is no longer counted.
pub sfn_factor-unregister_function :
    {Definition : Type 0} (r : Register Definition) (id : ℕ) (t : Tag)
    → IsMap r
    → sfn_factor (unregister_function r id) t + offers (get r id) t ≡ sfn_factor r t
unfolding unregister_function
sfn_factor-unregister_function r id t h = sfn_factor-delete r id t h

-- ListToolCalls has a tool for exactly the tags that have a factor above zero.
pub list_tool_calls-sfn_factor :
    {Definition : Type 0} (r : Register Definition) (tag : Tag)
    → has (list_tool_calls r) tag ≡ ltb 0 (sfn_factor r tag)
unfolding list_tool_calls get
list_tool_calls-sfn_factor r tag = has-fill r [] tag ∙ ground arith
