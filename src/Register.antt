-- ===== src/Register.antt =====
-- pkg/bridge/ai/register/register.go: the register of the functions that connections offer.
pub mod Factor
use yomo.Common.{ℕ, suc, String, [], ◌∷◌, ◌==◌, nat_key, string_key, if◌then◌else◌}
use yomo.Frame.{Tag}
use yomo.GoMap.{GoMap, put, delete}

-- openai.Tool, of a function definition
pub record Tool (Definition : Type 0) : Type 0 where
  pub tool_type : String
  pub function : Definition

pub record ConnectedFn (Definition : Type 0) : Type 0 where
  pub conn_id : ℕ
  pub tag : Tag
  pub tools : Tool Definition

-- register, by its `underlying` sync.Map
abbrev pub Register : Type 0 → Type 0
Register Definition = GoMap ℕ (ConnectedFn Definition)

module _ {Definition : Type 0} where
  -- the Range of ListToolCalls, over the map that has been filled so far
  unfoldable pub fill :
      Register Definition → GoMap Tag (Tool Definition) → GoMap Tag (Tool Definition)
  fill [] result = result
  fill ((id, fn) ∷ r) result = fill r (put result fn.tag fn.tools)

  -- ListToolCalls(md), whose error is nil
  unfoldable pub list_tool_calls : Register Definition → GoMap Tag (Tool Definition)
  list_tool_calls r = fill r []

  -- RegisterFunction(tag, functionDefinition, connID, md), whose error is nil
  unfoldable pub register_function :
      Register Definition → Tag → Definition → ℕ → Register Definition
  register_function r tag definition id = put r id (record {
    conn_id = id;
    tag = tag;
    tools = record { tool_type = "function"; function = definition };
  })

  -- UnregisterFunction(connID, md)
  unfoldable pub unregister_function : Register Definition → ℕ → Register Definition
  unregister_function r id = delete r id

  -- SfnFactor(tag, md)
  unfoldable pub sfn_factor : Register Definition → Tag → ℕ
  sfn_factor [] tag = 0
  sfn_factor ((id, fn) ∷ r) tag =
      let others = sfn_factor r tag in if fn.tag == tag then suc others else others
