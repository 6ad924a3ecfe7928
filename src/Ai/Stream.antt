-- ===== src/Ai/Stream.antt =====
-- pkg/bridge/ai/service.go: the tool calls that a streamed response brings in pieces.
pub mod Slice
pub mod Order
pub mod Pieces
use Prim.Native.String.{◌++◌ as join}
use yomo.Common.{
  ℕ, zero, suc, String, Option, none, some, List, [], ◌∷◌, ◌==◌, nat_key, string_key, if◌then◌else◌,
  length,
}
use yomo.GoMap.{GoMap, get, put}
use yomo.Ai.{ToolCall}

-- an openai.ToolCall of Delta.ToolCalls: the index is a pointer
pub record Delta : Type 0 where
  pub index : Option ℕ
  pub id : String
  pub call_type : String
  pub name : String
  pub arguments : String

-- toolCallsMap; the index that an item keeps is its key
abbrev pub ToolCallsMap : Type 0
ToolCallsMap = GoMap ℕ ToolCall

-- item, ok := toolCallsMap[index], and the new item where there is none
unfoldable pub item_of : Option ToolCall → Delta → ToolCall
item_of (some item) t = item
item_of none t = record { id = t.id; call_type = t.call_type; function_name = ""; arguments = "" }

-- the two tests on the arguments and the name
unfoldable pub extend : ToolCall → Delta → ToolCall
extend item t = record item {
  arguments = if t.arguments == "" then item.arguments else join item.arguments t.arguments;
  function_name = if t.name == "" then item.function_name else t.name;
}

-- the body of the loop over a delta's tool calls; `none` is the panic of a nil index
unfoldable pub add_at : ToolCallsMap → Option ℕ → Delta → Option ToolCallsMap
add_at m none t = none
add_at m (some i) t = some (put m i (extend (item_of (get m i) t) t))

unfoldable pub and_then :
    Option ToolCallsMap → (ToolCallsMap → Option ToolCallsMap) → Option ToolCallsMap
and_then none f = none
and_then (some m) f = f m

-- the pieces of a response, in the order of its chunks
unfoldable pub collect : ToolCallsMap → List Delta → Option ToolCallsMap
collect m [] = some m
collect m (t ∷ ts) = and_then (add_at m t.index t) (λ m'. collect m' ts)

-- arr[k] = v; `none` is the panic of an index out of range
unfoldable pub set_elem {ℓ} : {A : Type ℓ} → List A → ℕ → A → Option (List A)
set_elem [] k v = none
set_elem (x ∷ xs) zero v = some (v ∷ xs)
set_elem (x ∷ xs) (suc k) v = elim (set_elem xs k v) [ none ↦ none | some ys ↦ some (x ∷ ys) ]

-- the zero value of a tool call
abbrev pub zero_call : ToolCall
zero_call = record { id = ""; call_type = ""; function_name = ""; arguments = "" }

unfoldable pub zero_calls : ℕ → List ToolCall
zero_calls zero = []
zero_calls (suc n) = zero_call ∷ zero_calls n

unfoldable pub fill_slice : Option (List ToolCall) → ToolCallsMap → Option (List ToolCall)
fill_slice none m = none
fill_slice (some arr) [] = some arr
fill_slice (some arr) ((k, v) ∷ m) = fill_slice (set_elem arr k v) m

-- mapToSliceTools(m)
unfoldable pub map_to_slice_tools : ToolCallsMap → Option (List ToolCall)
map_to_slice_tools m = fill_slice (some (zero_calls (length m))) m
