-- ===== src/Ai/Stream/Pieces.antt =====
-- What the pieces of a tool call come to.
use Prim.Native.String.{◌++◌ as join}
use text.Mathlib.TextLemmas.{append-nil, nil-append, append_assoc}
use yomo.Common.{
  ℕ, String, ◌≡◌, refl, ◌∙◌, Bool, false, Option, none, some, List, [], ◌∷◌, arith, ◌==◌, nat_key,
  string_key, same_iff, if◌then◌else◌,
}
use yomo.GoMap.{get}
use yomo.GoMap.Laws.{get-put}
use yomo.Ai.{ToolCall}
use yomo.Ai.Stream.{Delta, ToolCallsMap, item_of, extend, add_at, and_then, collect}

abbrev pub is_at : Option ℕ → ℕ → Bool
is_at none k = false
is_at (some i) k = i == k

-- The arguments of the pieces at an index, in the order in which they came.
unfoldable pub pieces_at : List Delta → ℕ → String
pieces_at [] k = ""
pieces_at (t ∷ ts) k = if is_at t.index k then join t.arguments (pieces_at ts k) else pieces_at ts k

abbrev pub arguments_of : Option ToolCall → String
arguments_of none = ""
arguments_of (some c) = c.arguments

arguments-extend :
    (o : Option ToolCall) (t : Delta)
    → (extend (item_of o t) t).arguments ≡ join (arguments_of o) t.arguments
unfolding extend item_of
arguments-extend none t =
    ground (arith, same_iff {K = String} t.arguments "", nil-append t.arguments)
arguments-extend (some c) t =
    ground (arith, same_iff {K = String} t.arguments "", append-nil c.arguments)

collect_step :
    (m m' : ToolCallsMap) (o : Option ℕ) (t : Delta) (k : ℕ)
    → add_at m o t ≡ some m'
    → arguments_of (get m' k)
      ≡ (if is_at o k then join (arguments_of (get m k)) t.arguments else arguments_of (get m k))
unfolding add_at
collect_step m m' none t k e = cc
collect_step m m' (some i) t k e = ground (
  arith,
  e,
  get-put m i k (extend (item_of (get m i) t) t),
  arguments-extend (get m i) t,
  same_iff i k,
)

and_then-eq-some :
    (o : Option ToolCallsMap) (f : ToolCallsMap → Option ToolCallsMap) (out : ToolCallsMap)
    → and_then o f ≡ some out
    → (m : ToolCallsMap) × (o ≡ some m) × (f m ≡ some out)
unfolding and_then
and_then-eq-some none f out e = cc
and_then-eq-some (some m) f out e = (m, refl, e)

arguments-collect_from :
    (m out : ToolCallsMap) (ts : List Delta) (k : ℕ)
    → collect m ts ≡ some out
    → arguments_of (get out k) ≡ join (arguments_of (get m k)) (pieces_at ts k)
unfolding collect pieces_at
arguments-collect_from m out [] k e = ground (arith, e, append-nil (arguments_of (get m k)))
arguments-collect_from m out (t ∷ ts) k e =
    let (m', a, c) = and_then-eq-some (add_at m t.index t) (λ n. collect n ts) out e in
    ground (
      arith,
      arguments-collect_from m' out ts k c,
      collect_step m m' t.index t k a,
      append_assoc (arguments_of (get m k)) t.arguments (pieces_at ts k),
    )

-- The arguments of the tool call that is gathered at an index are the pieces that came for that
-- index, in their order, however they were mixed with those of other indexes.
pub arguments-collect :
    (ts : List Delta) (out : ToolCallsMap) (k : ℕ)
    → collect [] ts ≡ some out
    → arguments_of (get out k) ≡ pieces_at ts k
unfolding get
arguments-collect ts out k e = arguments-collect_from [] out ts k e ∙ nil-append (pieces_at ts k)
