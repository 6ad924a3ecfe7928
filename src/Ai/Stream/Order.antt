-- ===== src/Ai/Stream/Order.antt =====
-- Pieces whose indexes come without a gap never run out of the slice.
use yomo.Common.{
  ℕ, suc, ◌+◌, ◌≤◌, ◌<◌, ◌≡◌, refl, ap, ◌∙◌, true, none, some, List, [], ◌∷◌, arith, nat_key,
  string_key, same_iff, ltb, if◌then◌else◌, is_some, length,
}
use yomo.GoMap.{get, put, delete, has, IsMap}
use yomo.GoMap.Laws.{get-put, put-IsMap}
use yomo.Ai.{ToolCall}
use yomo.Ai.Stream.{
  Delta, ToolCallsMap, item_of, extend, add_at, and_then, collect, map_to_slice_tools,
}
use yomo.Ai.Stream.Slice.{keys_below, is_some-map_to_slice_tools}

length-delete_absent : (m : ToolCallsMap) (k : ℕ) → get m k ≡ none → length (delete m k) ≡ length m
unfolding get delete
length-delete_absent [] k h = refl
length-delete_absent ((j, v) ∷ m) k h = ground (arith, h, length-delete_absent m k)

length-delete :
    (m : ToolCallsMap) (k : ℕ)
    → IsMap m
    → length (delete m k) + (if has m k then 1 else 0) ≡ length m
unfolding get delete
length-delete [] k h = refl
length-delete ((j, v) ∷ m) k (n, h) =
    ground (arith, length-delete m k h, length-delete_absent m k, same_iff j k, n)

-- The indexes are the numbers below the number of calls.
pub record Dense (m : ToolCallsMap) : Type 0 where
  pub is_map : IsMap m
  pub dense : (k : ℕ) → has m k ≡ ltb k (length m)

length-put :
    (m : ToolCallsMap) (i : ℕ) (v : ToolCall)
    → Dense m
    → i ≤ length m
    → length (put m i v) ≡ (if ltb i (length m) then length m else suc i)
unfolding put
length-put m i v d h = ground (arith, length-delete m i d.is_map, d.dense i)

put-Dense : (m : ToolCallsMap) (i : ℕ) (v : ToolCall) → Dense m → i ≤ length m → Dense (put m i v)
put-Dense m i v d h = record {
  is_map = put-IsMap m i v d.is_map;
  dense = λ k. ground (arith, length-put m i v d h, get-put m i k v, d.dense k);
}

-- Each index is one that came before, or the next one, where `n` came before.
abbrev pub InOrder : ℕ → List Delta → Type 0
InOrder n [] = Unit
InOrder n (t ∷ ts) =
    (i : ℕ) × (t.index ≡ some i) × (i ≤ n) × InOrder (if ltb i n then n else suc i) ts

pub collect-cons :
    (m : ToolCallsMap) (t : Delta) (ts : List Delta) (i : ℕ)
    → t.index ≡ some i
    → collect m (t ∷ ts) ≡ collect (put m i (extend (item_of (get m i) t) t)) ts
unfolding collect add_at and_then
collect-cons m t ts i e = ap (λ o. and_then (add_at m o t) (λ m'. collect m' ts)) e

collect-Dense :
    (m : ToolCallsMap) (n : ℕ) (ts : List Delta)
    → Dense m
    → length m ≡ n
    → InOrder n ts
    → (out : ToolCallsMap) × (collect m ts ≡ some out) × Dense out
unfolding collect
collect-Dense m n [] d l h = (m, refl, d)
collect-Dense m n (t ∷ ts) d l (i, e, b, h) =
    let v = extend (item_of (get m i) t) t in
    let b' : i ≤ length m = ground (arith, l, b) in
    rw (collect-cons m t ts i e) (
      collect-Dense (put m i v) _ ts (put-Dense m i v d b')
        (length-put m i v d b' ∙ ap (λ k. if ltb i k then k else suc i) l) h)

keys_below-of_has :
    (m : ToolCallsMap) (n : ℕ) → ((k : ℕ) → has m k ≡ true → k < n) → keys_below m n ≡ true
unfolding keys_below get
keys_below-of_has [] n h = refl
keys_below-of_has ((k, v) ∷ m) n h =
    ground (arith, h k, keys_below-of_has m n (λ j p. h j (ground (arith, p))))

-- When each index is one that came before or the next one, the pieces are gathered and put into
-- their slice without a panic.
pub collect-map_to_slice_tools :
    (ts : List Delta)
    → InOrder 0 ts
    → (m : ToolCallsMap) × (collect [] ts ≡ some m) × (is_some (map_to_slice_tools m) ≡ true)
unfolding get
collect-map_to_slice_tools ts h =
    let (m, e, d) =
      collect-Dense [] 0 ts (record { is_map = tt; dense = λ k. ground arith }) refl h in
    (
      m,
      e,
      is_some-map_to_slice_tools m
          ∙ keys_below-of_has m (length m) (λ k p. ground (arith, p, d.dense k)),
    )
