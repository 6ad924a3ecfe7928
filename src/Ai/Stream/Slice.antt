-- ===== src/Ai/Stream/Slice.antt =====
-- When the gathered tool calls fit their slice, and what stands in it.
use yomo.Common.{
  ℕ, zero, suc, ◌≤◌, ◌<◌, ◌≡◌, refl, sym, ap, ◌∙◌, inl, inr, Bool, true, ◌&&◌, Option, none, some,
  List, [], ◌∷◌, arith, ◌==◌, nat_key, string_key, same_iff, ltb, if◌then◌else◌, Bool-cases,
  is_some, length,
}
use yomo.GoMap.{get, IsMap}
use yomo.Ai.{ToolCall}
use yomo.Ai.Stream.{ToolCallsMap, set_elem, zero_call, zero_calls, fill_slice, map_to_slice_tools}

abbrev pub get_elem? {ℓ} : {A : Type ℓ} → List A → ℕ → Option A
get_elem? [] i = none
get_elem? (x ∷ xs) zero = some x
get_elem? (x ∷ xs) (suc i) = get_elem? xs i

unfoldable pub keys_below : ToolCallsMap → ℕ → Bool
keys_below [] n = true
keys_below ((k, v) ∷ m) n = ltb k n && keys_below m n

-- What a write to a slice comes to.
record Written (arr : List ToolCall) (k : ℕ) (v : ToolCall) : Type 0 where
  written : List ToolCall
  done : set_elem arr k v ≡ some written
  same_length : length written ≡ length arr
  elems : (i : ℕ) → get_elem? written i ≡ (if k == i then some v else get_elem? arr i)

elem_first :
    (x v : ToolCall) (xs : List ToolCall) (i : ℕ)
    → get_elem? (v ∷ xs) i ≡ (if 0 == i then some v else get_elem? (x ∷ xs) i)
elem_first x v xs zero = refl
elem_first x v xs (suc i) = ground arith

elem_later :
    (x v : ToolCall) (xs ys : List ToolCall) (k : ℕ)
    → ((i : ℕ) → get_elem? ys i ≡ (if k == i then some v else get_elem? xs i))
    → (i : ℕ) → get_elem? (x ∷ ys) i ≡ (if suc k == i then some v else get_elem? (x ∷ xs) i)
elem_later x v xs ys k h zero = ground arith
elem_later x v xs ys k h (suc i) = ground (arith, h i)

set_elem-in : (arr : List ToolCall) (k : ℕ) (v : ToolCall) → k < length arr → Written arr k v
unfolding set_elem
set_elem-in [] k v h = absurd (omega arith)
set_elem-in (x ∷ xs) zero v h = record {
  written = v ∷ xs;
  done = refl;
  same_length = refl;
  elems = elem_first x v xs;
}
set_elem-in (x ∷ xs) (suc k) v h =
    let w = set_elem-in xs k v (omega arith) in
    record {
      written = x ∷ w.written;
      done = rw w.done;
      same_length = omega (arith, w.same_length);
      elems = elem_later x v xs w.written k w.elems;
    }

set_elem-out :
    (arr : List ToolCall) (k : ℕ) (v : ToolCall) → length arr ≤ k → set_elem arr k v ≡ none
unfolding set_elem
set_elem-out [] k v h = refl
set_elem-out (x ∷ xs) zero v h = absurd (omega arith)
set_elem-out (x ∷ xs) (suc k) v h = rw (set_elem-out xs k v (omega arith))

length-zero_calls : (n : ℕ) → length (zero_calls n) ≡ n
unfolding zero_calls
length-zero_calls zero = refl
length-zero_calls (suc n) = omega (arith, length-zero_calls n)

fill_slice-none : (m : ToolCallsMap) → fill_slice none m ≡ none
unfolding fill_slice
fill_slice-none m = refl

is_some-fill_slice :
    (arr : List ToolCall) (m : ToolCallsMap)
    → is_some (fill_slice (some arr) m) ≡ keys_below m (length arr)
unfolding fill_slice keys_below
is_some-fill_slice arr [] = refl
is_some-fill_slice arr ((k, v) ∷ m) = elim (Bool-cases (ltb k (length arr))) [
  | inl h ↦
      let w = set_elem-in arr k v (ground arith) in
      ground (arith, w.done, w.same_length, is_some-fill_slice w.written m)
  | inr h ↦ ground (arith, set_elem-out arr k v (ground arith), fill_slice-none m)
]

-- The gathered calls are put into a slice exactly when every index is below their number; otherwise
-- the code panics.
pub is_some-map_to_slice_tools :
    (m : ToolCallsMap) → is_some (map_to_slice_tools m) ≡ keys_below m (length m)
unfolding map_to_slice_tools
is_some-map_to_slice_tools m =
    ground (arith, is_some-fill_slice (zero_calls (length m)) m, length-zero_calls (length m))

-- The value of an index that may not be there.
abbrev pub or_zero : Option ToolCall → ToolCall
or_zero none = zero_call
or_zero (some v) = v

-- What stands at an index: the map's call, or what stood there before.
abbrev filled : Option ToolCall → Option ToolCall → Option ToolCall
filled none old = old
filled (some v) old = some v

filled_step :
    (o : Option ToolCall) (k i : ℕ) (v : ToolCall) (old new : Option ToolCall)
    → ((k == i) ≡ true → o ≡ none)
    → new ≡ (if k == i then some v else old)
    → filled o new ≡ filled (if k == i then some v else o) old
filled_step none k i v old new a e = ground (arith, e)
filled_step (some c) k i v old new a e = elim (Bool-cases (k == i)) [
  | inl h ↦ cc (a h)
  | inr h ↦ ground (arith, h)
]

absent : (m : ToolCallsMap) (k i : ℕ) → get m k ≡ none → (k == i) ≡ true → get m i ≡ none
absent m k i n h = ap (get m) (sym ((same_iff k i).0 h)) ∙ n

get_elem?-fill_slice :
    (arr out : List ToolCall) (m : ToolCallsMap) (i : ℕ)
    → IsMap m
    → fill_slice (some arr) m ≡ some out
    → (length out ≡ length arr) × (get_elem? out i ≡ filled (get m i) (get_elem? arr i))
unfolding fill_slice get
get_elem?-fill_slice arr out [] i h e = (ground arith, ground arith)
get_elem?-fill_slice arr out ((k, v) ∷ m) i (n, h) e = elim (Bool-cases (ltb k (length arr))) [
  | inl b ↦
      let w = set_elem-in arr k v (ground arith) in
      let e' : fill_slice (some w.written) m ≡ some out = ground (arith, e, w.done) in
      let (l, g) = get_elem?-fill_slice w.written out m i h e' in
      (l ∙ w.same_length, g ∙ filled_step (get m i) k i v _ _ (absent m k i n) (w.elems i))
  | inr b ↦ absurd (ground (arith, e, set_elem-out arr k v (ground arith), fill_slice-none m))
]

get_elem?-zero_calls : (n i : ℕ) → i < n → get_elem? (zero_calls n) i ≡ some zero_call
unfolding zero_calls
get_elem?-zero_calls zero i h = absurd (omega arith)
get_elem?-zero_calls (suc n) zero h = refl
get_elem?-zero_calls (suc n) (suc i) h = get_elem?-zero_calls n i (omega arith)

-- The slice of a map that has each index once has as many elements as the map, and at each place
-- the call of that index, or the zero value where the map has none.
pub get_elem?-map_to_slice_tools :
    (m : ToolCallsMap) (out : List ToolCall) (i : ℕ)
    → IsMap m
    → map_to_slice_tools m ≡ some out
    → i < length m
    → (length out ≡ length m) × (get_elem? out i ≡ some (or_zero (get m i)))
unfolding map_to_slice_tools
get_elem?-map_to_slice_tools m out i h e b =
    let (l, g) = get_elem?-fill_slice (zero_calls (length m)) out m i h e in
    (l ∙ length-zero_calls (length m), ground (arith, g, get_elem?-zero_calls (length m) i b))
