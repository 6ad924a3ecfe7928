-- ===== src/Wasm/Transfer.antt =====
-- The data of a context on its way from the host to the guest.
use yomo.Common.{
  ℕ, ◌+◌, ◌≤◌, ◌<◌, ◌≡◌, refl, sym, ap, ◌∙◌, inl, inr, true, false, Option, none, some, [], ◌∷◌,
  arith, ◌==◌, nat_key, string_key, ltb, leb, Bool-cases, is_some, length,
}
use yomo.Frame.{Bytes}
use yomo.Wasm.{Wazero, Runtime, stored, context_data, uint32}
use yomo.Wasm.Guest.{read_buf_size, get_large, get_by_size, guest_data}

pub uint32-small : (n : ℕ) → n < 4294967296 → uint32 n ≡ n
uint32-small n h = omega arith

-- A nil slice stands for no bytes.
abbrev pub or_nil : Bytes → Option Bytes
or_nil [] = none
or_nil (b ∷ bs) = some (b ∷ bs)

-- What the host leaves in memory for a guest.
record Given (W : Wazero) (m : W.Memory) (pointer : ℕ) (payload : Bytes) (p : W.Memory × ℕ)
    : Type 0 where
  length_given : p.1 ≡ length payload
  bytes_given : W.read p.0 pointer (length payload) ≡ some payload

module _ (W : Wazero) (r : Runtime) (m : W.Memory)
    (small : length r.serverless_ctx.data_ < 4294967296) (memory : W.size m ≤ 4294967296) where
  stored-Given :
      (pointer : ℕ) (payload : Bytes) (o : Option W.Memory)
      → W.store m pointer payload ≡ o
      → is_some o ≡ true
      → Given W m pointer payload (stored W m (length payload) o)
  unfolding stored
  stored-Given pointer payload none e h = cc
  stored-Given pointer payload (some m') e h = record {
    length_given = refl;
    bytes_given = W.read-store m m' pointer payload e;
  }

  context_data-Given :
      (pointer limit : ℕ)
      → 0 < length r.serverless_ctx.data_
      → length r.serverless_ctx.data_ ≤ limit
      → limit < 4294967296
      → pointer + length r.serverless_ctx.data_ ≤ W.size m
      → Given W m pointer r.serverless_ctx.data_ (context_data W r m pointer limit)
  unfolding context_data
  context_data-Given pointer limit p l b f =
      let payload = r.serverless_ctx.data_ in
      let fits : is_some (W.store m pointer payload) ≡ true =
        W.store_in m pointer payload ∙ ground (arith, f) in
      let over : ltb (uint32 limit) (uint32 (length payload)) ≡ false = ground arith in
      let some_bytes : (uint32 (length payload) == 0) ≡ false = ground arith in
      let at : uint32 pointer ≡ pointer = omega arith in
      rw (over, some_bytes, uint32-small (length payload) small, at)
        (stored-Given pointer payload (W.store m pointer payload) refl fits)

  context_data-large :
      (pointer limit : ℕ)
      → limit < length r.serverless_ctx.data_
      → context_data W r m pointer limit ≡ (m, length r.serverless_ctx.data_)
  unfolding context_data
  context_data-large pointer limit l =
      let over : ltb (uint32 limit) (uint32 (length r.serverless_ctx.data_)) ≡ true =
        ground arith in
      rw over (ap (λ n. (m, n)) (uint32-small (length r.serverless_ctx.data_) small))

  context_data-nil :
      (pointer limit : ℕ)
      → length r.serverless_ctx.data_ ≡ 0
      → (context_data W r m pointer limit).1 ≡ 0
  unfolding context_data
  context_data-nil pointer limit z = ground (arith, z)

  get_by_size-small :
      (read_buf : ℕ) (alloc : ℕ → ℕ) (p : W.Memory × ℕ)
      → 0 < length r.serverless_ctx.data_
      → length r.serverless_ctx.data_ ≤ read_buf_size
      → Given W m read_buf r.serverless_ctx.data_ p
      → get_by_size W r read_buf alloc p ≡ some r.serverless_ctx.data_
  unfolding get_by_size
  get_by_size-small read_buf alloc (m', n) q l g =
      ground (arith, g.length_given, g.bytes_given, ap (W.read m' read_buf) g.length_given)

  get_large-given :
      (alloc : ℕ → ℕ) (n : ℕ)
      → n ≡ length r.serverless_ctx.data_
      → 0 < n
      → alloc n + n ≤ W.size m
      → get_large W r alloc m n ≡ some r.serverless_ctx.data_
  unfolding get_large
  get_large-given alloc n e p f =
      let g =
        context_data-Given (alloc n) n (omega (arith, e)) (omega (arith, e)) (omega (arith, e))
          (omega (arith, e)) in
      ap (W.read (context_data W r m (alloc n) n).0 (alloc n)) e ∙ g.bytes_given

  or_nil-some : (b : Bytes) → 0 < length b → or_nil b ≡ some b
  or_nil-some [] h = absurd (omega arith)
  or_nil-some (x ∷ xs) h = refl

  or_nil-none : (b : Bytes) → length b ≡ 0 → or_nil b ≡ none
  or_nil-none [] h = refl
  or_nil-none (x ∷ xs) h = absurd (omega arith)

  get_by_size-nil :
      (read_buf : ℕ) (alloc : ℕ → ℕ) (p : W.Memory × ℕ)
      → p.1 ≡ 0
      → get_by_size W r read_buf alloc p ≡ none
  unfolding get_by_size
  get_by_size-nil read_buf alloc (m', n) z = ground (arith, z)

  get_by_size-large :
      (read_buf : ℕ) (alloc : ℕ → ℕ) (n : ℕ)
      → read_buf_size < n
      → get_by_size W r read_buf alloc (m, n) ≡ get_large W r alloc m n
  unfolding get_by_size
  get_by_size-large read_buf alloc n h = ground arith

  -- The guest reads the data of its context as the host has it, whether it fits the guest's buffer or
  -- needs one of its own, when both buffers lie within a memory of at most 2^32 bytes and the data is
  -- shorter than that; no data is read as nil.
  pub guest_data-or_nil :
      (read_buf : ℕ) (alloc : ℕ → ℕ)
      → read_buf + read_buf_size ≤ W.size m
      → alloc (length r.serverless_ctx.data_) + length r.serverless_ctx.data_ ≤ W.size m
      → guest_data W r m read_buf alloc ≡ or_nil r.serverless_ctx.data_
  unfolding guest_data
  guest_data-or_nil read_buf alloc f g =
      let payload = r.serverless_ctx.data_ in
      elim (Bool-cases (length payload == 0)) [
        | inl z ↦
            get_by_size-nil read_buf alloc _
              (context_data-nil read_buf read_buf_size (ground arith))
            ∙ sym (or_nil-none payload (ground arith))
        | inr n ↦ elim (Bool-cases (leb (length payload) read_buf_size)) [
          | inl s ↦
              get_by_size-small read_buf alloc _ (ground arith) (ground arith) (
                context_data-Given read_buf read_buf_size (ground arith) (ground arith)
                  (omega arith) (ground arith))
              ∙ sym (or_nil-some payload (ground arith))
          | inr b ↦
              ap (get_by_size W r read_buf alloc)
                (context_data-large read_buf read_buf_size (ground arith))
              ∙ get_by_size-large read_buf alloc (length payload) (ground arith)
              ∙ get_large-given alloc (length payload) refl (ground arith) g
              ∙ sym (or_nil-some payload (ground arith))
        ]
      ]
