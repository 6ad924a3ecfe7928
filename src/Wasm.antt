-- ===== src/Wasm.antt =====
-- cli/serverless/wasm/wazero.go: the functions that the host offers to a guest, over the guest's
-- memory. The memory of wazero is a parameter.
pub mod Served
pub mod Guest
pub mod Transfer
pub mod Targets
use yomo.Common.{
  ℕ, ◌+◌, ◌%◌, String, ◌≡◌, Option, none, some, List, [], ◌∷◌, ◌++◌, ◌==◌, nat_key, string_key, ltb,
  leb, if◌then◌else◌, is_some, length,
}
use yomo.Errors.{Error}
use yomo.Frame.{Bytes, Tag}
use yomo.Client.{Choice}
use yomo.Serverless.{Context, Written, skipped, failed, handed, write, write_with_target}

-- api.Memory, as the code uses it: a read or a write succeeds exactly within the memory, what was
-- written is read, and a write does not change the size. `text` is Go's string of bytes.
pub record Wazero : Type 1 where
  pub Memory : Type 0
  pub size : Memory → ℕ
  pub read : Memory → ℕ → ℕ → Option Bytes
  pub store : Memory → ℕ → Bytes → Option Memory
  pub text_of : Bytes → String
  pub read_in : (m : Memory) (p n : ℕ) → is_some (read m p n) ≡ leb (p + n) (size m)
  pub store_in :
      (m : Memory) (p : ℕ) (b : Bytes) → is_some (store m p b) ≡ leb (p + length b) (size m)
  pub read-store :
      (m m' : Memory) (p : ℕ) (b : Bytes) → store m p b ≡ some m' → read m' p (length b) ≡ some b
  pub size-store : (m m' : Memory) (p : ℕ) (b : Bytes) → store m p b ≡ some m' → size m' ≡ size m

-- uint32(n)
abbrev pub uint32 : ℕ → ℕ
uint32 n = n % 4294967296

-- wazeroRuntime: what the guest has set, and the context of the running handler
pub record Runtime : Type 0 where
  pub observed : List Tag
  pub wanted : String
  pub serverless_ctx : Context

-- stack[0] after a write: 2 for an error, 0 for none, and `none` where the write still waits
abbrev pub status_of_error : Option Error → ℕ
status_of_error none = 0
status_of_error (some e) = 2

abbrev pub status_of : Written → Option ℕ
status_of skipped = some 0
status_of (failed e) = some 2
status_of (handed f none) = none
status_of (handed f (some r)) = some (status_of_error r)

-- What a host function leaves: the runtime, what was written, and stack[0].
pub record Hosted : Type 0 where
  pub runtime : Runtime
  pub written : Written
  pub stack : Option ℕ

abbrev pub out_of_range : Runtime → Hosted
out_of_range r = record { runtime = r; written = skipped; stack = some 1 }

abbrev pub after_write : Runtime → Context × Written → Hosted
after_write r (c, w) = record {
  runtime = record r { serverless_ctx = c };
  written = w;
  stack = status_of w;
}

-- r.observeDataTag
unfoldable pub observe_data_tag : Runtime → ℕ → Runtime
observe_data_tag r tag = record r { observed = r.observed ++ uint32 tag ∷ [] }

-- r.contextTag
unfoldable pub context_tag : Runtime → ℕ
context_tag r = r.serverless_ctx.tag

-- r.contextDataSize
unfoldable pub context_data_size : Runtime → ℕ
context_data_size r = length r.serverless_ctx.data_

unfoldable pub write_buf : Runtime → Choice → ℕ → Option Bytes → Hosted
write_buf r choice tag none = out_of_range r
write_buf r choice tag (some buf) = after_write r (write r.serverless_ctx choice tag (some buf))

module _ (W : Wazero) where
  open W use {Memory, read, store, text_of}

  -- r.wantedTarget
  unfoldable pub wanted_target : Runtime → Memory → ℕ → ℕ → Runtime
  wanted_target r m pointer n = elim (read m (uint32 pointer) (uint32 n)) [
    | none ↦ r
    | some buf ↦ record r { wanted = text_of buf }
  ]

  -- r.write
  unfoldable pub host_write : Runtime → Memory → Choice → ℕ → ℕ → ℕ → Hosted
  host_write r m choice tag pointer n =
      write_buf r choice (uint32 tag) (read m (uint32 pointer) (uint32 n))

  -- the second buffer, and the call: the data that is handed on is the target's
  unfoldable pub write_target_buf : Runtime → Choice → ℕ → Option Bytes → Option Bytes → Hosted
  write_target_buf r choice tag none tbuf = out_of_range r
  write_target_buf r choice tag (some buf) none = out_of_range r
  write_target_buf r choice tag (some buf) (some tbuf) =
      after_write r (write_with_target r.serverless_ctx choice tag (some tbuf) (text_of tbuf))

  -- r.writeWithTarget
  unfoldable pub host_write_with_target : Runtime → Memory → Choice → ℕ → ℕ → ℕ → ℕ → ℕ → Hosted
  host_write_with_target r m choice tag pointer n target_pointer target_length =
      write_target_buf r choice (uint32 tag) (read m (uint32 pointer) (uint32 n))
        (read m (uint32 target_pointer) (uint32 target_length))

  unfoldable pub stored : Memory → ℕ → Option Memory → Memory × ℕ
  stored m n none = (m, 0)
  stored m n (some m') = (m', n)

  -- r.contextData: the memory, and stack[0]
  unfoldable pub context_data : Runtime → Memory → ℕ → ℕ → Memory × ℕ
  context_data r m pointer limit =
      let payload = r.serverless_ctx.data_ in
      let n = uint32 (length payload) in
      if ltb (uint32 limit) n
      then (m, n)
      else if n == 0
      then (m, 0)
      else stored m n (store m (uint32 pointer) payload)
