-- ===== src/Wasm/Guest.antt =====
-- serverless/guest/context.go and serverless/guest/memory.go: the side of the guest. Its calls of the
-- host go to the functions of Wasm.antt; where the guest's values lie in its memory is given.
use yomo.Common.{
  ℕ, String, Option, none, some, [], ◌∷◌, ◌==◌, nat_key, string_key, leb, if◌then◌else◌, length,
}
use yomo.Errors.{Error, plain}
use yomo.Frame.{Bytes}
use yomo.Try.{Try, returns, panics}
use yomo.Client.{Choice}
use yomo.Wasm.{Wazero, Runtime, Hosted, host_write, host_write_with_target, context_data}

abbrev pub read_buf_size : ℕ
read_buf_size = 2048

-- What a write of the guest returns, by the status of the host; `none` where it still waits.
abbrev pub by_status : String → Option ℕ → Option (Option Error)
by_status message none = none
by_status message (some n) = some (if n == 0 then none else some (plain message))

-- A write of the guest: what the host did, if it was called, and what it returns.
pub record GuestWrite : Type 0 where
  pub hosted : Option Hosted
  pub outcome : Try (Option (Option Error))

abbrev pub nothing_written : GuestWrite
nothing_written = record { hosted = none; outcome = returns (some none) }

module _ (W : Wazero) where
  open W use {Memory, size, read}

  -- c.Write(tag, data), where the data lies at `pointer`; &data[0] panics where it is empty
  unfoldable pub guest_write : Runtime → Memory → Choice → ℕ → Option Bytes → ℕ → GuestWrite
  guest_write r m choice tag none pointer = nothing_written
  guest_write r m choice tag (some []) pointer = record { hosted = none; outcome = panics }
  guest_write r m choice tag (some (b ∷ bs)) pointer =
      let h = host_write W r m choice tag pointer (length (b ∷ bs)) in
      record { hosted = some h; outcome = returns (by_status "yomoWrite error" h.stack) }

  unfoldable pub guest_target : Runtime → Memory → Choice → ℕ → Bytes → ℕ → Bytes → ℕ → GuestWrite
  guest_target r m choice tag payload pointer [] target_pointer =
      guest_write r m choice tag (some payload) pointer
  guest_target r m choice tag [] pointer (t ∷ ts) target_pointer = record {
    hosted = none;
    outcome = panics;
  }
  guest_target r m choice tag (b ∷ bs) pointer (t ∷ ts) target_pointer =
      let h =
        host_write_with_target W r m choice tag pointer (length (b ∷ bs)) target_pointer
          (length (t ∷ ts)) in
      record { hosted = some h; outcome = returns (by_status "yomoWriteWithTarget error" h.stack) }

  -- c.WriteWithTarget(tag, data, target), the target by its bytes, which lie at `target_pointer`
  unfoldable pub guest_write_with_target :
      Runtime → Memory → Choice → ℕ → Option Bytes → ℕ → Bytes → ℕ → GuestWrite
  guest_write_with_target r m choice tag none pointer target target_pointer = nothing_written
  guest_write_with_target r m choice tag (some payload) pointer target target_pointer =
      guest_target r m choice tag payload pointer target target_pointer

  -- buf := make([]byte, size), the second call, and the buffer; `alloc` is where the buffer lies
  unfoldable pub get_large : Runtime → (ℕ → ℕ) → Memory → ℕ → Option Bytes
  get_large r alloc m n = read (context_data W r m (alloc n) n).0 (alloc n) n

  -- the two tests on the size
  unfoldable pub get_by_size : Runtime → ℕ → (ℕ → ℕ) → Memory × ℕ → Option Bytes
  get_by_size r read_buf alloc (m, n) =
      if n == 0
      then none
      else if leb n read_buf_size
      then read m read_buf n
      else get_large r alloc m n

  -- c.Data(): GetBytes of the host's contextData, with ReadBuf at `read_buf`; `none` is a nil slice
  unfoldable pub guest_data : Runtime → Memory → ℕ → (ℕ → ℕ) → Option Bytes
  guest_data r m read_buf alloc =
      get_by_size r read_buf alloc (context_data W r m read_buf read_buf_size)
