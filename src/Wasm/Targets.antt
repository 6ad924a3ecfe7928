-- ===== src/Wasm/Targets.antt =====
-- What the frames carry that a guest has written through the host.
use yomo.Common.{
  ℕ, ◌<◌, ◌≡◌, ap, ◌∙◌, Option, none, some, [], ◌∷◌, arith, nat_key, string_key, length,
}
use yomo.Frame.{Bytes, DataFrame}
use yomo.Client.{Choice}
use yomo.Serverless.Handed.{frame_of, write-frame_of, write_with_target-frame_of}
use yomo.Wasm.{
  Wazero, Runtime, Hosted, uint32, write_buf, host_write, write_target_buf, host_write_with_target,
}
use yomo.Wasm.Transfer.{uint32-small}
use yomo.Wasm.Guest.{guest_write, guest_target, guest_write_with_target}

-- the frame that a write of a guest led to
abbrev pub guest_frame : Option Hosted → Option DataFrame
guest_frame none = none
guest_frame (some h) = frame_of h.written

write_buf-frame_of :
    (r : Runtime) (choice : Choice) (tag : ℕ) (o : Option Bytes) (buf : Bytes) (f : DataFrame)
    → o ≡ some buf
    → frame_of (write_buf r choice tag o).written ≡ some f
    → (f.tag ≡ tag) × (f.payload ≡ buf)
unfolding write_buf
write_buf-frame_of r choice tag none buf f e h = (cc, cc)
write_buf-frame_of r choice tag (some b) buf f e h =
    let (t, p) = write-frame_of r.serverless_ctx choice tag b f h in (t, ground (arith, p, e))

module _ (W : Wazero) (r : Runtime) (m : W.Memory) (choice : Choice) (tag : ℕ) where
  read-uint32 :
      (p n : ℕ) → p < 4294967296 → n < 4294967296 → W.read m (uint32 p) (uint32 n) ≡ W.read m p n
  read-uint32 p n h k =
      ap (λ x. W.read m x (uint32 n)) (uint32-small p h) ∙ ap (W.read m p) (uint32-small n k)

  -- A frame that a guest writes has the tag and the data of the guest, where the data lies at the
  -- pointer that the guest gives, the tag and the data's length are 32-bit numbers, and so is the pointer.
  pub guest_write-frame_of :
      (payload : Bytes) (pointer : ℕ) (f : DataFrame)
      → tag < 4294967296
      → pointer < 4294967296
      → length payload < 4294967296
      → W.read m pointer (length payload) ≡ some payload
      → guest_frame (guest_write W r m choice tag (some payload) pointer).hosted ≡ some f
      → (f.tag ≡ tag) × (f.payload ≡ payload)
  unfolding guest_write host_write
  guest_write-frame_of [] pointer f t p l e h = (cc, cc)
  guest_write-frame_of (b ∷ bs) pointer f t p l e h =
      let (u, q) =
        write_buf-frame_of r choice (uint32 tag) _ (b ∷ bs) f
          (read-uint32 pointer (length (b ∷ bs)) p l ∙ e) h in
      (u ∙ uint32-small tag t, q)

  write_target_buf-frame_of :
      (tag' : ℕ) (o p : Option Bytes) (buf target : Bytes) (f : DataFrame)
      → o ≡ some buf
      → p ≡ some target
      → frame_of (write_target_buf W r choice tag' o p).written ≡ some f
      → (f.tag ≡ tag') × (f.payload ≡ target)
  unfolding write_target_buf
  write_target_buf-frame_of tag' none p buf target f e e' h = (cc, cc)
  write_target_buf-frame_of tag' (some o) none buf target f e e' h = (cc, cc)
  write_target_buf-frame_of tag' (some o) (some p) buf target f e e' h =
      let (t, q) = write_with_target-frame_of r.serverless_ctx choice tag' p (W.text_of p) f h in
      (t, ground (arith, q, e'))

  -- A frame that a guest writes with a target, where both lie at the pointers that the guest gives and
  -- all numbers are 32-bit ones, carries the bytes of the target in place of the data.
  pub guest_write_with_target-frame_of :
      (payload target : Bytes) (pointer target_pointer : ℕ) (f : DataFrame)
      → tag < 4294967296
      → pointer < 4294967296
      → target_pointer < 4294967296
      → length payload < 4294967296
      → length target < 4294967296
      → 0 < length target
      → W.read m pointer (length payload) ≡ some payload
      → W.read m target_pointer (length target) ≡ some target
      → guest_frame
          (guest_write_with_target W r m choice tag
            (some payload)
            pointer
            target
            target_pointer).hosted
        ≡ some f
      → (f.tag ≡ tag) × (f.payload ≡ target)
  unfolding guest_write_with_target guest_target host_write_with_target
  guest_write_with_target-frame_of payload [] pointer target_pointer f t p q l k z e e' h =
      absurd (omega arith)
  guest_write_with_target-frame_of [] (x ∷ xs) pointer target_pointer f t p q l k z e e' h =
      (cc, cc)
  guest_write_with_target-frame_of (b ∷ bs) (x ∷ xs) pointer target_pointer f t p q l k z e e' h =
      let (u, v) =
        write_target_buf-frame_of (uint32 tag) _ _ (b ∷ bs) (x ∷ xs) f
          (read-uint32 pointer (length (b ∷ bs)) p l ∙ e)
          (read-uint32 target_pointer (length (x ∷ xs)) q k ∙ e') h in
      (u ∙ uint32-small tag t, v)
