-- ===== src/Examples/Memory.antt =====
-- A guest's memory that holds one region, and a cron.
use yomo.Common.{
  ℕ, zero, suc, ◌+◌, ◌≡◌, refl, inl, inr, ◌&&◌, Option, none, some, [], ◌∷◌, arith, ◌==◌, nat_key,
  string_key, leb, if◌then◌else◌, Bool-cases, is_some, length,
}
use yomo.Frame.{Bytes, DataFrame, is_reserved_tag}
use yomo.GoMap.{put, delete}
use yomo.Metadata.{encode, set_target, set_entry}
use yomo.Client.{taken, write_frame, block_write_frame}
use yomo.Serverless.{send, unless_reserved, write_with_target, set_context_target}
use yomo.Sfn.Cron.{CronContext, cron_call_target, cron_write, cron_after, cron_write-cron_after}
use yomo.Wasm.{Wazero, Runtime, host_write_with_target, write_target_buf}
use yomo.Wasm.Guest.{guest_data, guest_target, guest_write_with_target}
use yomo.Wasm.Transfer.{or_nil, guest_data-or_nil}
use yomo.Wasm.Targets.{guest_frame, guest_write_with_target-frame_of}
use yomo.Examples.Serverless.{plain_context}
use yomo.Examples.Sources.{sent, sent_msgpack}
use yomo.Examples.Clients.{plain_client}

-- A memory of 8192 bytes with the region that was written last; what lies elsewhere reads as zeros.
record Region : Type 0 where
  start : ℕ
  bytes : Bytes

abbrev zeros : ℕ → Bytes
zeros zero = []
zeros (suc n) = 0 ∷ zeros n

abbrev read_region : Region → ℕ → ℕ → Option Bytes
read_region m p n =
    if leb (p + n) 8192
    then some (if p == m.start && n == length m.bytes then m.bytes else zeros n)
    else none

abbrev store_region : Region → ℕ → Bytes → Option Region
store_region m p b =
    if leb (p + length b) 8192 then some (record { start = p; bytes = b }) else none

read_region_in : (m : Region) (p n : ℕ) → is_some (read_region m p n) ≡ leb (p + n) 8192
read_region_in m p n = ground arith

store_region_in :
    (m : Region) (p : ℕ) (b : Bytes) → is_some (store_region m p b) ≡ leb (p + length b) 8192
store_region_in m p b = ground arith

read-store_region :
    (m m' : Region) (p : ℕ) (b : Bytes)
    → store_region m p b ≡ some m'
    → read_region m' p (length b) ≡ some b
read-store_region m m' p b h = elim (Bool-cases (leb (p + length b) 8192)) [
  | inl f ↦ ground (arith, f, h)
  | inr f ↦ absurd (ground (arith, f, h))
]

abbrev regions : Wazero
regions = record {
  Memory = Region;
  size = λ m. 8192;
  read = read_region;
  store = store_region;
  text_of = λ b. "x";
  read_in = read_region_in;
  store_in = store_region_in;
  read-store = read-store_region;
  size-store = λ m m' p b h. refl;
}

abbrev guest_runtime : Runtime
guest_runtime = record {
  observed = [];
  wanted = "";
  serverless_ctx = record plain_context { md = sent; data_ = 104 ∷ 105 ∷ [] };
}

abbrev empty_region : Region
empty_region = record { start = 0; bytes = [] }

guest_data-or_nil_example :
    guest_data regions guest_runtime empty_region 16 (λ n. 4096) ≡ or_nil (104 ∷ 105 ∷ [])
guest_data-or_nil_example =
    guest_data-or_nil regions guest_runtime empty_region (omega arith) (omega arith) 16 (λ n. 4096)
      (omega arith) (omega arith)

abbrev one_byte : Region
one_byte = record { start = 4; bytes = 104 ∷ [] }

abbrev target_sent : DataFrame
target_sent = record { metadata = 131 ∷ []; tag = 7; payload = 104 ∷ [] }

target_wrote :
    guest_frame
      (guest_write_with_target regions guest_runtime one_byte taken 7
        (some (0 ∷ []))
        100
        (104 ∷ [])
        4).hosted
    ≡ some target_sent
unfolding guest_write_with_target guest_target host_write_with_target write_target_buf
    write_with_target set_context_target set_target set_entry put delete unless_reserved send
    is_reserved_tag encode write_frame block_write_frame
target_wrote = refl

-- The guest's data is a zero, and the frame has the bytes of the target.
guest_write_with_target-frame_of_example : (target_sent.tag ≡ 7) × (target_sent.payload ≡ 104 ∷ [])
guest_write_with_target-frame_of_example =
    guest_write_with_target-frame_of regions guest_runtime one_byte taken 7 (0 ∷ []) (104 ∷ []) 100
      4 target_sent (omega arith) (omega arith) (omega arith) (omega arith) (omega arith)
      (omega arith) refl refl target_wrote

abbrev plain_cron : CronContext
plain_cron = record {
  writer = plain_client;
  msgpack = sent_msgpack;
  md = sent;
  md_bytes = 131 ∷ [];
}

cron_write-cron_after_example :
    cron_write
      (cron_after plain_cron (cron_call_target taken 7 (some []) "y" ∷ []))
      taken
      7
      (some [])
    ≡ cron_write plain_cron taken 7 (some [])
cron_write-cron_after_example =
    cron_write-cron_after plain_cron (cron_call_target taken 7 (some []) "y" ∷ []) taken 7 (some [])
