-- ===== src/Sfn/Cron.antt =====
-- core/serverless/cron_context.go, and the function that sfn.go gives to the cron.
use yomo.Common.{
  String, ◌≡◌, refl, ◌∙◌, Option, none, some, List, [], ◌∷◌, arith, ◌==◌, nat_key, string_key,
  if◌then◌else◌,
}
use yomo.Errors.{Error, Result, ok, err}
use yomo.Frame.{Bytes, Tag, DataFrame, is_reserved_tag}
use yomo.GoMap.{GoMap}
use yomo.Metadata.{Msgpack, encode, new_metadata, set_target}
use yomo.Trace.{Span, propagate_trace}
use yomo.Client.{Client, Choice, write_frame}
use yomo.Serverless.{Written, skipped, failed, handed}

pub record CronContext : Type 0 where
  pub writer : Client
  pub msgpack : Msgpack
  pub md : GoMap String String
  pub md_bytes : Bytes

-- mdBytes, _ := md.Encode()
abbrev pub bytes_or_nil : Result Bytes → Bytes
bytes_or_nil (ok b) = b
bytes_or_nil (err e) = []

-- NewCronContext(writer, md)
unfoldable pub new_cron_context : Client → Msgpack → GoMap String String → CronContext
new_cron_context writer msgpack md = record {
  writer = writer;
  msgpack = msgpack;
  md = md;
  md_bytes = bytes_or_nil (encode msgpack md);
}

abbrev pub frame_with : Tag → Bytes → Bytes → DataFrame
frame_with tag md_bytes payload = record { metadata = md_bytes; tag = tag; payload = payload }

unfoldable pub cron_send : CronContext → Choice → Tag → Bytes → Option Error → Written
cron_send c choice tag payload (some e) = failed e
cron_send c choice tag payload none =
    handed (frame_with tag c.md_bytes payload) (write_frame c.writer choice)

-- Write(tag, data)
unfoldable pub cron_write : CronContext → Choice → Tag → Option Bytes → Written
cron_write c choice tag none = skipped
cron_write c choice tag (some payload) = cron_send c choice tag payload (is_reserved_tag tag)

unfoldable pub cron_send_target : CronContext → Choice → Tag → Bytes → Result Bytes → Written
cron_send_target c choice tag payload (err e) = failed e
cron_send_target c choice tag payload (ok b) =
    handed (frame_with tag b payload) (write_frame c.writer choice)

unfoldable pub cron_target :
    CronContext → Choice → Tag → Bytes → String → Option Error → CronContext × Written
cron_target c choice tag payload target (some e) = (c, failed e)
cron_target c choice tag payload target none =
    let c' = record c { md = set_target c.md target } in
    if target == ""
    then (c, cron_write c choice tag (some payload))
    else (c', cron_send_target c' choice tag payload (encode c'.msgpack c'.md))

-- WriteWithTarget(tag, data, target)
unfoldable pub cron_write_with_target :
    CronContext → Choice → Tag → Option Bytes → String → CronContext × Written
cron_write_with_target c choice tag none target = (c, skipped)
cron_write_with_target c choice tag (some payload) target =
    cron_target c choice tag payload target (is_reserved_tag tag)

-- A call of a cron handler on its context.
pub data CronCall : Type 0 where
  cron_call : Choice → Tag → Option Bytes → CronCall
  cron_call_target : Choice → Tag → Option Bytes → String → CronCall

unfoldable pub cron_apply : CronContext → CronCall → CronContext × Written
cron_apply c (cron_call choice tag payload) = (c, cron_write c choice tag payload)
cron_apply c (cron_call_target choice tag payload target) =
    cron_write_with_target c choice tag payload target

-- the context after calls
unfoldable pub cron_after : CronContext → List CronCall → CronContext
cron_after c [] = c
cron_after c (k ∷ calls) = cron_after (cron_apply c k).0 calls

-- what the calls hand over
unfoldable pub cron_run : CronContext → List CronCall → List Written
cron_run c [] = []
cron_run c (k ∷ calls) = (cron_apply c k).1 ∷ cron_run (cron_apply c k).0 calls

-- the function of cron.AddFunc; `tid` is what id.New makes
unfoldable pub cron_tick :
    Client
    → Msgpack
    → (GoMap String String → Span)
    → String
    → (CronContext → List CronCall)
    → List Written
cron_tick client msgpack start_span tid cron_fn =
    let md = new_metadata client.client_id tid in
    let c = new_cron_context client msgpack (propagate_trace md (start_span md)) in
    cron_run c (cron_fn c)

-- What stays of a context.
record Kept (c d : CronContext) : Type 0 where
  bytes_kept : d.md_bytes ≡ c.md_bytes
  writer_kept : d.writer ≡ c.writer

cron_target-Kept :
    (c : CronContext) (choice : Choice) (tag : Tag) (payload : Bytes) (target : String)
    (o : Option Error)
    → Kept c (cron_target c choice tag payload target o).0
unfolding cron_target
cron_target-Kept c choice tag payload target (some e) = record {
  bytes_kept = refl;
  writer_kept = refl;
}
cron_target-Kept c choice tag payload target none = record {
  bytes_kept = ground arith;
  writer_kept = ground arith;
}

cron_apply-Kept : (c : CronContext) (k : CronCall) → Kept c (cron_apply c k).0
unfolding cron_apply cron_write_with_target
cron_apply-Kept c (cron_call choice tag payload) = record { bytes_kept = refl; writer_kept = refl }
cron_apply-Kept c (cron_call_target choice tag none target) = record {
  bytes_kept = refl;
  writer_kept = refl;
}
cron_apply-Kept c (cron_call_target choice tag (some payload) target) =
    cron_target-Kept c choice tag payload target (is_reserved_tag tag)

cron_after-Kept : (c : CronContext) (calls : List CronCall) → Kept c (cron_after c calls)
unfolding cron_after
cron_after-Kept c [] = record { bytes_kept = refl; writer_kept = refl }
cron_after-Kept c (k ∷ calls) =
    let first = cron_apply-Kept c k in
    let later = cron_after-Kept (cron_apply c k).0 calls in
    record {
      bytes_kept = later.bytes_kept ∙ first.bytes_kept;
      writer_kept = later.writer_kept ∙ first.writer_kept;
    }

-- In a cron handler no write with a target reaches into a later Write: after any calls on the
-- context, a Write does what it would have done at first.
pub cron_write-cron_after :
    (c : CronContext) (calls : List CronCall) (choice : Choice) (tag : Tag) (payload : Option Bytes)
    → cron_write (cron_after c calls) choice tag payload ≡ cron_write c choice tag payload
unfolding cron_write cron_send
cron_write-cron_after c calls choice tag none = refl
cron_write-cron_after c calls choice tag (some payload) =
    let k = cron_after-Kept c calls in rw (k.bytes_kept, k.writer_kept) refl
