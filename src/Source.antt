-- ===== src/Source.antt =====
-- source.go: a source, its connection, and the frames that it writes.
pub mod Arrives
use yomo.Common.{String, Bool, List, Option, none, some, ◌==◌, nat_key, string_key, if◌then◌else◌}
use yomo.Errors.{Error, Result, ok, err}
use yomo.Frame.{Bytes, Tag, DataFrame, is_reserved_tag}
use yomo.GoMap.{GoMap}
use yomo.Metadata.{Msgpack, encode, new_metadata, set_target}
use yomo.Trace.{Span, propagate_trace}
use yomo.Client.{Client, Choice, Effect, write_frame, set_error_handler, close}
use yomo.Client.Connect.{Attempt}
use yomo.Client.Background.{Trying, Progress, connect_loop}

-- What a source uses: its client, msgpack, and the tracer's `Start`.
pub record YomoSource : Type 0 where
  pub client : Client
  pub msgpack : Msgpack
  pub start_span : GoMap String String → Span

-- What a write returns: an error, or the frame that it hands to the client and what `WriteFrame`
-- returns for it; `none` there is a write that still waits.
pub data Written : Type 0 where
  failed : Error → Written
  handed : DataFrame → Option (Option Error) → Written

-- mdBytes, err := md.Encode(), and the rest
unfoldable pub send : YomoSource → Choice → Tag → Bytes → Result Bytes → Written
send s choice tag payload (err e) = failed e
send s choice tag payload (ok md_bytes) =
    handed (record { metadata = md_bytes; tag = tag; payload = payload })
      (write_frame s.client choice)

-- the metadata of a new frame once its span has started; `tid` is what `id.New` makes
unfoldable pub started : YomoSource → String → GoMap String String
started s tid = let md = new_metadata s.client.client_id tid in propagate_trace md (s.start_span md)

-- if err := frame.IsReservedTag(tag); err != nil { return err }
unfoldable pub unless_reserved : Option Error → Written → Written
unless_reserved (some e) written = failed e
unless_reserved none written = written

-- Write(tag, data)
unfoldable pub write : YomoSource → Choice → String → Tag → Bytes → Written
write s choice tid tag payload =
    unless_reserved (is_reserved_tag tag)
      (send s choice tag payload (encode s.msgpack (started s tid)))

-- if target != "" { core.SetMetadataTarget(md, target) }
unfoldable pub with_target : GoMap String String → String → GoMap String String
with_target md target = if target == "" then md else set_target md target

-- WriteWithTarget(tag, data, target)
unfoldable pub write_with_target : YomoSource → Choice → String → Tag → Bytes → String → Written
write_with_target s choice tid tag payload target =
    unless_reserved (is_reserved_tag tag)
      (send s choice tag payload (encode s.msgpack (with_target (started s tid) target)))

-- NewSource(name, zipperAddr, opts...), of the client that core.NewClient makes
unfoldable pub new_source : Client → Msgpack → (GoMap String String → Span) → YomoSource
new_source c msgpack start_span = record { client = c; msgpack = msgpack; start_span = start_span }

-- What Connect comes to: the source, what its client did, and how far it has come.
pub record SourceConnected : Type 0 where
  pub source : YomoSource
  pub effects : List Effect
  pub progress : Progress

unfoldable pub with_client : YomoSource → Trying → SourceConnected
with_client s t = record {
  source = record s { client = t.client };
  effects = t.effects;
  progress = t.progress;
}

-- Connect(), for the attempts that are given
unfoldable pub connect_source : YomoSource → List Attempt → SourceConnected
connect_source s attempts = with_client s (connect_loop s.client attempts)

-- Close(), to the point where the client's Close waits: whether that wait is over
unfoldable pub close_source : YomoSource → YomoSource × Bool
close_source s = let (c, over) = close s.client in (record s { client = c }, over)

-- SetErrorHandler(fn)
unfoldable pub set_source_error_handler : YomoSource → YomoSource
set_source_error_handler s = record s { client = set_error_handler s.client }
