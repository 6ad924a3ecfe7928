-- ===== src/Serverless.antt =====
-- core/serverless/context.go, and what sfn.go does with a data frame that arrives.
pub mod Entries
pub mod Handed
use yomo.Common.{
  String, Option, none, some, List, [], ◌∷◌, ◌==◌, nat_key, string_key, if◌then◌else◌,
}
use yomo.Errors.{Error, Result, ok, err}
use yomo.Frame.{Bytes, Tag, DataFrame, is_reserved_tag}
use yomo.GoMap.{GoMap}
use yomo.Metadata.{Msgpack, encode, decode, set_target}
use yomo.Trace.{Span, propagate_trace}
use yomo.Client.{Client, Choice, write_frame}

-- Context; the writer is the stream function's client, and msgpack what `Encode` uses.
pub record Context : Type 0 where
  pub writer : Client
  pub msgpack : Msgpack
  pub tag : Tag
  pub md : GoMap String String
  pub data_ : Bytes

-- NewContext(writer, tag, md, data)
unfoldable pub new_context : Client → Msgpack → Tag → GoMap String String → Bytes → Context
new_context writer msgpack tag md payload = record {
  writer = writer;
  msgpack = msgpack;
  tag = tag;
  md = md;
  data_ = payload;
}

-- What a write of the context comes to: nothing for nil data, an error, or a frame that is handed
-- to the writer and what that returns for it.
pub data Written : Type 0 where
  skipped : Written
  failed : Error → Written
  handed : DataFrame → Option (Option Error) → Written

-- mdBytes, err := c.md.Encode(), and the rest
unfoldable pub send : Context → Choice → Tag → Bytes → Result Bytes → Written
send c choice tag payload (err e) = failed e
send c choice tag payload (ok md_bytes) =
    handed (record { metadata = md_bytes; tag = tag; payload = payload })
      (write_frame c.writer choice)

-- if err := frame.IsReservedTag(tag); err != nil { return err }
unfoldable pub unless_reserved : Context → Option Error → Context × Written → Context × Written
unless_reserved c (some e) rest = (c, failed e)
unless_reserved c none rest = rest

-- Write(tag, data); `none` is a nil slice
unfoldable pub write : Context → Choice → Tag → Option Bytes → Context × Written
write c choice tag none = (c, skipped)
write c choice tag (some payload) =
    unless_reserved c (is_reserved_tag tag) (c, send c choice tag payload (encode c.msgpack c.md))

-- if target != "" { c.md.Set(metadata.TargetKey, target) }
unfoldable pub set_context_target : Context → String → Context
set_context_target c target = if target == "" then c else record c { md = set_target c.md target }

-- WriteWithTarget(tag, data, target)
unfoldable pub write_with_target :
    Context → Choice → Tag → Option Bytes → String → Context × Written
write_with_target c choice tag none target = (c, skipped)
write_with_target c choice tag (some payload) target =
    let t = set_context_target c target in
    unless_reserved c (is_reserved_tag tag) (t, send t choice tag payload (encode t.msgpack t.md))

-- A call of a handler on its context.
pub data Call : Type 0 where
  call_write : Choice → Tag → Option Bytes → Call
  call_write_with_target : Choice → Tag → Option Bytes → String → Call

unfoldable pub apply : Context → Call → Context × Written
apply c (call_write choice tag payload) = write c choice tag payload
apply c (call_write_with_target choice tag payload target) =
    write_with_target c choice tag payload target

-- The calls of a handler, in turn.
unfoldable pub run : Context → List Call → List Written
run c [] = []
run c (k ∷ calls) = (apply c k).1 ∷ run (apply c k).0 calls

-- The handler that has been set: what an async handler calls, given its context.
pub data Handler : Type 0 where
  async_handler : (Context → List Call) → Handler
  pipe_handler : Handler
  no_handler : Handler

pub record StreamFunction : Type 0 where
  pub client : Client
  pub msgpack : Msgpack
  pub start_span : GoMap String String → Span
  pub handler : Handler

-- What onDataFrame comes to: the calls of the async handler, an error that is logged, the data given
-- to the pipe, or a warning.
pub data Invoked : Type 0 where
  invoked : List Written → Invoked
  undecodable : Error → Invoked
  piped : Bytes → Invoked
  warned : Invoked

-- the goroutine of an async handler, with the decoded metadata
unfoldable pub invoke :
    StreamFunction → (Context → List Call) → DataFrame → Result (GoMap String String) → Invoked
invoke s fn f (err e) = undecodable e
invoke s fn f (ok md) =
    let c = new_context s.client s.msgpack f.tag (propagate_trace md (s.start_span md)) f.payload in
    invoked (run c (fn c))

-- the tests of onDataFrame for the handler that is set
unfoldable pub by_handler : StreamFunction → Handler → DataFrame → Invoked
by_handler s (async_handler fn) f = invoke s fn f (decode s.msgpack f.metadata)
by_handler s pipe_handler f = piped f.payload
by_handler s no_handler f = warned

-- s.onDataFrame(dataFrame)
unfoldable pub on_data_frame : StreamFunction → DataFrame → Invoked
on_data_frame s f = by_handler s s.handler f
