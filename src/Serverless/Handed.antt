-- ===== src/Serverless/Handed.antt =====
-- The frame that a write of a context hands over.
use yomo.Common.{String, ◌≡◌, Option, none, some, arith, nat_key, string_key}
use yomo.Errors.{Error, Result, ok, err}
use yomo.Frame.{Bytes, Tag, DataFrame, is_reserved_tag}
use yomo.Client.{Choice}
use yomo.Metadata.{encode}
use yomo.Serverless.{
  Context, Written, failed, handed, skipped, write, send, unless_reserved, write_with_target,
  set_context_target,
}

-- The frame that was handed to the writer, if there is one.
abbrev pub frame_of : Written → Option DataFrame
frame_of skipped = none
frame_of (failed e) = none
frame_of (handed f r) = some f

pub sent-frame_of :
    (c : Context) (choice : Choice) (tag : Tag) (payload : Bytes) (f : DataFrame) (o : Option Error)
    (r : Result Bytes)
    → frame_of (unless_reserved c o (c, send c choice tag payload r)).1 ≡ some f
    → (f.tag ≡ tag) × (f.payload ≡ payload)
unfolding unless_reserved send
sent-frame_of c choice tag payload f (some e) r h = (cc, cc)
sent-frame_of c choice tag payload f none (err e) h = (cc, cc)
sent-frame_of c choice tag payload f none (ok b) h = (ground (arith, h), ground (arith, h))

pub write-frame_of :
    (c : Context) (choice : Choice) (tag : Tag) (payload : Bytes) (f : DataFrame)
    → frame_of (write c choice tag (some payload)).1 ≡ some f
    → (f.tag ≡ tag) × (f.payload ≡ payload)
unfolding write
write-frame_of c choice tag payload f h =
    sent-frame_of c choice tag payload f (is_reserved_tag tag) (encode c.msgpack c.md) h

unless-frame_of :
    (c d : Context) (choice : Choice) (tag : Tag) (payload : Bytes) (f : DataFrame)
    (o : Option Error) (r : Result Bytes)
    → frame_of (unless_reserved c o (d, send d choice tag payload r)).1 ≡ some f
    → (f.tag ≡ tag) × (f.payload ≡ payload)
unfolding unless_reserved send
unless-frame_of c d choice tag payload f (some e) r h = (cc, cc)
unless-frame_of c d choice tag payload f none (err e) h = (cc, cc)
unless-frame_of c d choice tag payload f none (ok b) h = (ground (arith, h), ground (arith, h))

pub write_with_target-frame_of :
    (c : Context) (choice : Choice) (tag : Tag) (payload : Bytes) (target : String) (f : DataFrame)
    → frame_of (write_with_target c choice tag (some payload) target).1 ≡ some f
    → (f.tag ≡ tag) × (f.payload ≡ payload)
unfolding write_with_target
write_with_target-frame_of c choice tag payload target f h =
    unless-frame_of c (set_context_target c target) choice tag payload f (is_reserved_tag tag) _ h
