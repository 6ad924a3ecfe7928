-- ===== src/Serverless/Entries.antt =====
-- What the frames that a handler writes carry of the frame that it was invoked for.
use mathlib.Core.Path.{subst}
use yomo.Common.{
  String, ◌≡◌, refl, ◌≢◌, false, Option, none, some, List, [], ◌∷◌, arith, ◌==◌, nat_key,
  string_key, same_iff, All,
}
use yomo.Errors.{Error, Result, ok, err}
use yomo.Frame.{Bytes, Tag, DataFrame, is_reserved_tag}
use yomo.GoMap.{GoMap, get}
use yomo.Metadata.{Msgpack, encode, decode, set_target, target_key, trace_id_key, span_id_key}
use yomo.Metadata.Laws.{get-set_entry, decode-encode}
use yomo.Trace.{propagate_trace}
use yomo.Source.Arrives.{get-propagate_trace}
use yomo.Client.{Choice}
use yomo.Serverless.{
  by_handler, Context, Written, skipped, failed, handed, send, unless_reserved, write,
  set_context_target, write_with_target, Call, call_write, call_write_with_target, apply, run,
  StreamFunction, invoke, invoked, on_data_frame, async_handler, new_context, undecodable, piped,
  warned, Invoked,
}

-- A frame, if one was handed over, decodes to metadata with that value under the key.
abbrev pub Carries : Msgpack → String → Option String → Written → Type 0
Carries mp k v skipped = Unit
Carries mp k v (failed e) = Unit
Carries mp k v (handed f r) =
    (md : GoMap String String) × (decode mp f.metadata ≡ ok md) × (get md k ≡ v)

send-Carries :
    (c : Context) (choice : Choice) (tag : Tag) (payload : Bytes) (k : String) (b : Result Bytes)
    → encode c.msgpack c.md ≡ b
    → Carries c.msgpack k (get c.md k) (send c choice tag payload b)
unfolding send
send-Carries c choice tag payload k (err e) h = tt
send-Carries c choice tag payload k (ok b) h =
    let (n, d, same) = decode-encode c.msgpack c.md b h in (n, d, same k)

-- What a call leaves of the context and what it hands over.
record Keeps (c : Context) (k : String) (v : Option String) (r : Context × Written) : Type 0 where
  msgpack_kept : r.0.msgpack ≡ c.msgpack
  entry : get r.0.md k ≡ v
  carried : Carries c.msgpack k v r.1

unless_reserved-Keeps :
    (c : Context) (k : String) (v : Option String) (o : Option Error) (r : Context × Written)
    → get c.md k ≡ v
    → Keeps c k v r
    → Keeps c k v (unless_reserved c o r)
unfolding unless_reserved
unless_reserved-Keeps c k v none r h p = p
unless_reserved-Keeps c k v (some e) r h p = record { msgpack_kept = refl; entry = h; carried = tt }

get-set_context_target :
    (c : Context) (target k : String)
    → (target_key == k) ≡ false
    → get (set_context_target c target).md k ≡ get c.md k
unfolding set_context_target set_target
get-set_context_target c target k h = ground (arith, h, get-set_entry c.md target_key k target)

get-target :
    (c : Context) (target : String)
    → target ≢ ""
    → get (set_context_target c target).md target_key ≡ some target
unfolding set_context_target set_target
get-target c target n =
    ground (arith, n, same_iff target "", get-set_entry c.md target_key target_key target)

set_context_target-msgpack :
    (c : Context) (target : String) → (set_context_target c target).msgpack ≡ c.msgpack
unfolding set_context_target
set_context_target-msgpack c target = ground arith

Carries-along :
    {mp mq : Msgpack} {v w : Option String} (k : String) (x : Written)
    → mq ≡ mp
    → w ≡ v
    → Carries mq k w x
    → Carries mp k v x
Carries-along {mp} {mq} {v} {w} k x e h p =
    subst (λ u. Carries mp k u x) h (subst (λ m. Carries m k w x) e p)

All-along :
    {mp mq : Msgpack} {v w : Option String} (k : String) (xs : List Written)
    → mq ≡ mp
    → w ≡ v
    → All (Carries mq k w) xs
    → All (Carries mp k v) xs
All-along {mp} {mq} {v} {w} k xs e h p =
    subst (λ u. All (Carries mp k u) xs) h (subst (λ m. All (Carries m k w) xs) e p)

write-Keeps :
    (c : Context) (choice : Choice) (tag : Tag) (payload : Option Bytes) (k : String)
    → Keeps c k (get c.md k) (write c choice tag payload)
unfolding write
write-Keeps c choice tag none k = record { msgpack_kept = refl; entry = refl; carried = tt }
write-Keeps c choice tag (some payload) k =
    unless_reserved-Keeps c k (get c.md k) (is_reserved_tag tag) _ refl (record {
      msgpack_kept = refl;
      entry = refl;
      carried = send-Carries c choice tag payload k _ refl;
    })

apply-Keeps :
    (c : Context) (call : Call) (k : String)
    → (target_key == k) ≡ false
    → Keeps c k (get c.md k) (apply c call)
unfolding apply write_with_target
apply-Keeps c (call_write choice tag payload) k h = write-Keeps c choice tag payload k
apply-Keeps c (call_write_with_target choice tag none target) k h = record {
  msgpack_kept = refl;
  entry = refl;
  carried = tt;
}
apply-Keeps c (call_write_with_target choice tag (some payload) target) k h =
    let t = set_context_target c target in
    let kept = get-set_context_target c target k h in
    unless_reserved-Keeps c k (get c.md k) (is_reserved_tag tag) _ refl (record {
      msgpack_kept = set_context_target-msgpack c target;
      entry = kept;
      carried =
          Carries-along k _ (set_context_target-msgpack c target) kept
            (send-Carries t choice tag payload k _ refl);
    })

run-Carries :
    (c : Context) (calls : List Call) (k : String)
    → (target_key == k) ≡ false
    → All (Carries c.msgpack k (get c.md k)) (run c calls)
unfolding run
run-Carries c [] k h = tt
run-Carries c (call ∷ calls) k h =
    let p = apply-Keeps c call k h in
    (p.carried, All-along k _ p.msgpack_kept p.entry (run-Carries (apply c call).0 calls k h))

-- The frames that an invocation hands over all carry that value.
abbrev pub AllCarry : Msgpack → String → Option String → Invoked → Type 0
AllCarry mp k v (invoked ws) = All (Carries mp k v) ws
AllCarry mp k v (undecodable e) = Unit
AllCarry mp k v (piped b) = Unit
AllCarry mp k v warned = Unit

-- Whatever an async handler calls, every frame that it hands over carries the entries of the frame
-- it was invoked for, but for the target and the two entries of the trace: so the source's and the
-- transaction's identifiers are those of the frame that came in.
pub on_data_frame-AllCarry :
    (s : StreamFunction) (fn : Context → List Call) (f : DataFrame) (md : GoMap String String)
    (k : String)
    → s.handler ≡ async_handler fn
    → decode s.msgpack f.metadata ≡ ok md
    → (target_key == k) ≡ false
    → (trace_id_key == k) ≡ false
    → (span_id_key == k) ≡ false
    → AllCarry s.msgpack k (get md k) (on_data_frame s f)
unfolding on_data_frame by_handler invoke new_context
on_data_frame-AllCarry s fn f md k a d h t p =
    rw (a, d)
      (All-along k _ refl (get-propagate_trace md (s.start_span md) k t p) (
        run-Carries
          (new_context s.client s.msgpack f.tag (propagate_trace md (s.start_span md)) f.payload) _
          k h))

-- A target that one write sets stays for the later ones: a write without a target, on the same
-- context and with an allowed tag, hands over a frame with the target of the earlier write.
pub write-write_with_target_keeps :
    (c : Context) (choice later : Choice) (tag tag' : Tag) (payload payload' : Bytes)
    (target : String) (f : DataFrame) (r : Option (Option Error))
    → target ≢ ""
    → is_reserved_tag tag ≡ none
    → (write (write_with_target c choice tag (some payload) target).0 later tag' (some payload')).1
      ≡ handed f r
    → (md : GoMap String String) × (decode c.msgpack f.metadata ≡ ok md)
      × (get md target_key ≡ some target)
unfolding write_with_target unless_reserved
write-write_with_target_keeps c choice later tag tag' payload payload' target f r n a h =
    let t = set_context_target c target in
    let h' : (write t later tag' (some payload')).1 ≡ handed f r = rw (a) at h in
    Carries-along target_key (handed f r) (set_context_target-msgpack c target)
      (get-target c target n)
      (subst (λ w. Carries t.msgpack target_key (get t.md target_key) w) h'
        (write-Keeps t later tag' (some payload') target_key).carried)
