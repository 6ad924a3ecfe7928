-- ===== src/Source/Arrives.antt =====
-- What a receiver reads of a frame that a source has written.
use yomo.Common.{
  String, ◌≡◌, refl, sym, ap, ◌∙◌, inl, inr, false, Option, none, some, arith, ◌==◌, nat_key,
  string_key, if◌then◌else◌, Bool-cases,
}
use yomo.Errors.{Error, Result, ok, err}
use yomo.Frame.{Bytes, Tag, DataFrame, is_reserved_tag}
use yomo.GoMap.{GoMap, get}
use yomo.Metadata.{
  encode, decode, new_metadata, set_target, source_id_key, tid_key, target_key, trace_id_key,
  span_id_key,
}
use yomo.Metadata.Laws.{get-set_entry, decode-encode}
use yomo.Trace.{Span, propagate_trace, set_valid}
use yomo.Client.{Choice, write_frame}
use yomo.Source.{
  YomoSource, Written, handed, send, started, write, write_with_target, with_target,
  unless_reserved,
}

get-set_valid :
    (md : GoMap String String) (key : String) (id : Option String) (k : String)
    → (key == k) ≡ false
    → get (set_valid md key id) k ≡ get md k
get-set_valid md key none k h = refl
get-set_valid md key (some id) k h = ground (arith, get-set_entry md key k id, h)

-- A span changes no entry but its own two.
pub get-propagate_trace :
    (md : GoMap String String) (span : Span) (k : String)
    → (trace_id_key == k) ≡ false
    → (span_id_key == k) ≡ false
    → get (propagate_trace md span) k ≡ get md k
unfolding propagate_trace
get-propagate_trace md span k h h' =
    get-set_valid (set_valid md trace_id_key span.trace_id) span_id_key span.span_id k h'
    ∙ get-set_valid md trace_id_key span.trace_id k h

-- The entries of a frame's metadata that yomo reads.
abbrev pub Reads : YomoSource → String → Option String → GoMap String String → Type 0
Reads s tid target md =
    (get md source_id_key ≡ some s.client.client_id)
    × (get md tid_key ≡ some tid)
    × (get md target_key ≡ target)

started-Reads : (s : YomoSource) (tid : String) → Reads s tid none (started s tid)
unfolding started new_metadata get
started-Reads s tid =
    let md = new_metadata s.client.client_id tid in
    (
      get-propagate_trace md (s.start_span md) source_id_key refl refl,
      get-propagate_trace md (s.start_span md) tid_key refl refl,
      get-propagate_trace md (s.start_span md) target_key refl refl,
    )

targeted-Reads :
    (s : YomoSource) (tid target : String)
    → Reads s tid (some target) (set_target (started s tid) target)
unfolding set_target
targeted-Reads s tid target =
    let (source, t, none_yet) = started-Reads s tid in
    (
      get-set_entry (started s tid) target_key source_id_key target ∙ source,
      get-set_entry (started s tid) target_key tid_key target ∙ t,
      get-set_entry (started s tid) target_key target_key target,
    )

-- What was handed to the client: a frame with an allowed tag, the payload, and these entries.
abbrev pub Arrives : YomoSource → String → Option String → Tag → Bytes → DataFrame → Type 0
Arrives s tid target tag payload f =
    (is_reserved_tag tag ≡ none)
    × (f.tag ≡ tag)
    × (f.payload ≡ payload)
    × ((md : GoMap String String) × (decode s.msgpack f.metadata ≡ ok md) × Reads s tid target md)

handed-same :
    (f g : DataFrame) (q r : Option (Option Error)) → handed f q ≡ handed g r → (f ≡ g) × (q ≡ r)
handed-same f g q r h = (cc, cc)

chosen :
    (s : YomoSource) (tid target : String)
    → Reads s tid (if target == "" then none else some target) (with_target (started s tid) target)
unfolding with_target
chosen s tid target = elim (Bool-cases (target == "")) [
  | inl e ↦ rw (e) (started-Reads s tid)
  | inr e ↦ rw (e) (targeted-Reads s tid target)
]

allowed :
    (o : Option Error) (w : Written) (f : DataFrame) (r : Option (Option Error))
    → unless_reserved o w ≡ handed f r
    → (o ≡ none) × (w ≡ handed f r)
unfolding unless_reserved
allowed none w f r h = (refl, h)
allowed (some e) w f r h = cc

send-Arrives :
    (s : YomoSource) (choice : Choice) (tid : String) (tag : Tag) (payload : Bytes)
    (target : Option String) (m : GoMap String String) (f : DataFrame) (r : Option (Option Error))
    (b : Result Bytes)
    → is_reserved_tag tag ≡ none
    → Reads s tid target m
    → encode s.msgpack m ≡ b
    → send s choice tag payload b ≡ handed f r
    → Arrives s tid target tag payload f × (write_frame s.client choice ≡ r)
unfolding send
send-Arrives s choice tid tag payload target m f r (err e) a reads en h = cc
send-Arrives s choice tid tag payload target m f r (ok b) a (x, y, z) en h =
    let (n, d, same) = decode-encode s.msgpack m b en in
    let (p, q) = handed-same _ _ _ _ h in
    (
      (
        a,
        ap (λ g. g.tag) (sym p),
        ap (λ g. g.payload) (sym p),
        (
          n,
          ap (λ g. decode s.msgpack g.metadata) (sym p) ∙ d,
          (same source_id_key ∙ x, same tid_key ∙ y, same target_key ∙ z),
        ),
      ),
      q,
    )

-- A source hands a frame to its client only for a tag that is not reserved; a receiver that decodes
-- its metadata reads the source's id, the transaction's id, and the target if it is not empty.
pub write_with_target-Arrives :
    (s : YomoSource) (choice : Choice) (tid : String) (tag : Tag) (payload : Bytes)
    (target : String) (f : DataFrame) (r : Option (Option Error))
    → write_with_target s choice tid tag payload target ≡ handed f r
    → Arrives s tid (if target == "" then none else some target) tag payload f
      × (write_frame s.client choice ≡ r)
unfolding write_with_target
write_with_target-Arrives s choice tid tag payload target f r h =
    let (e, w) = allowed _ _ _ _ h in
    send-Arrives s choice tid tag payload _ _ f r _ e (chosen s tid target) refl w

-- Write is WriteWithTarget without a target.
pub write-write_with_target :
    (s : YomoSource) (choice : Choice) (tid : String) (tag : Tag) (payload : Bytes)
    → write s choice tid tag payload ≡ write_with_target s choice tid tag payload ""
unfolding write write_with_target with_target
write-write_with_target s choice tid tag payload = refl
