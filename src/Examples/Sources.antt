-- ===== src/Examples/Sources.antt =====
-- A run of a source.
use text.Mathlib.TextEquality.{eq_iff}
use yomo.Common.{
  String, ◌≡◌, refl, ap, inl, inr, Bool, true, ◌&&◌, none, some, [], ◌∷◌, arith, ◌==◌, nat_key,
  string_key, if◌then◌else◌, Bool-cases,
}
use yomo.Errors.{plain, Result, ok, err}
use yomo.Frame.{Bytes, is_reserved_tag, DataFrame}
use yomo.GoMap.{GoMap, get, put, delete}
use yomo.Metadata.{
  Msgpack, tid_key, source_id_key, target_key, encode, new_metadata, set_target, set_entry,
}
use yomo.Trace.{propagate_trace}
use yomo.Client.{taken, write_frame, block_write_frame}
use yomo.Source.{YomoSource, handed, write_with_target, with_target, started, send, unless_reserved}
use yomo.Source.Arrives.{write_with_target-Arrives, Arrives}
use yomo.Examples.Clients.{plain_client}

abbrev pub sent : GoMap String String
sent = (target_key, "x") ∷ (source_id_key, "id") ∷ (tid_key, "t") ∷ []

-- A msgpack that knows one map of three entries.
abbrev is_sent : String → String → String → String → String → String → Bool
is_sent j u k v l w =
    (j == target_key && u == "x")
    && ((k == source_id_key && v == "id") && (l == tid_key && w == "t"))

abbrev pub pack : GoMap String String → Result Bytes
pack ((j, u) ∷ (k, v) ∷ (l, w) ∷ []) =
    if is_sent j u k v l w then ok (131 ∷ []) else err (plain "unsupported")
pack _ = err (plain "unsupported")

is_sent_iff :
    (j u k v l w : String)
    → is_sent j u k v l w ≡ true
    → ◌≡◌ {A = GoMap String String} sent ((j, u) ∷ (k, v) ∷ (l, w) ∷ [])
is_sent_iff j u k v l w h = ground (
  arith,
  h,
  eq_iff j target_key,
  eq_iff u "x",
  eq_iff k source_id_key,
  eq_iff v "id",
  eq_iff l tid_key,
  eq_iff w "t",
)

pub pack-sent : (m : GoMap String String) (b : Bytes) → pack m ≡ ok b → sent ≡ m
pack-sent [] b h = cc
pack-sent (x ∷ []) b h = cc
pack-sent (x ∷ y ∷ []) b h = cc
pack-sent ((j, u) ∷ (k, v) ∷ (l, w) ∷ []) b h = elim (Bool-cases (is_sent j u k v l w)) [
  | inl e ↦ is_sent_iff j u k v l w e
  | inr e ↦ absurd (ground (arith, h, e))
]
pack-sent (x ∷ y ∷ z ∷ a ∷ m) b h = cc

pub pack_not_empty : (m : GoMap String String) → ¬ (pack m ≡ ok [])
pack_not_empty [] h = cc
pack_not_empty (x ∷ []) h = cc
pack_not_empty (x ∷ y ∷ []) h = cc
pack_not_empty ((j, u) ∷ (k, v) ∷ (l, w) ∷ []) h = ground arith
pack_not_empty (x ∷ y ∷ z ∷ a ∷ m) h = cc

abbrev pub sent_msgpack : Msgpack
sent_msgpack = record {
  marshal = pack;
  unmarshal = λ b. ok sent;
  unmarshal-marshal = λ m b h. (sent, refl, λ k. ap (λ n. get n k) (pack-sent m b h));
  marshal_not_empty = λ m h. pack_not_empty m h;
}

abbrev plain_source : YomoSource
plain_source = record {
  client = plain_client;
  msgpack = sent_msgpack;
  start_span = λ md. record { trace_id = none; span_id = none };
}

abbrev sent_frame : DataFrame
sent_frame = record { metadata = 131 ∷ []; tag = 7; payload = 104 ∷ [] }

sent_write :
    write_with_target plain_source taken "t" 7 (104 ∷ []) "x" ≡ handed sent_frame (some none)
unfolding write_with_target with_target started send unless_reserved is_reserved_tag encode
    set_target set_entry new_metadata put delete propagate_trace write_frame block_write_frame
sent_write = refl

write_with_target-Arrives_example :
    Arrives plain_source "t" (some "x") 7 (104 ∷ []) sent_frame
    × (write_frame plain_client taken ≡ some none)
write_with_target-Arrives_example =
    write_with_target-Arrives plain_source taken "t" 7 (104 ∷ []) "x" sent_frame (some none)
      sent_write
