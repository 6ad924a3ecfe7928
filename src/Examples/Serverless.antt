-- ===== src/Examples/Serverless.antt =====
-- Runs of a stream function's handler.
use yomo.Common.{
  same_iff, string_key, arith, String, ◌≡◌, refl, none, some, List, [], ◌∷◌, arith, nat_key,
  string_key,
}
use yomo.Errors.{ok}
use yomo.Frame.{is_reserved_tag, DataFrame}
use yomo.GoMap.{GoMap, get, put, delete}
use yomo.Metadata.{tid_key, source_id_key, target_key, encode, decode, set_target, set_entry}
use yomo.Client.{taken, write_frame, block_write_frame}
use yomo.Serverless.{
  Context, StreamFunction, async_handler, Call, call_write, call_write_with_target, handed, write,
  write_with_target, set_context_target, unless_reserved, send, on_data_frame,
}
use yomo.Serverless.Entries.{AllCarry, on_data_frame-AllCarry, write-write_with_target_keeps}
use yomo.Examples.Clients.{plain_client}
use yomo.Examples.Sources.{sent, sent_msgpack}

abbrev echo : Context → List Call
echo c =
    call_write taken 7 (some c.data_)
    ∷ call_write taken 0xF001 (some [])
    ∷ call_write_with_target taken 8 (some []) "x"
    ∷ []

abbrev plain_function : StreamFunction
plain_function = record {
  client = plain_client;
  msgpack = sent_msgpack;
  start_span = λ md. record { trace_id = none; span_id = none };
  handler = async_handler echo;
}

abbrev arrived_frame : DataFrame
arrived_frame = record { metadata = 131 ∷ []; tag = 1; payload = 104 ∷ [] }

sent_decoded : decode sent_msgpack arrived_frame.metadata ≡ ok sent
unfolding decode
sent_decoded = refl

on_data_frame-AllCarry_example :
    AllCarry sent_msgpack tid_key (get sent tid_key) (on_data_frame plain_function arrived_frame)
on_data_frame-AllCarry_example =
    on_data_frame-AllCarry plain_function echo arrived_frame sent tid_key refl sent_decoded refl
      refl refl

abbrev pub plain_context : Context
plain_context = record {
  writer = plain_client;
  msgpack = sent_msgpack;
  tag = 1;
  md = (source_id_key, "id") ∷ (tid_key, "t") ∷ [];
  data_ = [];
}

abbrev late_frame : DataFrame
late_frame = record { metadata = 131 ∷ []; tag = 9; payload = 104 ∷ [] }

tag_seven : is_reserved_tag 7 ≡ none
unfolding is_reserved_tag
tag_seven = refl

late_write :
    (write (write_with_target plain_context taken 7 (some []) "x").0 taken 9 (some (104 ∷ []))).1
    ≡ handed late_frame (some none)
unfolding write write_with_target set_context_target unless_reserved send is_reserved_tag encode
    set_target set_entry put delete write_frame block_write_frame
late_write = refl

write-write_with_target_keeps_example :
    (md : GoMap String String) × (decode sent_msgpack late_frame.metadata ≡ ok md)
    × (get md target_key ≡ some "x")
write-write_with_target_keeps_example =
    write-write_with_target_keeps plain_context taken taken 7 9 [] (104 ∷ []) "x" late_frame
      (some none) (ground (arith, same_iff {K = String} "x" "")) tag_seven late_write
