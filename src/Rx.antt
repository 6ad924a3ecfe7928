-- ===== src/Rx.antt =====
-- rx/stream_operator.go, rx/factory.go and rx/runtime.go, where they do not only call rxgo: the
-- operators over what Observe gives, while the context is not done.
pub mod Sliding
pub mod Handled
pub mod Timed
pub mod Runs
pub mod Windows
use yomo.Common.{Option, none, some, List, [], ◌∷◌, ◌++◌, nat_key, string_key}
use yomo.Errors.{Error}
use yomo.Frame.{Bytes, Tag, DataFrame}
use yomo.Client.{Choice}
use yomo.Serverless.{Context, Written, write}

-- rxgo.Item: a value or an error
pub data Item {ℓ} (A : Type ℓ) : Type ℓ where
  value : A → Item A
  failed_item : Error → Item A

-- The values that the code tells apart.
pub data Value : Type 0 where
  raw : Bytes → Value
  framed : DataFrame → Value
  error_value : Error → Value
  nil_value : Value
  other_value : Value

-- the switch in FromChannel of the factory
unfoldable pub to_item : Value → Item Value
to_item (error_value e) = failed_item e
to_item (raw b) = value (raw b)
to_item (framed f) = value (framed f)
to_item nil_value = value nil_value
to_item other_value = value other_value

-- FromChannel(ctx, channel)
unfoldable pub from_channel : List Value → List (Item Value)
from_channel [] = []
from_channel (v ∷ vs) = to_item v ∷ from_channel vs

-- the frame that PipeBackToZipper makes of a value
unfoldable pub back : Tag → Value → List (Item Value)
back tag (raw b) = value (framed (record { metadata = []; tag = tag; payload = b })) ∷ []
back tag (framed f) = []
back tag (error_value e) = []
back tag nil_value = []
back tag other_value = []

-- PipeBackToZipper(dataTag)
unfoldable pub pipe_back_to_zipper : Tag → List (Item Value) → List (Item Value)
pipe_back_to_zipper tag [] = []
pipe_back_to_zipper tag (failed_item e ∷ items) = pipe_back_to_zipper tag items
pipe_back_to_zipper tag (value v ∷ items) = back tag v ++ pipe_back_to_zipper tag items

-- StdOut(): what is printed, and what goes on
unfoldable pub printed : List (Item Value) → List Value
printed [] = []
printed (failed_item e ∷ items) = printed items
printed (value v ∷ items) = v ∷ printed items

-- A turn of the select of DefaultIfEmptyWithTime: an item, or the end of its time.
pub data Turn : Type 0 where
  item : Item Value → Turn
  timeout : Turn

-- DefaultIfEmptyWithTime(milliseconds, defaultValue)
unfoldable pub default_if_empty_with_time : Value → List Turn → List (Item Value)
default_if_empty_with_time v [] = []
default_if_empty_with_time v (item i ∷ turns) = i ∷ default_if_empty_with_time v turns
default_if_empty_with_time v (timeout ∷ turns) = value v ∷ default_if_empty_with_time v turns

-- the tests of RawByteHandler and PipeHandler on an item: the frame that is sent on
unfoldable pub frame_in : Item Value → Option DataFrame
frame_in (failed_item e) = none
frame_in (value (framed f)) = some f
frame_in (value (raw b)) = none
frame_in (value (error_value e)) = none
frame_in (value nil_value) = none
frame_in (value other_value) = none

unfoldable pub write_found : Context → Choice → Option DataFrame → Context × List Written
write_found c choice none = (c, [])
write_found c choice (some f) = let (c', w) = write c choice f.tag (some f.payload) in (c', w ∷ [])

-- RawByteHandler(ctx), for what r.stream gives: its writes
unfoldable pub raw_byte_handler : Context → Choice → List (Item Value) → List Written
raw_byte_handler c choice [] = []
raw_byte_handler c choice (i ∷ items) =
    let r = write_found c choice (frame_in i) in r.1 ++ raw_byte_handler r.0 choice items

-- the items of PipeHandler(in, out): what is put out
unfoldable pub pipe_out : List (Item Value) → List DataFrame
pipe_out [] = []
pipe_out (i ∷ items) = elim (frame_in i) [ none ↦ pipe_out items | some f ↦ f ∷ pipe_out items ]
