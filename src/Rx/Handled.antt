-- ===== src/Rx/Handled.antt =====
-- A stream that is piped back by RawByteHandler.
use yomo.Common.{◌≡◌, refl, ap, some, List, [], ◌∷◌, map, nat_key, string_key}
use yomo.Frame.{Bytes, Tag}
use yomo.Client.{Choice}
use yomo.Serverless.{Context, write, call_write, apply, run}
use yomo.Rx.{
  Value, raw, framed, error_value, nil_value, other_value, to_item, from_channel, back,
  pipe_back_to_zipper, frame_in, write_found, raw_byte_handler,
}

-- the byte slices among the values
unfoldable pub slices : List Value → List Bytes
slices [] = []
slices (raw b ∷ vs) = b ∷ slices vs
slices (framed f ∷ vs) = slices vs
slices (error_value e ∷ vs) = slices vs
slices (nil_value ∷ vs) = slices vs
slices (other_value ∷ vs) = slices vs

-- A stream whose handler only pipes back writes as the handler of a stream function does that calls
-- Write for each byte slice in order, and leaves out every other value.
pub raw_byte_handler-run :
    (c : Context) (choice : Choice) (tag : Tag) (vs : List Value)
    → raw_byte_handler c choice (pipe_back_to_zipper tag (from_channel vs))
      ≡ run c (map (λ b. call_write choice tag (some b)) (slices vs))
unfolding raw_byte_handler pipe_back_to_zipper from_channel to_item back frame_in write_found slices
    run apply
raw_byte_handler-run c choice tag [] = refl
raw_byte_handler-run c choice tag (raw b ∷ vs) =
    ap (λ l. (write c choice tag (some b)).1 ∷ l)
      (raw_byte_handler-run (write c choice tag (some b)).0 choice tag vs)
raw_byte_handler-run c choice tag (framed f ∷ vs) = raw_byte_handler-run c choice tag vs
raw_byte_handler-run c choice tag (error_value e ∷ vs) = raw_byte_handler-run c choice tag vs
raw_byte_handler-run c choice tag (nil_value ∷ vs) = raw_byte_handler-run c choice tag vs
raw_byte_handler-run c choice tag (other_value ∷ vs) = raw_byte_handler-run c choice tag vs
