-- ===== src/Sfn/Pipe.antt =====
-- sfn.go: the goroutine that sends what a pipe function puts out.
use yomo.Common.{
  String, ◌≡◌, refl, ap, ◌∙◌, Option, none, some, List, [], ◌∷◌, ◌++◌, map, arith, nat_key,
  string_key,
}
use yomo.Errors.{Error, Result, ok, err}
use yomo.Frame.{Bytes, Tag, DataFrame}
use yomo.GoMap.{GoMap}
use yomo.Metadata.{Msgpack, encode, decode}
use yomo.Trace.{Span, propagate_trace}

module _ (mp : Msgpack) (start_span : GoMap String String → Span) where
  -- rawMd, err := md.Encode(), and the frame; `none` is a break
  unfoldable pub encoded_frame : DataFrame → Result Bytes → Option DataFrame
  encoded_frame f (err e) = none
  encoded_frame f (ok raw) = some (record { metadata = raw; tag = f.tag; payload = f.payload })

  -- md, err := metadata.Decode(data.Metadata), and the span
  unfoldable pub traced_frame : DataFrame → Result (GoMap String String) → Option DataFrame
  traced_frame f (err e) = none
  traced_frame f (ok md) = encoded_frame f (encode mp (propagate_trace md (start_span md)))

  -- what is made of an output
  unfoldable pub piped_frame : DataFrame → Option DataFrame
  piped_frame f = traced_frame f (decode mp f.metadata)

  unfoldable pub write_or_break : Option DataFrame → List DataFrame → List DataFrame
  write_or_break none later = []
  write_or_break (some f) later = f ∷ later

  -- the loop over s.pOut, a nil frame being left out: the frames that are given to WriteFrame
  unfoldable pub pipe_loop : List (Option DataFrame) → List DataFrame
  pipe_loop [] = []
  pipe_loop (none ∷ outputs) = pipe_loop outputs
  pipe_loop (some f ∷ outputs) = write_or_break (piped_frame f) (pipe_loop outputs)

-- Tag and payload.
abbrev pub Content : Type 0
Content = Tag × Bytes

abbrev pub content : DataFrame → Content
content f = (f.tag, f.payload)

abbrev pub contents : List (Option DataFrame) → List Content
contents [] = []
contents (none ∷ outputs) = contents outputs
contents (some f ∷ outputs) = content f ∷ contents outputs

content-encoded_frame :
    (mp : Msgpack) (start_span : GoMap String String → Span) (f g : DataFrame) (r : Result Bytes)
    → encoded_frame mp start_span f r ≡ some g
    → content g ≡ content f
unfolding encoded_frame
content-encoded_frame mp start_span f g (err e) h = cc
content-encoded_frame mp start_span f g (ok raw) h = ground (arith, h)

content-traced_frame :
    (mp : Msgpack) (start_span : GoMap String String → Span) (f g : DataFrame)
    (r : Result (GoMap String String))
    → traced_frame mp start_span f r ≡ some g
    → content g ≡ content f
unfolding traced_frame
content-traced_frame mp start_span f g (err e) h = cc
content-traced_frame mp start_span f g (ok md) h =
    content-encoded_frame mp start_span f g (encode mp (propagate_trace md (start_span md))) h

write_or_break-contents :
    (mp : Msgpack) (start_span : GoMap String String → Span) (f : DataFrame) (o : Option DataFrame)
    (outputs : List (Option DataFrame))
    → piped_frame mp start_span f ≡ o
    → ((later : List Content) × (map content (pipe_loop mp start_span outputs) ++ later
          ≡ contents outputs))
    → (later : List Content) × (map content
            (write_or_break mp start_span o (pipe_loop mp start_span outputs))
          ++ later
        ≡ content f ∷ contents outputs)
unfolding write_or_break piped_frame
write_or_break-contents mp start_span f none outputs h rest = (_, refl)
write_or_break-contents mp start_span f (some g) outputs h (later, e) =
    let same = content-traced_frame mp start_span f g (decode mp f.metadata) h in
    (
      later,
      ap (λ x. x ∷ (map content (pipe_loop mp start_span outputs) ++ later)) same
          ∙ ap (λ l. content f ∷ l) e,
    )

-- What the pipe function puts out is sent in its order, with its tags and payloads and without a gap:
-- the contents of the frames that are sent are the first ones of those put out.
pub pipe_loop-contents :
    (mp : Msgpack) (start_span : GoMap String String → Span) (outputs : List (Option DataFrame))
    → (later : List Content) × (map content (pipe_loop mp start_span outputs) ++ later
        ≡ contents outputs)
unfolding pipe_loop
pipe_loop-contents mp start_span [] = ([], refl)
pipe_loop-contents mp start_span (none ∷ outputs) = pipe_loop-contents mp start_span outputs
pipe_loop-contents mp start_span (some f ∷ outputs) =
    write_or_break-contents mp start_span f (piped_frame mp start_span f) outputs refl
      (pipe_loop-contents mp start_span outputs)

-- The first output whose metadata cannot be decoded ends the sending for good: whatever is put out
-- after it is not sent.
pub pipe_loop_ends :
    (mp : Msgpack) (start_span : GoMap String String → Span)
    (before after : List (Option DataFrame)) (bad : DataFrame) (e : Error)
    → decode mp bad.metadata ≡ err e
    → pipe_loop mp start_span (before ++ some bad ∷ after) ≡ pipe_loop mp start_span before
unfolding pipe_loop piped_frame traced_frame write_or_break
pipe_loop_ends mp start_span [] after bad e h = rw h refl
pipe_loop_ends mp start_span (none ∷ before) after bad e h =
    pipe_loop_ends mp start_span before after bad e h
pipe_loop_ends mp start_span (some f ∷ before) after bad e h =
    ap (write_or_break mp start_span (piped_frame mp start_span f))
      (pipe_loop_ends mp start_span before after bad e h)
