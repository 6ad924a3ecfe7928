-- ===== src/Deno/Replies.antt =====
-- The replies of a script, read one after another.
use yomo.Common.{
  ℕ, zero, suc, ◌+◌, ◌≤◌, ◌<◌, ◌≡◌, refl, ◌≢◌, Bool, true, false, ◌&&◌, Option, none, some, List,
  [], ◌∷◌, ◌++◌, map, arith, ◌==◌, nat_key, string_key, if◌then◌else◌, length, length-append, All,
}
use yomo.Frame.{Bytes, Tag}
use yomo.Client.{Choice}
use yomo.Serverless.{Context, call_write, run}
use yomo.Deno.{
  put_uint32, read_uint32, read_full, Reply, no_more, broken, got, reply_of, with_length, with_tag,
  read_reply, End, ended, reported, out_of_fuel, Replied, after_reply, read_replies, handle_replies,
}
use yomo.Deno.Numbers.{
  read_uint32-put_uint32, read_full-append, length-read_uint32, length-read_full,
}

-- A reply that the protocol can carry: a tag of zero with no data ends the replies.
pub record Fits (m : Tag × Bytes) : Type 0 where
  pub tag_fits : m.0 < 4294967296
  pub length_fits : length m.1 < 4294967296
  pub no_end : (m.0 == 0 && length m.1 == 0) ≡ false

-- what a script sends, before what it sends later
unfoldable pub replies_then : List (Tag × Bytes) → Bytes → Bytes
replies_then [] s = put_uint32 0 ++ (put_uint32 0 ++ s)
replies_then ((tag, payload) ∷ ms) s =
    put_uint32 tag ++ (put_uint32 (length payload) ++ (payload ++ replies_then ms s))

read_reply-got :
    (tag : Tag) (payload s : Bytes)
    → Fits (tag, payload)
    → read_reply (put_uint32 tag ++ (put_uint32 (length payload) ++ (payload ++ s)))
      ≡ got tag payload s
unfolding read_reply with_tag with_length reply_of
read_reply-got tag payload s f =
    rw
      (
        read_uint32-put_uint32 tag (put_uint32 (length payload) ++ (payload ++ s)) f.tag_fits,
        read_uint32-put_uint32 (length payload) (payload ++ s) f.length_fits,
        f.no_end,
        read_full-append payload s,
      )
      refl

read_reply-no_more : (s : Bytes) → read_reply (put_uint32 0 ++ (put_uint32 0 ++ s)) ≡ no_more s
unfolding read_reply with_tag with_length
read_reply-no_more s =
    rw
      (
        read_uint32-put_uint32 0 (put_uint32 0 ++ s) (omega arith),
        read_uint32-put_uint32 0 s (omega arith),
      )
      refl

read_replies-replies_then :
    (ms : List (Tag × Bytes)) (s : Bytes) (k : ℕ)
    → All Fits ms
    → length ms < k
    → read_replies k (replies_then ms s) ≡ record { calls = ms; end = ended s }
unfolding read_replies replies_then after_reply
read_replies-replies_then [] s zero fits h = absurd (omega arith)
read_replies-replies_then [] s (suc k) fits h = rw (read_reply-no_more s) refl
read_replies-replies_then (m ∷ ms) s zero fits h = absurd (omega arith)
read_replies-replies_then ((tag, payload) ∷ ms) s (suc k) (f, fits) h =
    rw
      (
        read_reply-got tag payload (replies_then ms s) f,
        read_replies-replies_then ms s k fits (omega (arith, h)),
      )
      refl

length-replies_then : (ms : List (Tag × Bytes)) (s : Bytes) → length ms ≤ length (replies_then ms s)
unfolding replies_then put_uint32
length-replies_then [] s = omega arith
length-replies_then ((tag, payload) ∷ ms) s =
    omega (arith, length-replies_then ms s, length-append payload (replies_then ms s))

-- When the tags and lengths of a script's replies fit 32 bits and none of the replies is the end mark,
-- they are written in their order and as they were sent, and what the script sends after its end mark
-- stays for the next frame.
pub handle_replies-replies_then :
    (c : Context) (choice : Choice) (ms : List (Tag × Bytes)) (s : Bytes)
    → All Fits ms
    → handle_replies c choice (replies_then ms s)
      ≡ (run c (map (λ m. call_write choice m.0 (some m.1)) ms), ended s)
unfolding handle_replies
handle_replies-replies_then c choice ms s fits =
    rw
      (read_replies-replies_then ms s (suc (length (replies_then ms s))) fits
        (omega (arith, length-replies_then ms s)))
      refl

reply_of-shorter :
    (n : ℕ) (tag t : Tag) (s p s' : Bytes) (o : Option (Bytes × Bytes))
    → ((b u : Bytes) → o ≡ some (b, u) → length s ≡ n + length u)
    → reply_of tag o ≡ got t p s'
    → length s' ≤ length s
unfolding reply_of
reply_of-shorter n tag t s p s' none h e = cc
reply_of-shorter n tag t s p s' (some (b, u)) h e = ground (arith, h b u refl, e)

unless_end-shorter :
    (b : Bool) (n : ℕ) (tag t : Tag) (s p s' : Bytes)
    → (if b then no_more s else reply_of tag (read_full n s)) ≡ got t p s'
    → length s' ≤ length s
unless_end-shorter true n tag t s p s' e = cc
unless_end-shorter false n tag t s p s' e =
    reply_of-shorter n tag t s p s' (read_full n s) (length-read_full n s) e

with_length-shorter :
    (tag t : Tag) (s p s' : Bytes) (o : Option (ℕ × Bytes))
    → ((n : ℕ) (u : Bytes) → o ≡ some (n, u) → length s ≡ 4 + length u)
    → with_length tag o ≡ got t p s'
    → length s' < length s
unfolding with_length
with_length-shorter tag t s p s' none h e = cc
with_length-shorter tag t s p s' (some (n, u)) h e =
    omega (arith, h n u refl, unless_end-shorter (tag == 0 && n == 0) n tag t u p s' e)

with_tag-shorter :
    (t : Tag) (s p s' : Bytes) (o : Option (ℕ × Bytes))
    → ((n : ℕ) (u : Bytes) → o ≡ some (n, u) → length s ≡ 4 + length u)
    → with_tag o ≡ got t p s'
    → length s' < length s
unfolding with_tag
with_tag-shorter t s p s' none h e = cc
with_tag-shorter t s p s' (some (tag, u)) h e =
    omega (
      arith,
      h tag u refl,
      with_length-shorter tag t u p s' (read_uint32 u) (length-read_uint32 u) e,
    )

after_reply-ends :
    (later : Bytes → Replied) (r : Reply)
    → ((t : Tag) (p s : Bytes) → r ≡ got t p s → (later s).end ≢ out_of_fuel)
    → (after_reply later r).end ≢ out_of_fuel
unfolding after_reply
after_reply-ends later (no_more s) h e = cc
after_reply-ends later broken h e = cc
after_reply-ends later (got t p s) h e = h t p s refl e

read_replies-ends : (k : ℕ) (s : Bytes) → length s < k → (read_replies k s).end ≢ out_of_fuel
unfolding read_replies read_reply
read_replies-ends zero s h = absurd (omega arith)
read_replies-ends (suc k) s h = after_reply-ends (read_replies k) (read_reply s) (λ t p s' e.
    read_replies-ends k s'
      (omega (arith, h, with_tag-shorter t s p s' (read_uint32 s) (length-read_uint32 s) e)))

-- Not out of fuel.
pub data Ends : End → Type 0 where
  by_end : (s : Bytes) → Ends (ended s)
  by_error : Ends reported

not_out-Ends : (e : End) → e ≢ out_of_fuel → Ends e
not_out-Ends (ended s) h = by_end s
not_out-Ends reported h = by_error
not_out-Ends out_of_fuel h = absurd (h refl)

-- Whatever a script sends, the handler comes to an end when the connection is closed, by the end of
-- the replies or by an error that is reported.
pub handle_replies-Ends :
    (c : Context) (choice : Choice) (s : Bytes) → Ends (handle_replies c choice s).1
unfolding handle_replies
handle_replies-Ends c choice s =
    not_out-Ends (read_replies (suc (length s)) s).end
      (read_replies-ends (suc (length s)) s (omega arith))
