-- ===== src/Deno.antt =====
-- cli/serverless/deno/runtime.go: the exchange with a script over a socket. What the other side sends
-- is given as the bytes that come until the connection is closed.
pub mod Numbers
pub mod Start
pub mod Replies
pub mod Observed
use yomo.Common.{
  ℕ, zero, suc, ◌+◌, ◌*◌, ◌/◌, ◌%◌, ◌&&◌, Option, none, some, List, [], ◌∷◌, ◌++◌, map, ◌==◌,
  nat_key, string_key, if◌then◌else◌, length,
}
use yomo.Errors.{plain}
use yomo.Try.{Try, returns, fails, panics}
use yomo.Frame.{Bytes, Tag}
use yomo.Client.{Choice}
use yomo.Serverless.{Context, Written, call_write, run}

-- binary.LittleEndian, of a uint32
unfoldable pub put_uint32 : ℕ → Bytes
put_uint32 n = n % 256 ∷ n / 256 % 256 ∷ n / 65536 % 256 ∷ n / 16777216 % 256 ∷ []

abbrev pub uint32_of : ℕ → ℕ → ℕ → ℕ → ℕ
uint32_of a b c d = a + 256 * b + 65536 * c + 16777216 * d

-- binary.Read of a uint32; `none` is io.EOF or io.ErrUnexpectedEOF
unfoldable pub read_uint32 : Bytes → Option (ℕ × Bytes)
read_uint32 (a ∷ b ∷ c ∷ d ∷ s) = some (uint32_of a b c d, s)
read_uint32 [] = none
read_uint32 (a ∷ []) = none
read_uint32 (a ∷ b ∷ []) = none
read_uint32 (a ∷ b ∷ c ∷ []) = none

unfoldable pub consed : ℕ → Option (Bytes × Bytes) → Option (Bytes × Bytes)
consed x none = none
consed x (some (b, s)) = some (x ∷ b, s)

-- io.ReadFull into a slice of that length
unfoldable pub read_full : ℕ → Bytes → Option (Bytes × Bytes)
read_full zero s = some ([], s)
read_full (suc n) [] = none
read_full (suc n) (x ∷ s) = consed x (read_full n s)

-- what the handler sends: the tag, the length and the data
unfoldable pub request : Tag → Bytes → Bytes
request tag payload = put_uint32 tag ++ put_uint32 (length payload % 4294967296) ++ payload

-- A turn of the loop that reads the replies.
pub data Reply : Type 0 where
  no_more : Bytes → Reply
  broken : Reply
  got : Tag → Bytes → Bytes → Reply

unfoldable pub reply_of : Tag → Option (Bytes × Bytes) → Reply
reply_of tag none = broken
reply_of tag (some (payload, s)) = got tag payload s

unfoldable pub with_length : Tag → Option (ℕ × Bytes) → Reply
with_length tag none = broken
with_length tag (some (n, s)) =
    if tag == 0 && n == 0 then no_more s else reply_of tag (read_full n s)

unfoldable pub with_tag : Option (ℕ × Bytes) → Reply
with_tag none = broken
with_tag (some (tag, s)) = with_length tag (read_uint32 s)

unfoldable pub read_reply : Bytes → Reply
read_reply s = with_tag (read_uint32 s)

-- How the loop ends: with the reply of zeros, with an error that goes to errCh, or out of fuel.
pub data End : Type 0 where
  ended : Bytes → End
  reported : End
  out_of_fuel : End

pub record Replied : Type 0 where
  pub calls : List (Tag × Bytes)
  pub end : End

unfoldable pub after_reply : (Bytes → Replied) → Reply → Replied
after_reply later (no_more s) = record { calls = []; end = ended s }
after_reply later broken = record { calls = []; end = reported }
after_reply later (got tag payload s) = record {
  calls = (tag, payload) ∷ (later s).calls;
  end = (later s).end;
}

-- for { ... } of the handler
unfoldable pub read_replies : ℕ → Bytes → Replied
read_replies zero s = record { calls = []; end = out_of_fuel }
read_replies (suc k) s = after_reply (read_replies k) (read_reply s)

-- the handler, once its request is written: what it writes, and how the loop ends
unfoldable pub handle_replies : Context → Choice → Bytes → List Written × End
handle_replies c choice s =
    let r = read_replies (suc (length s)) s in
    (run c (map (λ m. call_write choice m.0 (some m.1)) r.calls), r.end)

unfoldable pub tag_then : ℕ → Option (List Tag) → Option (List Tag)
tag_then t none = none
tag_then t (some ts) = some (t ∷ ts)

unfoldable pub tag_at : Option (ℕ × Bytes) → (Bytes → Option (List Tag)) → Option (List Tag)
tag_at none later = none
tag_at (some (t, s)) later = tag_then t (later s)

-- for i := 0; i < int(length); i++, over the bytes from i*4 on; `none` is out of range
unfoldable pub tags_in : ℕ → Bytes → Option (List Tag)
tags_in zero s = some []
tags_in (suc n) s = tag_at (read_uint32 s) (tags_in n)

unfoldable pub observed_in : Option (List Tag) → Bytes → Try (List Tag × Bytes)
observed_in none s = panics
observed_in (some tags) s = returns (tags, s)

unfoldable pub with_bytes : ℕ → Option (Bytes × Bytes) → Try (List Tag × Bytes)
with_bytes n none = fails (plain "EOF")
with_bytes n (some (observed_bytes, s)) = observed_in (tags_in n observed_bytes) s

unfoldable pub with_count : Option (ℕ × Bytes) → Try (List Tag × Bytes)
with_count none = fails (plain "EOF")
with_count (some (n, s)) = with_bytes n (read_full (n * 4 % 4294967296) s)

-- accept(listener), once there is a connection: the tags, and what comes after them
unfoldable pub accept : Bytes → Try (List Tag × Bytes)
accept s = with_count (read_uint32 s)
