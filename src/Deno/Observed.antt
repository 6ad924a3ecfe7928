-- ===== src/Deno/Observed.antt =====
-- The tags that a script names when it connects.
use yomo.Common.{
  ℕ, zero, suc, ◌*◌, ◌%◌, ◌≤◌, ◌<◌, ◌≡◌, refl, sym, Option, none, some, List, [], ◌∷◌, ◌++◌, arith,
  nat_key, string_key, length, All,
}
use yomo.Try.{returns, panics}
use yomo.Frame.{Bytes, Tag}
use yomo.Deno.{
  put_uint32, read_uint32, tag_then, tag_at, tags_in, observed_in, with_bytes, with_count, accept,
}
use yomo.Deno.Numbers.{read_uint32-put_uint32, read_full-append, length-read_uint32}

unfoldable pub tag_bytes : List Tag → Bytes
tag_bytes [] = []
tag_bytes (t ∷ ts) = put_uint32 t ++ tag_bytes ts

abbrev pub InRange : Tag → Type 0
InRange t = t < 4294967296

tags_in-tag_bytes : (ts : List Tag) → All InRange ts → tags_in (length ts) (tag_bytes ts) ≡ some ts
unfolding tags_in tag_bytes tag_at tag_then
tags_in-tag_bytes [] h = refl
tags_in-tag_bytes (t ∷ ts) (h, hs) =
    rw (read_uint32-put_uint32 t (tag_bytes ts) h, tags_in-tag_bytes ts hs) refl

length-tag_bytes : (ts : List Tag) → length (tag_bytes ts) ≡ length ts * 4
unfolding tag_bytes put_uint32
length-tag_bytes [] = refl
length-tag_bytes (t ∷ ts) = omega (arith, length-tag_bytes ts)

-- A script that names fewer than 2^30 tags of 32 bits has these observed, in order, and what it sends
-- after them is left.
pub accept-tag_bytes :
    (ts : List Tag) (s : Bytes)
    → length ts < 1073741824
    → All InRange ts
    → accept (put_uint32 (length ts) ++ (tag_bytes ts ++ s)) ≡ returns (ts, s)
unfolding accept with_count with_bytes observed_in
accept-tag_bytes ts s h hs =
    let size : length ts * 4 % 4294967296 ≡ length (tag_bytes ts) =
      omega (arith, length-tag_bytes ts, h) in
    rw
      (
        read_uint32-put_uint32 (length ts) (tag_bytes ts ++ s) (omega (arith, h)),
        size,
        read_full-append (tag_bytes ts) s,
        tags_in-tag_bytes ts hs,
      )
      refl

tag_at-none :
    (n : ℕ) (s : Bytes) (o : Option (ℕ × Bytes))
    → ((t : Tag) (u : Bytes) → o ≡ some (t, u) → tags_in n u ≡ none)
    → tag_at o (tags_in n) ≡ none
unfolding tag_at tag_then
tag_at-none n s none h = refl
tag_at-none n s (some (t, u)) h = rw (h t u refl) refl

tags_in-none : (n : ℕ) (s : Bytes) → length s < n * 4 → tags_in n s ≡ none
unfolding tags_in
tags_in-none zero s h = absurd (omega (arith, h))
tags_in-none (suc n) s h =
    tag_at-none n s (read_uint32 s)
      (λ t u e. tags_in-none n u (omega (arith, h, length-read_uint32 s t u e)))

-- A count of 2^30 or more, with as many bytes after it as the code reads, takes the host down: four
-- times the count wraps around, and the tags are read past the end of the slice.
pub accept_panics :
    (n : ℕ) (b s : Bytes)
    → 1073741824 ≤ n
    → n < 4294967296
    → length b ≡ n * 4 % 4294967296
    → accept (put_uint32 n ++ (b ++ s)) ≡ panics
unfolding accept with_count with_bytes observed_in
accept_panics n b s low high size =
    rw
      (
        read_uint32-put_uint32 n (b ++ s) high,
        sym size,
        read_full-append b s,
        tags_in-none n b (omega (arith, size, low, high)),
      )
      refl
