-- ===== src/Deno/Numbers.antt =====
-- The numbers and slices of the socket, written and read.
use yomo.Common.{
  ℕ, zero, suc, ◌+◌, ◌/◌, ◌%◌, ◌<◌, ◌≡◌, refl, ap, Option, none, some, [], ◌∷◌, ◌++◌, arith,
  nat_key, string_key, length,
}
use yomo.Frame.{Bytes}
use yomo.Deno.{put_uint32, uint32_of, read_uint32, read_full, consed}

pub bytes_of :
    (n : ℕ)
    → n < 4294967296
    → uint32_of (n % 256) (n / 256 % 256) (n / 65536 % 256) (n / 16777216 % 256) ≡ n
bytes_of n h = omega (arith, h)

pub read_uint32-put_uint32 :
    (n : ℕ) (s : Bytes) → n < 4294967296 → read_uint32 (put_uint32 n ++ s) ≡ some (n, s)
unfolding read_uint32 put_uint32
read_uint32-put_uint32 n s h = ap (λ m. some (m, s)) (bytes_of n h)

pub read_full-append : (b s : Bytes) → read_full (length b) (b ++ s) ≡ some (b, s)
unfolding read_full consed
read_full-append [] s = refl
read_full-append (x ∷ b) s = rw (read_full-append b s) refl

-- a read takes bytes away
pub length-read_uint32 :
    (s : Bytes) (n : ℕ) (s' : Bytes) → read_uint32 s ≡ some (n, s') → length s ≡ 4 + length s'
unfolding read_uint32
length-read_uint32 (a ∷ b ∷ c ∷ d ∷ s) n s' h = ground (arith, h)
length-read_uint32 [] n s' h = cc
length-read_uint32 (a ∷ []) n s' h = cc
length-read_uint32 (a ∷ b ∷ []) n s' h = cc
length-read_uint32 (a ∷ b ∷ c ∷ []) n s' h = cc

length-consed :
    (x : ℕ) (n : ℕ) (s : Bytes) (o : Option (Bytes × Bytes)) (b s' : Bytes)
    → ((c t : Bytes) → o ≡ some (c, t) → length s ≡ n + length t)
    → consed x o ≡ some (b, s')
    → length (x ∷ s) ≡ suc n + length s'
unfolding consed
length-consed x n s none b s' h e = cc
length-consed x n s (some (c, t)) b s' h e = ground (arith, h c t refl, e)

pub length-read_full :
    (n : ℕ) (s b s' : Bytes) → read_full n s ≡ some (b, s') → length s ≡ n + length s'
unfolding read_full
length-read_full zero s b s' h = ground (arith, h)
length-read_full (suc n) [] b s' h = cc
length-read_full (suc n) (x ∷ s) b s' h =
    length-consed x n s (read_full n s) b s' (length-read_full n s) h
