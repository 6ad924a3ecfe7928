-- ===== src/Lower.antt =====
-- Go's strings.ToLower, as a test against a constant.
use Prim.Native.Char.{code}
use yomo.Common.{
  ℕ, ◌+◌, String, Bool, true, false, ◌&&◌, List, [], ◌∷◌, ◌==◌, nat_key, string_key, leb,
  if◌then◌else◌,
}

-- strings.ToLower(s) == t, of a text t by its code points: no letter beyond A-Z has one of the letters
-- of "stop" and "true" as its small letter.
abbrev lower : ℕ → ℕ
lower c = if leb b'A' c && leb c b'Z' then c + 32 else c

abbrev pub lowers_to : String → List ℕ → Bool
lowers_to String.[] [] = true
lowers_to String.[] (d ∷ ds) = false
lowers_to (String.◌∷◌ c s) [] = false
lowers_to (String.◌∷◌ c s) (d ∷ ds) = lower (code c) == d && lowers_to s ds
