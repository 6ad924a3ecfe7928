-- ===== src/GoMap.antt =====
-- Go's `map[K]V`, and `sync.Map`, as an association list. The order of the list stands for the
-- order of iteration, which Go leaves open: statements are about every list.
pub mod Laws
use yomo.Common.{Option, none, some, List, [], ◌∷◌, Bool, Key, ◌==◌, if◌then◌else◌, is_some, ◌≡◌}

abbrev pub GoMap {ℓ} : Type ℓ → Type ℓ → Type ℓ
GoMap K V = List (K × V)

module _ {ℓ} {K V : Type ℓ} ⦃key : Key K⦄ where
  -- v, ok := m[k]
  unfoldable pub get : GoMap K V → K → Option V
  get [] k = none
  get ((j, v) ∷ m) k = if j == k then some v else get m k

  -- _, ok := m[k]
  abbrev pub has : GoMap K V → K → Bool
  has m k = is_some (get m k)

  -- delete(m, k)
  unfoldable pub delete : GoMap K V → K → GoMap K V
  delete [] k = []
  delete ((j, v) ∷ m) k = let others = delete m k in if j == k then others else (j, v) ∷ others

  -- m[k] = v
  unfoldable pub put : GoMap K V → K → V → GoMap K V
  put m k v = (k, v) ∷ delete m k

  -- No key stands twice, so that an iteration visits each key once.
  abbrev pub IsMap : GoMap K V → Type ℓ
  IsMap [] = Unit
  IsMap ((k, v) ∷ m) = (get m k ≡ none) × IsMap m

-- What a lookup can see: maps in any order and representation.
abbrev pub SameMap {ℓ} : {K V : Type ℓ} ⦃key : Key K⦄ → GoMap K V → GoMap K V → Type ℓ
SameMap {K = K} m n = (k : K) → get m k ≡ get n k
