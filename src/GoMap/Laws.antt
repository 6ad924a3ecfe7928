-- ===== src/GoMap/Laws.antt =====
-- Reads of a map after its writes.
use yomo.Common.{none, some, [], ◌∷◌, Key, ◌==◌, if◌then◌else◌, ◌≡◌, refl, arith, same_iff}
use yomo.GoMap.{GoMap, get, delete, put, IsMap}

module _ {ℓ} {K V : Type ℓ} ⦃key : Key K⦄ where
  pub get-delete :
      (m : GoMap K V) (k j : K) → get (delete m k) j ≡ (if k == j then none else get m j)
  unfolding get delete
  get-delete [] k j = ground arith
  get-delete ((i, v) ∷ m) k j =
      ground (arith, get-delete m k j, same_iff i k, same_iff i j, same_iff k j)

  pub get-put :
      (m : GoMap K V) (k j : K) (v : V) → get (put m k v) j ≡ (if k == j then some v else get m j)
  unfolding get put
  get-put m k j v = ground (arith, get-delete m k j)

  pub delete-IsMap : (m : GoMap K V) (k : K) → IsMap m → IsMap (delete m k)
  unfolding delete
  delete-IsMap [] k h = h
  delete-IsMap ((i, v) ∷ m) k h = ground (arith, get-delete m k i, delete-IsMap m k h.1)

  pub put-IsMap : (m : GoMap K V) (k : K) (v : V) → IsMap m → IsMap (put m k v)
  unfolding put
  put-IsMap m k v h = (ground (arith, get-delete m k k, same_iff k k), delete-IsMap m k h)

pub get-nil {ℓ} : {K V : Type ℓ} ⦃key : Key K⦄ (k : K) → get {V = V} [] k ≡ none
unfolding get
get-nil k = refl

pub ruleset map_laws = (get-nil, get-delete, get-put)
