-- ===== src/Ai/Services.antt =====
-- pkg/bridge/ai/service.go: the service that belongs to a credential, and what it holds open. The
-- LRU cache is a parameter.
use yomo.Common.{
  ℕ, String, ◌≡◌, refl, ap, Option, none, some, List, [], ◌∷◌, arith, ◌==◌, nat_key, string_key,
  if◌then◌else◌,
}
use yomo.Errors.{Error, Result, ok, err}
use yomo.Metadata.{M, made}

-- A service: its metadata, and the client identifiers of its source and its reducer.
pub record Service : Type 0 where
  pub credential : String
  pub zipper_addr : String
  pub metadata : M
  pub source : ℕ
  pub reducer : ℕ

-- expirable.LRU, as the code uses it: what was just added is found, and what was found is found again.
-- Add also gives the service that it evicts, which the cache's callback releases.
pub record Lru : Type 1 where
  pub State : Type 0
  pub find : State → String → State × Option Service
  pub insert : State → String → Service → State × Option Service
  pub find-insert : (c : State) (k : String) (s : Service) → (find (insert c k s).0 k).1 ≡ some s
  pub find-find :
      (c : State) (k : String) (s : Service)
      → (find c k).1 ≡ some s
      → (find (find c k).0 k).1 ≡ some s

-- The clients that are connected.
abbrev pub Open : Type 0
Open = List ℕ

-- What the environment does while a service is made: the identifiers of its two clients and what
-- their Connect returns.
pub record Attempt : Type 0 where
  pub source : ℕ
  pub source_error : Option Error
  pub reducer : ℕ
  pub reducer_error : Option Error

-- ExchangeMetadataFunc
abbrev pub ExchangeMetadata : Type 0
ExchangeMetadata = Option (String → Result M)

unfoldable pub exchanged : ExchangeMetadata → String → Result M
exchanged none credential = ok (made [])
exchanged (some ex) credential = ex credential

-- source.Connect() and sfn.Connect(): an error, or one more client that is connected
unfoldable pub opened : Open → ℕ → Option Error → Open × Result ℕ
opened o id (some e) = (o, err e)
opened o id none = (id ∷ o, ok id)

unfoldable pub with_reducer : String → String → M → ℕ → Open × Result ℕ → Open × Result Service
with_reducer credential zipper_addr md source (o, err e) = (o, err e)
with_reducer credential zipper_addr md source (o, ok reducer) = (
  o,
  ok (record {
    credential = credential;
    zipper_addr = zipper_addr;
    metadata = md;
    source = source;
    reducer = reducer;
  }),
)

unfoldable pub with_source : String → String → M → Attempt → Open × Result ℕ → Open × Result Service
with_source credential zipper_addr md a (o, err e) = (o, err e)
with_source credential zipper_addr md a (o, ok source) =
    with_reducer credential zipper_addr md source (opened o a.reducer a.reducer_error)

unfoldable pub with_metadata : String → String → Attempt → Open → Result M → Open × Result Service
with_metadata credential zipper_addr a o (err e) = (o, err e)
with_metadata credential zipper_addr a o (ok md) =
    with_source credential zipper_addr md a (opened o a.source a.source_error)

-- newService(credential, zipperAddr, aiProvider, exFn)
unfoldable pub new_service :
    String → String → ExchangeMetadata → Attempt → Open → Open × Result Service
new_service credential zipper_addr ex a o =
    with_metadata credential zipper_addr a o (exchanged ex credential)

unfoldable pub close_client : Open → ℕ → Open
close_client [] id = []
close_client (j ∷ o) id = let others = close_client o id in if j == id then others else j ∷ others

-- s.Release()
unfoldable pub release : Open → Service → Open
release o s = close_client (close_client o s.source) s.reducer

unfoldable pub release_evicted : Open → Option Service → Open
release_evicted o none = o
release_evicted o (some s) = release o s

module _ (lru : Lru) where
  open lru use {State, find, insert}

  unfoldable pub add_service :
      State → String → Open × Result Service → State × Open × Result Service
  add_service c credential (o, err e) = (c, o, err e)
  add_service c credential (o, ok s) =
      let (c', evicted) = insert c credential s in (c', release_evicted o evicted, ok s)

  unfoldable pub or_create :
      State
      → Open
      → String
      → String
      → ExchangeMetadata
      → Attempt
      → Option Service
      → State × Open × Result Service
  or_create c o credential zipper_addr ex a (some s) = (c, o, ok s)
  or_create c o credential zipper_addr ex a none =
      add_service c credential (new_service credential zipper_addr ex a o)

  -- LoadOrCreateService(credential, zipperAddr, aiProvider, exFn)
  unfoldable pub load_or_create_service :
      State → Open → String → String → ExchangeMetadata → Attempt → State × Open × Result Service
  load_or_create_service c o credential zipper_addr ex a =
      let (c', cached) = find c credential in or_create c' o credential zipper_addr ex a cached

  add_service-found :
      (c : State) (credential : String) (s : Service) (p : Open × Result Service)
      → (add_service c credential p).2 ≡ ok s
      → (find (add_service c credential p).0 credential).1 ≡ some s
  unfolding add_service
  add_service-found c credential s (o, err e) h = cc
  add_service-found c credential s (o, ok x) h = ground (arith, h, lru.find-insert c credential x)

  or_create-found :
      (c c' : State) (o : Open) (credential zipper_addr : String) (ex : ExchangeMetadata)
      (a : Attempt) (s : Service) (cached : Option Service)
      → find c credential ≡ (c', cached)
      → (or_create c' o credential zipper_addr ex a cached).2 ≡ ok s
      → (find (or_create c' o credential zipper_addr ex a cached).0 credential).1 ≡ some s
  unfolding or_create
  or_create-found c c' o credential zipper_addr ex a s none f h =
      add_service-found c' credential s (new_service credential zipper_addr ex a o) h
  or_create-found c c' o credential zipper_addr ex a s (some x) f h =
      ground (arith, h, f, lru.find-find c credential x)

  or_create-again :
      (c : State) (o : Open) (credential zipper_addr : String) (ex : ExchangeMetadata) (a : Attempt)
      (s : Service) (cached : Option Service)
      → cached ≡ some s
      → or_create c o credential zipper_addr ex a cached ≡ (c, o, ok s)
  unfolding or_create
  or_create-again c o credential zipper_addr ex a s none h = absurd (ground (arith, h))
  or_create-again c o credential zipper_addr ex a s (some x) h = ground (arith, h)

  -- After a call for a credential that returned a service, a second call returns the same service,
  -- whatever its other arguments are, and neither connects nor closes a client.
  pub load_or_create_service_again :
      (c : State) (o o' : Open) (credential zipper_addr zipper_addr' : String)
      (ex ex' : ExchangeMetadata) (a a' : Attempt) (s : Service)
      → (load_or_create_service c o credential zipper_addr ex a).2 ≡ ok s
      → ((load_or_create_service
            (load_or_create_service c o credential zipper_addr ex a).0
            o'
            credential
            zipper_addr'
            ex'
            a').2
          ≡ ok s)
        × ((load_or_create_service
              (load_or_create_service c o credential zipper_addr ex a).0
              o'
              credential
              zipper_addr'
              ex'
              a').1
            ≡ o')
  unfolding load_or_create_service
  load_or_create_service_again c o o' credential zipper_addr zipper_addr' ex ex' a a' s h =
      let found =
        or_create-found c (find c credential).0 o credential zipper_addr ex a s
          (find c credential).1 refl h in
      let again = or_create-again _ o' credential zipper_addr' ex' a' s _ found in
      (ap (λ p. p.2) again, ap (λ p. p.1) again)

-- When the source was connected and the reducer could not be, the call returns the reducer's error,
-- no service is kept, and the source stays connected.
pub new_service_leaks :
    (credential zipper_addr : String) (ex : ExchangeMetadata) (a : Attempt) (o : Open) (md : M)
    (e : Error)
    → exchanged ex credential ≡ ok md
    → a.source_error ≡ none
    → a.reducer_error ≡ some e
    → new_service credential zipper_addr ex a o ≡ (a.source ∷ o, err e)
unfolding new_service with_metadata with_source with_reducer opened
new_service_leaks credential zipper_addr ex a o md e h n r = rw (h, n, r) refl
