-- ===== src/Tls/Peers.antt =====
-- The configurations of a zipper and of a client in the same environment.
use yomo.Common.{
  String, ◌≡◌, refl, sym, ap, ◌∙◌, ◌↔◌, ◌⊎◌, inl, inr, Bool, true, false, not, Option, none, some,
  [], ◌∷◌, nat_key, string_key, if◌then◌else◌,
}
use mathlib.Core.Path.{subst}
use yomo.Errors.{Result, ok, err, ◌>>=◌}
use yomo.Tls.{
  Platform, ClientAuth, no_client_cert, require_and_verify_client_cert, ServerConfig, ClientConfig,
  verify_peer, get_ca_cert_pool, get_cert_and_key, or_generated, certificates_of,
  create_server_tls_config, create_client_tls_config,
}

-- The value that a successful step hands to the next one.
>>=-ok :
    {Found Made : Type 0} (step : Result Found) (next : Found → Result Made) {made : Made}
    → (step >>= next) ≡ ok made
    → (found : Found) × (next found ≡ ok made) × (step ≡ ok found)
>>=-ok (err e) next h = cc
>>=-ok (ok found) next h = (found, h, refl)

ok-injective {ℓ} : {A : Type ℓ} {a b : A} → ok a ≡ ok b → a ≡ b
ok-injective h = cc

-- what a server asks of its clients
abbrev asked : Bool → ClientAuth
asked b = if b then require_and_verify_client_cert else no_client_cert

asked_iff : (b : Bool) → (asked b ≡ require_and_verify_client_cert) ↔ (not b ≡ false)
asked_iff true = (λ h. refl, λ h. refl)
asked_iff false = (λ h. cc, λ h. cc)

module _ (p : Platform) where
  -- What a pair of configurations agrees on.
  pub record Agreed (s : ServerConfig p) (c : ClientConfig p) : Type 0 where
    pub both_verify :
        (s.client_auth ≡ require_and_verify_client_cert) ↔ (c.insecure_skip_verify ≡ false)
    pub same_authorities : s.client_cas ≡ c.root_cas
    pub same_protos : s.next_protos ≡ c.next_protos
    pub same_certificates : (c.certificates ≡ []) ⊎ (c.certificates ≡ s.certificates)

  presented :
      (host : String) (found : Option p.Certificate) (tls_cert : p.Certificate)
      → or_generated p host found ≡ ok tls_cert
      → (certificates_of p found ≡ []) ⊎ (certificates_of p found ≡ tls_cert ∷ [])
  unfolding or_generated certificates_of
  presented host none tls_cert h = inl refl
  presented host (some x) tls_cert h = inr (ap (λ y. y ∷ []) (ok-injective h))

  abbrev server_of : Option p.Pool → p.Certificate → ServerConfig p
  server_of pool tls_cert = record {
    certificates = tls_cert ∷ [];
    client_cas = pool;
    client_auth = asked (verify_peer p);
    next_protos = "yomo" ∷ [];
  }

  abbrev client_of : Option p.Pool → Option p.Certificate → ClientConfig p
  client_of pool found = record {
    insecure_skip_verify = not (verify_peer p);
    certificates = certificates_of p found;
    root_cas = pool;
    next_protos = "yomo" ∷ [];
  }

  made-Agreed :
      (host : String) (pool pool' : Option p.Pool) (found found' : Option p.Certificate)
      (tls_cert : p.Certificate)
      → pool ≡ pool'
      → found ≡ found'
      → or_generated p host found ≡ ok tls_cert
      → Agreed (server_of pool tls_cert) (client_of pool' found')
  made-Agreed host pool pool' found found' tls_cert e e' h = record {
    both_verify = asked_iff (verify_peer p);
    same_authorities = e;
    same_protos = refl;
    same_certificates = rw (sym e') (presented host found tls_cert h);
  }

  -- Made in the same environment, a zipper and a client check each other's certificates either both or
  -- not at all, by the same authorities, speak the same protocol, and a client that has a certificate
  -- presents the zipper's.
  pub create_server_tls_config-Agreed :
      (host : String) (s : ServerConfig p) (c : ClientConfig p)
      → create_server_tls_config p host ≡ ok s
      → create_client_tls_config p ≡ ok c
      → Agreed s c
  unfolding create_server_tls_config create_client_tls_config
  create_server_tls_config-Agreed host s c hs hc =
      let (pool, h, e) = >>=-ok (get_ca_cert_pool p) _ hs in
      let (found, h', e') = >>=-ok (get_cert_and_key p) _ h in
      let (tls_cert, h'', e'') = >>=-ok (or_generated p host found) _ h' in
      let (pool', k, d) = >>=-ok (get_ca_cert_pool p) _ hc in
      let (found', k', d') = >>=-ok (get_cert_and_key p) _ k in
      subst (λ x. Agreed x c) (ok-injective h'')
        (subst (λ y. Agreed (server_of pool tls_cert) y) (ok-injective k')
          (made-Agreed host pool pool' found found' tls_cert (ok-injective (sym e ∙ d))
            (ok-injective (sym e' ∙ d')) e''))
