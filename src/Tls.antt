-- ===== src/Tls.antt =====
-- pkg/tls/tls.go: the TLS configurations of zippers and clients.
pub mod Peers
use yomo.Common.{
  ℕ, ◌^◌, ◌+◌, ◌*◌, String, Bool, true, not, ◌||◌, Option, none, some, List, [], ◌∷◌, ◌++◌, ◌==◌,
  nat_key, string_key, if◌then◌else◌, length,
}
use yomo.Errors.{plain, Result, ok, err, ◌>>=◌}
use yomo.Frame.{Bytes}
use yomo.Lower.{lowers_to}

pub data KeyUsage : Type 0 where
  key_encipherment : KeyUsage
  digital_signature : KeyUsage
  cert_sign : KeyUsage

pub data ExtKeyUsage : Type 0 where
  server_auth : ExtKeyUsage

-- the fields of x509.Certificate that are set; times in seconds
pub record Template : Type 0 where
  pub serial_number : ℕ
  pub organization : List String
  pub not_before : ℕ
  pub not_after : ℕ
  pub is_ca : Bool
  pub key_usage : List KeyUsage
  pub ext_key_usage : List ExtKeyUsage
  pub basic_constraints_valid : Bool
  pub dns_names : List String
  pub ip_addresses : List Bytes

-- What the code relies on: os, net, crypto and encoding/pem.
pub record Platform : Type 1 where
  pub getenv : String → String
  pub read_file : String → Result Bytes
  pub now : ℕ
  pub parse_ip : String → Option Bytes
  pub Pool : Type 0
  pub append_certs_from_pem : Bytes → Option Pool
  pub Key : Type 0
  pub generate_key : Result Key
  pub random_below : ℕ → Result ℕ
  pub create_certificate : Template → Key → Result Bytes
  pub pem_encode : String → Bytes → Result Bytes
  pub marshal_ec_private_key : Key → Result Bytes
  pub Certificate : Type 0
  pub x509_key_pair : Bytes → Bytes → Result Certificate

pub data ClientAuth : Type 0 where
  no_client_cert : ClientAuth
  require_and_verify_client_cert : ClientAuth

-- len(b) == 0
abbrev is_empty : Bytes → Bool
is_empty b = length b == 0

module _ (p : Platform) where
  -- the fields of tls.Config that a server sets
  pub record ServerConfig : Type 0 where
    pub certificates : List p.Certificate
    pub client_cas : Option p.Pool
    pub client_auth : ClientAuth
    pub next_protos : List String

  -- the fields of tls.Config that a client sets, but for its session cache
  pub record ClientConfig : Type 0 where
    pub insecure_skip_verify : Bool
    pub certificates : List p.Certificate
    pub root_cas : Option p.Pool
    pub next_protos : List String

  unfoldable pub verify_peer : Bool
  verify_peer = lowers_to (p.getenv "YOMO_TLS_VERIFY_PEER") (b't' ∷ b'r' ∷ b'u' ∷ b'e' ∷ [])

  unfoldable pub appended : Option p.Pool → Result (Option p.Pool)
  appended none = err (plain "tls: cannot append CA cert to pool")
  appended (some pool) = ok (some pool)

  unfoldable pub pool_of : Bytes → Result (Option p.Pool)
  pool_of ca_cert =
      if is_empty ca_cert
      then err (plain "tls: cannot load CA cert")
      else appended (p.append_certs_from_pem ca_cert)

  -- getCACertPool()
  unfoldable pub get_ca_cert_pool : Result (Option p.Pool)
  get_ca_cert_pool =
      let path = p.getenv "YOMO_TLS_CACERT_FILE" in
      if path == "" then ok none else p.read_file path >>= pool_of

  unfoldable pub pair_of : Bytes → Bytes → Result (Option p.Certificate)
  pair_of cert key =
      if is_empty cert || is_empty key
      then err (plain "tls: cannot load tls cert/key")
      else p.x509_key_pair cert key >>= (λ tls_cert. ok (some tls_cert))

  -- getCertAndKey()
  unfoldable pub get_cert_and_key : Result (Option p.Certificate)
  get_cert_and_key =
      let cert_path = p.getenv "YOMO_TLS_CERT_FILE" in
      let key_path = p.getenv "YOMO_TLS_KEY_FILE" in
      if cert_path == "" || key_path == ""
      then ok none
      else p.read_file cert_path >>= (λ cert. p.read_file key_path >>= (λ key. pair_of cert key))

  unfoldable pub add_host : Template → String → Option Bytes → Template
  add_host t h none = record t { dns_names = t.dns_names ++ h ∷ [] }
  add_host t h (some ip) = record t { ip_addresses = t.ip_addresses ++ ip ∷ [] }

  -- for _, h := range host
  unfoldable pub add_hosts : Template → List String → Template
  add_hosts t [] = t
  add_hosts t (h ∷ hosts) = add_hosts (add_host t h (p.parse_ip h)) hosts

  unfoldable pub template_of : ℕ → Template
  template_of serial_number = record {
    serial_number = serial_number;
    organization = "YoMo" ∷ [];
    not_before = p.now;
    not_after = p.now + 60 * 60 * 24 * 365;
    is_ca = true;
    key_usage = key_encipherment ∷ digital_signature ∷ cert_sign ∷ [];
    ext_key_usage = server_auth ∷ [];
    basic_constraints_valid = true;
    dns_names = "localhost" ∷ [];
    ip_addresses = [];
  }

  -- from x509.CreateCertificate on
  unfoldable pub certificate_of : p.Key → Template → Result p.Certificate
  certificate_of priv t = p.create_certificate t priv >>= (λ der_bytes.
      p.pem_encode "CERTIFICATE" der_bytes >>= (λ cert_out. p.marshal_ec_private_key priv >>= (λ b.
        p.pem_encode "EC PRIVATE KEY" b >>= (λ key_out. p.x509_key_pair cert_out key_out))))

  -- generateCertificate(host...)
  unfoldable pub generate_certificate : List String → Result p.Certificate
  generate_certificate hosts = p.generate_key >>= (λ priv.
      p.random_below (2 ^ 128)
      >>= (λ serial. certificate_of priv (add_hosts (template_of serial) hosts)))

  -- if tlsCert == nil
  unfoldable pub or_generated : String → Option p.Certificate → Result p.Certificate
  or_generated host (some tls_cert) = ok tls_cert
  or_generated host none = generate_certificate (host ∷ [])

  -- CreateServerTLSConfig(host)
  unfoldable pub create_server_tls_config : String → Result ServerConfig
  create_server_tls_config host = get_ca_cert_pool >>= (λ pool. get_cert_and_key >>= (λ found.
      or_generated host found >>= (λ tls_cert. ok (record {
        certificates = tls_cert ∷ [];
        client_cas = pool;
        client_auth = if verify_peer then require_and_verify_client_cert else no_client_cert;
        next_protos = "yomo" ∷ [];
      }))))

  unfoldable pub certificates_of : Option p.Certificate → List p.Certificate
  certificates_of none = []
  certificates_of (some tls_cert) = tls_cert ∷ []

  -- CreateClientTLSConfig()
  unfoldable pub create_client_tls_config : Result ClientConfig
  create_client_tls_config = get_ca_cert_pool >>= (λ pool. get_cert_and_key >>= (λ found.
      ok (record {
        insecure_skip_verify = not verify_peer;
        certificates = certificates_of found;
        root_cas = pool;
        next_protos = "yomo" ∷ [];
      })))
