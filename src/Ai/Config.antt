-- ===== src/Ai/Config.antt =====
-- pkg/bridge/ai/ai.go and pkg/bridge/ai/api_server.go: the configuration of the AI bridge, and the
-- address of its zipper.
use yomo.Common.{
  String, ◌≡◌, refl, sym, ap, ◌∙◌, ◌≢◌, Bool, true, false, not, ◌||◌, Option, none, some, List, [],
  ◌∷◌, ◌==◌, nat_key, string_key, same_iff, if◌then◌else◌,
}
use Prim.Native.String.{◌++◌ as join}
use yomo.Errors.{Error, plain, Result, ok, err}
use yomo.Try.{Try, returns, fails, panics}
use yomo.Frame.{Bytes}
use yomo.GoMap.{GoMap, get}

-- Server: addr and provider
pub record ApiServer : Type 0 where
  pub addr : String
  pub provider : String

pub record Config : Type 0 where
  pub server : ApiServer
  pub providers : GoMap String (GoMap String String)

-- What the code relies on: values of any type with the test for a map, and yaml.
pub record Yaml : Type 1 where
  pub Any : Type 0
  pub Section : Type 0
  pub as_map : Any → Option Section
  pub marshal : Section → Result Bytes
  pub unmarshal : Bytes → Result Config

abbrev pub err_config_not_found : Error
err_config_not_found = plain "ai config was not found"

abbrev pub err_config_format_error : Error
err_config_format_error = plain "ai config format is incorrect"

-- if config.Server.Addr == ""
unfoldable pub default_addr : String → String
default_addr addr = if addr == "" then ":8000" else addr

unfoldable pub with_default_addr : Config → Config
with_default_addr c = record c { server = record c.server { addr = default_addr c.server.addr } }

unfoldable pub defaulted : Result Config → Result Config
defaulted (err e) = err e
defaulted (ok c) = ok (with_default_addr c)

module _ (y : Yaml) where
  unfoldable pub decoded : Result Bytes → Result Config
  decoded (err e) = err e
  decoded (ok b) = defaulted (y.unmarshal b)

  unfoldable pub parse_section : Option y.Section → Result Config
  parse_section none = err err_config_format_error
  parse_section (some ai_config) = decoded (y.marshal ai_config)

  unfoldable pub parse_any : Option y.Any → Result Config
  parse_any none = err err_config_not_found
  parse_any (some section) = parse_section (y.as_map section)

  -- ParseConfig(conf)
  unfoldable pub parse_config : GoMap String y.Any → Result Config
  parse_config conf = parse_any (get conf "ai")

-- net: InterfaceAddrs, where a missing address is no *net.IPNet, SplitHostPort, ParseIP, and the
-- methods of an IP
pub record Net : Type 1 where
  pub Ip : Type 0
  pub interface_addrs : Result (List (Option Ip))
  pub split_host_port : String → Result (String × String)
  pub parse_ip : String → Option Ip
  pub is_unspecified : Ip → Bool
  pub is_ip4 : Ip → Bool
  pub ip_text : Ip → String

abbrev pub default_zipper_addr : String
default_zipper_addr = "localhost:9000"

abbrev pub at_port : String → String → String
at_port host port = join (join host ":") port

module _ (n : Net) where
  -- for _, addr := range addrs: the IP of an address of another kind is read through a nil pointer
  unfoldable pub first_ip : List (Option n.Ip) → Try String
  first_ip [] = fails (plain "not found local ip")
  first_ip (none ∷ addrs) = panics
  first_ip (some ip ∷ addrs) =
      let rest = first_ip addrs in
      if n.is_unspecified ip || not (n.is_ip4 ip) then rest else returns (n.ip_text ip)

  unfoldable pub ip_among : Result (List (Option n.Ip)) → Try String
  ip_among (err e) = fails e
  ip_among (ok addrs) = first_ip addrs

  -- getLocalIP()
  unfoldable pub get_local_ip : Try String
  get_local_ip = ip_among n.interface_addrs

  unfoldable pub local_addr : String → Try String → Try String
  local_addr port (fails e) = returns default_zipper_addr
  local_addr port panics = panics
  local_addr port (returns ip) = returns (at_port ip port)

  unfoldable pub ip_addr : String → Option n.Ip → Try String
  ip_addr port none = returns default_zipper_addr
  ip_addr port (some ip) =
      if n.is_unspecified ip
      then local_addr port get_local_ip
      else returns (at_port (n.ip_text ip) port)

  unfoldable pub split_addr : String → Result (String × String) → Try String
  split_addr addr (err e) = returns default_zipper_addr
  split_addr addr (ok (host, port)) =
      if host == "localhost" then returns addr else ip_addr port (n.parse_ip host)

  -- parseZipperAddr(addr)
  unfoldable pub parse_zipper_addr : String → Try String
  parse_zipper_addr addr = split_addr addr (n.split_host_port addr)

chosen : (b : Bool) (addr : String) → (addr == "") ≡ b → (if b then ":8000" else addr) ≢ ""
chosen true addr e h = cc
chosen false addr e h = absurd (true-false (sym ((same_iff {K = String} addr "").1 h) ∙ e))
  where
    true-false : true ≢ false
    true-false h = cc

defaulted-addr : (r : Result Config) (c : Config) → defaulted r ≡ ok c → c.server.addr ≢ ""
unfolding defaulted with_default_addr default_addr
defaulted-addr (err e) c h k = cc
defaulted-addr (ok d) c h k =
    let same : with_default_addr d ≡ c = cc in
    chosen (d.server.addr == "") d.server.addr refl (ap (λ x. x.server.addr) same ∙ k)

module _ (y : Yaml) where
  decoded-addr : (r : Result Bytes) (c : Config) → decoded y r ≡ ok c → c.server.addr ≢ ""
  unfolding decoded
  decoded-addr (err e) c h k = cc
  decoded-addr (ok b) c h k = defaulted-addr (y.unmarshal b) c h k

  parse_section-addr :
      (o : Option y.Section) (c : Config) → parse_section y o ≡ ok c → c.server.addr ≢ ""
  unfolding parse_section
  parse_section-addr none c h k = cc
  parse_section-addr (some s) c h k = decoded-addr (y.marshal s) c h k

  parse_any-addr : (o : Option y.Any) (c : Config) → parse_any y o ≡ ok c → c.server.addr ≢ ""
  unfolding parse_any
  parse_any-addr none c h k = cc
  parse_any-addr (some a) c h k = parse_section-addr (y.as_map a) c h k

  -- A configuration that was parsed names an address for its server.
  pub parse_config-addr :
      (conf : GoMap String y.Any) (c : Config) → parse_config y conf ≡ ok c → c.server.addr ≢ ""
  unfolding parse_config
  parse_config-addr conf c h k = parse_any-addr (get conf "ai") c h k
