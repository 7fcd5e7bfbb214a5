-- ===== src/Config.antt =====
-- crates/kubelet/src/config.rs: how the configuration is put together. Flags override the file, and
-- defaults fill what is left.
pub mod Sources
pub mod Layers
pub mod Errors
pub mod Labels
pub mod NodeIp
use krustlet.Prelude.{
  ℕ, ◌<>◌, String, Bool, true, false, Option, none, some, List, [], Result, ok, err, ◌>>=◌, map_err,
}
use krustlet.Prelude.Dict.{Dict}

-- `IpAddr`: an address as the number that its bytes, or segments, make.
pub data IpAddr : Type 0 where
  v4 : ℕ → IpAddr
  v6 : ℕ → IpAddr

abbrev pub default_port : ℕ
default_port = 3000

abbrev pub default_max_pods : ℕ
default_max_pods = 110

abbrev pub bootstrap_path : String
bootstrap_path = "/etc/kubernetes/bootstrap-kubelet.conf"

pub record ServerConfig : Type 0 where
  pub addr : IpAddr
  pub port : ℕ
  pub cert_file : String
  pub private_key_file : String

pub record Config : Type 0 where
  pub node_ip : IpAddr
  pub hostname : String
  pub node_name : String
  pub server_config : ServerConfig
  pub data_dir : String
  pub node_labels : Dict String String
  pub max_pods : ℕ
  pub bootstrap_file : String
  pub allow_local_modules : Bool
  pub insecure_registries : Option (List String)
  pub plugins_dir : String
  pub device_plugins_dir : String

-- `some (ok v)` is a value that was present, `some (err e)` one that did not parse.
pub record ConfigBuilder : Type 0 where
  pub node_ip : Option (Result String IpAddr)
  pub hostname : Option String
  pub node_name : Option String
  pub data_dir : Option String
  pub bootstrap_file : Option String
  pub node_labels : Option (Dict String String)
  pub max_pods : Option (Result String ℕ)
  pub server_addr : Option (Result String IpAddr)
  pub server_port : Option (Result String ℕ)
  pub server_tls_cert_file : Option String
  pub server_tls_private_key_file : Option String
  pub allow_local_modules : Option Bool
  pub insecure_registries : Option (List String)
  pub plugins_dir : Option String
  pub device_plugins_dir : Option String

-- `ConfigBuilder::default`
abbrev pub no_values : ConfigBuilder
no_values = record {
  node_ip = none;
  hostname = none;
  node_name = none;
  data_dir = none;
  bootstrap_file = none;
  node_labels = none;
  max_pods = none;
  server_addr = none;
  server_port = none;
  server_tls_cert_file = none;
  server_tls_private_key_file = none;
  allow_local_modules = none;
  insecure_registries = none;
  plugins_dir = none;
  device_plugins_dir = none;
}

-- Why there is no configuration: an error that is returned, or a panic.
pub data Failure : Type 0 where
  invalid : String → Failure
  panicked : String → Failure

-- The fallbacks; a closure that calls `expect` may panic.
pub record ConfigBuilderFallbacks : Type 0 where
  pub hostname : Result Failure String
  pub data_dir : Result Failure String
  pub bootstrap_file : String
  pub cert_path : String → String
  pub key_path : String → String
  pub plugins_dir : String → String
  pub device_plugins_dir : String → String
  pub node_ip : String → IpAddr → Result Failure IpAddr

-- `Option::or`
abbrev pub or {ℓ} : {A : Type ℓ} → Option A → Option A → Option A
or (some a) o = some a
or none o = o

-- `Option::unwrap_or_else`
abbrev pub unwrap_or {ℓ} : {A : Type ℓ} → A → Option A → A
unwrap_or a none = a
unwrap_or a (some b) = b

-- `unwrap_or_else` with a closure that may panic.
abbrev pub unwrap_or_call {ℓ} : {A : Type ℓ} → Result Failure A → Option A → Result Failure A
unwrap_or_call r none = r
unwrap_or_call r (some a) = ok a

-- `self.with_override(other)`
unfoldable pub with_override : ConfigBuilder → ConfigBuilder → ConfigBuilder
with_override self other = record {
  node_ip = or other.node_ip self.node_ip;
  node_name = or other.node_name self.node_name;
  node_labels = or other.node_labels self.node_labels;
  hostname = or other.hostname self.hostname;
  data_dir = or other.data_dir self.data_dir;
  max_pods = or other.max_pods self.max_pods;
  server_addr = or other.server_addr self.server_addr;
  server_port = or other.server_port self.server_port;
  server_tls_cert_file = or other.server_tls_cert_file self.server_tls_cert_file;
  bootstrap_file = or other.bootstrap_file self.bootstrap_file;
  allow_local_modules = or other.allow_local_modules self.allow_local_modules;
  insecure_registries = or other.insecure_registries self.insecure_registries;
  plugins_dir = or other.plugins_dir self.plugins_dir;
  device_plugins_dir = or other.device_plugins_dir self.device_plugins_dir;
  server_tls_private_key_file =
      or other.server_tls_private_key_file self.server_tls_private_key_file;
}

unfoldable pub invalid_config_value_error : String → String → Failure
invalid_config_value_error value_name e =
    invalid ("invalid " <> (value_name <> (" in configuration file: " <> e)))

-- A value that may not have parsed, or its default.
unfoldable pub parsed_or {ℓ} :
    {A : Type ℓ} → String → A → Option (Result String A) → Result Failure A
parsed_or value_name a none = ok a
parsed_or value_name a (some r) = map_err (invalid_config_value_error value_name) r

-- The node's address, whose default needs the host name.
unfoldable pub node_ip_or :
    Result Failure IpAddr → Option (Result String IpAddr) → Result Failure IpAddr
node_ip_or default none = default
node_ip_or default (some r) = map_err (invalid_config_value_error "node IP") r

-- The configuration of what is checked and what is not.
abbrev pub assemble :
    (String → String)
    → ConfigBuilder
    → ConfigBuilderFallbacks
    → String
    → String
    → IpAddr
    → ℕ
    → IpAddr
    → ℕ
    → Config
assemble to_lowercase self fallbacks hostname data_dir server_addr server_port node_ip max_pods =
    record {
      node_ip = node_ip;
      node_name = unwrap_or (to_lowercase hostname) self.node_name;
      node_labels = unwrap_or [] self.node_labels;
      hostname = hostname;
      data_dir = data_dir;
      max_pods = max_pods;
      bootstrap_file = unwrap_or fallbacks.bootstrap_file self.bootstrap_file;
      allow_local_modules = unwrap_or false self.allow_local_modules;
      insecure_registries = self.insecure_registries;
      plugins_dir = unwrap_or (fallbacks.plugins_dir data_dir) self.plugins_dir;
      device_plugins_dir =
          unwrap_or (fallbacks.device_plugins_dir data_dir) self.device_plugins_dir;
      server_config = record {
        cert_file = unwrap_or (fallbacks.cert_path data_dir) self.server_tls_cert_file;
        private_key_file = unwrap_or (fallbacks.key_path data_dir) self.server_tls_private_key_file;
        addr = server_addr;
        port = server_port;
      };
    }

unfoldable pub build :
    (String → String) → ConfigBuilder → ConfigBuilderFallbacks → Result Failure Config
build to_lowercase self fallbacks = unwrap_or_call fallbacks.hostname self.hostname >>= λ hostname.
    unwrap_or_call fallbacks.data_dir self.data_dir >>= λ data_dir.
    parsed_or "server address" (v4 0) self.server_addr >>= λ server_addr.
    parsed_or "server port" default_port self.server_port >>= λ server_port.
    node_ip_or (fallbacks.node_ip hostname server_addr) self.node_ip >>= λ node_ip.
    parsed_or "maximum pods" default_max_pods self.max_pods >>= λ max_pods. ok (
      assemble to_lowercase self fallbacks hostname data_dir server_addr server_port node_ip
        max_pods)
