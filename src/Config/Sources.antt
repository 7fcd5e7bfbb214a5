-- ===== src/Config/Sources.antt =====
-- crates/kubelet/src/config.rs: where the values come from (the flags, the file, the host), and the
-- functions that make a configuration of them. What clap, serde, the resolver and the operating
-- system give is an argument.
use krustlet.Prelude.{
  ℕ, ◌<>◌, ◌/◌, ◌^◌, String, Bool, true, false, not, ◌&&◌, Option, none, some, List, [], ◌∷◌, map,
  Result, ok, err, ◌>>=◌, find, ◌==◌, nat_eq, string_eq, if◌then◌else◌,
}
use krustlet.Prelude.Dict.{Dict, extend}
use krustlet.Prelude.Text.{split_once, split, trim, join}
use krustlet.Config.{
  IpAddr, v4, v6, Config, ConfigBuilder, no_values, ConfigBuilderFallbacks, Failure, invalid,
  panicked, default_port, default_max_pods, bootstrap_path, with_override, build, unwrap_or,
}

-- The command line options.
pub record Opts : Type 0 where
  pub addr : Option IpAddr
  pub port : Option ℕ
  pub max_pods : Option ℕ
  pub cert_file : Option String
  pub private_key_file : Option String
  pub node_ip : Option IpAddr
  pub node_labels : List String
  pub hostname : Option String
  pub node_name : Option String
  pub data_dir : Option String
  pub bootstrap_file : String
  pub plugins_dir : Option String
  pub device_plugins_dir : Option String
  pub allow_local_modules : Option Bool
  pub insecure_registries : Option String

-- The option `bootstrap_file` has a default value.
abbrev pub bootstrap_option : Option String → String
bootstrap_option given = unwrap_or bootstrap_path given

-- What the machine tells: the host name, `none` if it is no UTF-8, the home directory, the addresses
-- that a name resolves to, and `str::to_lowercase`.
pub record Host : Type 0 where
  pub hostname : Result String (Option String)
  pub home_dir : Option String
  pub to_socket_addrs : String → Result String (List IpAddr)
  pub to_lowercase : String → String

-- A configuration file: what `exists`, `File::open` and `serde_json::from_reader` say.
pub data ConfigFile : Type 0 where
  absent : ConfigFile
  unopened : String → ConfigFile
  read : Result String ConfigBuilder → ConfigFile

unfoldable pub split_one_label : String → Option (String × String)
split_one_label in_string = if in_string == "" then none else elim (split_once b'=' in_string) [
  | none ↦ some (in_string, "")
  | some (key, val) ↦ if key == "" then none else some (key, val)
]

-- `filter_map` with `split_one_label`
unfoldable pub split_labels : List String → List (String × String)
split_labels [] = []
split_labels (l ∷ labels) =
    let rest = split_labels labels in
    elim (split_one_label l) [ none ↦ rest | some pair ↦ pair ∷ rest ]

unfoldable pub labels_of : List (String × String) → Option (Dict String String)
labels_of [] = none
labels_of (pair ∷ pairs) = some (extend [] (pair ∷ pairs))

unfoldable pub parse_comma_separated : String → List String
parse_comma_separated source = map (λ s. trim s) (split b',' source)

unfoldable pub ok_result_of {ℓ} : {A : Type ℓ} → Option A → Option (Result String A)
ok_result_of none = none
ok_result_of (some a) = some (ok a)

abbrev pub map_some {ℓ κ} : {A : Type ℓ} {B : Type κ} → (A → B) → Option A → Option B
map_some f none = none
map_some f (some a) = some (f a)

unfoldable pub from_opts : Opts → ConfigBuilder
from_opts opts = record {
  node_ip = ok_result_of opts.node_ip;
  node_name = opts.node_name;
  node_labels = labels_of (split_labels opts.node_labels);
  bootstrap_file = some opts.bootstrap_file;
  hostname = opts.hostname;
  data_dir = opts.data_dir;
  max_pods = ok_result_of opts.max_pods;
  allow_local_modules = opts.allow_local_modules;
  insecure_registries = map_some parse_comma_separated opts.insecure_registries;
  plugins_dir = opts.plugins_dir;
  device_plugins_dir = opts.device_plugins_dir;
  server_addr = ok_result_of opts.addr;
  server_port = ok_result_of opts.port;
  server_tls_cert_file = opts.cert_file;
  server_tls_private_key_file = opts.private_key_file;
}

unfoldable pub from_config_file : ConfigFile → Result String ConfigBuilder
from_config_file absent = ok no_values
from_config_file (unopened e) = err e
from_config_file (read r) = r

unfoldable pub default_hostname : Host → Result String String
default_hostname host = host.hostname >>= λ name. elim name [
  | none ↦ err "invalid utf-8 hostname string"
  | some s ↦ ok s
]

unfoldable pub default_data_dir : Host → Result String String
default_data_dir host = elim host.home_dir [
  | none ↦ err "Unable to get home directory"
  | some home ↦ ok (join home ".krustlet")
]

unfoldable pub default_key_path : String → String
default_key_path data_dir = join data_dir "config/krustlet.key"

unfoldable pub default_cert_path : String → String
default_cert_path data_dir = join data_dir "config/krustlet.crt"

unfoldable pub default_plugins_path : String → String
default_plugins_path data_dir = join data_dir "plugins"

unfoldable pub default_device_plugins_path : String → String
default_device_plugins_path data_dir = join data_dir "device_plugins"

unfoldable pub is_same_ip_family : IpAddr → IpAddr → Bool
is_same_ip_family (v4 _) (v4 _) = true
is_same_ip_family (v4 _) (v6 _) = false
is_same_ip_family (v6 _) (v4 _) = false
is_same_ip_family (v6 _) (v6 _) = true

-- `IpAddr::is_loopback`, `is_multicast` and `is_unspecified`
abbrev pub is_loopback : IpAddr → Bool
is_loopback (v4 a) = a / 2 ^ 24 == 127
is_loopback (v6 a) = a == 1

abbrev pub is_multicast : IpAddr → Bool
is_multicast (v4 a) = a / 2 ^ 28 == 14
is_multicast (v6 a) = a / 2 ^ 120 == 255

abbrev pub is_unspecified : IpAddr → Bool
is_unspecified (v4 a) = a == 0
is_unspecified (v6 a) = a == 0

unfoldable pub is_node_ip : IpAddr → IpAddr → Bool
is_node_ip preferred_ip_family i =
    not (is_loopback i)
    && not (is_multicast i)
    && not (is_unspecified i)
    && is_same_ip_family i preferred_ip_family

unfoldable pub default_node_ip : Host → String → IpAddr → Result String IpAddr
default_node_ip host hostname preferred_ip_family =
    host.to_socket_addrs (hostname <> ":80") >>= λ addrs.
    elim (find (is_node_ip preferred_ip_family) addrs) [
      | none ↦ err "unable to find default IP address for node. Please specify a node IP manually"
      | some i ↦ ok i
    ]

-- `Result::expect`
abbrev pub expect {ℓ} : {A : Type ℓ} → String → Result String A → Result Failure A
expect message (ok a) = ok a
expect message (err e) = err (panicked (message <> (": " <> e)))

unfoldable pub fallbacks_of : Host → ConfigBuilderFallbacks
fallbacks_of host = record {
  hostname = expect "unable to get default hostname" (default_hostname host);
  data_dir = expect "unable to get default data directory" (default_data_dir host);
  cert_path = default_cert_path;
  key_path = default_key_path;
  plugins_dir = default_plugins_path;
  device_plugins_dir = default_device_plugins_path;
  node_ip =
      λ hostname ip. expect "unable to get default node IP" (default_node_ip host hostname ip);
  bootstrap_file = bootstrap_path;
}

-- `Result::unwrap`, an error being a panic.
unfoldable pub unwrap : Result Failure Config → Result String Config
unwrap (ok c) = ok c
unwrap (err (invalid e)) = err e
unwrap (err (panicked e)) = err e

-- An error is a panic for the functions from here to `new_from_file_and_flags`.
unfoldable pub new_from_builder : Host → ConfigBuilder → Result String Config
new_from_builder host builder = unwrap (build host.to_lowercase builder (fallbacks_of host))

unfoldable pub new_from_file : Host → ConfigFile → Result String Config
new_from_file host file = from_config_file file >>= new_from_builder host

unfoldable pub new_from_flags : Host → Opts → Result String Config
new_from_flags host opts = new_from_builder host (from_opts opts)

unfoldable pub new_from_file_and_flags_impl : Host → Opts → ConfigFile → Result String Config
new_from_file_and_flags_impl host opts file = from_config_file file >>= λ config_file_builder.
    new_from_builder host (with_override config_file_builder (from_opts opts))

unfoldable pub default_config_file_path : Host → Result String String
default_config_file_path host = elim host.home_dir [
  | none ↦ err "called `Option::unwrap()` on a `None` value"
  | some home ↦ ok (join home ".krustlet/config/config.json")
]

-- The default path's file is used if there is one.
unfoldable pub with_default_file : Host → Opts → ConfigFile → Result String Config
with_default_file host opts absent = new_from_flags host opts
with_default_file host opts (unopened e) = new_from_file_and_flags_impl host opts (unopened e)
with_default_file host opts (read r) = new_from_file_and_flags_impl host opts (read r)

unfoldable pub new_from_file_and_flags :
    Host → (String → ConfigFile) → Opts → Option String → Result String Config
new_from_file_and_flags host files opts none =
    default_config_file_path host >>= λ path. with_default_file host opts (files path)
new_from_file_and_flags host files opts (some path) =
    new_from_file_and_flags_impl host opts (files path)

-- `IpAddr::UNSPECIFIED` of the preferred family
unfoldable pub unspecified_of : IpAddr → IpAddr
unspecified_of (v4 _) = v4 0
unspecified_of (v6 _) = v6 0

unfoldable pub default_config : Host → IpAddr → Result String Config
default_config host preferred_ip_family = default_hostname host >>= λ hostname.
    default_data_dir host >>= λ data_dir.
    default_node_ip host hostname preferred_ip_family >>= λ node_ip. ok (record {
      node_ip = node_ip;
      node_name = host.to_lowercase hostname;
      node_labels = [];
      hostname = hostname;
      data_dir = data_dir;
      max_pods = default_max_pods;
      bootstrap_file = bootstrap_path;
      allow_local_modules = false;
      insecure_registries = none;
      plugins_dir = default_plugins_path data_dir;
      device_plugins_dir = default_device_plugins_path data_dir;
      server_config = record {
        addr = unspecified_of preferred_ip_family;
        port = default_port;
        cert_file = default_cert_path data_dir;
        private_key_file = default_key_path data_dir;
      };
    })
