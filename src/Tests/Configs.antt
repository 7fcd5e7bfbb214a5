-- ===== src/Tests/Configs.antt =====
-- Runs of the theorems on configurations.
use krustlet.Prelude.{
  String, ◌≡◌, refl, ◌↔◌, false, none, some, [], ◌∷◌, if◌then◌else◌, ◌==◌, nat_eq, string_eq, find,
  ok, err, inl,
}
use krustlet.Prelude.Dict.{Dict, lookup, insert, extend}
use krustlet.Config.{
  v4, v6, Config, ConfigBuilder, ConfigBuilderFallbacks, no_values, build, unwrap_or, with_override,
  parsed_or, node_ip_or,
}
use krustlet.Config.Sources.{
  Opts, Host, ConfigFile, read, absent, from_opts, from_config_file, fallbacks_of, unwrap,
  new_from_builder, new_from_file_and_flags, new_from_file_and_flags_impl, default_hostname,
  default_data_dir, default_node_ip, is_node_ip, is_same_ip_family, split_one_label, split_labels,
  labels_of, ok_result_of, default_key_path, default_cert_path, default_plugins_path,
  default_device_plugins_path, parse_comma_separated,
}
use krustlet.Prelude.Text.{split_once, has_char, split, join, ends_with_char, trim_start, trim_end}
use krustlet.Config.Layers.{ComesFrom, new_from_file_and_flags-ComesFrom}
use krustlet.Config.Labels.{from_opts-print_label}

abbrev host : Host
host = record {
  hostname = ok (some "Node");
  home_dir = some "/root";
  to_socket_addrs = λ name. ok (v4 2130706433 ∷ (v6 1 ∷ (v4 167772161 ∷ [])));
  to_lowercase = λ s. if s == "Node" then "node" else s;
}

abbrev flags : Opts
flags = record {
  addr = none;
  port = some 3001;
  max_pods = none;
  cert_file = none;
  private_key_file = none;
  node_ip = none;
  node_labels = "zone=a=b" ∷ ("plain=" ∷ []);
  hostname = none;
  node_name = none;
  data_dir = some "/data/";
  bootstrap_file = "/boot.conf";
  plugins_dir = none;
  device_plugins_dir = none;
  allow_local_modules = none;
  insecure_registries = some "a.io, b.io";
}

-- The file has a bad port, which the flag replaces.
abbrev file_builder : ConfigBuilder
file_builder = record no_values { server_port = some (err "no number"); max_pods = some (ok 7) }

abbrev files : String → ConfigFile
files path = if path == "/config.json" then read (ok file_builder) else absent

abbrev config : Config
config = record {
  node_ip = v4 167772161;
  hostname = "Node";
  node_name = "node";
  server_config = record {
    addr = v4 0;
    port = 3001;
    cert_file = "/data/config/krustlet.crt";
    private_key_file = "/data/config/krustlet.key";
  };
  data_dir = "/data/";
  node_labels = ("zone", "a=b") ∷ (("plain", "") ∷ []);
  max_pods = 7;
  bootstrap_file = "/boot.conf";
  allow_local_modules = false;
  insecure_registries = some ("a.io" ∷ ("b.io" ∷ []));
  plugins_dir = "/data/plugins";
  device_plugins_dir = "/data/device_plugins";
}

new_from_file_and_flags-ComesFrom_example :
    (new_from_file_and_flags host files flags (some "/config.json") ≡ ok config)
    ↔ ComesFrom host (from_opts flags ∷ (file_builder ∷ [])) config
unfolding from_config_file
new_from_file_and_flags-ComesFrom_example =
    new_from_file_and_flags-ComesFrom host files flags (some "/config.json") "/config.json"
      file_builder config (inl refl) refl

-- The configuration that these give.
config_is : new_from_file_and_flags host files flags (some "/config.json") ≡ ok config
unfolding new_from_file_and_flags new_from_file_and_flags_impl from_config_file with_override
    new_from_builder unwrap build fallbacks_of from_opts default_hostname default_data_dir
    default_node_ip is_node_ip is_same_ip_family split_one_label split_labels labels_of find
    parsed_or node_ip_or ok_result_of split_once has_char split join ends_with_char trim_start
    trim_end insert extend default_key_path default_cert_path default_plugins_path
    default_device_plugins_path parse_comma_separated
config_is = refl

abbrev total_fallbacks : ConfigBuilderFallbacks
total_fallbacks = record {
  hostname = ok "node";
  data_dir = ok "/data";
  bootstrap_file = "/boot.conf";
  cert_path = λ d. d;
  key_path = λ d. d;
  plugins_dir = λ d. d;
  device_plugins_dir = λ d. d;
  node_ip = λ name ip. ok ip;
}

abbrev labels : Dict String String
labels = ("zone", "a=b") ∷ (("plain", "") ∷ [])

from_opts-print_label_example :
    lookup "zone" (unwrap_or [] (from_opts flags).node_labels) ≡ lookup "zone" labels
unfolding lookup has_char
from_opts-print_label_example =
    from_opts-print_label flags labels "zone" refl ((refl, refl), ((refl, refl), tt))
      (refl, (refl, tt))

-- What a file with a data directory alone gives.
abbrev plain_builder : ConfigBuilder
plain_builder = record no_values { data_dir = some "/data" }

abbrev plain_config : Config
plain_config = record {
  node_ip = v4 167772161;
  hostname = "Node";
  node_name = "node";
  server_config = record {
    addr = v4 0;
    port = 3000;
    cert_file = "/data/config/krustlet.crt";
    private_key_file = "/data/config/krustlet.key";
  };
  data_dir = "/data";
  node_labels = [];
  max_pods = 110;
  bootstrap_file = "/etc/kubernetes/bootstrap-kubelet.conf";
  allow_local_modules = false;
  insecure_registries = none;
  plugins_dir = "/data/plugins";
  device_plugins_dir = "/data/device_plugins";
}
