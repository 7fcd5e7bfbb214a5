-- ===== src/Config/Layers.antt =====
-- The configuration that the flags and the file give, against a description of it: every value is the
-- one of the first layer that has one, or else its default.
use krustlet.Prelude.{
  String, ◌≡◌, refl, subst, ◌↔◌, ◌⊎◌, false, Option, none, some, List, [], ◌∷◌, arith, ok-injective,
  nat_eq, string_eq, Result, ok, err, bind-eq-ok, sym, inl, inr,
}
use krustlet.Prelude.Text.{join}
use krustlet.Config.{
  IpAddr, v4, Config, ConfigBuilder, Failure, invalid, panicked, bootstrap_path, with_override,
  build, or, unwrap_or, unwrap_or_call, parsed_or, node_ip_or, no_values,
}
use krustlet.Config.Sources.{
  Opts, Host, ConfigFile, from_opts, from_config_file, default_hostname, default_data_dir,
  default_node_ip, default_key_path, default_cert_path, default_plugins_path,
  default_device_plugins_path, expect, fallbacks_of, unwrap, new_from_builder,
  new_from_file_and_flags_impl, new_from_file_and_flags, default_config_file_path,
  with_default_file, new_from_flags, absent, unopened, read,
}

-- The value of the first layer that has one.
abbrev pub chosen {ℓ} : {A : Type ℓ} → (ConfigBuilder → Option A) → List ConfigBuilder → Option A
chosen field [] = none
chosen field (b ∷ []) = field b
chosen field (b ∷ (b' ∷ layers)) = or (field b) (chosen field (b' ∷ layers))

-- A value that was given, or the default where none was and the default is there.
abbrev pub Takes {ℓ} : {A : Type ℓ} → Option A → Result String A → A → Type ℓ
Takes o default a = (o ≡ some a) ⊎ ((o ≡ none) × (default ≡ ok a))

abbrev pub TakesParsed {ℓ} : {A : Type ℓ} → Option (Result String A) → Result String A → A → Type ℓ
TakesParsed o default a = (o ≡ some (ok a)) ⊎ ((o ≡ none) × (default ≡ ok a))

-- What a configuration has to be. The order of the fields is that of what depends on what.
pub record ComesFrom (host : Host) (layers : List ConfigBuilder) (c : Config) : Type 0 where
  pub hostname : Takes (chosen (λ b. b.hostname) layers) (default_hostname host) c.hostname
  pub data_dir : Takes (chosen (λ b. b.data_dir) layers) (default_data_dir host) c.data_dir
  pub server_addr :
      TakesParsed (chosen (λ b. b.server_addr) layers) (ok (v4 0)) c.server_config.addr
  pub server_port : TakesParsed (chosen (λ b. b.server_port) layers) (ok 3000) c.server_config.port
  pub node_ip :
      TakesParsed
        (chosen (λ b. b.node_ip) layers)
        (default_node_ip host c.hostname c.server_config.addr)
        c.node_ip
  pub max_pods : TakesParsed (chosen (λ b. b.max_pods) layers) (ok 110) c.max_pods
  pub node_name :
      Takes (chosen (λ b. b.node_name) layers) (ok (host.to_lowercase c.hostname)) c.node_name
  pub node_labels : Takes (chosen (λ b. b.node_labels) layers) (ok []) c.node_labels
  pub bootstrap_file :
      Takes (chosen (λ b. b.bootstrap_file) layers) (ok bootstrap_path) c.bootstrap_file
  pub allow_local_modules :
      Takes (chosen (λ b. b.allow_local_modules) layers) (ok false) c.allow_local_modules
  pub insecure_registries : chosen (λ b. b.insecure_registries) layers ≡ c.insecure_registries
  pub plugins_dir :
      Takes (chosen (λ b. b.plugins_dir) layers) (ok (join c.data_dir "plugins")) c.plugins_dir
  pub device_plugins_dir :
      Takes
        (chosen (λ b. b.device_plugins_dir) layers)
        (ok (join c.data_dir "device_plugins"))
        c.device_plugins_dir
  pub cert_file :
      Takes
        (chosen (λ b. b.server_tls_cert_file) layers)
        (ok (join c.data_dir "config/krustlet.crt"))
        c.server_config.cert_file
  pub private_key_file :
      Takes
        (chosen (λ b. b.server_tls_private_key_file) layers)
        (ok (join c.data_dir "config/krustlet.key"))
        c.server_config.private_key_file

module _ {ℓ} {A : Type ℓ} where
  call-Takes :
      (message : String) (r : Result String A) (o : Option A) (a : A)
      → (unwrap_or_call (expect message r) o ≡ ok a) ↔ Takes o r a
  call-Takes message (ok b) none a = ground arith
  call-Takes message (err e) none a = ground arith
  call-Takes message r (some b) a = ground arith

  pure-Takes : (d : A) (o : Option A) (a : A) → (unwrap_or d o ≡ a) ↔ Takes o (ok d) a
  pure-Takes d none a = ground arith
  pure-Takes d (some b) a = ground arith

  parsed_or-TakesParsed :
      (name : String) (d : A) (o : Option (Result String A)) (a : A)
      → (parsed_or name d o ≡ ok a) ↔ TakesParsed o (ok d) a
  unfolding parsed_or
  parsed_or-TakesParsed name d none a = ground arith
  parsed_or-TakesParsed name d (some (ok b)) a = ground arith
  parsed_or-TakesParsed name d (some (err e)) a = ground arith

node_ip_or-TakesParsed :
    (message : String) (r : Result String IpAddr) (o : Option (Result String IpAddr)) (a : IpAddr)
    → (node_ip_or (expect message r) o ≡ ok a) ↔ TakesParsed o r a
unfolding node_ip_or
node_ip_or-TakesParsed message (ok b) none a = ground arith
node_ip_or-TakesParsed message (err e) none a = ground arith
node_ip_or-TakesParsed message r (some (ok b)) a = ground arith
node_ip_or-TakesParsed message r (some (err e)) a = ground arith

unwrap-ok : (r : Result Failure Config) (c : Config) → (unwrap r ≡ ok c) ↔ (r ≡ ok c)
unfolding unwrap
unwrap-ok (ok c') c = ground arith
unwrap-ok (err (invalid e)) c = ground arith
unwrap-ok (err (panicked e)) c = ground arith

-- The builder that layers make.
abbrev overridden : List ConfigBuilder → ConfigBuilder
overridden layers = record {
  node_ip = chosen (λ b. b.node_ip) layers;
  hostname = chosen (λ b. b.hostname) layers;
  node_name = chosen (λ b. b.node_name) layers;
  data_dir = chosen (λ b. b.data_dir) layers;
  bootstrap_file = chosen (λ b. b.bootstrap_file) layers;
  node_labels = chosen (λ b. b.node_labels) layers;
  max_pods = chosen (λ b. b.max_pods) layers;
  server_addr = chosen (λ b. b.server_addr) layers;
  server_port = chosen (λ b. b.server_port) layers;
  server_tls_cert_file = chosen (λ b. b.server_tls_cert_file) layers;
  server_tls_private_key_file = chosen (λ b. b.server_tls_private_key_file) layers;
  allow_local_modules = chosen (λ b. b.allow_local_modules) layers;
  insecure_registries = chosen (λ b. b.insecure_registries) layers;
  plugins_dir = chosen (λ b. b.plugins_dir) layers;
  device_plugins_dir = chosen (λ b. b.device_plugins_dir) layers;
}

with_override-overridden :
    (self other : ConfigBuilder) → with_override self other ≡ overridden (other ∷ (self ∷ []))
unfolding with_override
with_override-overridden self other = refl

built-ComesFrom :
    (host : Host) (layers : List ConfigBuilder) (c : Config)
    → build host.to_lowercase (overridden layers) (fallbacks_of host) ≡ ok c
    → ComesFrom host layers c
unfolding build fallbacks_of default_key_path default_cert_path default_plugins_path
    default_device_plugins_path
built-ComesFrom host layers c h =
    let b : ConfigBuilder = overridden layers in
    let (hostname, e1, h1) = bind-eq-ok _ _ h in
    let (data_dir, e2, h2) = bind-eq-ok _ _ h1 in
    let (server_addr, e3, h3) = bind-eq-ok _ _ h2 in
    let (server_port, e4, h4) = bind-eq-ok _ _ h3 in
    let (node_ip, e5, h5) = bind-eq-ok _ _ h4 in
    let (max_pods, e6, h6) = bind-eq-ok _ _ h5 in
    subst (ComesFrom host layers) (ok-injective h6) (record {
      hostname = (call-Takes _ _ b.hostname hostname).0 e1;
      data_dir = (call-Takes _ _ b.data_dir data_dir).0 e2;
      server_addr = (parsed_or-TakesParsed _ _ b.server_addr server_addr).0 e3;
      server_port = (parsed_or-TakesParsed _ _ b.server_port server_port).0 e4;
      node_ip = (node_ip_or-TakesParsed _ _ b.node_ip node_ip).0 e5;
      max_pods = (parsed_or-TakesParsed _ _ b.max_pods max_pods).0 e6;
      node_name = (pure-Takes _ b.node_name _).0 refl;
      node_labels = (pure-Takes _ b.node_labels _).0 refl;
      bootstrap_file = (pure-Takes _ b.bootstrap_file _).0 refl;
      allow_local_modules = (pure-Takes _ b.allow_local_modules _).0 refl;
      insecure_registries = refl;
      plugins_dir = (pure-Takes _ b.plugins_dir _).0 refl;
      device_plugins_dir = (pure-Takes _ b.device_plugins_dir _).0 refl;
      cert_file = (pure-Takes _ b.server_tls_cert_file _).0 refl;
      private_key_file = (pure-Takes _ b.server_tls_private_key_file _).0 refl;
    })

ComesFrom-built :
    (host : Host) (layers : List ConfigBuilder) (c : Config)
    → ComesFrom host layers c
    → build host.to_lowercase (overridden layers) (fallbacks_of host) ≡ ok c
unfolding build fallbacks_of default_key_path default_cert_path default_plugins_path
    default_device_plugins_path
ComesFrom-built host layers c h =
    let b : ConfigBuilder = overridden layers in
    rw
      (
        (call-Takes _ _ b.hostname c.hostname).1 h.hostname,
        (call-Takes _ _ b.data_dir c.data_dir).1 h.data_dir,
        (parsed_or-TakesParsed _ _ b.server_addr c.server_config.addr).1 h.server_addr,
        (parsed_or-TakesParsed _ _ b.server_port c.server_config.port).1 h.server_port,
        (node_ip_or-TakesParsed _ _ b.node_ip c.node_ip).1 h.node_ip,
        (parsed_or-TakesParsed _ _ b.max_pods c.max_pods).1 h.max_pods,
        (pure-Takes _ b.node_name _).1 h.node_name,
        (pure-Takes _ b.node_labels _).1 h.node_labels,
        (pure-Takes _ b.bootstrap_file _).1 h.bootstrap_file,
        (pure-Takes _ b.allow_local_modules _).1 h.allow_local_modules,
        (pure-Takes _ b.plugins_dir _).1 h.plugins_dir,
        (pure-Takes _ b.device_plugins_dir _).1 h.device_plugins_dir,
        (pure-Takes _ b.server_tls_cert_file _).1 h.cert_file,
        (pure-Takes _ b.server_tls_private_key_file _).1 h.private_key_file,
        h.insecure_registries,
      )
      refl

pub new_from_builder-ComesFrom :
    (host : Host) (b : ConfigBuilder) (c : Config)
    → new_from_builder host b ≡ ok c
    → ComesFrom host (b ∷ []) c
unfolding new_from_builder
new_from_builder-ComesFrom host b c h = built-ComesFrom host (b ∷ []) c ((unwrap-ok _ c).0 h)

or-none {ℓ} : {A : Type ℓ} (o : Option A) → or o none ≡ o
or-none none = refl
or-none (some a) = refl

overridden-no_values : (b : ConfigBuilder) → overridden (b ∷ (no_values ∷ [])) ≡ b
overridden-no_values b =
    rw
      (
        or-none b.node_ip,
        or-none b.hostname,
        or-none b.node_name,
        or-none b.data_dir,
        or-none b.bootstrap_file,
        or-none b.node_labels,
        or-none b.max_pods,
        or-none b.server_addr,
        or-none b.server_port,
        or-none b.server_tls_cert_file,
        or-none b.server_tls_private_key_file,
        or-none b.allow_local_modules,
        or-none b.insecure_registries,
        or-none b.plugins_dir,
        or-none b.device_plugins_dir,
      )
      refl

layered-ComesFrom :
    (host : Host) (layers : List ConfigBuilder) (b : ConfigBuilder) (c : Config)
    → b ≡ overridden layers
    → (new_from_builder host b ≡ ok c) ↔ ComesFrom host layers c
unfolding new_from_builder
layered-ComesFrom host layers b c e = (
  λ h. built-ComesFrom host layers c (
      subst (λ x. build host.to_lowercase x (fallbacks_of host) ≡ ok c) e
        ((unwrap-ok (build host.to_lowercase b (fallbacks_of host)) c).0 h)),
  λ h. (unwrap-ok (build host.to_lowercase b (fallbacks_of host)) c).1 (
      subst (λ x. build host.to_lowercase x (fallbacks_of host) ≡ ok c) (sym e)
        (ComesFrom-built host layers c h)),
)

impl-ComesFrom :
    (host : Host) (file : ConfigFile) (opts : Opts) (b : ConfigBuilder) (c : Config)
    → from_config_file file ≡ ok b
    → (new_from_file_and_flags_impl host opts file ≡ ok c)
      ↔ ComesFrom host (from_opts opts ∷ (b ∷ [])) c
unfolding new_from_file_and_flags_impl
impl-ComesFrom host file opts b c e = rw e (
    layered-ComesFrom host (from_opts opts ∷ (b ∷ [])) (with_override b (from_opts opts)) c
      (with_override-overridden b (from_opts opts)))

default-ComesFrom :
    (host : Host) (file : ConfigFile) (opts : Opts) (b : ConfigBuilder) (c : Config)
    → from_config_file file ≡ ok b
    → (with_default_file host opts file ≡ ok c) ↔ ComesFrom host (from_opts opts ∷ (b ∷ [])) c
unfolding with_default_file new_from_flags from_config_file
default-ComesFrom host absent opts b c e =
    layered-ComesFrom host (from_opts opts ∷ (b ∷ [])) (from_opts opts) c (
      sym (
        subst (λ x. overridden (from_opts opts ∷ (x ∷ [])) ≡ from_opts opts) (ok-injective e)
          (overridden-no_values (from_opts opts))))
default-ComesFrom host (unopened m) opts b c e = impl-ComesFrom host (unopened m) opts b c e
default-ComesFrom host (read r) opts b c e = impl-ComesFrom host (read r) opts b c e

-- The file is the one that is given, or else the one at the default path; a file that is absent, given
-- or not, counts as one without values. Where the file can be read, `new_from_file_and_flags` gives a
-- configuration exactly if every value of it is the flag's, or else the file's, or else the default's:
-- no value is taken of a lower layer while a higher one has one, a value that does not parse counts
-- only where no flag replaces it, and the defaults that depend on the host name, the data directory or
-- the server's address depend on the one that was chosen. The flags always have a bootstrap file.
pub new_from_file_and_flags-ComesFrom :
    (host : Host) (files : String → ConfigFile) (opts : Opts) (given : Option String)
    (path : String) (b : ConfigBuilder) (c : Config)
    → (given ≡ some path) ⊎ ((given ≡ none) × (default_config_file_path host ≡ ok path))
    → from_config_file (files path) ≡ ok b
    → (new_from_file_and_flags host files opts given ≡ ok c)
      ↔ ComesFrom host (from_opts opts ∷ (b ∷ [])) c
unfolding new_from_file_and_flags
new_from_file_and_flags-ComesFrom host files opts given path b c (inl e) h =
    rw e (impl-ComesFrom host (files path) opts b c h)
new_from_file_and_flags-ComesFrom host files opts given path b c (inr (e, at)) h =
    rw (e, at) (default-ComesFrom host (files path) opts b c h)
