-- ===== src/PluginWatcher.antt =====
-- crates/kubelet/src/plugin_watcher/mod.rs: the registry of plugins, which are found by their sockets.
-- What a plugin answers, what the directory holds and the events of the file system are arguments. A path
-- is its text, written with one slash between two components and none at its end.
pub mod Names
pub mod Accept
pub mod Removal
use krustlet.Prelude.{
  ℕ, zero, suc, ◌+◌, ◌-◌, ◌*◌, ◌≤◌, ◌<◌, min, String, ◌<>◌, ◌≡◌, refl, sym, ap, subst, ◌∙◌, ◌≢◌,
  ◌↔◌, ◌⊎◌, inl, inr, Bool, true, false, not, ◌&&◌, ◌||◌, Option, none, some, List, [], ◌∷◌, ◌++◌,
  map, arith, ltb, leb, if◌then◌else◌, Bool-cases, Option-cases, Result-cases, List-cases,
  some-injective, ok-injective, Eq, ◌==◌, nat_eq, string_eq, str_eq_iff, ==_refl, ==_ne, contains,
  length, get_elem?, take, length-append, keep_if, find, Result, ok, err, ◌>>=◌, ◌>>◌, Panic,
  overflow, nothing, bind-eq-ok, All,
}
use krustlet.Prelude.Dict.{
  Dict, keys, values, lookup, insert, remove, contains_key, extend, NodupKeys, lookup-nil,
  lookup-cons, lookup-insert, lookup-remove, lookup-extend,
}
use krustlet.Prelude.Text.{split}

-- The message of the registration API.
pub record PluginInfo : Type 0 where
  pub type_name : String
  pub name : String
  pub endpoint : String
  pub supported_versions : List String

pub data PluginType : Type 0 where
  csi_plugin device_plugin : PluginType

pub record PluginEntry : Type 0 where
  pub plugin_path : String
  pub endpoint : Option String

-- Why a plugin is refused.
pub data Rejection : Type 0 where
  unknown_type : String → Rejection
  device_plugins_unsupported : Rejection
  version_unsupported : Rejection
  endpoint_differs : Option String → String → Rejection
  path_differs : String → String → Rejection

-- How a plugin answers on its socket: to `GetInfo`, and to the notification of its registration.
pub record Peer : Type 0 where
  pub info : Result String PluginInfo
  pub informed : Option Rejection → Result String (Unit {0})

pub data CreateError : Type 0 where
  no_info : String → CreateError
  not_informed : String → CreateError
  rejected : Rejection → CreateError

abbrev pub Plugins : Type 0
Plugins = Dict String PluginEntry

abbrev pub api_version : String
api_version = "1.0.0"

unfoldable pub plugin_type : String → Result Rejection PluginType
plugin_type value =
    if value == "CSIPlugin"
    then ok csi_plugin
    else if value == "DevicePlugin"
    then ok device_plugin
    else err (unknown_type value)

unfoldable pub is_allowed_plugin_type : PluginType → Bool
is_allowed_plugin_type csi_plugin = true
is_allowed_plugin_type device_plugin = false

unfoldable pub validate_plugin_type : String → Result Rejection (Unit {0})
validate_plugin_type value = plugin_type value >>= λ t.
    if is_allowed_plugin_type t then ok tt else err device_plugins_unsupported

unfoldable pub validate_plugin_version : List String → Result Rejection (Unit {0})
validate_plugin_version supported_versions =
    if contains api_version supported_versions then ok tt else err version_unsupported

-- `Some(PathBuf::from(&info.endpoint)) != current_path.endpoint`
unfoldable pub is_endpoint : String → Option String → Bool
is_endpoint endpoint none = false
is_endpoint endpoint (some e) = endpoint == e

unfoldable pub check_entry : PluginInfo → String → PluginEntry → Result Rejection (Unit {0})
check_entry info discovered_path current_path =
    if not (info.endpoint == "") && not (is_endpoint info.endpoint current_path.endpoint)
    then err (endpoint_differs current_path.endpoint info.endpoint)
    else if not (discovered_path == current_path.plugin_path)
    then err (path_differs current_path.plugin_path discovered_path)
    else ok tt

unfoldable pub validate_is_unique : Plugins → PluginInfo → String → Result Rejection (Unit {0})
validate_is_unique plugins info discovered_path = elim (lookup info.name plugins) [
  | none ↦ ok tt
  | some current_path ↦ check_entry info discovered_path current_path
]

unfoldable pub validate : Plugins → PluginInfo → String → Result Rejection (Unit {0})
validate plugins info discovered_path =
    validate_plugin_type info.type_name
    >> validate_plugin_version info.supported_versions
    >> validate_is_unique plugins info discovered_path

unfoldable pub entry_of : PluginInfo → String → PluginEntry
entry_of info discovered_path = record {
  plugin_path = discovered_path;
  endpoint = if info.endpoint == "" then none else some info.endpoint;
}

unfoldable pub register : PluginInfo → String → Plugins → Plugins
register info discovered_path plugins = insert info.name (entry_of info discovered_path) plugins

unfoldable pub get_endpoint : String → Plugins → Option String
get_endpoint plugin_name plugins = elim (lookup plugin_name plugins) [
  | none ↦ none
  | some v ↦ some (elim v.endpoint [ none ↦ v.plugin_path | some e ↦ e ])
]

unfoldable pub inform_plugin : Peer → Option Rejection → Result CreateError (Unit {0})
inform_plugin peer error = elim (peer.informed error) [
  | ok _ ↦ ok tt
  | err e ↦ err (not_informed e)
]

-- What follows the validation.
unfoldable pub conclude :
    Peer
    → PluginInfo
    → String
    → Result Rejection (Unit {0})
    → Plugins
    → Plugins × Result CreateError (Unit {0})
conclude peer info path (err e) plugins = (plugins, inform_plugin peer (some e) >> err (rejected e))
conclude peer info path (ok _) plugins = (register info path plugins, inform_plugin peer none)

-- The body of the loop of `handle_create`.
unfoldable pub handle_path : Peer → String → Plugins → Plugins × Result CreateError (Unit {0})
handle_path peer path plugins = elim peer.info [
  | err e ↦ (plugins, err (no_info e))
  | ok info ↦ conclude peer info path (validate plugins info path) plugins
]

-- The loop, left at the first error.
unfoldable pub handle_paths :
    (String → Peer) → List String → Plugins → Plugins × Result CreateError (Unit {0})
handle_paths peers [] plugins = (plugins, ok tt)
handle_paths peers (path ∷ paths) plugins =
    let (plugins', r) = handle_path (peers path) path plugins in
    let rest = handle_paths peers paths plugins' in
    elim r [ ok _ ↦ rest | err e ↦ (plugins', err e) ]

-- `Path::extension`: of the last component, what stands after the last dot that is not its first sign.
abbrev pub last_part : List String → Option String
last_part [] = none
last_part (part ∷ []) = some part
last_part (part ∷ (next ∷ parts)) = last_part (next ∷ parts)

abbrev pub dotted_end : List String → Option String
dotted_end [] = none
dotted_end (part ∷ []) = none
dotted_end (part ∷ (next ∷ [])) = if part == "" then none else some next
dotted_end (part ∷ (next ∷ (third ∷ parts))) = last_part (third ∷ parts)

unfoldable pub extension : String → Option String
extension path =
    elim (last_part (keep_if (λ part. not (part == "") && not (part == ".")) (split b'/' path))) [
      | none ↦ none
      | some name ↦ if name == ".." then none else dotted_end (split b'.' name)
    ]

unfoldable pub plugin_paths : (String → Bool) → List String → List String
plugin_paths is_dir paths =
    keep_if (λ p. not (is_dir p) && elim (extension p) [ none ↦ false | some e ↦ e == "sock" ])
      paths

unfoldable pub handle_create :
    (String → Bool)
    → (String → Peer)
    → List String
    → Plugins
    → Plugins × Result CreateError (Unit {0})
handle_create is_dir peers paths plugins = handle_paths peers (plugin_paths is_dir paths) plugins

-- The first name whose plugin has this path.
unfoldable pub name_at : String → Plugins → Option String
name_at path [] = none
name_at path ((key, v) ∷ plugins) = if v.plugin_path == path then some key else name_at path plugins

unfoldable pub remove_plugin : String → Plugins → Plugins
remove_plugin deleted_plugin plugins = elim (name_at deleted_plugin plugins) [
  | none ↦ plugins
  | some key ↦ remove key plugins
]

unfoldable pub remove_plugins : List String → Plugins → Plugins
remove_plugins [] plugins = plugins
remove_plugins (path ∷ paths) plugins = remove_plugins paths (remove_plugin path plugins)

unfoldable pub handle_delete : (String → Bool) → List String → Plugins → Plugins
handle_delete is_dir paths plugins = remove_plugins (plugin_paths is_dir paths) plugins

-- What the watcher reports, with the file system and the plugins as they are then.
pub data WatchEvent : Type 0 where
  created : (String → Bool) → (String → Peer) → List String → WatchEvent
  removed : (String → Bool) → List String → WatchEvent
  other : WatchEvent
  watch_failed : String → WatchEvent

-- An error is written to the log.
unfoldable pub handle_event : WatchEvent → Plugins → Plugins
handle_event (created is_dir peers paths) plugins = (handle_create is_dir peers paths plugins).0
handle_event (removed is_dir paths) plugins = handle_delete is_dir paths plugins
handle_event other plugins = plugins
handle_event (watch_failed e) plugins = plugins

unfoldable pub watch : List WatchEvent → Plugins → Plugins
watch [] plugins = plugins
watch (event ∷ events) plugins = watch events (handle_event event plugins)

-- The entries of the directory at the start, each as an event of its own.
unfoldable pub load : (String → Bool) → (String → Peer) → List String → Plugins → Plugins
load is_dir peers [] plugins = plugins
load is_dir peers (dir ∷ dirs) plugins =
    load is_dir peers dirs (handle_create is_dir peers (dir ∷ []) plugins).0

-- What the operating system answers to `run`.
pub record Directory : Type 0 where
  pub dir_created : Result String (Unit {0})
  pub dir_entries : Result String (List String)
  pub watched : Result String (List WatchEvent)

unfoldable pub run :
    (String → Bool) → (String → Peer) → Directory → Plugins → Plugins × Result String (Unit {0})
run is_dir peers d plugins = elim (d.dir_created >> d.dir_entries) [
  | err e ↦ (plugins, err e)
  | ok dirs ↦
      let loaded = load is_dir peers dirs plugins in
      elim d.watched [ err e ↦ (loaded, err e) | ok events ↦ (watch events loaded, ok tt) ]
]
