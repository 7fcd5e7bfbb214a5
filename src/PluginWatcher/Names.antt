-- ===== src/PluginWatcher/Names.antt =====
-- A name that is registered stays with its socket.
use krustlet.Prelude.{
  String, ◌≡◌, refl, sym, ap, ◌∙◌, ◌≢◌, ◌⊎◌, inl, inr, true, false, Option, none, some, List, [],
  ◌∷◌, arith, Bool-cases, Option-cases, Result-cases, some-injective, ◌==◌, nat_eq, string_eq,
  str_eq_iff, ==_refl, ==_ne, contains, ok, ◌>>◌, All, then-eq-ok,
}
use krustlet.Prelude.Dict.{
  lookup, NodupKeys, lookup-insert, lookup-remove, insert-NodupKeys, remove-NodupKeys,
}
use krustlet.PluginWatcher.{
  PluginInfo, PluginEntry, Peer, Plugins, WatchEvent, created, removed, other, watch_failed,
  is_endpoint, check_entry, validate_is_unique, validate, validate_plugin_type,
  validate_plugin_version, entry_of, register, conclude, handle_path, handle_paths, plugin_paths,
  handle_create, name_at, remove_plugin, remove_plugins, handle_delete, handle_event, watch,
}

-- The name belongs to the plugin at this path, with this endpoint or without one.
abbrev pub Holds : String → String → Option String → Plugins → Type 0
Holds name path endpoint plugins =
    (v : PluginEntry) × (lookup name plugins ≡ some v)
    × (v.plugin_path ≡ path)
    × ((v.endpoint ≡ endpoint) ⊎ (v.endpoint ≡ none))

-- No removal of the path.
abbrev pub Spares : String → WatchEvent → Type 0
Spares path (removed is_dir paths) = contains path (plugin_paths is_dir paths) ≡ false
Spares path (created is_dir peers paths) = Unit
Spares path other = Unit
Spares path (watch_failed e) = Unit

is_endpoint-true : (e : String) (o : Option String) → is_endpoint e o ≡ true → o ≡ some e
unfolding is_endpoint
is_endpoint-true e none h = cc
is_endpoint-true e (some e') h = ap (λ x. some x) (sym ((str_eq_iff e e').0 h))

pub check_entry-ok :
    (info : PluginInfo) (path : String) (v : PluginEntry)
    → check_entry info path v ≡ ok tt
    → (path ≡ v.plugin_path) × (((info.endpoint == "") ≡ true) ⊎ (v.endpoint ≡ some info.endpoint))
unfolding check_entry
check_entry-ok info path v h = elim (Bool-cases (info.endpoint == "")) [
  | inl e ↦ (ground (arith, e, h, str_eq_iff path v.plugin_path), inl e)
  | inr e ↦ elim (Bool-cases (is_endpoint info.endpoint v.endpoint)) [
    | inl e' ↦ (
      ground (arith, e, e', h, str_eq_iff path v.plugin_path),
      inr (is_endpoint-true info.endpoint v.endpoint e'),
    )
    | inr e' ↦ absurd (ground (arith, e, e', h))
  ]
]

validate-validate_is_unique :
    (plugins : Plugins) (info : PluginInfo) (path : String)
    → validate plugins info path ≡ ok tt
    → validate_is_unique plugins info path ≡ ok tt
unfolding validate
validate-validate_is_unique plugins info path h =
    (then-eq-ok
      (validate_plugin_type info.type_name >> validate_plugin_version info.supported_versions) h).1

entry_of-path : (info : PluginInfo) (path : String) → (entry_of info path).plugin_path ≡ path
unfolding entry_of
entry_of-path info path = refl

-- The entry after a registration that was valid.
entry_of-endpoint :
    (info : PluginInfo) (path : String) (endpoint : Option String) (v : PluginEntry)
    → ((info.endpoint == "") ≡ true) ⊎ (v.endpoint ≡ some info.endpoint)
    → (v.endpoint ≡ endpoint) ⊎ (v.endpoint ≡ none)
    → ((entry_of info path).endpoint ≡ endpoint) ⊎ ((entry_of info path).endpoint ≡ none)
unfolding entry_of
entry_of-endpoint info path endpoint v (inl e) was = inr (ground (arith, e))
entry_of-endpoint info path endpoint v (inr e) (inr was) = absurd cc
entry_of-endpoint info path endpoint v (inr e) (inl was) = elim (Bool-cases (info.endpoint == "")) [
  | inl e' ↦ inr (ground (arith, e'))
  | inr e' ↦ inl (ground (arith, e', e, was))
]

register-Holds :
    (name path : String) (endpoint : Option String) (info : PluginInfo) (found : String)
    (plugins : Plugins)
    → validate plugins info found ≡ ok tt
    → Holds name path endpoint plugins
    → Holds name path endpoint (register info found plugins)
unfolding register validate_is_unique
register-Holds name path endpoint info found plugins valid (v, at, same, was) =
    elim (Bool-cases (info.name == name)) [
      | inl e ↦
          let named : info.name ≡ name = (str_eq_iff info.name name).0 e in
          let checked : check_entry info found v ≡ ok tt =
            ground (arith, named, at, validate-validate_is_unique plugins info found valid) in
          let (path_is, endpoint_is) = check_entry-ok info found v checked in
          (
            entry_of info found,
            ground (arith, e, lookup-insert info.name name (entry_of info found) plugins),
            entry_of-path info found ∙ (path_is ∙ same),
            entry_of-endpoint info found endpoint v endpoint_is was,
          )
      | inr e ↦ (
        v,
        ground (arith, e, at, lookup-insert info.name name (entry_of info found) plugins),
        same,
        was,
      )
    ]

handle_path-Holds :
    (name path : String) (endpoint : Option String) (peer : Peer) (found : String)
    (plugins : Plugins)
    → Holds name path endpoint plugins
    → Holds name path endpoint (handle_path peer found plugins).0
unfolding handle_path conclude
handle_path-Holds name path endpoint peer found plugins h = elim (Result-cases peer.info) [
  | inr (e, q) ↦ rw q h
  | inl (info, q) ↦ elim (Result-cases (validate plugins info found)) [
    | inr (e, q') ↦ rw (q, q') h
    | inl (_, q') ↦ rw (q, q') (register-Holds name path endpoint info found plugins q' h)
  ]
]

handle_path-NodupKeys :
    (peer : Peer) (found : String) (plugins : Plugins)
    → NodupKeys plugins
    → NodupKeys (handle_path peer found plugins).0
unfolding handle_path conclude register
handle_path-NodupKeys peer found plugins u = elim (Result-cases peer.info) [
  | inr (e, q) ↦ rw q u
  | inl (info, q) ↦ elim (Result-cases (validate plugins info found)) [
    | inr (e, q') ↦ rw (q, q') u
    | inl (_, q') ↦ rw (q, q') (insert-NodupKeys info.name (entry_of info found) plugins u)
  ]
]

-- What `name_at` finds is registered there.
pub name_at-lookup :
    (path key : String) (plugins : Plugins)
    → NodupKeys plugins
    → name_at path plugins ≡ some key
    → (v : PluginEntry) × (lookup key plugins ≡ some v) × (v.plugin_path ≡ path)
unfolding name_at lookup
name_at-lookup path key [] u h = absurd cc
name_at-lookup path key ((k, v) ∷ plugins) u h = elim (Bool-cases (v.plugin_path == path)) [
  | inl e ↦
      let same : k ≡ key = some-injective (ground (arith, e, h)) in
      (v, ground (arith, same, str_eq_iff k key), (str_eq_iff v.plugin_path path).0 e)
  | inr e ↦
      let (w, at, there) = name_at-lookup path key plugins u.1 (ground (arith, e, h)) in
      (w, ground (arith, at, u.0, str_eq_iff k key), there)
]

remove_plugin-Holds :
    (name path : String) (endpoint : Option String) (deleted : String) (plugins : Plugins)
    → NodupKeys plugins
    → path ≢ deleted
    → Holds name path endpoint plugins
    → Holds name path endpoint (remove_plugin deleted plugins)
unfolding remove_plugin
remove_plugin-Holds name path endpoint deleted plugins u differ (v, at, same, was) =
    elim (Option-cases (name_at deleted plugins)) [
      | inl e ↦ rw (e, remove_plugin) (v, at, same, was)
      | inr (key, e) ↦
          let (w, at', there) = name_at-lookup deleted key plugins u e in
          let other_name : key ≢ name = λ q. differ (
            sym same
            ∙ ap (λ x. x.plugin_path)
                (some-injective (sym at ∙ ap (λ k. lookup k plugins) (sym q) ∙ at'))
            ∙ there) in
          rw (e, remove_plugin)
            (
              v,
              ground (arith, at, lookup-remove key name plugins, ==_ne key name other_name),
              same,
              was,
            )
    ]

pub remove_plugin-NodupKeys :
    (deleted : String) (plugins : Plugins)
    → NodupKeys plugins
    → NodupKeys (remove_plugin deleted plugins)
unfolding remove_plugin
remove_plugin-NodupKeys deleted plugins u = elim (Option-cases (name_at deleted plugins)) [
  | inl e ↦ rw (e, remove_plugin) u
  | inr (key, e) ↦ rw (e, remove_plugin) (remove-NodupKeys key plugins u)
]

-- What holds of a registry between two events.
abbrev IsKept : String → String → Option String → Plugins → Type 0
IsKept name path endpoint plugins = NodupKeys plugins × Holds name path endpoint plugins

handle_paths-IsKept :
    (name path : String) (endpoint : Option String) (peers : String → Peer) (paths : List String)
    (plugins : Plugins)
    → IsKept name path endpoint plugins
    → IsKept name path endpoint (handle_paths peers paths plugins).0
unfolding handle_paths
handle_paths-IsKept name path endpoint peers [] plugins h = h
handle_paths-IsKept name path endpoint peers (found ∷ paths) plugins (u, h) =
    let next : IsKept name path endpoint (handle_path (peers found) found plugins).0 = (
      handle_path-NodupKeys (peers found) found plugins u,
      handle_path-Holds name path endpoint (peers found) found plugins h,
    ) in
    elim (Result-cases (handle_path (peers found) found plugins).1) [
      | inl (_, e) ↦
          rw (e, handle_paths) (handle_paths-IsKept name path endpoint peers paths _ next)
      | inr (_, e) ↦ rw (e, handle_paths) next
    ]

remove_plugins-IsKept :
    (name path : String) (endpoint : Option String) (paths : List String) (plugins : Plugins)
    → contains path paths ≡ false
    → IsKept name path endpoint plugins
    → IsKept name path endpoint (remove_plugins paths plugins)
unfolding remove_plugins contains
remove_plugins-IsKept name path endpoint [] plugins spared h = h
remove_plugins-IsKept name path endpoint (deleted ∷ paths) plugins spared (u, h) =
    let differ : path ≢ deleted = λ q. ground (arith, spared, q, ==_refl path) in
    remove_plugins-IsKept name path endpoint paths _ (ground (arith, spared)) (
      remove_plugin-NodupKeys deleted plugins u,
      remove_plugin-Holds name path endpoint deleted plugins u differ h,
    )

handle_event-IsKept :
    (name path : String) (endpoint : Option String) (event : WatchEvent) (plugins : Plugins)
    → Spares path event
    → IsKept name path endpoint plugins
    → IsKept name path endpoint (handle_event event plugins)
unfolding handle_event handle_create handle_delete
handle_event-IsKept name path endpoint (created is_dir peers paths) plugins s h =
    handle_paths-IsKept name path endpoint peers _ plugins h
handle_event-IsKept name path endpoint (removed is_dir paths) plugins s h =
    remove_plugins-IsKept name path endpoint _ plugins s h
handle_event-IsKept name path endpoint other plugins s h = h
handle_event-IsKept name path endpoint (watch_failed e) plugins s h = h

-- Once a name is registered, no event but a removal of its socket takes it from its plugin: whatever
-- other plugins announce, `watch` keeps its path, and it keeps its endpoint or has none any more.
pub watch-Holds :
    (name path : String) (endpoint : Option String) (events : List WatchEvent) (plugins : Plugins)
    → NodupKeys plugins
    → All (Spares path) events
    → Holds name path endpoint plugins
    → Holds name path endpoint (watch events plugins)
unfolding watch
watch-Holds name path endpoint [] plugins u s h = h
watch-Holds name path endpoint (event ∷ events) plugins u (s, ss) h =
    let (u', h') = handle_event-IsKept name path endpoint event plugins s (u, h) in
    watch-Holds name path endpoint events (handle_event event plugins) u' ss h'
