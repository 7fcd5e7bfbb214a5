-- ===== src/PluginWatcher/Removal.antt =====
-- What a removal of sockets leaves.
use krustlet.Prelude.{
  String, ◌≡◌, refl, sym, ap, subst, ◌∙◌, ◌≢◌, inl, inr, Bool, false, Option, none, some, List, [],
  ◌∷◌, arith, if◌then◌else◌, Bool-cases, Option-cases, some-injective, ◌==◌, nat_eq, string_eq,
  str_eq_iff, ==_ne, contains,
}
use krustlet.Prelude.Dict.{lookup, NodupKeys, lookup-remove}
use krustlet.PluginWatcher.{
  PluginEntry, Plugins, name_at, remove_plugin, remove_plugins, plugin_paths, handle_delete,
}
use krustlet.PluginWatcher.Names.{name_at-lookup, remove_plugin-NodupKeys}

-- No two names share a socket.
pub record AreDistinct (plugins : Plugins) : Type 0 where
  pub same_name :
      (j k : String) (v w : PluginEntry)
      → lookup j plugins ≡ some v
      → lookup k plugins ≡ some w
      → v.plugin_path ≡ w.plugin_path
      → j ≡ k

-- An entry that stays where its path is none of these.
abbrev pub unless_at : List String → Option PluginEntry → Option PluginEntry
unless_at paths none = none
unless_at paths (some v) = if contains v.plugin_path paths then none else some v

unless_at-some :
    (paths : List String) (o : Option PluginEntry) (v : PluginEntry)
    → unless_at paths o ≡ some v
    → o ≡ some v
unless_at-some paths none v h = cc
unless_at-some paths (some w) v h = ground (arith, h)

unless_at-nil : (o : Option PluginEntry) → o ≡ unless_at [] o
unfolding contains
unless_at-nil none = refl
unless_at-nil (some v) = refl

unless_at-cons :
    (path : String) (paths : List String) (o : Option PluginEntry)
    → unless_at paths (unless_at (path ∷ []) o) ≡ unless_at (path ∷ paths) o
unfolding contains
unless_at-cons path paths none = refl
unless_at-cons path paths (some v) = ground arith

-- Where no name is found, no entry has the path.
name_at-none :
    (path k : String) (v : PluginEntry) (plugins : Plugins)
    → name_at path plugins ≡ none
    → lookup k plugins ≡ some v
    → (v.plugin_path == path) ≡ false
unfolding name_at lookup
name_at-none path k v [] h at = absurd cc
name_at-none path k v ((j, w) ∷ plugins) h at = elim (Bool-cases (w.plugin_path == path)) [
  | inl e ↦ absurd (ground (arith, e, h))
  | inr e ↦ elim (Bool-cases (j == k)) [
    | inl e' ↦
        let same : w ≡ v = some-injective (ground (arith, e', at)) in
        subst (λ (x : PluginEntry). (x.plugin_path == path) ≡ false) same e
    | inr e' ↦ name_at-none path k v plugins (ground (arith, e, h)) (ground (arith, e', at))
  ]
]

lookup-remove_plugin :
    (path k : String) (plugins : Plugins)
    → NodupKeys plugins
    → AreDistinct plugins
    → lookup k (remove_plugin path plugins) ≡ unless_at (path ∷ []) (lookup k plugins)
unfolding remove_plugin contains
lookup-remove_plugin path k plugins u d = elim (Option-cases (lookup k plugins)) [
  | inl none_at ↦ elim (Option-cases (name_at path plugins)) [
    | inl e ↦ rw (e, remove_plugin, none_at) refl
    | inr (key, e) ↦ rw (e, remove_plugin) (ground (arith, none_at, lookup-remove key k plugins))
  ]
  | inr (v, at) ↦ elim (Option-cases (name_at path plugins)) [
    | inl e ↦
        rw (e, remove_plugin)
          (ground (
            arith,
            at,
            name_at-none path k v plugins e at,
            str_eq_iff path v.plugin_path,
            str_eq_iff v.plugin_path path,
          ))
    | inr (key, e) ↦
        let (w, at', there) = name_at-lookup path key plugins u e in
        elim (Bool-cases (path == v.plugin_path)) [
          | inl q ↦
              let same : key ≡ k =
                d.same_name key k w v at' at (there ∙ (str_eq_iff path v.plugin_path).0 q) in
              rw (e, remove_plugin)
                (ground (arith, at, q, same, lookup-remove key k plugins, str_eq_iff key k))
          | inr q ↦
              let differ : key ≢ k = λ same.
                let entry : w ≡ v =
                  some-injective (sym at' ∙ ap (λ x. lookup x plugins) same ∙ at) in
                ground (arith, q, there, entry, str_eq_iff path v.plugin_path) in
              rw (e, remove_plugin)
                (ground (arith, at, q, ==_ne key k differ, lookup-remove key k plugins))
        ]
  ]
]

remove_plugin-AreDistinct :
    (path : String) (plugins : Plugins)
    → NodupKeys plugins
    → AreDistinct plugins
    → AreDistinct (remove_plugin path plugins)
remove_plugin-AreDistinct path plugins u d = record {
  same_name = λ j k v w at at' same.
      let before : (i : String) (x : PluginEntry)
          → lookup i (remove_plugin path plugins) ≡ some x
          → lookup i plugins ≡ some x =
        λ i x there.
          unless_at-some (path ∷ []) (lookup i plugins) x
            (sym (lookup-remove_plugin path i plugins u d) ∙ there) in
      d.same_name j k v w (before j v at) (before k w at') same;
}

lookup-remove_plugins :
    (paths : List String) (k : String) (plugins : Plugins)
    → NodupKeys plugins
    → AreDistinct plugins
    → lookup k (remove_plugins paths plugins) ≡ unless_at paths (lookup k plugins)
unfolding remove_plugins
lookup-remove_plugins [] k plugins u d = unless_at-nil (lookup k plugins)
lookup-remove_plugins (path ∷ paths) k plugins u d =
    lookup-remove_plugins paths k (remove_plugin path plugins)
      (remove_plugin-NodupKeys path plugins u) (remove_plugin-AreDistinct path plugins u d)
    ∙ ap (unless_at paths) (lookup-remove_plugin path k plugins u d)
    ∙ unless_at-cons path paths (lookup k plugins)

-- A removal of sockets, where no two names share one: a name loses its entry exactly if the socket of
-- the entry is among those that were removed, and every other name keeps it.
pub lookup-handle_delete :
    (is_dir : String → Bool) (paths : List String) (k : String) (plugins : Plugins)
    → NodupKeys plugins
    → AreDistinct plugins
    → lookup k (handle_delete is_dir paths plugins)
      ≡ unless_at (plugin_paths is_dir paths) (lookup k plugins)
unfolding handle_delete
lookup-handle_delete is_dir paths k plugins u d =
    lookup-remove_plugins (plugin_paths is_dir paths) k plugins u d
