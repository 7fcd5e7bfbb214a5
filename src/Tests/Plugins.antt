-- ===== src/Tests/Plugins.antt =====
-- Runs of the theorems on plugins that the watcher finds.
use krustlet.Prelude.{
  String, ◌≡◌, refl, ◌⊎◌, inl, false, none, some, List, [], ◌∷◌, arith, if◌then◌else◌, ◌==◌, nat_eq,
  string_eq, str_eq_iff, contains, keep_if, ok, err,
}
use krustlet.Prelude.Dict.{lookup}
use krustlet.PluginWatcher.{
  PluginInfo, PluginEntry, Peer, Plugins, CreateError, WatchEvent, created, removed, plugin_paths,
  extension, inform_plugin, get_endpoint, handle_path, handle_delete, watch,
}
use krustlet.PluginWatcher.Names.{Holds, watch-Holds}
use krustlet.PluginWatcher.Accept.{IsAcceptable, handle_path-get_endpoint}
use krustlet.PluginWatcher.Removal.{AreDistinct, unless_at, lookup-handle_delete}
use krustlet.Prelude.Text.{split}

abbrev csi_info : PluginInfo
csi_info = record {
  type_name = "CSIPlugin";
  name = "csi";
  endpoint = "/csi/endpoint.sock";
  supported_versions = "1.0.0" ∷ [];
}

-- Answers every notification.
abbrev csi_peer : Peer
csi_peer = record { info = ok csi_info; informed = λ e. ok tt }

abbrev csi_entry : PluginEntry
csi_entry = record { plugin_path = "/plugins/csi.sock"; endpoint = some "/csi/endpoint.sock" }

abbrev one_plugin : Plugins
one_plugin = ("csi", csi_entry) ∷ []

handle_path-get_endpoint_example :
    (IsAcceptable [] csi_info "/plugins/csi.sock"
      × ((k : String)
          → get_endpoint k (handle_path csi_peer "/plugins/csi.sock" []).0 ≡ (
              if csi_info.name == k
              then some (if csi_info.endpoint == "" then "/plugins/csi.sock" else csi_info.endpoint)
              else get_endpoint k []))
      × ((handle_path csi_peer "/plugins/csi.sock" []).1 ≡ inform_plugin csi_peer none))
    ⊎ ((¬ IsAcceptable [] csi_info "/plugins/csi.sock")
        × ((handle_path csi_peer "/plugins/csi.sock" []).0 ≡ [])
        × ((e : CreateError) × ((handle_path csi_peer "/plugins/csi.sock" []).1 ≡ err e)))
handle_path-get_endpoint_example =
    handle_path-get_endpoint csi_peer csi_info "/plugins/csi.sock" [] refl

-- Another plugin announces the name, and its own socket is removed.
abbrev events : List WatchEvent
events =
    created (λ p. false) (λ p. csi_peer) ("/plugins/other.sock" ∷ [])
    ∷ (removed (λ p. false) ("/plugins/other.sock" ∷ []) ∷ [])

watch-Holds_example :
    Holds "csi" "/plugins/csi.sock" (some "/csi/endpoint.sock") (watch events one_plugin)
unfolding lookup contains plugin_paths extension keep_if split
watch-Holds_example =
    watch-Holds "csi" "/plugins/csi.sock" (some "/csi/endpoint.sock") events one_plugin (refl, tt)
      (tt, (refl, tt)) (csi_entry, refl, refl, inl refl)

one_plugin-AreDistinct : AreDistinct one_plugin
unfolding lookup
one_plugin-AreDistinct = record {
  same_name = λ j k v w at at' same. ground (arith, str_eq_iff "csi" j, str_eq_iff "csi" k);
}

lookup-handle_delete_example :
    lookup "csi" (handle_delete (λ p. false) ("/plugins/csi.sock" ∷ []) one_plugin)
    ≡ unless_at (plugin_paths (λ p. false) ("/plugins/csi.sock" ∷ [])) (lookup "csi" one_plugin)
unfolding lookup
lookup-handle_delete_example =
    lookup-handle_delete (λ p. false) ("/plugins/csi.sock" ∷ []) "csi" one_plugin (refl, tt)
      one_plugin-AreDistinct
