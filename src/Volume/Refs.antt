-- ===== src/Volume/Refs.antt =====
-- crates/kubelet/src/volume/mod.rs: the volumes of a pod, whatever their kind.
pub mod Unmounted
use krustlet.Prelude.{
  ℕ, zero, suc, ◌+◌, ◌-◌, ◌*◌, ◌≤◌, ◌<◌, min, String, ◌<>◌, ◌≡◌, refl, sym, ap, subst, ◌∙◌, ◌≢◌,
  ◌↔◌, ◌⊎◌, inl, inr, Bool, true, false, not, ◌&&◌, ◌||◌, Option, none, some, List, [], ◌∷◌, ◌++◌,
  map, arith, ltb, leb, if◌then◌else◌, Bool-cases, Option-cases, Result-cases, List-cases,
  some-injective, ok-injective, Eq, ◌==◌, nat_eq, string_eq, str_eq_iff, ==_refl, ==_ne, contains,
  length, get_elem?, take, length-append, keep_if, find, Result, ok, err, ◌>>=◌, ◌>>◌, Panic,
  overflow, nothing, bind-eq-ok, All, map_err,
}
use krustlet.Prelude.Dict.{
  Dict, keys, values, lookup, insert, remove, contains_key, extend, NodupKeys, lookup-nil,
  lookup-cons, lookup-insert, lookup-remove, lookup-extend,
}
use krustlet.PluginWatcher.{Plugins}
use krustlet.Volume.{
  KubeVolume, KeyedVolume, HostPathVolume, PvcVolume, VolumeRef, config_map, secret,
  persistent_volume_claim, host_path, Cluster, NodeFiles, FileSystem,
}
use krustlet.Volume.Files.{
  new_config_map, new_secret, new_host_path, mount_config_map, mount_secret, mount_host_path,
  unmount_keyed,
}
use krustlet.Volume.Claims.{Driver, Decode, new_claim, mount_claim, unmount_claim}

-- Everything outside that a volume depends on. A claim's driver is found by its endpoint.
pub record Outside : Type 0 where
  pub cluster : Cluster
  pub fs : FileSystem
  pub channel : String → Result String (Unit {0})
  pub driver : String → Driver
  pub decode : Decode
  pub plugin_registry : Option Plugins

abbrev pub is_some {ℓ} : {A : Type ℓ} → Option A → Bool
is_some none = false
is_some (some a) = true

abbrev map_ok {ℓ κ} : {A : Type ℓ} {B : Type κ} → (A → B) → Result String A → Result String B
map_ok f r = r >>= λ a. ok (f a)

unfoldable pub to_volume_ref : Outside → KubeVolume → Result String VolumeRef
to_volume_ref o vol =
    if is_some vol.config_map
    then map_ok config_map (new_config_map vol)
    else if is_some vol.secret
    then map_ok secret (new_secret vol)
    else if is_some vol.persistent_volume_claim
    then map_ok persistent_volume_claim (new_claim o.cluster o.channel o.plugin_registry vol)
    else if is_some vol.host_path
    then map_ok host_path (new_host_path vol)
    else err
        "Unsupported volume type. Currently supported types: ConfigMap, Secret, PersistentVolumeClaim, and HostPath"

-- `volumes_from_pod`: the first error in the order of the volumes, or the map of all.
unfoldable pub volumes_onto :
    Outside → List KubeVolume → Dict String VolumeRef → Result String (Dict String VolumeRef)
volumes_onto o [] acc = ok acc
volumes_onto o (vol ∷ vols) acc =
    to_volume_ref o vol >>= λ v. volumes_onto o vols (insert vol.name v acc)

abbrev pub volumes_from_pod : Outside → List KubeVolume → Result String (Dict String VolumeRef)
volumes_from_pod o vols = volumes_onto o vols []

unfoldable pub get_path : VolumeRef → Option String
get_path (config_map v) = v.mounted_path
get_path (secret v) = v.mounted_path
get_path (persistent_volume_claim v) = v.mounted_path
get_path (host_path v) = some v.host_path

abbrev pub Mounting : Type 0
Mounting = NodeFiles × (VolumeRef × Result String (Unit {0}))

abbrev pub keyed :
    (KeyedVolume → VolumeRef) → NodeFiles × (KeyedVolume × Result String (Unit {0})) → Mounting
keyed kind (files, (v, r)) = (files, (kind v, r))

abbrev pub claimed : NodeFiles → PvcVolume → Result String PvcVolume → Mounting
claimed files v (err e) = (files, (persistent_volume_claim v, err e))
claimed files v (ok v') = (files, (persistent_volume_claim v', ok tt))

-- `VolumeRef::mount`
unfoldable pub mount : Outside → String → VolumeRef → NodeFiles → Mounting
mount o path (config_map v) files = keyed config_map (mount_config_map o.cluster o.fs path v files)
mount o path (secret v) files = keyed secret (mount_secret o.cluster o.fs path v files)
mount o path (persistent_volume_claim v) files =
    claimed files v (mount_claim o.decode o.cluster o.fs (o.driver v.csi_client) path v)
mount o path (host_path v) files = (files, (host_path v, mount_host_path o.fs v))

-- `VolumeRef::unmount`; what a driver's unmount removes is not among the files.
unfoldable pub unmount : Outside → VolumeRef → NodeFiles → Mounting
unmount o (config_map v) files = keyed config_map (unmount_keyed o.fs v files)
unmount o (secret v) files = keyed secret (unmount_keyed o.fs v files)
unmount o (persistent_volume_claim v) files =
    let (v', r) = unmount_claim o.fs (o.driver v.csi_client) v in
    (files, (persistent_volume_claim v', r))
unmount o (host_path v) files = (files, (host_path v, ok tt))

-- The volumes of a pod, mounted in the order of the map: every one is tried, the first error is the
-- result.
unfoldable pub mount_all :
    Outside
    → String
    → Dict String VolumeRef
    → NodeFiles
    → NodeFiles × (Dict String VolumeRef × Result String (Unit {0}))
mount_all o base_path [] files = (files, ([], ok tt))
mount_all o base_path ((k, v) ∷ volumes) files =
    let (files', (v', r)) = mount o base_path v files in
    let (files'', (volumes', rest)) = mount_all o base_path volumes files' in
    (
      files'',
      (
        (k, v') ∷ volumes',
        map_err (λ e. "Unable to mount volume " <> (k <> (": " <> e))) r >> rest,
      ),
    )
