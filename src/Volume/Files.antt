-- ===== src/Volume/Files.antt =====
-- crates/kubelet/src/volume/configmap.rs, secret.rs and hostpath.rs: the volumes that are files of
-- the node.
pub mod Entries
pub mod Mounted
use krustlet.Prelude.{
  ℕ, zero, suc, ◌+◌, ◌-◌, ◌*◌, ◌≤◌, ◌<◌, min, String, ◌<>◌, ◌≡◌, refl, sym, ap, subst, ◌∙◌, ◌≢◌,
  ◌↔◌, ◌⊎◌, inl, inr, Bool, true, false, not, ◌&&◌, ◌||◌, Option, none, some, List, [], ◌∷◌, ◌++◌,
  map, arith, ltb, leb, if◌then◌else◌, Bool-cases, Option-cases, Result-cases, List-cases,
  some-injective, ok-injective, Eq, ◌==◌, nat_eq, string_eq, str_eq_iff, ==_refl, ==_ne, contains,
  length, get_elem?, take, length-append, keep_if, find, Result, ok, err, ◌>>=◌, ◌>>◌, Panic,
  overflow, nothing, bind-eq-ok, All,
}
use krustlet.Prelude.Dict.{
  Dict, keys, values, lookup, insert, remove, contains_key, extend, NodupKeys, lookup-nil,
  lookup-cons, lookup-insert, lookup-remove, lookup-extend,
}
use text.Mathlib.Text.{starts_with}
use krustlet.Prelude.Text.{join}
use krustlet.Volume.{
  KeyToPath, KeyedSource, KubeVolume, KeyedVolume, HostPathVolume, ConfigMap, Cluster, NodeFiles,
  WriteOutcome, written, unwritten, FileSystem, ItemMount, mount_at, do_not_mount,
  mount_setting_for,
}

-- `ConfigMapVolume::new` and `SecretVolume::new`
unfoldable pub new_keyed : String → String → String → Option KeyedSource → Result String KeyedVolume
new_keyed wrong_type no_name vol_name none = err wrong_type
new_keyed wrong_type no_name vol_name (some source) = elim source.name [
  | none ↦ err no_name
  | some name ↦ ok (record {
    vol_name = vol_name;
    source_name = name;
    items = source.items;
    mounted_path = none;
  })
]

abbrev pub new_config_map : KubeVolume → Result String KeyedVolume
new_config_map vol =
    new_keyed "Called a ConfigMap volume constructor with a non-ConfigMap volume"
      "no ConfigMap name was given" vol.name vol.config_map

abbrev pub new_secret : KubeVolume → Result String KeyedVolume
new_secret vol =
    new_keyed "Called a Secret volume constructor with a non-Secret volume"
      "Secret volume does not have a name" vol.name vol.secret

abbrev pub placed : ItemMount → String → String → List (String × String) → List (String × String)
placed (mount_at mount_path) path content rest = (join path mount_path, content) ∷ rest
placed do_not_mount path content rest = rest

-- The files that a volume's data become: `filter_map` over the keys.
unfoldable pub files_of :
    String → Option (List KeyToPath) → Dict String String → List (String × String)
files_of path items [] = []
files_of path items ((key, content) ∷ contents) =
    placed (mount_setting_for key items) path content (files_of path items contents)

unfoldable pub write_file :
    WriteOutcome → String → String → NodeFiles → NodeFiles × Result String (Unit {0})
write_file written path content files = (insert path content files, ok tt)
write_file (unwritten e none) path content files = (files, err e)
write_file (unwritten e (some other)) path content files = (insert path other files, err e)

-- `join_all` of the writes: every one is tried, and the first error is the result.
unfoldable pub write_files :
    FileSystem → List (String × String) → NodeFiles → NodeFiles × Result String (Unit {0})
write_files fs [] files = (files, ok tt)
write_files fs ((path, content) ∷ more) files =
    let (files', r) = write_file (fs.write_outcome path) path content files in
    let (files'', rest) = write_files fs more files' in (files'', r >> rest)

-- From the creation of the directory on.
unfoldable pub mount_files :
    FileSystem
    → String
    → List (String × String)
    → KeyedVolume
    → NodeFiles
    → NodeFiles × (KeyedVolume × Result String (Unit {0}))
mount_files fs path contents v files = elim (fs.created path) [
  | err e ↦ (files, (v, err e))
  | ok _ ↦
      let (files', r) = write_files fs contents files in
      elim (r >> fs.set_readonly path) [
        | err e ↦ (files', (v, err e))
        | ok _ ↦ (files', (record v { mounted_path = some path }, ok tt))
      ]
]

abbrev pub or_empty : Option (Dict String String) → Dict String String
or_empty none = []
or_empty (some d) = d

-- `ConfigMapVolume::mount`
unfoldable pub mount_config_map :
    Cluster
    → FileSystem
    → String
    → KeyedVolume
    → NodeFiles
    → NodeFiles × (KeyedVolume × Result String (Unit {0}))
mount_config_map cluster fs base_path v files = elim (cluster.config_map v.source_name) [
  | err e ↦ (files, (v, err e))
  | ok cm ↦
      let path = join base_path v.vol_name in
      mount_files fs path
        (files_of path v.items (or_empty cm.binary_data)
          ++ files_of path v.items (or_empty cm.text_data))
        v files
]

-- `SecretVolume::mount`
unfoldable pub mount_secret :
    Cluster
    → FileSystem
    → String
    → KeyedVolume
    → NodeFiles
    → NodeFiles × (KeyedVolume × Result String (Unit {0}))
mount_secret cluster fs base_path v files = elim (cluster.secret v.source_name) [
  | err e ↦ (files, (v, err e))
  | ok contents ↦
      let path = join base_path v.vol_name in
      mount_files fs path (files_of path v.items (or_empty contents)) v files
]

-- `remove_dir_all`: of the files in and below a directory, those are left that survive.
unfoldable pub remove_dir : (String → Bool) → String → NodeFiles → NodeFiles
remove_dir survives dir [] = []
remove_dir survives dir ((path, content) ∷ files) =
    let rest = remove_dir survives dir files in
    if starts_with path (dir <> "/") && not (survives path) then rest else (path, content) ∷ rest

-- `unmount` of both; the path is cleared also where the removal fails.
unfoldable pub unmount_keyed :
    FileSystem → KeyedVolume → NodeFiles → NodeFiles × (KeyedVolume × Result String (Unit {0}))
unmount_keyed fs v files = elim v.mounted_path [
  | none ↦ (files, (v, ok tt))
  | some p ↦
      let v' = record v { mounted_path = none } in
      elim (fs.removed p) [
        | err e ↦ (remove_dir fs.survives p files, (v', err e))
        | ok _ ↦ (remove_dir (λ path. false) p files, (v', ok tt))
      ]
]

-- `HostPathVolume::new` and `mount`
unfoldable pub new_host_path : KubeVolume → Result String HostPathVolume
new_host_path vol = elim vol.host_path [
  | none ↦ err "Called a HostPath volume constructor with a non-HostPath volume"
  | some path ↦ ok (record { host_path = path })
]

unfoldable pub mount_host_path : FileSystem → HostPathVolume → Result String (Unit {0})
mount_host_path fs v = fs.metadata v.host_path
