-- ===== src/Volume.antt =====
-- crates/kubelet/src/volume: the volumes of a pod, from the volume's description to its mount. What
-- the Kubernetes API, the file system and the storage driver answer is an argument.
pub mod Files
pub mod Modes
pub mod Claims
pub mod Refs
use krustlet.Prelude.{
  ℕ, zero, suc, ◌+◌, ◌-◌, ◌*◌, ◌≤◌, ◌<◌, min, String, ◌<>◌, ◌≡◌, refl, sym, ap, subst, ◌∙◌, ◌≢◌,
  ◌↔◌, ◌⊎◌, inl, inr, Bool, true, false, not, ◌&&◌, ◌||◌, Option, none, some, List, [], ◌∷◌, ◌++◌,
  map, arith, ltb, leb, if◌then◌else◌, Bool-cases, Option-cases, Result-cases, List-cases,
  some-injective, ok-injective, Eq, ◌==◌, nat_eq, string_eq, str_eq_iff, ==_refl, ==_ne, contains,
  length, get_elem?, take, length-append, keep_if, find, Result, ok, err, ◌>>=◌, ◌>>◌, Panic,
  overflow, nothing, bind-eq-ok, All,
}
use krustlet.Prelude.Dict.{
  Dict, keys, values, lookup, insert, remove, contains_key, extend, NodupKeys, lookup-nil,
  lookup-cons, lookup-insert, lookup-remove, lookup-extend,
}
use krustlet.Prelude.Text.{join}

pub record KeyToPath : Type 0 where
  pub key : String
  pub path : String

-- The name and the items of a config map or a secret.
pub record KeyedSource : Type 0 where
  pub name : Option String
  pub items : Option (List KeyToPath)

-- A volume as the pod describes it: a claim by its name, a host path by its path.
pub record KubeVolume : Type 0 where
  pub name : String
  pub config_map : Option KeyedSource
  pub secret : Option KeyedSource
  pub persistent_volume_claim : Option String
  pub host_path : Option String

-- `ConfigMapVolume` and `SecretVolume`, which have the same fields.
pub record KeyedVolume : Type 0 where
  pub vol_name : String
  pub source_name : String
  pub items : Option (List KeyToPath)
  pub mounted_path : Option String

pub record HostPathVolume : Type 0 where
  pub host_path : String

pub record SecretReference : Type 0 where
  pub name : Option String
  pub namespace : Option String

-- `CSIPersistentVolumeSource`
pub record CsiSource : Type 0 where
  pub volume_handle : String
  pub read_only : Option Bool
  pub fs_type : Option String
  pub node_stage_secret_ref : Option SecretReference
  pub node_publish_secret_ref : Option SecretReference

-- `PersistentVolumeClaimSpec`, of the selector and the data source only that they are there.
pub record ClaimSpec : Type 0 where
  pub access_modes : Option (List String)
  pub has_selector : Bool
  pub storage_class_name : Option String
  pub volume_mode : Option String
  pub has_data_source : Bool
  pub volume_name : Option String

-- The client of the driver is the endpoint that it talks to.
pub record PvcVolume : Type 0 where
  pub name : String
  pub spec : ClaimSpec
  pub csi_client : String
  pub csi_pv_source : CsiSource
  pub mounted_path : Option String
  pub staging_dir : Option String

pub data VolumeRef : Type 0 where
  config_map : KeyedVolume → VolumeRef
  secret : KeyedVolume → VolumeRef
  persistent_volume_claim : PvcVolume → VolumeRef
  host_path : HostPathVolume → VolumeRef

-- The data of a config map, in its order.
pub record ConfigMap : Type 0 where
  pub binary_data : Option (Dict String String)
  pub text_data : Option (Dict String String)

-- The answers of the Kubernetes API: in the namespace of the pod, but for `secret_in`.
pub record Cluster : Type 0 where
  pub config_map : String → Result String ConfigMap
  pub secret : String → Result String (Option (Dict String String))
  pub secret_in : String → String → Result String (Option (Dict String String))
  pub claim : String → Result String (Option ClaimSpec)
  pub storage_class : String → Result String String
  pub persistent_volume : String → Result String (Option (Option CsiSource))

-- The files of the node, by their paths.
abbrev pub NodeFiles : Type 0
NodeFiles = Dict String String

-- A write that fails may leave the file as it was or with other contents, a removal that fails some of
-- the files.
pub data WriteOutcome : Type 0 where
  written : WriteOutcome
  unwritten : String → Option String → WriteOutcome

pub record FileSystem : Type 0 where
  pub created : String → Result String (Unit {0})
  pub write_outcome : String → WriteOutcome
  pub set_readonly : String → Result String (Unit {0})
  pub removed : String → Result String (Unit {0})
  pub survives : String → Bool
  pub metadata : String → Result String (Unit {0})
  pub tempdir : String → Result String String

pub data ItemMount : Type 0 where
  mount_at : String → ItemMount
  do_not_mount : ItemMount

unfoldable pub find_item : String → List KeyToPath → ItemMount
find_item key [] = do_not_mount
find_item key (kp ∷ items) = if kp.key == key then mount_at kp.path else find_item key items

unfoldable pub mount_setting_for : String → Option (List KeyToPath) → ItemMount
mount_setting_for key none = mount_at key
mount_setting_for key (some items) = find_item key items
