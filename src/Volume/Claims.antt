-- ===== src/Volume/Claims.antt =====
-- crates/kubelet/src/volume/persistentvolumeclaim.rs: volumes of a storage driver.
pub mod Handshake
use krustlet.Prelude.{
  ℕ, zero, suc, ◌+◌, ◌-◌, ◌*◌, ◌≤◌, ◌<◌, min, String, ◌<>◌, ◌≡◌, refl, sym, ap, subst, ◌∙◌, ◌≢◌,
  ◌↔◌, ◌⊎◌, inl, inr, Bool, true, false, not, ◌&&◌, ◌||◌, Option, none, some, List, [], ◌∷◌, ◌++◌,
  map, arith, ltb, leb, if◌then◌else◌, Bool-cases, Option-cases, Result-cases, List-cases,
  some-injective, ok-injective, Eq, ◌==◌, nat_eq, string_eq, str_eq_iff, ==_refl, ==_ne, contains,
  length, get_elem?, take, length-append, keep_if, find, Result, ok, err, ◌>>=◌, ◌>>◌, Panic,
  overflow, nothing, bind-eq-ok, All,
}
use krustlet.Prelude.Dict.{
  Dict, keys, values, lookup, insert, remove, contains_key, extend, NodupKeys, lookup-nil,
  lookup-cons, lookup-insert, lookup-remove, lookup-extend,
}
use krustlet.Prelude.Text.{join}
use krustlet.Volume.Modes.{VolumeMode, block, filesystem, volume_mode_of, validate}
use krustlet.PluginWatcher.{Plugins, get_endpoint}
use krustlet.Volume.{
  KubeVolume, SecretReference, CsiSource, ClaimSpec, PvcVolume, Cluster, FileSystem,
}

-- How a volume is to be accessed: a block device, or a file system of some type.
pub data AccessType : Type 0 where
  block_access : AccessType
  mount_access : String → AccessType

abbrev pub or_default : Option String → String
or_default none = ""
or_default (some s) = s

unfoldable pub get_access_type : VolumeMode → CsiSource → AccessType
get_access_type block csi = block_access
get_access_type filesystem csi = mount_access (or_default csi.fs_type)

pub record StageRequest : Type 0 where
  pub volume_id : String
  pub staging_target_path : String
  pub access_type : AccessType
  pub secrets : Dict String String

pub record PublishRequest : Type 0 where
  pub volume_id : String
  pub target_path : String
  pub staging_target_path : String
  pub access_type : AccessType
  pub readonly : Bool
  pub secrets : Dict String String

-- The answers of a storage driver: its capabilities, `none` being one without a type and a number the
-- type of an RPC, and what it says to each request. To a publication the answer may depend on the staging
-- that it has accepted in this mount before, if any.
pub record Driver : Type 0 where
  pub capabilities : Result String (List (Option ℕ))
  pub staged : StageRequest → Result String (Unit {0})
  pub published : Option StageRequest → PublishRequest → Result String (Unit {0})
  pub unpublished : String → String → Result String (Unit {0})

-- Every capability that has a type is taken for the one that is looked for.
unfoldable pub any_rpc : List (Option ℕ) → Bool
any_rpc [] = false
any_rpc (none ∷ capabilities) = any_rpc capabilities
any_rpc (some _ ∷ capabilities) = true

unfoldable pub supports_stage_unstage : Driver → Result String Bool
supports_stage_unstage driver = driver.capabilities >>= λ capabilities. ok (any_rpc capabilities)

-- `from_utf8_lossy` of `base64::decode`
abbrev pub Decode : Type 0
Decode = String → Result String String

unfoldable pub decode_all : Decode → Dict String String → Result String (Dict String String)
decode_all decode [] = ok []
decode_all decode ((k, v) ∷ contents) =
    decode v >>= λ text. decode_all decode contents >>= λ rest. ok ((k, text) ∷ rest)

abbrev contents_of : Option (Dict String String) → Dict String String
contents_of none = []
contents_of (some contents) = contents

unfoldable pub get_named_secret :
    Decode → Cluster → Option String → Option String → Result String (Dict String String)
get_named_secret decode cluster none namespace = ok []
get_named_secret decode cluster (some name) none = ok []
get_named_secret decode cluster (some name) (some namespace) =
    cluster.secret_in namespace name >>= λ contents. decode_all decode (contents_of contents)

unfoldable pub get_secrets_map :
    Decode → Cluster → Option SecretReference → Result String (Dict String String)
get_secrets_map decode cluster none = ok []
get_secrets_map decode cluster (some reference) =
    get_named_secret decode cluster reference.name reference.namespace

abbrev or_false : Option Bool → Bool
or_false none = false
or_false (some b) = b

unfoldable pub stage_request : CsiSource → String → Dict String String → AccessType → StageRequest
stage_request csi staging_path secrets access_type = record {
  volume_id = csi.volume_handle;
  staging_target_path = staging_path;
  access_type = access_type;
  secrets = secrets;
}

unfoldable pub publish_request :
    CsiSource → String → Bool → String → Dict String String → AccessType → PublishRequest
publish_request csi staging_path stage_unstage_volume path secrets access_type = record {
  volume_id = csi.volume_handle;
  target_path = path;
  staging_target_path = if stage_unstage_volume then staging_path else "";
  access_type = access_type;
  readonly = or_false csi.read_only;
  secrets = secrets;
}

-- The staging of a volume, where the driver has it, and the request that the driver has accepted.
unfoldable pub stage_volume :
    Decode
    → Cluster
    → Driver
    → CsiSource
    → String
    → AccessType
    → Bool
    → Result String (Option StageRequest)
stage_volume decode cluster driver csi staging_path access_type false = ok none
stage_volume decode cluster driver csi staging_path access_type true =
    get_secrets_map decode cluster csi.node_stage_secret_ref >>= λ secrets.
    driver.staged (stage_request csi staging_path secrets access_type) >>= λ _.
    ok (some (stage_request csi staging_path secrets access_type))

-- `PvcVolume::mount`: what the volume becomes, or the error, the volume being as before then. A volume
-- mode that `unwrap` would panic on is an error too.
unfoldable pub mount_claim :
    Decode → Cluster → FileSystem → Driver → String → PvcVolume → Result String PvcVolume
mount_claim decode cluster fs driver base_path v =
    supports_stage_unstage driver >>= λ stage_unstage_volume.
    fs.created (join base_path v.name) >>= λ _.
    fs.tempdir v.csi_pv_source.volume_handle >>= λ staging_path.
    volume_mode_of (or_default v.spec.volume_mode) >>= λ mode.
    stage_volume decode cluster driver v.csi_pv_source staging_path
      (get_access_type mode v.csi_pv_source) stage_unstage_volume
    >>= λ before.
        get_secrets_map decode cluster v.csi_pv_source.node_publish_secret_ref >>= λ secrets.
        driver.published before (
          publish_request v.csi_pv_source staging_path stage_unstage_volume (join base_path v.name)
            secrets (get_access_type mode v.csi_pv_source))
        >>= λ _. ok (record v {
          mounted_path = some (join base_path v.name);
          staging_dir = if stage_unstage_volume then some staging_path else v.staging_dir;
        })

-- `PvcVolume::unmount`
unfoldable pub unmount_claim :
    FileSystem → Driver → PvcVolume → PvcVolume × Result String (Unit {0})
unmount_claim fs driver v = elim v.mounted_path [
  | none ↦ (v, ok tt)
  | some p ↦ (
    record v { mounted_path = none },
    driver.unpublished v.csi_pv_source.volume_handle p >> fs.removed p,
  )
]

unfoldable pub get_pvc_spec : Cluster → String → Result String ClaimSpec
get_pvc_spec cluster claim_name = cluster.claim claim_name >>= λ found. elim found [
  | none ↦ err "PersistentVolumeClaim must specify a spec"
  | some spec ↦ validate spec >> ok spec
]

-- The endpoint of the driver of a storage class; `channel` says whether it can be connected to.
unfoldable pub get_csi_client :
    Cluster → (String → Result String (Unit {0})) → ClaimSpec → Plugins → Result String String
get_csi_client cluster channel spec plugin_registry =
    cluster.storage_class (or_default spec.storage_class_name) >>= λ provisioner.
    elim (get_endpoint provisioner plugin_registry) [
      | none ↦ err "could not get CSI plugin endpoint"
      | some endpoint ↦ channel endpoint >> ok endpoint
    ]

unfoldable pub csi_of : Option (Option CsiSource) → Result String CsiSource
csi_of none = err "no PersistentVolume spec defined"
csi_of (some none) = err "no CSI spec defined"
csi_of (some (some csi)) = ok csi

unfoldable pub get_csi : Cluster → String → ClaimSpec → Result String CsiSource
get_csi cluster claim_name spec = elim spec.volume_name [
  | none ↦ err ("volume name for PVC " <> (claim_name <> " must exist (is the volume bound?)"))
  | some volume_name ↦ cluster.persistent_volume volume_name >>= csi_of
]

-- `PvcVolume::new`
unfoldable pub new_claim :
    Cluster
    → (String → Result String (Unit {0}))
    → Option Plugins
    → KubeVolume
    → Result String PvcVolume
new_claim cluster channel none vol =
    err ("cannot mount volume " <> (vol.name <> ": CSI driver support not implemented"))
new_claim cluster channel (some plugin_registry) vol = elim vol.persistent_volume_claim [
  | none ↦ err "Called a PVC volume constructor with a non-PVC volume"
  | some claim_name ↦ get_pvc_spec cluster claim_name >>= λ spec.
      get_csi_client cluster channel spec plugin_registry >>= λ csi_client.
      get_csi cluster claim_name spec >>= λ csi. ok (record {
        name = vol.name;
        spec = spec;
        csi_client = csi_client;
        csi_pv_source = csi;
        mounted_path = none;
        staging_dir = none;
      })
]
