-- ===== src/Tests/Mounts.antt =====
-- Runs of the theorems on volumes.
use krustlet.Prelude.{
  String, ◌≢◌, ◌≡◌, refl, false, none, some, [], ◌∷◌, if◌then◌else◌, ◌==◌, nat_eq, string_eq, ok,
  err,
}
use krustlet.Prelude.Dict.{lookup, insert}
use krustlet.Prelude.Text.{join, ends_with_char}
use krustlet.Volume.{
  KubeVolume, KeyedVolume, secret, PvcVolume, CsiSource, ClaimSpec, Cluster, ConfigMap, NodeFiles,
  FileSystem, written, mount_setting_for, find_item,
}
use krustlet.Volume.Modes.{
  VolumeMode, volume_mode_of, validate, validate_access_modes, check_access_modes, access_mode_of,
  validate_data_source, validate_label_selector, validate_storage_class, validate_volume_mode,
}
use krustlet.Volume.Files.{
  mount_config_map, unmount_keyed, files_of, mount_files, write_files, write_file, new_keyed,
}
use krustlet.Volume.Files.Entries.{HasData, PutsAt}
use krustlet.Volume.Files.Mounted.{below, mount_config_map-unmount_keyed}
use krustlet.PluginWatcher.{Plugins, get_endpoint}
use krustlet.Volume.Claims.{
  or_default, new_claim, get_pvc_spec, get_csi_client, get_csi, csi_of, Driver,
  supports_stage_unstage, stage_volume, get_secrets_map, mount_claim, unmount_claim, any_rpc,
}
use krustlet.Volume.Claims.Handshake.{
  IsPublished, mount_claim-unmount_claim, new_claim-volume_mode_of,
}
use krustlet.Volume.Refs.{Outside, to_volume_ref, mount}
use krustlet.Volume.Refs.Unmounted.{IsSettled, dir_of, to_volume_ref-IsSettled}

abbrev settings : ConfigMap
settings = record {
  binary_data = some (("logo", "png") ∷ []);
  text_data = some (("a", "1") ∷ (("b", "2") ∷ []));
}

-- The key `b` is not among the items.
abbrev settings_volume : KeyedVolume
settings_volume = record {
  vol_name = "settings";
  source_name = "app-settings";
  items =
      some
        (record { key = "a"; path = "a.txt" } ∷ (record { key = "logo"; path = "logo.png" } ∷ []));
  mounted_path = none;
}

abbrev claim_spec : ClaimSpec
claim_spec = record {
  access_modes = some ("ReadWriteOnce" ∷ []);
  has_selector = false;
  storage_class_name = some "fast";
  volume_mode = some "Filesystem";
  has_data_source = false;
  volume_name = some "pv1";
}

abbrev cluster : Cluster
cluster = record {
  config_map = λ name. if name == "app-settings" then ok settings else err "not found";
  secret = λ name. ok (some (("key", "hidden") ∷ []));
  secret_in = λ namespace name. err "not found";
  claim = λ name. ok (some claim_spec);
  storage_class = λ name. ok "csi";
  persistent_volume = λ name. ok none;
}

abbrev fs : FileSystem
fs = record {
  created = λ path. ok tt;
  write_outcome = λ path. written;
  set_readonly = λ path. ok tt;
  removed = λ path. ok tt;
  survives = λ path. false;
  metadata = λ path. ok tt;
  tempdir = λ prefix. ok "/tmp/x";
}

abbrev one_file : NodeFiles
one_file = ("/etc/hosts", "localhost") ∷ []

mount_config_map-unmount_keyed_example :
    ((key content path : String)
      → HasData settings key content
      → PutsAt settings_volume.items key path
      → lookup
          (join "/pods/p/settings" path)
          (mount_config_map cluster fs "/pods/p" settings_volume one_file).0
        ≡ some content)
    × ((p : String)
        → ((key content path : String)
            → HasData settings key content
            → PutsAt settings_volume.items key path
            → p ≢ join "/pods/p/settings" path)
        → lookup p (mount_config_map cluster fs "/pods/p" settings_volume one_file).0
          ≡ lookup p one_file)
    × ((p : String)
        → lookup p
            (unmount_keyed fs
              (mount_config_map cluster fs "/pods/p" settings_volume one_file).1.0
              (mount_config_map cluster fs "/pods/p" settings_volume one_file).0).0
          ≡ (if below "/pods/p/settings" p then none else lookup p one_file))
unfolding join ends_with_char mount_setting_for find_item files_of lookup mount_config_map
    mount_files write_files write_file insert
mount_config_map-unmount_keyed_example =
    mount_config_map-unmount_keyed cluster fs "/pods/p" settings_volume settings one_file refl
      (refl, refl) (refl, tt) (refl, (tt, tt)) (refl, (refl, tt)) refl refl

-- A driver that has an RPC capability.
abbrev driver : Driver
driver = record {
  capabilities = ok (none ∷ (some 2 ∷ []));
  staged = λ r. ok tt;
  published = λ before r. ok tt;
  unpublished = λ id path. ok tt;
}

abbrev csi_source : CsiSource
csi_source = record {
  volume_handle = "vol-1";
  read_only = none;
  fs_type = some "ext4";
  node_stage_secret_ref = none;
  node_publish_secret_ref = none;
}

abbrev disk : PvcVolume
disk = record {
  name = "disk";
  spec = claim_spec;
  csi_client = "/csi.sock";
  csi_pv_source = csi_source;
  mounted_path = none;
  staging_dir = none;
}

abbrev mounted_disk : PvcVolume
mounted_disk = record disk { mounted_path = some "/pods/p/disk"; staging_dir = some "/tmp/x" }

mount_claim-unmount_claim_example :
    (p : IsPublished driver "/pods/p" disk mounted_disk) × (driver.unpublished p.request.volume_id
        p.request.target_path
      ≡ ok tt)
    × (fs.removed p.request.target_path ≡ ok tt)
    × ((unmount_claim fs driver mounted_disk).0.mounted_path ≡ none)
unfolding mount_claim unmount_claim supports_stage_unstage any_rpc join ends_with_char
    volume_mode_of stage_volume get_secrets_map
mount_claim-unmount_claim_example =
    mount_claim-unmount_claim (λ s. ok s) cluster fs driver "/pods/p" disk mounted_disk refl refl

abbrev pub outside : Outside
outside = record {
  cluster = cluster;
  fs = fs;
  channel = λ endpoint. ok tt;
  driver = λ endpoint. driver;
  decode = λ s. ok s;
  plugin_registry = none;
}

abbrev secret_description : KubeVolume
secret_description = record {
  name = "keys";
  config_map = none;
  secret = some (record { name = some "app-keys"; items = none });
  persistent_volume_claim = none;
  host_path = none;
}

abbrev keys_volume : KeyedVolume
keys_volume = record {
  vol_name = "keys";
  source_name = "app-keys";
  items = none;
  mounted_path = none;
}

to_volume_ref-IsSettled_example :
    IsSettled outside
      (dir_of "/pods/p" (secret keys_volume))
      (mount outside "/pods/p" (secret keys_volume) one_file)
unfolding to_volume_ref new_keyed
to_volume_ref-IsSettled_example =
    to_volume_ref-IsSettled outside secret_description (secret keys_volume) "/pods/p" one_file refl

-- The claim is bound to a volume of the driver.
abbrev bound_cluster : Cluster
bound_cluster = record cluster { persistent_volume = λ name. ok (some (some csi_source)) }

abbrev csi_plugins : Plugins
csi_plugins = ("csi", record { plugin_path = "/csi.sock"; endpoint = some "/csi.sock" }) ∷ []

abbrev claim_volume : KubeVolume
claim_volume = record {
  name = "disk";
  config_map = none;
  secret = none;
  persistent_volume_claim = some "claim1";
  host_path = none;
}

new_claim-volume_mode_of_example :
    (m : VolumeMode) × (volume_mode_of (or_default disk.spec.volume_mode) ≡ ok m)
unfolding new_claim get_pvc_spec get_csi_client get_csi csi_of validate validate_access_modes
    validate_label_selector validate_storage_class validate_volume_mode volume_mode_of lookup
    get_endpoint check_access_modes access_mode_of validate_data_source
new_claim-volume_mode_of_example =
    new_claim-volume_mode_of bound_cluster (λ endpoint. ok tt) (some csi_plugins) claim_volume disk
      refl
