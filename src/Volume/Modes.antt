-- ===== src/Volume/Modes.antt =====
-- crates/kubelet/src/volume/persistentvolumeclaim.rs: what a claim may ask for.
use krustlet.Prelude.{
  String, Bool, ◌||◌, Option, none, some, List, [], ◌∷◌, if◌then◌else◌, ◌==◌, nat_eq, string_eq,
  Result, ok, err, ◌>>=◌, ◌>>◌,
}
use krustlet.Volume.{ClaimSpec}

pub data VolumeMode : Type 0 where
  block filesystem : VolumeMode

pub data AccessMode : Type 0 where
  read_only_many read_write_many read_write_once : AccessMode

unfoldable pub volume_mode_of : String → Result String VolumeMode
volume_mode_of s =
    if s == "Block"
    then ok block
    else if s == "Filesystem" || s == ""
    then ok filesystem
    else err "bad volume mode"

unfoldable pub access_mode_of : String → Result String AccessMode
access_mode_of s =
    if s == "ReadOnlyMany"
    then ok read_only_many
    else if s == "ReadWriteMany"
    then ok read_write_many
    else if s == "ReadWriteOnce"
    then ok read_write_once
    else err "bad access mode"

unfoldable pub check_access_modes : List String → Result String (Unit {0})
check_access_modes [] = ok tt
check_access_modes (mode ∷ modes) = access_mode_of mode >>= λ _. check_access_modes modes

unfoldable pub validate_access_modes : Option (List String) → Result String (Unit {0})
validate_access_modes none = err "at least 1 access mode is required"
validate_access_modes (some []) = err "at least 1 access mode is required"
validate_access_modes (some (mode ∷ modes)) = check_access_modes (mode ∷ modes)

unfoldable pub validate_label_selector : Bool → Result String (Unit {0})
validate_label_selector has_selector = ok tt

unfoldable pub validate_storage_class : Option String → Result String (Unit {0})
validate_storage_class none = ok tt
validate_storage_class (some s) =
    if s == "" then err "PersistentVolumeClaim must specify a storage class" else ok tt

unfoldable pub validate_volume_mode : Option String → Result String (Unit {0})
validate_volume_mode none = err "at least 1 access mode is required"
validate_volume_mode (some mode) = volume_mode_of mode >>= λ _. ok tt

unfoldable pub validate_data_source : Bool → Result String (Unit {0})
validate_data_source has_data_source = ok tt

unfoldable pub validate : ClaimSpec → Result String (Unit {0})
validate spec =
    validate_access_modes spec.access_modes
    >> validate_label_selector spec.has_selector
    >> validate_storage_class spec.storage_class_name
    >> validate_volume_mode spec.volume_mode
    >> validate_data_source spec.has_data_source
