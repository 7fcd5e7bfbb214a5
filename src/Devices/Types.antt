-- ===== src/Devices/Types.antt =====
-- The types of crates/kubelet/src/resources/device_plugin_manager, and the messages of the device
-- plugin API that it exchanges. A `HashSet` is a list that a set insertion keeps free of
-- duplicates. The topology of a device is only logged, and is left out.
use krustlet.Prelude.{
  string_eq, String, Bool, Option, List, [], ◌∷◌, Eq, contains, if◌then◌else◌, none, some,
}
use krustlet.Prelude.Dict.{Dict, lookup}

pub record Device : Type 0 where
  pub id : String
  pub health : String

abbrev pub healthy : String
healthy = "Healthy"

abbrev pub DeviceIds : Type 0
DeviceIds = List String

abbrev pub DeviceIdMap : Type 0
DeviceIdMap = Dict String DeviceIds

abbrev pub PluginDevicesMap : Type 0
PluginDevicesMap = Dict String Device

abbrev pub DeviceMap : Type 0
DeviceMap = Dict String PluginDevicesMap

-- A `Quantity` is the text that the manifest holds.
abbrev pub Quantity : Type 0
Quantity = String

abbrev pub ContainerResourceRequests : Type 0
ContainerResourceRequests = Dict String Quantity

abbrev pub PodResourceRequests : Type 0
PodResourceRequests = Dict String ContainerResourceRequests

pub record DevicePluginOptions : Type 0 where
  pub pre_start_required : Bool
  pub get_preferred_allocation_available : Bool

pub record RegisterRequest : Type 0 where
  pub version : String
  pub endpoint : String
  pub resource_name : String
  pub options : Option DevicePluginOptions

pub record ContainerAllocateRequest : Type 0 where
  pub devices_i_ds : List String

pub record Mount : Type 0 where
  pub container_path : String
  pub host_path : String
  pub read_only : Bool

pub record DeviceSpec : Type 0 where
  pub container_path : String
  pub host_path : String
  pub permissions : String

pub record ContainerAllocateResponse : Type 0 where
  pub envs : Dict String String
  pub mounts : List Mount
  pub devices : List DeviceSpec
  pub annotations : Dict String String

pub record DeviceAllocateInfo : Type 0 where
  pub device_ids : DeviceIds
  pub allocate_response : ContainerAllocateResponse

-- Keyed by resource name.
abbrev pub ResourceAllocateInfo : Type 0
ResourceAllocateInfo = Dict String DeviceAllocateInfo

-- Keyed by container name.
abbrev pub ContainerDevices : Type 0
ContainerDevices = Dict String ResourceAllocateInfo

-- Keyed by the UID of the pod.
abbrev pub AllocatedDevices : Type 0
AllocatedDevices = Dict String ContainerDevices

-- `map.get(resource_name).unwrap_or(&HashSet::new())`
abbrev pub ids_of : String → DeviceIdMap → DeviceIds
ids_of resource_name reserved = elim (lookup resource_name reserved) [ none ↦ [] | some ids ↦ ids ]

module _ {ℓ} {A : Type ℓ} ⦃e : Eq A⦄ where
  -- `HashSet::insert`
  unfoldable pub insert_id : A → List A → List A
  unfolding contains
  insert_id a s = if contains a s then s else a ∷ s

  -- `for id in ids { set.insert(id) }`
  unfoldable pub insert_all : List A → List A → List A
  unfolding insert_id
  insert_all [] s = s
  insert_all (a ∷ ids) s = insert_all ids (insert_id a s)
