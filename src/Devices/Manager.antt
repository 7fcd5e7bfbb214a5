-- ===== src/Devices/Manager.antt =====
-- crates/kubelet/src/resources/device_plugin_manager/manager.rs: the state of the manager and its
-- operations. Each takes the locks that it needs and gives them back; here an operation runs from
-- its call to its return with no other in between. `usize` arithmetic wraps, as in a release build.
use krustlet.Prelude.{
  ℕ, ◌+◌, ◌-◌, ◌%◌, String, Bool, true, false, not, none, some, List, [], ◌∷◌, Result, ok, err,
  Panic, ◌>>=◌, ◌==◌, contains, string_eq, nat_eq, ltb, if◌then◌else◌, length, take, keep_if,
}
use krustlet.Prelude.Dict.{Dict, lookup, insert}
use krustlet.Prelude.Text.{parse_usize, usize_limit}
use krustlet.Devices.Types.{
  healthy, DeviceIds, DeviceIdMap, PluginDevicesMap, DeviceMap, Quantity, RegisterRequest,
  ContainerAllocateRequest, AllocatedDevices, insert_all, ids_of,
}
use krustlet.Devices.PodDevices.{get_pods, remove_pods, get_container_devices}

-- A connection compares by its registration; the gRPC client behind it is not modelled.
pub record PluginConnection : Type 0 where
  pub register_request : RegisterRequest

pub record DeviceManager : Type 0 where
  pub plugins : Dict String PluginConnection
  pub devices : DeviceMap
  pub pod_devices : AllocatedDevices
  pub allocated_device_ids : DeviceIdMap

pub record ContainerAllocateInfo : Type 0 where
  pub container_name : String
  pub container_allocate_request : ContainerAllocateRequest

-- The errors of an allocation, one for each place that returns one.
pub data AllocateError : Type 0 where
  bad_quantity : AllocateError
  list_pods_failed : AllocateError
  changed_quantity : AllocateError
  no_device_plugin : AllocateError
  not_enough_devices : AllocateError
  plugin_failed : AllocateError
  responses_differ : AllocateError
  -- the task panics, and no handler runs
  panicked : Panic → AllocateError

unfoldable pub get_num_from_quantity : Quantity → Result AllocateError ℕ
get_num_from_quantity q = elim (parse_usize q) [ none ↦ err bad_quantity | some v ↦ ok v ]

unfoldable pub is_device_plugin_resource : DeviceManager → String → Bool
is_device_plugin_resource m resource_name = elim (lookup resource_name m.devices) [
  | none ↦ false
  | some _ ↦ true
]

-- The sum of a one for each healthy device.
unfoldable pub healthy_count : PluginDevicesMap → ℕ
healthy_count [] = 0
healthy_count ((id, dev) ∷ devices) =
    (if dev.health == healthy then 1 else 0) + healthy_count devices

unfoldable pub is_healthy_resource : DeviceManager → String → ℕ → Bool
is_healthy_resource m resource_name quantity = elim (lookup resource_name m.devices) [
  | none ↦ false
  | some resource_devices ↦ ltb quantity (healthy_count resource_devices)
]

-- The IDs of `active_pods` are taken off the set of all pods, and the pods left are removed.
unfoldable pub without_all : List String → List String → List String
without_all active_pods pods = keep_if (λ p. not (contains p active_pods)) pods

unfoldable pub update_allocated_devices :
    Result AllocateError (List String) → DeviceManager → Result AllocateError DeviceManager
update_allocated_devices listed m = do
  active_pods ← listed
  let pods_to_be_removed = without_all active_pods (get_pods m.pod_devices)
  ok (record m { pod_devices = remove_pods pods_to_be_removed m.pod_devices })

unfoldable pub healthy_ids : PluginDevicesMap → List String
healthy_ids [] = []
healthy_ids ((id, dev) ∷ devices) =
    let rest = healthy_ids devices in if dev.health == healthy then id ∷ rest else rest

unfoldable pub get_available_devices : PluginDevicesMap → DeviceIds → List String
get_available_devices devices allocated_devices =
    keep_if (λ id. not (contains id allocated_devices)) (healthy_ids devices)

-- The chosen devices are added to the reserved ones of the resource.
unfoldable pub mark_allocated : String → List String → DeviceManager → DeviceManager
mark_allocated resource_name chosen m = record m {
  allocated_device_ids =
      insert resource_name (insert_all chosen (ids_of resource_name m.allocated_device_ids))
        m.allocated_device_ids;
}

-- The part of `devices_to_allocate` for a container that holds no devices of the resource.
unfoldable pub reserve :
    String → ℕ → DeviceManager → Result AllocateError (List String × DeviceManager)
reserve resource_name quantity m = elim (lookup resource_name m.devices) [
  | none ↦ err no_device_plugin
  | some resource_devices ↦
      let available_devices =
        get_available_devices resource_devices (ids_of resource_name m.allocated_device_ids) in
      if ltb (length available_devices) quantity
      then err not_enough_devices
      else ok (
        take quantity available_devices,
        mark_allocated resource_name (take quantity available_devices) m,
      )
]

unfoldable pub devices_to_allocate :
    String
    → String
    → String
    → ℕ
    → DeviceManager
    → Result AllocateError (List String × DeviceManager)
devices_to_allocate resource_name pod_uid container_name quantity m =
    elim (get_container_devices m.pod_devices resource_name pod_uid container_name) [
      | some device_ids ↦
          if (quantity + usize_limit - length device_ids) % usize_limit == 0
          then ok ([], m)
          else err changed_quantity
      | none ↦ reserve resource_name quantity m
    ]
