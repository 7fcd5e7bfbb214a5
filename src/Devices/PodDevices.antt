-- ===== src/Devices/PodDevices.antt =====
-- crates/kubelet/src/resources/device_plugin_manager/pod_devices.rs: which devices each container
-- of each pod holds. The map is the only field that the methods change; the list of active pods
-- comes from the Kubernetes API and is an argument of its user.
pub mod Totals
use krustlet.Prelude.{String, Option, none, some, List, [], ◌∷◌, map, string_eq}
use krustlet.Prelude.Dict.{Dict, keys, values, lookup, insert, remove, extend}
use krustlet.Devices.Types.{
  DeviceIds, DeviceIdMap, ContainerAllocateResponse, DeviceAllocateInfo, ResourceAllocateInfo,
  ContainerDevices, AllocatedDevices, insert_all,
}

unfoldable pub get_pods : AllocatedDevices → List String
get_pods allocated = keys allocated

unfoldable pub remove_pods : List String → AllocatedDevices → AllocatedDevices
remove_pods [] allocated = allocated
remove_pods (p_uid ∷ pods_to_remove) allocated = remove_pods pods_to_remove (remove p_uid allocated)

unfoldable pub get_container_devices :
    AllocatedDevices → String → String → String → Option DeviceIds
get_container_devices allocated resource_name pod_uid container_name =
    elim (lookup pod_uid allocated) [
      | none ↦ none
      | some container_devices ↦ elim (lookup container_name container_devices) [
        | none ↦ none
        | some resource_devices ↦ elim (lookup resource_name resource_devices) [
          | none ↦ none
          | some info ↦ some info.device_ids
        ]
      ]
    ]

-- The three nested loops of `get_allocated_devices`, innermost first.
unfoldable pub add_device_ids : String → DeviceIds → DeviceIdMap → DeviceIdMap
add_device_ids resource_name ids res = elim (lookup resource_name res) [
  | some device_ids ↦ insert resource_name (insert_all ids device_ids) res
  | none ↦ insert resource_name ids res
]

unfoldable pub add_resources : ResourceAllocateInfo → DeviceIdMap → DeviceIdMap
add_resources [] res = res
add_resources ((resource_name, info) ∷ container_devs) res =
    add_resources container_devs (add_device_ids resource_name info.device_ids res)

unfoldable pub add_containers : ContainerDevices → DeviceIdMap → DeviceIdMap
add_containers [] res = res
add_containers ((container_name, container_devs) ∷ container_map) res =
    add_containers container_map (add_resources container_devs res)

unfoldable pub add_pods : AllocatedDevices → DeviceIdMap → DeviceIdMap
add_pods [] res = res
add_pods ((p_uid, container_map) ∷ allocated) res =
    add_pods allocated (add_containers container_map res)

unfoldable pub get_allocated_devices : AllocatedDevices → DeviceIdMap
get_allocated_devices allocated = add_pods allocated []

unfoldable pub add_allocated_devices :
    String → ContainerDevices → AllocatedDevices → AllocatedDevices
add_allocated_devices pod_uid container_devices allocated = elim (lookup pod_uid allocated) [
  | some m ↦ insert pod_uid (extend m container_devices) allocated
  | none ↦ insert pod_uid container_devices allocated
]

-- The responses of one container: `resource_allocate_info.values()...collect()`.
abbrev pub responses : ResourceAllocateInfo → List ContainerAllocateResponse
responses info = map (λ (d : DeviceAllocateInfo). d.allocate_response) (values info)

unfoldable pub collect_responses :
    ContainerDevices
    → Dict String (List ContainerAllocateResponse)
    → Dict String (List ContainerAllocateResponse)
collect_responses [] acc = acc
collect_responses ((container_name, info) ∷ container_devices) acc =
    collect_responses container_devices (insert container_name (responses info) acc)

unfoldable pub get_pod_allocate_responses :
    AllocatedDevices → String → Option (Dict String (List ContainerAllocateResponse))
get_pod_allocate_responses allocated pod_uid = elim (lookup pod_uid allocated) [
  | some container_devices ↦ some (collect_responses container_devices [])
  | none ↦ none
]
