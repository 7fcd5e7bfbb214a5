-- ===== src/Devices/Allocate/Active.antt =====
-- Pods that are gone, and requests for all the devices of a resource.
use krustlet.Prelude.{
  String, not, none, List, [], ◌∷◌, ◌≡◌, refl, ok, string_eq, if◌then◌else◌, arith, contains,
  contains-nil, contains-cons,
}
use krustlet.Devices.PodDevices.{remove_pods, get_pods}
use krustlet.Devices.Manager.{update_allocated_devices, without_all, DeviceManager}
use krustlet.Devices.Types.{AllocatedDevices}
use krustlet.Prelude.Dict.{lookup, remove, contains-keep_if, lookup-remove, contains-keys}

lookup-remove_pods :
    (ps : List String) (pd : AllocatedDevices) (p : String)
    → lookup p (remove_pods ps pd) ≡ (if contains p ps then none else lookup p pd)
unfolding remove_pods
lookup-remove_pods [] pd p = simp contains-nil
lookup-remove_pods (q ∷ ps) pd p =
    ground
      (arith, lookup-remove_pods ps (remove q pd) p, lookup-remove q p pd, contains-cons p q ps)

-- After an update the records are those of the active pods, unchanged, and no others. The reserved
-- devices of the pods that are gone stay reserved, and the devices and plugins stay as they are.
pub update_allocated_devices_lem :
    (active : List String) (m : DeviceManager)
    → (m' : DeviceManager) × (update_allocated_devices (ok active) m ≡ ok m')
      × ((p : String)
          → lookup p m'.pod_devices ≡ (if contains p active then lookup p m.pod_devices else none))
      × (m'.allocated_device_ids ≡ m.allocated_device_ids)
      × (m'.devices ≡ m.devices)
      × (m'.plugins ≡ m.plugins)
unfolding update_allocated_devices without_all get_pods
update_allocated_devices_lem active m = (
  record m {
    pod_devices = remove_pods (without_all active (get_pods m.pod_devices)) m.pod_devices;
  },
  refl,
  λ p. ground (
    arith,
    lookup-remove_pods (without_all active (get_pods m.pod_devices)) m.pod_devices p,
    contains-keep_if (λ q. not (contains q active)) p (get_pods m.pod_devices),
    contains-keys p m.pod_devices,
  ),
  refl,
  refl,
  refl,
)
