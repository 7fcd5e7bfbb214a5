-- ===== src/Tests.antt =====
-- Runs of the theorems at concrete inputs: device plugins and backoff; the children have the other parts.
mod Pods
mod Steps
mod Logs
mod Configs
mod Plugins
mod Mounts
mod Resources
mod Containers
mod Images
mod Registries
use krustlet.Prelude.{
  ◌==◌, ◌&&◌, string_eq, keep_if, ℕ, String, Bool, true, false, Option, none, some, List, [], ◌∷◌,
  ◌++◌, Result, ok, err, ◌≡◌, ◌≢◌, ◌⊎◌, ◌↔◌, inl, inr, refl, arith, Panic, ◌>>=◌, ◌≤◌, ◌<◌, length,
  contains, take, if◌then◌else◌,
}
use krustlet.Prelude.Dict.{contains_key, insert, Dict, lookup, NodupKeys}
use krustlet.Devices.Types.{
  Device, Quantity, PodResourceRequests, ContainerAllocateRequest, ContainerAllocateResponse,
  PluginDevicesMap, RegisterRequest,
}
use krustlet.Devices.Manager.{PluginConnection, DeviceManager, AllocateError, devices_to_allocate}
use krustlet.Devices.Allocate.{do_allocate}
use krustlet.Devices.Allocate.Choice.{Distinct, is_healthy, devices_to_allocate_choice}
use krustlet.Devices.Allocate.Active.{update_allocated_devices_lem}
use krustlet.Devices.Allocate.Reserve.{reserved}
use krustlet.Devices.Manager.{
  reserve, get_available_devices, healthy_ids, mark_allocated, update_allocated_devices,
}
use krustlet.Devices.PodDevices.Totals.{holds-get_allocated_devices}
use krustlet.Devices.PodDevices.{get_allocated_devices, get_container_devices}
use krustlet.Devices.Types.{insert_all, insert_id, ids_of, DeviceMap, AllocatedDevices}
use krustlet.Devices.Plugin.{by_id, list_and_watch, update_devices_map}
use krustlet.Devices.Plugin.Watch.{list_and_watch_last, health_at, health_of}
use krustlet.Devices.Plugin.Signals.{update_devices_map-signal, SameHealth}
use krustlet.Devices.Allocate.{allocate_resource, start}
use krustlet.Devices.Manager.{get_num_from_quantity}
use krustlet.Prelude.Text.{parse_usize}
use krustlet.Devices.Plugin.{
  api_version, plugin_ended, register, validate, validate_is_unique, create_plugin_connection,
}
use krustlet.Devices.Plugin.Registered.{register-plugin_ended}
use krustlet.Backoff
use krustlet.Backoff.{ExponentialBackoffStrategy, wait, reset}
use krustlet.Backoff.Doubling.{waits, doubled, IsUsable, wait-waits-reset}
use krustlet.Devices.Allocate.Pending.{IsConsistent}
use krustlet.Devices.Allocate.Consistent.{do_allocate-IsConsistent}

abbrev gpu : String → Device
gpu id = record { id = id; health = "Healthy" }

abbrev gpus : PluginDevicesMap
gpus = ("a", gpu "a") ∷ ("b", gpu "b") ∷ ("c", gpu "c") ∷ []

abbrev gpu_plugin : PluginConnection
gpu_plugin = record {
  register_request = record {
    version = "v1beta1";
    endpoint = "gpu.sock";
    resource_name = "example.com/gpu";
    options = none;
  };
}

-- Nothing is allocated.
abbrev idle : DeviceManager
idle = record {
  plugins = ("example.com/gpu", gpu_plugin) ∷ [];
  devices = ("example.com/gpu", gpus) ∷ [];
  pod_devices = [];
  allocated_device_ids = [];
}

idle-IsConsistent : IsConsistent idle
unfolding lookup
idle-IsConsistent = record {
  recorded = λ p c r id h. absurd (ground (arith, h));
  exclusive = λ p c p' c' r id h h'. absurd (ground (arith, h));
}

abbrev answers :
    PluginConnection
    → List ContainerAllocateRequest
    → Result AllocateError (List ContainerAllocateResponse)
answers plugin requests =
    ok (record { envs = []; mounts = []; devices = []; annotations = [] } ∷ [])

abbrev wanted : PodResourceRequests
wanted = ("main", ("example.com/gpu", "2") ∷ []) ∷ []

do_allocate-IsConsistent_example :
    IsConsistent (do_allocate answers (ok ("pod" ∷ [])) "pod" wanted idle).0
do_allocate-IsConsistent_example =
    do_allocate-IsConsistent answers (ok ("pod" ∷ [])) "pod" wanted idle idle-IsConsistent

-- Two devices for a container that holds none.
abbrev two_reserved : List String × DeviceManager
two_reserved = (
  ("a" ∷ "b" ∷ []),
  record idle { allocated_device_ids = ("example.com/gpu", "b" ∷ "a" ∷ []) ∷ [] },
)

devices_to_allocate_choice_example :
    (length two_reserved.0 ≡ 2)
    × Distinct two_reserved.0
    × ((id : String)
        → contains id two_reserved.0 ≡ true
        → (is_healthy id gpus ≡ true)
          × (reserved idle "example.com/gpu" id ≡ false)
          × (reserved two_reserved.1 "example.com/gpu" id ≡ true))
    × (two_reserved.1.pod_devices ≡ idle.pod_devices)
unfolding lookup devices_to_allocate reserve insert_all insert get_container_devices
    get_available_devices healthy_ids mark_allocated keep_if contains insert_id
devices_to_allocate_choice_example =
    devices_to_allocate_choice "example.com/gpu" "pod" "main" 2 idle two_reserved gpus refl
      (refl, (refl, (refl, tt))) refl refl

-- One pod that holds a device, and is still active.
abbrev recorded : AllocatedDevices
recorded =
    (
      "pod",
      (
        "main",
        (
          "example.com/gpu",
          record {
            device_ids = "a" ∷ [];
            allocate_response = record { envs = []; mounts = []; devices = []; annotations = [] };
          },
        )
            ∷ [],
      )
          ∷ [],
    )
    ∷ []

abbrev busy : DeviceManager
busy = record idle {
  pod_devices = recorded;
  allocated_device_ids = ("example.com/gpu", "a" ∷ []) ∷ [];
}

update_allocated_devices_lem_example :
    (m' : DeviceManager) × (update_allocated_devices (ok []) busy ≡ ok m')
    × ((p : String)
        → lookup p m'.pod_devices ≡ (if contains p [] then lookup p busy.pod_devices else none))
    × (m'.allocated_device_ids ≡ busy.allocated_device_ids)
    × (m'.devices ≡ busy.devices)
    × (m'.plugins ≡ busy.plugins)
update_allocated_devices_lem_example = update_allocated_devices_lem [] busy

holds-get_allocated_devices_example :
    contains "a" (ids_of "example.com/gpu" (get_allocated_devices recorded)) ≡ true
unfolding lookup contains
holds-get_allocated_devices_example =
    holds-get_allocated_devices "pod" "main" "example.com/gpu" "a" recorded refl

abbrev sick : Device
sick = record { id = "a"; health = "Unhealthy" }

list_and_watch_last_example :
    (out : DeviceMap × List Bool) × (list_and_watch "example.com/gpu" []
        ((gpu "a" ∷ gpu "b" ∷ []) ∷ (sick ∷ []) ∷ [])
      ≡ ok out)
    × ((id : String)
        → health_at "example.com/gpu" id out.0 ≡ health_of (lookup id (by_id (sick ∷ []) [])))
    × ((q : String) → "example.com/gpu" ≢ q → lookup q out.0 ≡ lookup q [])
unfolding lookup
list_and_watch_last_example =
    list_and_watch_last "example.com/gpu" [] ((gpu "a" ∷ gpu "b" ∷ []) ∷ []) (sick ∷ []) refl

-- The device `a` has become unhealthy.
update_devices_map-signal_example :
    (true ≡ false) ↔ SameHealth (("a", gpu "a") ∷ []) (by_id (sick ∷ []) [])
unfolding lookup update_devices_map keep_if insert
update_devices_map-signal_example =
    update_devices_map-signal "example.com/gpu" (("example.com/gpu", ("a", gpu "a") ∷ []) ∷ [])
      (("a", gpu "a") ∷ []) (sick ∷ [])
      ((("example.com/gpu", ("a", sick) ∷ []) ∷ []), ("a", sick) ∷ [], true) refl

wait-waits-reset_example :
    (waits 4 (reset Backoff.default) >>= wait)
    ≡ ok (
      record Backoff.default { last_duration = doubled Backoff.default 4 },
      doubled Backoff.default 4,
    )
wait-waits-reset_example =
    wait-waits-reset Backoff.default
      (record { starts = ground arith; capped = ground arith; fits = ground arith }) 4

abbrev no_plugins : DeviceManager
no_plugins = record idle { plugins = [] }

abbrev extended : String → Bool
extended name = name == "example.com/gpu"

-- The state when the connection ends: the plugin has listed a device, which a pod holds.
abbrev later : DeviceManager
later = record busy {
  plugins = ("example.com/gpu", gpu_plugin) ∷ [];
  devices = ("example.com/gpu", ("a", gpu "a") ∷ []) ∷ [];
}

register-plugin_ended_example :
    ("v1beta1" ≡ api_version)
    × (extended "example.com/gpu" ≡ true)
    × (lookup "example.com/gpu" no_plugins.plugins ≡ none)
    × ((q : String)
        → lookup q (plugin_ended "example.com/gpu" gpu_plugin later).plugins
          ≡ (if "example.com/gpu" == q then none else lookup q later.plugins))
    × ((q : String)
        → lookup q (plugin_ended "example.com/gpu" gpu_plugin later).devices ≡ (
            if "example.com/gpu" == q && contains_key "example.com/gpu" later.devices
            then some []
            else lookup q later.devices))
    × ((plugin_ended "example.com/gpu" gpu_plugin later).pod_devices ≡ later.pod_devices)
    × ((plugin_ended "example.com/gpu" gpu_plugin later).allocated_device_ids
        ≡ later.allocated_device_ids)
    × ((again : DeviceManager) × (register extended
            (ok tt)
            gpu_plugin.register_request
            (plugin_ended "example.com/gpu" gpu_plugin later)
          ≡ ok again))
unfolding register validate validate_is_unique create_plugin_connection lookup insert
register-plugin_ended_example =
    register-plugin_ended extended (ok tt) gpu_plugin.register_request no_plugins idle later refl
      refl
