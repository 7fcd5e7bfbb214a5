-- ===== src/Devices/Plugin.antt =====
-- crates/kubelet/src/resources/device_plugin_manager/plugin_connection.rs, mod.rs and the
-- registration half of manager.rs: validating a device plugin, adding and removing it, and following
-- the devices that it reports. `extended` stands for the test of crates/kubelet/src/resources/util.

pub mod Watch
pub mod Signals
pub mod Registered
use krustlet.Prelude.{
  String, Bool, true, false, not, Option, none, some, List, [], ◌∷◌, Result, ok, err, Panic,
  nothing, ◌>>=◌, ◌>>◌, map_err, ◌==◌, string_eq, ◌&&◌, if◌then◌else◌, keep_if,
}
use krustlet.Prelude.Dict.{Dict, lookup, insert, remove, keys, contains_key}
use krustlet.Devices.Types.{
  Device, DeviceMap, PluginDevicesMap, RegisterRequest, DevicePluginOptions,
}
use krustlet.Devices.Manager.{PluginConnection, DeviceManager}

abbrev pub api_version : String
api_version = "v1beta1"

-- The codes of `tonic::Status` that the code uses; the messages are left out.
pub data Code : Type 0 where
  unimplemented already_exists invalid_argument not_found : Code

unfoldable pub validate_is_unique : RegisterRequest → DeviceManager → Result Code (Unit {0})
validate_is_unique r m = elim (lookup r.resource_name m.plugins) [
  | some _ ↦ err already_exists
  | none ↦ ok tt
]

module _ (extended : String → Bool) where
  unfoldable pub validate : RegisterRequest → DeviceManager → Result Code (Unit {0})
  unfolding validate_is_unique
  validate r m =
      if r.version == api_version
      then (if extended r.resource_name then validate_is_unique r m else err unimplemented)
      else err unimplemented

  -- `connected` is the outcome of opening the plugin's socket.
  unfoldable pub create_plugin_connection :
      Result Code (Unit {0}) → RegisterRequest → DeviceManager → Result Code DeviceManager
  create_plugin_connection connected r m = do
    connected
    ok (record m { plugins = insert r.resource_name (record { register_request = r }) m.plugins })

  unfoldable pub register :
      Result Code (Unit {0}) → RegisterRequest → DeviceManager → Result Code DeviceManager
  unfolding validate create_plugin_connection
  register connected r m = do
    map_err (λ _. invalid_argument) (validate r m)
    map_err (λ _. not_found) (create_plugin_connection connected r m)

abbrev same : Bool → Bool → Bool
same true b = b
same false b = not b

abbrev options_eq : Option DevicePluginOptions → Option DevicePluginOptions → Bool
options_eq none none = true
options_eq none (some _) = false
options_eq (some _) none = false
options_eq (some a) (some b) =
    same a.pre_start_required b.pre_start_required
    && same a.get_preferred_allocation_available b.get_preferred_allocation_available

-- `PartialEq` of `PluginConnection`: the registrations are equal.
unfoldable pub plugin_eq : PluginConnection → PluginConnection → Bool
plugin_eq a b =
    let r = a.register_request in
    let q = b.register_request in
    r.version == q.version
    && (r.endpoint == q.endpoint
        && (r.resource_name == q.resource_name && options_eq r.options q.options))

unfoldable pub remove_plugin :
    String → PluginConnection → Dict String PluginConnection → Dict String PluginConnection
unfolding plugin_eq
remove_plugin resource_name plugin_connection plugins = elim (lookup resource_name plugins) [
  | none ↦ plugins
  | some old ↦ if plugin_eq old plugin_connection then remove resource_name plugins else plugins
]

unfoldable pub remove_resource_devices : String → DeviceMap → DeviceMap
remove_resource_devices resource_name devices = elim (lookup resource_name devices) [
  | none ↦ devices
  | some _ ↦ insert resource_name [] devices
]

-- What the spawned task does when the connection's `start` has returned.
unfoldable pub plugin_ended : String → PluginConnection → DeviceManager → DeviceManager
unfolding remove_plugin remove_resource_devices
plugin_ended resource_name plugin_connection m = record m {
  plugins = remove_plugin resource_name plugin_connection m.plugins;
  devices = remove_resource_devices resource_name m.devices;
}

-- `map.insert(device.id.clone(), device.clone())` for every device of a response.
unfoldable pub by_id : List Device → PluginDevicesMap → PluginDevicesMap
by_id [] acc = acc
by_id (device ∷ devices) acc = by_id devices (insert device.id device acc)

unfoldable pub add_device_to_map : String → Device → DeviceMap → DeviceMap
add_device_to_map resource_name device devices = elim (lookup resource_name devices) [
  | some resource_devices_map ↦
      insert resource_name (insert device.id device resource_devices_map) devices
  | none ↦ insert resource_name (insert device.id device []) devices
]

-- One round of the loop over the current devices; the flag says whether the node status needs an
-- update.
unfoldable pub visit : String → PluginDevicesMap → Device → DeviceMap × Bool → DeviceMap × Bool
unfolding add_device_to_map
visit resource_name previous device (devices, update_node_status) =
    elim (lookup device.id previous) [
      | some previous_device ↦
          if previous_device.health == device.health
          then (devices, update_node_status)
          else (add_device_to_map resource_name device devices, true)
      | none ↦ (add_device_to_map resource_name device devices, true)
    ]

-- `current_devices.values()`
unfoldable pub add_current :
    String → PluginDevicesMap → PluginDevicesMap → DeviceMap × Bool → DeviceMap × Bool
add_current resource_name previous [] acc = acc
add_current resource_name previous ((id, device) ∷ current) acc =
    add_current resource_name previous current (visit resource_name previous device acc)

unfoldable pub removed_device_ids : PluginDevicesMap → PluginDevicesMap → List String
removed_device_ids previous current = keep_if (λ id. not (contains_key id current)) (keys previous)

unfoldable pub remove_ids : List String → PluginDevicesMap → PluginDevicesMap
remove_ids [] devices = devices
remove_ids (id ∷ ids) devices = remove_ids ids (remove id devices)

unfoldable pub remove_gone :
    String → List String → DeviceMap × Bool → Result Panic (DeviceMap × Bool)
unfolding remove_ids
remove_gone resource_name [] acc = ok acc
remove_gone resource_name (id ∷ ids) (devices, _) = elim (lookup resource_name devices) [
  | none ↦ err nothing
  | some resource_devices ↦
      ok (insert resource_name (remove_ids (id ∷ ids) resource_devices) devices, true)
]

-- The result: the shared map, the devices to compare the next response with, and the flag.
unfoldable pub update_devices_map :
    String
    → DeviceMap
    → PluginDevicesMap
    → List Device
    → Result Panic (DeviceMap × PluginDevicesMap × Bool)
unfolding by_id visit add_current removed_device_ids remove_gone
update_devices_map resource_name devices previous response = do
  let current = by_id response []
  (devices', update_node_status) ←
      remove_gone resource_name (removed_device_ids previous current)
        (add_current resource_name previous current (devices, false))
  ok (devices', current, update_node_status)

-- The responses of a `ListAndWatch` stream, in their order, from its start; the flags say for which
-- of them the node patcher is signalled.
unfoldable pub watch :
    String
    → DeviceMap
    → PluginDevicesMap
    → List (List Device)
    → Result Panic (DeviceMap × List Bool)
unfolding update_devices_map
watch resource_name devices previous [] = ok (devices, [])
watch resource_name devices previous (response ∷ stream) = do
  (devices', current, update_node_status) ←
      update_devices_map resource_name devices previous response
  (devices'', signals) ← watch resource_name devices' current stream
  ok (devices'', update_node_status ∷ signals)

unfoldable pub list_and_watch :
    String → DeviceMap → List (List Device) → Result Panic (DeviceMap × List Bool)
unfolding watch
list_and_watch resource_name devices stream = watch resource_name devices [] stream
