-- ===== src/Devices/NodePatcher.antt =====
-- crates/kubelet/src/resources/device_plugin_manager/node_patcher.rs: the patch of the node's status.
-- A value stands for its decimal text.
pub mod Applied
use krustlet.Prelude.{
  ℕ, zero, suc, ◌+◌, ◌-◌, ◌*◌, ◌≤◌, ◌<◌, min, String, ◌<>◌, ◌≡◌, refl, sym, ap, subst, ◌∙◌, ◌≢◌,
  ◌↔◌, ◌⊎◌, inl, inr, Bool, true, false, not, ◌&&◌, ◌||◌, Option, none, some, List, [], ◌∷◌, ◌++◌,
  map, arith, ltb, leb, if◌then◌else◌, Bool-cases, Option-cases, Result-cases, List-cases,
  some-injective, ok-injective, Eq, ◌==◌, nat_eq, string_eq, str_eq_iff, ==_refl, ==_ne, contains,
  length, get_elem?, take, length-append, keep_if, find, Result, ok, err, ◌>>=◌, ◌>>◌, Panic,
  overflow, nothing, bind-eq-ok, All,
}
use krustlet.Prelude.Dict.{
  Dict, keys, values, lookup, insert, remove, contains_key, extend, NodupKeys, lookup-nil,
  lookup-cons, lookup-insert, lookup-remove, lookup-extend,
}
use Prim.Native.Char.{code}
use krustlet.Devices.Types.{Device, healthy, PluginDevicesMap, DeviceMap}

pub record AddOperation : Type 0 where
  pub path : String
  pub value : ℕ

unfoldable pub escape_json_pointer : String → String
escape_json_pointer String.[] = String.[]
escape_json_pointer (String.◌∷◌ c s) =
    let rest = escape_json_pointer s in
    if code c == b'/' then String.◌∷◌ "~" (String.◌∷◌ "1" rest) else String.◌∷◌ c rest

-- The devices that are healthy.
unfoldable pub count_healthy : PluginDevicesMap → ℕ
count_healthy [] = 0
count_healthy ((id, dev) ∷ devices) =
    (if dev.health == healthy then 1 else 0) + count_healthy devices

unfoldable pub get_node_status_patch : DeviceMap → List AddOperation
get_node_status_patch [] = []
get_node_status_patch ((resource_name, resource_devices) ∷ devices) =
    record {
      path = "/status/capacity/" <> escape_json_pointer resource_name;
      value = length resource_devices;
    }
    ∷ (record {
      path = "/status/allocatable/" <> escape_json_pointer resource_name;
      value = count_healthy resource_devices;
    }
        ∷ get_node_status_patch devices)
