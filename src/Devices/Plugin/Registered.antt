-- ===== src/Devices/Plugin/Registered.antt =====
-- A plugin from its registration to the end of its connection.
use krustlet.Prelude.{
  [], string_eq, String, Bool, true, some, none, ◌≡◌, refl, ok, Result, arith, if◌then◌else◌, ◌==◌,
  str_eq_iff, ==_refl, Result-cases, Option-cases, Bool-cases, inl, inr, ◌&&◌, ◌∙◌,
}
use krustlet.Prelude.Dict.{Dict, contains_key, lookup, insert, lookup-insert, lookup-remove}
use krustlet.Devices.Types.{DeviceMap, RegisterRequest}
use krustlet.Devices.Manager.{DeviceManager, PluginConnection}
use krustlet.Devices.Plugin.{
  Code, api_version, register, validate, validate_is_unique, create_plugin_connection, plugin_ended,
  plugin_eq, remove_plugin, remove_resource_devices,
}

plugin_eq_refl : (c : PluginConnection) → plugin_eq c c ≡ true
unfolding plugin_eq
plugin_eq_refl c = elim (Option-cases c.register_request.options) [
  | inl e ↦ ground (
    arith,
    e,
    ==_refl c.register_request.version,
    ==_refl c.register_request.endpoint,
    ==_refl c.register_request.resource_name,
  )
  | inr (o, e) ↦ ground (
    arith,
    e,
    ==_refl c.register_request.version,
    ==_refl c.register_request.endpoint,
    ==_refl c.register_request.resource_name,
    Bool-cases o.pre_start_required,
    Bool-cases o.get_preferred_allocation_available,
  )
]

register-ok :
    (extended : String → Bool) (connected : Result Code (Unit {0})) (r : RegisterRequest)
    (m m' : DeviceManager)
    → register extended connected r m ≡ ok m'
    → (r.version ≡ api_version)
      × (extended r.resource_name ≡ true)
      × (lookup r.resource_name m.plugins ≡ none)
      × (m' ≡ record m {
        plugins = insert r.resource_name (record { register_request = r }) m.plugins;
      })
unfolding register validate validate_is_unique create_plugin_connection
register-ok extended connected r m m' h = (
  ground (arith, h, str_eq_iff r.version api_version),
  ground (arith, h),
  ground (arith, h, Option-cases (lookup r.resource_name m.plugins)),
  ground (arith, h, Result-cases connected, Option-cases (lookup r.resource_name m.plugins)),
)

lookup-remove_plugin :
    (n : String) (c : PluginConnection) (plugins : Dict String PluginConnection) (q : String)
    → lookup n plugins ≡ some c
    → lookup q (remove_plugin n c plugins) ≡ (if n == q then none else lookup q plugins)
unfolding remove_plugin
lookup-remove_plugin n c plugins q there =
    ground (arith, there, plugin_eq_refl c, lookup-remove n q plugins, str_eq_iff n q)

register-free :
    (extended : String → Bool) (r : RegisterRequest) (m : DeviceManager)
    → r.version ≡ api_version
    → extended r.resource_name ≡ true
    → lookup r.resource_name m.plugins ≡ none
    → register extended (ok tt) r m
      ≡ ok (record m {
        plugins = insert r.resource_name (record { register_request = r }) m.plugins;
      })
unfolding register validate validate_is_unique create_plugin_connection
register-free extended r m version name free =
    ground (arith, str_eq_iff r.version api_version, version, name, free)

lookup-remove_resource_devices :
    (n : String) (devices : DeviceMap) (q : String)
    → lookup q (remove_resource_devices n devices)
      ≡ (if n == q && contains_key n devices then some [] else lookup q devices)
unfolding remove_resource_devices
lookup-remove_resource_devices n devices q =
    ground (arith, Option-cases (lookup n devices), lookup-insert n q [] devices, str_eq_iff n q)

-- A registration is accepted only of the supported version, under an extended resource name that no
-- plugin has. When its connection ends, whatever state the manager has come to by then with this
-- connection still in it: just the resource's plugin is taken out, the resource lists no devices, if it
-- listed any, and every other plugin, resource, recorded device and reservation stays. The same
-- registration is then accepted again.
pub register-plugin_ended :
    (extended : String → Bool) (connected : Result Code (Unit {0})) (r : RegisterRequest)
    (m m' later : DeviceManager)
    → register extended connected r m ≡ ok m'
    → lookup r.resource_name later.plugins ≡ some (record { register_request = r })
    → (r.version ≡ api_version)
      × (extended r.resource_name ≡ true)
      × (lookup r.resource_name m.plugins ≡ none)
      × ((q : String)
          → lookup q (plugin_ended r.resource_name (record { register_request = r }) later).plugins
            ≡ (if r.resource_name == q then none else lookup q later.plugins))
      × ((q : String)
          → lookup q (plugin_ended r.resource_name (record { register_request = r }) later).devices
            ≡ (if r.resource_name == q && contains_key r.resource_name later.devices
                then some []
                else lookup q later.devices))
      × ((plugin_ended r.resource_name (record { register_request = r }) later).pod_devices
          ≡ later.pod_devices)
      × ((plugin_ended r.resource_name (record { register_request = r }) later).allocated_device_ids
          ≡ later.allocated_device_ids)
      × ((again : DeviceManager) × (register extended
              (ok tt)
              r
              (plugin_ended r.resource_name (record { register_request = r }) later)
            ≡ ok again))
unfolding plugin_ended
register-plugin_ended extended connected r m m' later h there =
    let (version, name, free, _) = register-ok extended connected r m m' h in
    let plugins : (q : String)
        → lookup q (remove_plugin r.resource_name (record { register_request = r }) later.plugins)
          ≡ (if r.resource_name == q then none else lookup q later.plugins) =
      λ q.
        lookup-remove_plugin r.resource_name (record { register_request = r }) later.plugins q
          there in
    (
      version,
      name,
      free,
      plugins,
      λ q. lookup-remove_resource_devices r.resource_name later.devices q,
      refl,
      refl,
      (
        _,
        register-free extended r
            (plugin_ended r.resource_name (record { register_request = r }) later) version name
            (plugins r.resource_name ∙ ground (arith, ==_refl r.resource_name)),
      ),
    )
