-- ===== src/Devices/Plugin/Signals.antt =====
-- When the node patcher is signalled, and a whole `ListAndWatch` stream.
use krustlet.Prelude.{
  String, Bool, false, not, some, List, [], ◌∷◌, ◌≡◌, refl, ◌↔◌, ok, string_eq, ◌&&◌, str_eq_iff,
  arith, contains, Option-cases, inl, contains-none, inr, ==_refl, ◌∙◌, bind-eq-ok, ap,
  contains-nil,
}
use krustlet.Devices.Types.{Device, DeviceMap, PluginDevicesMap}
use krustlet.Devices.Plugin.Watch.{
  health_of, OwnIds, contains-removed_device_ids, by_id-NodupKeys, by_id-OwnIds,
}
use krustlet.Devices.Plugin.{
  visit, add_current, by_id, remove_gone, removed_device_ids, update_devices_map,
}
use krustlet.Prelude.Dict.{contains_key, lookup, NodupKeys, lookup-nil, lookup-cons}

-- The device `d` was reported before, with the health that it has now.
abbrev Unchanged : PluginDevicesMap → String → Device → Type 0
Unchanged previous j d = health_of (lookup j previous) ≡ some d.health

module _ (r : String) (previous : PluginDevicesMap) where
  flag-visit :
      (d : Device) (acc : DeviceMap × Bool)
      → (visit r previous d acc).1 ≡ false
      → (acc.1 ≡ false) × Unchanged previous d.id d
  unfolding visit
  flag-visit d acc h = elim (Option-cases (lookup d.id previous)) [
    | inl e ↦ ground arith
    | inr (p, e) ↦ ground (arith, str_eq_iff p.health d.health)
  ]

  visit-Unchanged :
      (d : Device) (acc : DeviceMap × Bool)
      → Unchanged previous d.id d
      → visit r previous d acc ≡ acc
  unfolding visit
  visit-Unchanged d acc h = elim (Option-cases (lookup d.id previous)) [
    | inl e ↦ ground arith
    | inr (p, e) ↦ ground (arith, str_eq_iff p.health d.health)
  ]

  flag-add_current :
      (es : PluginDevicesMap) (acc : DeviceMap × Bool)
      → OwnIds es
      → (add_current r previous es acc).1 ≡ false
      → (acc.1 ≡ false)
        × ((j : String) (d : Device) → lookup j es ≡ some d → Unchanged previous j d)
  unfolding add_current
  flag-add_current [] acc o h = (h, λ j d e. ground (arith, lookup-nil {V = Device} j))
  flag-add_current ((id, c) ∷ es) acc o h =
      let (f, rest) = flag-add_current es (visit r previous c acc) o.1 h in
      let (g, same) = flag-visit c acc f in
      (g, λ j d e. ground (arith, same, o.0, rest j d, lookup-cons j id c es, str_eq_iff id j))

  add_current-Unchanged :
      (es : PluginDevicesMap) (acc : DeviceMap × Bool)
      → NodupKeys es
      → OwnIds es
      → ((j : String) (d : Device) → lookup j es ≡ some d → Unchanged previous j d)
      → add_current r previous es acc ≡ acc
  unfolding add_current
  add_current-Unchanged [] acc u o h = refl
  add_current-Unchanged ((id, c) ∷ es) acc u o h =
      rw (visit-Unchanged c acc (ground (arith, o.0, h id c, lookup-cons id id c es, ==_refl id))) (
        add_current-Unchanged es acc u.1 o.1
          λ j d e. ground (arith, u.0, h j d, lookup-cons j id c es, str_eq_iff id j))

  abbrev current_of : List Device → PluginDevicesMap
  current_of response = by_id response []

  flag-remove_gone :
      (ids : List String) (acc out : DeviceMap × Bool)
      → remove_gone r ids acc ≡ ok out
      → out.1 ≡ false
      → (ids ≡ []) × (acc.1 ≡ false)
  unfolding remove_gone
  flag-remove_gone [] acc out e f = ground arith
  flag-remove_gone (id ∷ ids) acc out e f = ground arith

  removed-eq-nil :
      (current : PluginDevicesMap)
      → ((j : String) → contains_key j previous && not (contains_key j current) ≡ false)
      → removed_device_ids previous current ≡ []
  removed-eq-nil current h =
      contains-none _ λ j. contains-removed_device_ids previous current j ∙ h j

-- The plugin reports the same devices as before, each with the health that it had.
abbrev pub SameHealth : PluginDevicesMap → PluginDevicesMap → Type 0
SameHealth previous current =
    (j : String) → health_of (lookup j previous) ≡ health_of (lookup j current)

module _ (r : String) (devices : DeviceMap) (previous : PluginDevicesMap) (response : List Device)
    (out : DeviceMap × PluginDevicesMap × Bool)
    (done : update_devices_map r devices previous response ≡ ok out) where
  abbrev current : PluginDevicesMap
  current = by_id response []

  abbrev accumulated : DeviceMap × Bool
  accumulated = add_current r previous current (devices, false)

  abbrev gone : List String
  gone = removed_device_ids previous current

  signal-SameHealth : out.2 ≡ false → SameHealth previous current
  unfolding update_devices_map
  signal-SameHealth f j =
      let (end, removed, result) = bind-eq-ok (remove_gone r gone accumulated) _ done in
      let (no_ids, unsignalled) =
        flag-remove_gone r previous gone accumulated end removed (ground arith) in
      let (_, same) =
        flag-add_current r previous current (devices, false) (by_id-OwnIds response [] tt)
          unsignalled in
      elim (Option-cases (lookup j current)) [
        | inl e ↦ ground (
          arith,
          e,
          contains-removed_device_ids previous current j,
          ap (contains j) no_ids,
          contains-nil j,
        )
        | inr (d, e) ↦ same j d e ∙ rw e
      ]

  SameHealth-signal : SameHealth previous current → out.2 ≡ false
  unfolding update_devices_map
  SameHealth-signal same =
      let no_ids : gone ≡ [] = removed-eq-nil r previous current (λ j. ground (arith, same j)) in
      let unchanged : accumulated ≡ (devices, false) =
        add_current-Unchanged r previous current (devices, false) (by_id-NodupKeys response [] tt)
          (by_id-OwnIds response [] tt) (λ j d e. same j ∙ rw e) in
      ground (arith, done, no_ids, unchanged)

  -- An update of the shared map leaves the node patcher unsignalled exactly if the plugin reports
  -- the same devices as in its previous response, each with the same health.
  pub update_devices_map-signal : (out.2 ≡ false) ↔ SameHealth previous (by_id response [])
  update_devices_map-signal = (signal-SameHealth, SameHealth-signal)
