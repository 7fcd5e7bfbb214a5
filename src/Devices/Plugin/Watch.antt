-- ===== src/Devices/Plugin/Watch.antt =====
-- Following a `ListAndWatch` stream: what the shared device map holds after each response.
use krustlet.Prelude.{
  ◌&&◌, String, Bool, Option, none, some, List, [], ◌∷◌, ◌≡◌, ◌≢◌, refl, ◌==◌, string_eq,
  str_eq_iff, if◌then◌else◌, arith, contains, Bool-cases, Option-cases, inl, inr, ◌∙◌, ==_refl,
  contains-cons, not, ◌++◌,
}
use krustlet.Prelude.Dict.{
  lookup, insert, remove, NodupKeys, lookup-nil, lookup-cons, lookup-insert, lookup-remove,
  insert-NodupKeys, contains-keep_if, contains-keys,
}
use krustlet.Devices.Types.{Device, DeviceMap, PluginDevicesMap}
use krustlet.Devices.Plugin.{
  by_id, add_device_to_map, visit, add_current, remove_ids, remove_gone, update_devices_map, true,
  ok, false, removed_device_ids, contains_key, watch, list_and_watch,
}

abbrev pub health_of : Option Device → Option String
health_of none = none
health_of (some d) = some d.health

-- The devices that the shared map holds for a resource.
abbrev pub devices_of : String → DeviceMap → PluginDevicesMap
devices_of resource_name devices = elim (lookup resource_name devices) [ none ↦ [] | some d ↦ d ]

abbrev pub health_at : String → String → DeviceMap → Option String
health_at resource_name id devices = health_of (lookup id (devices_of resource_name devices))

-- Every device stands under its own ID.
abbrev pub OwnIds : PluginDevicesMap → Type 0
OwnIds [] = Unit
OwnIds ((id, d) ∷ devices) = (d.id ≡ id) × OwnIds devices

insert-OwnIds : (d : Device) (m : PluginDevicesMap) → OwnIds m → OwnIds (insert d.id d m)
unfolding insert
insert-OwnIds d [] o = (refl, tt)
insert-OwnIds d ((id, c) ∷ m) o = ground (arith, insert-OwnIds d m o.1, str_eq_iff id d.id)

pub by_id-OwnIds :
    (response : List Device) (m : PluginDevicesMap) → OwnIds m → OwnIds (by_id response m)
unfolding by_id
by_id-OwnIds [] m o = o
by_id-OwnIds (d ∷ response) m o = by_id-OwnIds response _ (insert-OwnIds d m o)

pub by_id-NodupKeys :
    (response : List Device) (m : PluginDevicesMap) → NodupKeys m → NodupKeys (by_id response m)
unfolding by_id
by_id-NodupKeys [] m u = u
by_id-NodupKeys (d ∷ response) m u = by_id-NodupKeys response _ (insert-NodupKeys d.id d m u)

module _ (r : String) where
  health_at-add_device_to_map :
      (d : Device) (devices : DeviceMap) (j : String)
      → health_at r j (add_device_to_map r d devices)
        ≡ (if d.id == j then some d.health else health_at r j devices)
  unfolding add_device_to_map lookup
  health_at-add_device_to_map d devices j = ground (
    arith,
    str_eq_iff r r,
    lookup-insert r r (insert d.id d (devices_of r devices)) devices,
    lookup-insert d.id j d (devices_of r devices),
    lookup-nil {V = Device} j,
    devices_of,
  )

  -- One round, at any ID.
  health_at-visit :
      (previous : PluginDevicesMap) (d : Device) (acc : DeviceMap × Bool) (j : String)
      → (j ≡ d.id → health_at r j acc.0 ≡ health_of (lookup j previous))
      → health_at r j (visit r previous d acc).0
        ≡ (if d.id == j then some d.health else health_at r j acc.0)
  unfolding visit
  health_at-visit previous d acc j h = elim (Option-cases (lookup d.id previous)) [
    | inl e ↦ ground (arith, health_at-add_device_to_map d acc.0 j)
    | inr (p, e) ↦ ground (
      arith,
      str_eq_iff d.id j,
      str_eq_iff p.health d.health,
      health_at-add_device_to_map d acc.0 j,
    )
  ]

  health_at-add_current :
      (previous : PluginDevicesMap) (j : String) (es : PluginDevicesMap) (acc : DeviceMap × Bool)
      → NodupKeys es
      → OwnIds es
      → (lookup j es ≢ none → health_at r j acc.0 ≡ health_of (lookup j previous))
      → health_at r j (add_current r previous es acc).0
        ≡ elim (lookup j es) [ none ↦ health_at r j acc.0 | some d ↦ some d.health ]
  unfolding add_current
  health_at-add_current previous j [] acc u o h = rw lookup-nil
  health_at-add_current previous j ((id, d) ∷ es) acc u o h = elim (Bool-cases (id == j)) [
    | inl e ↦ ground (
      arith,
      str_eq_iff id j,
      str_eq_iff d.id j,
      u.0,
      o.0,
      lookup-cons j id d es,
      health_at-visit previous d acc j,
      health_at-add_current previous j es (visit r previous d acc) u.1 o.1,
    )
    | inr e ↦ ground (
      arith,
      str_eq_iff id j,
      str_eq_iff d.id j,
      o.0,
      lookup-cons j id d es,
      health_at-visit previous d acc j,
      health_at-add_current previous j es (visit r previous d acc) u.1 o.1,
    )
  ]

lookup-remove_ids :
    (ids : List String) (j : String) (m : PluginDevicesMap)
    → lookup j (remove_ids ids m) ≡ (if contains j ids then none else lookup j m)
unfolding remove_ids contains
lookup-remove_ids [] j m = refl
lookup-remove_ids (id ∷ ids) j m =
    ground (arith, lookup-remove_ids ids j (remove id m), lookup-remove id j m)

-- The other resources of the shared map.
module _ (r q : String) (other : r ≢ q) where
  lookup-add_device_to_map :
      (d : Device) (devices : DeviceMap)
      → lookup q (add_device_to_map r d devices) ≡ lookup q devices
  unfolding add_device_to_map
  lookup-add_device_to_map d devices = ground (
    arith,
    str_eq_iff r q,
    lookup-insert r q (insert d.id d (devices_of r devices)) devices,
    devices_of,
  )

  lookup-visit :
      (previous : PluginDevicesMap) (d : Device) (acc : DeviceMap × Bool)
      → lookup q (visit r previous d acc).0 ≡ lookup q acc.0
  unfolding visit
  lookup-visit previous d acc = ground (arith, lookup-add_device_to_map d acc.0)

  lookup-add_current :
      (previous es : PluginDevicesMap) (acc : DeviceMap × Bool)
      → lookup q (add_current r previous es acc).0 ≡ lookup q acc.0
  unfolding add_current
  lookup-add_current previous [] acc = refl
  lookup-add_current previous ((id, d) ∷ es) acc =
      lookup-add_current previous es _ ∙ lookup-visit previous d acc

pub contains-removed_device_ids :
    (previous current : PluginDevicesMap) (j : String)
    → contains j (removed_device_ids previous current)
      ≡ (contains_key j previous && not (contains_key j current))
unfolding removed_device_ids
contains-removed_device_ids previous current j = rw (contains-keep_if, contains-keys)

module _ (r : String) where
  remove_gone_ok :
      (ids : List String) (acc : DeviceMap × Bool)
      → ((id : String) → contains id ids ≡ true → health_at r id acc.0 ≢ none)
      → (out : DeviceMap × Bool) × (remove_gone r ids acc ≡ ok out)
        × ((j : String)
            → health_at r j out.0 ≡ (if contains j ids then none else health_at r j acc.0))
        × ((q : String) → r ≢ q → lookup q out.0 ≡ lookup q acc.0)
  unfolding remove_gone
  remove_gone_ok [] acc h = (acc, refl, λ j. unfold contains in refl, λ q _. refl)
  remove_gone_ok (id ∷ ids) (devices, b) h = elim (Option-cases (lookup r devices)) [
    | inl e ↦ ground (arith, h id, ==_refl id, contains-cons id id ids, lookup-nil {V = Device} id)
    | inr (m, e) ↦ (
      (insert r (remove_ids (id ∷ ids) m) devices, true),
      rw (e, remove_gone),
      λ j. ground (
        arith,
        ==_refl r,
        lookup-insert r r (remove_ids (id ∷ ids) m) devices,
        lookup-remove_ids (id ∷ ids) j m,
        devices_of,
      ),
      λ q other.
          ground (arith, str_eq_iff r q, lookup-insert r q (remove_ids (id ∷ ids) m) devices),
    )
  ]

  -- The shared map shows the health that the plugin last reported.
  abbrev pub Tracks : DeviceMap → PluginDevicesMap → Type 0
  Tracks devices previous = (j : String) → health_at r j devices ≡ health_of (lookup j previous)

  pub update_devices_map-Tracks :
      (devices : DeviceMap) (previous : PluginDevicesMap) (response : List Device)
      → Tracks devices previous
      → (out : DeviceMap × PluginDevicesMap × Bool) × (update_devices_map r devices previous
            response
          ≡ ok out)
        × Tracks out.0 out.1
        × (out.1 ≡ by_id response [])
        × ((q : String) → r ≢ q → lookup q out.0 ≡ lookup q devices)
  unfolding update_devices_map
  update_devices_map-Tracks devices previous response t =
      let current : PluginDevicesMap = by_id response [] in
      let acc : DeviceMap × Bool = add_current r previous current (devices, false) in
      let gone : List String = removed_device_ids previous current in
      let added : (j : String)
          → health_at r j acc.0
            ≡ elim (lookup j current) [ none ↦ health_at r j devices | some d ↦ some d.health ] =
        λ j.
          health_at-add_current r previous j current (devices, false)
            (by_id-NodupKeys response [] tt) (by_id-OwnIds response [] tt) (λ _. t j) in
      let is_gone : (j : String)
          → contains j gone ≡ (contains_key j previous && not (contains_key j current)) =
        λ j. contains-removed_device_ids previous current j in
      let (out, done, health, others) =
        remove_gone_ok gone acc (λ id c. ground (arith, c, t id, added id, is_gone id)) in
      (
        (out.0, current, out.1),
        rw (done, update_devices_map),
        λ j. ground (arith, t j, added j, is_gone j, health j),
        refl,
        λ q ne. others q ne ∙ lookup-add_current r q ne previous current (devices, false),
      )

  watch_last :
      (devices : DeviceMap) (previous : PluginDevicesMap) (stream : List (List Device))
      (response : List Device)
      → Tracks devices previous
      → (out : DeviceMap × List Bool) × (watch r devices previous (stream ++ response ∷ [])
          ≡ ok out)
        × Tracks out.0 (by_id response [])
        × ((q : String) → r ≢ q → lookup q out.0 ≡ lookup q devices)
  unfolding watch
  watch_last devices previous [] response t =
      let (out, done, tracks, current, others) =
        update_devices_map-Tracks devices previous response t in
      ((out.0, out.2 ∷ []), rw (done, watch), λ j. tracks j ∙ rw current, others)
  watch_last devices previous (first ∷ stream) response t =
      let (out, done, tracks, current, others) =
        update_devices_map-Tracks devices previous first t in
      let (end, ends, last, apart) = watch_last out.0 out.1 stream response tracks in
      (
        (end.0, out.2 ∷ end.1),
        rw (done, watch) (rw (ends, watch)),
        last,
        λ q ne. apart q ne ∙ others q ne,
      )

  -- From a shared map with no devices of the resource, following a stream never panics. After its
  -- last response the map lists for the resource exactly the devices of that response, each with
  -- the health that the response gives it (the last one where an ID is repeated), and the devices
  -- of every other resource are as they were.
  pub list_and_watch_last :
      (devices : DeviceMap) (stream : List (List Device)) (response : List Device)
      → devices_of r devices ≡ []
      → (out : DeviceMap × List Bool) × (list_and_watch r devices (stream ++ response ∷ [])
          ≡ ok out)
        × ((id : String) → health_at r id out.0 ≡ health_of (lookup id (by_id response [])))
        × ((q : String) → r ≢ q → lookup q out.0 ≡ lookup q devices)
  unfolding list_and_watch
  list_and_watch_last devices stream response empty =
      watch_last devices [] stream response (λ j. ground (arith, empty, lookup-nil {V = Device} j))
