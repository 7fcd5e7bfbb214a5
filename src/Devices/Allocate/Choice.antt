-- ===== src/Devices/Allocate/Choice.antt =====
-- Which devices a reservation chooses.
use krustlet.Prelude.{
  ℕ, zero, suc, ◌≤◌, String, Bool, true, false, not, none, some, List, [], ◌∷◌, ◌≡◌, refl, ok, ◌==◌,
  string_eq, str_eq_iff, arith, contains, take, length, keep_if, contains-cons, ap, length-take,
  ==_refl, contains-nil,
}
use krustlet.Devices.Types.{PluginDevicesMap, healthy, ids_of, Device}
use krustlet.Devices.Manager.{
  healthy_ids, DeviceManager, healthy_count, devices_to_allocate, get_available_devices, reserve,
}
use krustlet.Prelude.Dict.{lookup, NodupKeys, lookup-cons, contains-keep_if, lookup-nil}
use krustlet.Devices.PodDevices.{get_container_devices}
use krustlet.Devices.Allocate.Reserve.{
  reserve_ok, reserved, devices_to_allocate-IsReservation, contains-take,
}

-- No item occurs twice.
abbrev pub Distinct : List String → Type 0
Distinct [] = Unit
Distinct (x ∷ xs) = (contains x xs ≡ false) × Distinct xs

abbrev pub is_healthy : String → PluginDevicesMap → Bool
is_healthy id devices = elim (lookup id devices) [ none ↦ false | some d ↦ d.health == healthy ]

contains-healthy_ids :
    (id : String) (devices : PluginDevicesMap)
    → NodupKeys devices
    → contains id (healthy_ids devices) ≡ is_healthy id devices
unfolding healthy_ids
contains-healthy_ids id [] u = ground (arith, contains-nil id, lookup-nil {V = Device} id)
contains-healthy_ids id ((j, d) ∷ devices) u = ground (
  arith,
  u.0,
  str_eq_iff j id,
  lookup-cons id j d devices,
  contains-cons id j (healthy_ids devices),
  contains-healthy_ids id devices u.1,
)

healthy_ids-Distinct :
    (devices : PluginDevicesMap) → NodupKeys devices → Distinct (healthy_ids devices)
unfolding healthy_ids
healthy_ids-Distinct [] u = tt
healthy_ids-Distinct ((j, d) ∷ devices) u =
    ground (arith, u.0, contains-healthy_ids j devices u.1, healthy_ids-Distinct devices u.1)

keep_if-Distinct : (p : String → Bool) (ids : List String) → Distinct ids → Distinct (keep_if p ids)
unfolding keep_if
keep_if-Distinct p [] u = tt
keep_if-Distinct p (x ∷ ids) u =
    ground (arith, u.0, contains-keep_if p x ids, keep_if-Distinct p ids u.1)

take-Distinct : (n : ℕ) (ids : List String) → Distinct ids → Distinct (take n ids)
take-Distinct zero ids u = tt
take-Distinct (suc n) [] u = tt
take-Distinct (suc n) (x ∷ ids) u =
    (ground (arith, u.0, contains-take x n ids), take-Distinct n ids u.1)

pub length-healthy_ids :
    (devices : PluginDevicesMap) → length (healthy_ids devices) ≡ healthy_count devices
unfolding healthy_ids healthy_count
length-healthy_ids [] = refl
length-healthy_ids ((j, d) ∷ devices) = ground (arith, length-healthy_ids devices)

module _ (r p c : String) (n : ℕ) (m : DeviceManager) (out : List String × DeviceManager)
    (devices : PluginDevicesMap) (found : lookup r m.devices ≡ some devices)
    (nodup : NodupKeys devices) (new : get_container_devices m.pod_devices r p c ≡ none)
    (chosen : devices_to_allocate r p c n m ≡ ok out) where
  abbrev available : List String
  available = get_available_devices devices (ids_of r m.allocated_device_ids)

  is_reserved : reserve r n m ≡ ok out
  unfolding devices_to_allocate
  is_reserved = ground (arith, chosen, new)

  choice : (n ≤ length available) × (out.0 ≡ take n available)
  choice =
      let (ds, at, enough, ids, marked) = reserve_ok r n m out is_reserved in
      ground (arith, found, at, enough, ids)

  chosen-is_healthy : (id : String) → contains id out.0 ≡ true → is_healthy id devices ≡ true
  unfolding get_available_devices
  chosen-is_healthy id h = ground (
    arith,
    h,
    choice.1,
    contains-take id n available,
    contains-keep_if (λ i. not (contains i (ids_of r m.allocated_device_ids))) id
        (healthy_ids devices),
    contains-healthy_ids id devices nodup,
  )

  chosen-Distinct : Distinct out.0
  unfolding get_available_devices
  chosen-Distinct = rw choice.1 (
      take-Distinct n available (
        keep_if-Distinct (λ i. not (contains i (ids_of r m.allocated_device_ids)))
          (healthy_ids devices) (healthy_ids-Distinct devices nodup)))

  -- A container that holds no device of the resource yet, and whose request for `n` devices is
  -- granted, gets exactly `n` different devices, where the map of the resource lists no ID twice. Each
  -- is healthy in that map, was not reserved before, and is reserved afterwards; the recorded devices
  -- stay as they are.
  pub devices_to_allocate_choice :
      (length out.0 ≡ n)
      × Distinct out.0
      × ((id : String)
          → contains id out.0 ≡ true
          → (is_healthy id devices ≡ true)
            × (reserved m r id ≡ false)
            × (reserved out.1 r id ≡ true))
      × (out.1.pod_devices ≡ m.pod_devices)
  devices_to_allocate_choice =
      let new_ids = devices_to_allocate-IsReservation r p c n m out chosen in
      (
        omega (arith, ap length choice.1, choice.0, length-take n available),
        chosen-Distinct,
        λ id h. (
          chosen-is_healthy id h,
          new_ids.fresh id h,
          ground (arith, h, new_ids.adds r id, ==_refl r),
        ),
        new_ids.same_records,
      )
