-- ===== src/Devices/Allocate/Reserve.antt =====
-- What a reservation adds to the reserved devices.
use krustlet.Prelude.{
  ℕ, zero, suc, String, Bool, true, false, not, some, List, [], ◌∷◌, ◌≡◌, refl, ok, ◌==◌, string_eq,
  ◌&&◌, ◌||◌, str_eq_iff, arith, contains, take, length, contains-nil, contains-cons, ◌≤◌,
  Option-cases, inl, inr, ap,
}
use krustlet.Devices.Manager.{
  DeviceManager, get_available_devices, reserve, healthy_ids, mark_allocated, devices_to_allocate,
}
use krustlet.Devices.Types.{PluginDevicesMap, DeviceIds, insert_all, ids_of}
use krustlet.Prelude.Dict.{contains-keep_if, lookup, lookup-insert}
use krustlet.Devices.PodDevices.{get_container_devices}
use krustlet.Devices.PodDevices.Totals.{contains-insert_all}

abbrev pub reserved : DeviceManager → String → String → Bool
reserved m r id = contains id (ids_of r m.allocated_device_ids)

pub contains-take :
    (id : String) (n : ℕ) (ids : List String)
    → contains id (take n ids) ≡ true
    → contains id ids ≡ true
contains-take id zero ids h = ground (arith, h, contains-nil id)
contains-take id (suc n) [] h = h
contains-take id (suc n) (x ∷ ids) h =
    ground
      (arith, h, contains-cons id x (take n ids), contains-cons id x ids, contains-take id n ids)

available-fresh :
    (id : String) (devices : PluginDevicesMap) (taken : DeviceIds)
    → contains id (get_available_devices devices taken) ≡ true
    → contains id taken ≡ false
unfolding get_available_devices
available-fresh id devices taken h =
    ground (arith, h, contains-keep_if (λ i. not (contains i taken)) id (healthy_ids devices))

-- The reservation of `ids` of the resource `r`.
pub record IsReservation (r : String) (ids : List String) (m m' : DeviceManager) : Type 0 where
  pub same_records : m'.pod_devices ≡ m.pod_devices
  pub same_devices : m'.devices ≡ m.devices
  pub same_plugins : m'.plugins ≡ m.plugins
  pub fresh : (id : String) → contains id ids ≡ true → reserved m r id ≡ false
  pub adds : (q id : String) → reserved m' q id ≡ ((r == q && contains id ids) || reserved m q id)

mark_allocated-IsReservation :
    (r : String) (ids : List String) (m : DeviceManager)
    → ((id : String) → contains id ids ≡ true → reserved m r id ≡ false)
    → IsReservation r ids m (mark_allocated r ids m)
unfolding mark_allocated
mark_allocated-IsReservation r ids m h = record {
  same_records = refl;
  same_devices = refl;
  same_plugins = refl;
  fresh = h;
  adds = λ q id. ground (
    arith,
    str_eq_iff r q,
    lookup-insert r q (insert_all ids (ids_of r m.allocated_device_ids)) m.allocated_device_ids,
    contains-insert_all id ids (ids_of r m.allocated_device_ids),
  );
}

-- What `reserve` returns, if it succeeds.
pub reserve_ok :
    (r : String) (n : ℕ) (m : DeviceManager) (out : List String × DeviceManager)
    → reserve r n m ≡ ok out
    → (devices : PluginDevicesMap) × (lookup r m.devices ≡ some devices)
      × (n ≤ length (get_available_devices devices (ids_of r m.allocated_device_ids)))
      × (out.0 ≡ take n (get_available_devices devices (ids_of r m.allocated_device_ids)))
      × (out.1 ≡ mark_allocated r out.0 m)
unfolding reserve
reserve_ok r n m out e = elim (Option-cases (lookup r m.devices)) [
  | inl absent ↦ absurd (ground (arith, absent, e))
  | inr (devices, found) ↦
      (devices, found, ground (arith, found, e), ground (arith, found, e), ground (arith, found, e))
]

pub reserve-IsReservation :
    (r : String) (n : ℕ) (m : DeviceManager) (out : List String × DeviceManager)
    → reserve r n m ≡ ok out
    → IsReservation r out.0 m out.1
reserve-IsReservation r n m out e =
    let (devices, found, enough, chosen, marked) = reserve_ok r n m out e in
    rw marked (
      mark_allocated-IsReservation r out.0 m λ id h.
        available-fresh id devices (ids_of r m.allocated_device_ids) (
          contains-take id n (get_available_devices devices (ids_of r m.allocated_device_ids))
            (rw chosen at h)))

pub devices_to_allocate-IsReservation :
    (r p c : String) (n : ℕ) (m : DeviceManager) (out : List String × DeviceManager)
    → devices_to_allocate r p c n m ≡ ok out
    → IsReservation r out.0 m out.1
unfolding devices_to_allocate
devices_to_allocate-IsReservation r p c n m out e =
    elim (Option-cases (get_container_devices m.pod_devices r p c)) [
      | inl none_yet ↦ reserve-IsReservation r n m out (ground (arith, e, none_yet))
      | inr (ids, has) ↦
          let same : out ≡ ([], m) = ground (arith, e, has) in
          record {
            same_records = ap (λ (o : List String × DeviceManager). o.1.pod_devices) same;
            same_devices = ap (λ (o : List String × DeviceManager). o.1.devices) same;
            same_plugins = ap (λ (o : List String × DeviceManager). o.1.plugins) same;
            fresh = λ id h. ground (arith, h, same, contains-nil id);
            adds = λ q id. ground (arith, same, contains-nil id);
          }
    ]
