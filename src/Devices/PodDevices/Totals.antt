-- ===== src/Devices/PodDevices/Totals.antt =====
-- `get_allocated_devices` collects every device that a container holds.
use krustlet.Prelude.{
  String, Bool, true, false, none, some, List, [], ◌∷◌, ◌≡◌, refl, ◌==◌, string_eq, ◌&&◌, ◌||◌,
  str_eq_iff, arith, contains, contains-cons, Option-cases, inl, contains-nil, inr,
}
use krustlet.Devices.Types.{
  ContainerDevices, AllocatedDevices, insert_id, insert_all, DeviceIdMap, ResourceAllocateInfo,
  ids_of, DeviceIds, DeviceAllocateInfo,
}
use krustlet.Devices.PodDevices.{
  add_device_ids, add_resources, add_containers, add_pods, get_allocated_devices,
}
use krustlet.Prelude.Dict.{lookup, lookup-nil, lookup-cons, lookup-insert}

-- A container of one pod holds the device.
abbrev pub held : ContainerDevices → String → String → String → Bool
held cd c r id = elim (lookup c cd) [
  | none ↦ false
  | some m ↦ elim (lookup r m) [ none ↦ false | some info ↦ contains id info.device_ids ]
]

-- The records hold the device `id` of the resource `r` for the container `c` of the pod `p`.
abbrev pub holds : AllocatedDevices → String → String → String → String → Bool
holds pd p c r id = elim (lookup p pd) [ none ↦ false | some cd ↦ held cd c r id ]

pub contains-insert_id :
    (id a : String) (s : List String) → contains id (insert_id a s) ≡ (a == id || contains id s)
unfolding insert_id
contains-insert_id id a s = ground (arith, str_eq_iff a id, contains-cons id a s)

pub contains-insert_all :
    (id : String) (ids s : List String)
    → contains id (insert_all ids s) ≡ (contains id ids || contains id s)
unfolding insert_all
contains-insert_all id [] s = refl
contains-insert_all id (a ∷ ids) s = ground (
  arith,
  contains-insert_all id ids (insert_id a s),
  contains-insert_id id a s,
  contains-cons id a ids,
)

module _ (q id : String) where
  listed : DeviceIdMap → Bool
  listed res = contains id (ids_of q res)

  listed-add_device_ids :
      (r : String) (ids : DeviceIds) (res : DeviceIdMap)
      → listed (add_device_ids r ids res) ≡ ((r == q && contains id ids) || listed res)
  unfolding add_device_ids listed
  listed-add_device_ids r ids res = elim (Option-cases (lookup r res)) [
    | inl e ↦ ground (arith, e, str_eq_iff r q, contains-nil id, lookup-insert r q ids res)
    | inr (old, e) ↦ ground (
      arith,
      e,
      str_eq_iff r q,
      contains-insert_all id ids old,
      lookup-insert r q (insert_all ids old) res,
    )
  ]

  abbrev in_resources : ResourceAllocateInfo → Bool
  in_resources m = elim (lookup q m) [ none ↦ false | some info ↦ contains id info.device_ids ]

  listed-add_resources :
      (m : ResourceAllocateInfo) (res : DeviceIdMap)
      → (in_resources m || listed res) ≡ true
      → listed (add_resources m res) ≡ true
  unfolding add_resources
  listed-add_resources [] res h = ground (arith, h, lookup-nil {V = DeviceAllocateInfo} q)
  listed-add_resources ((r, info) ∷ m) res h = ground (
    arith,
    h,
    lookup-cons q r info m,
    listed-add_device_ids r info.device_ids res,
    listed-add_resources m (add_device_ids r info.device_ids res),
  )

  listed-add_containers :
      (c : String) (cd : ContainerDevices) (res : DeviceIdMap)
      → (held cd c q id || listed res) ≡ true
      → listed (add_containers cd res) ≡ true
  unfolding add_containers
  listed-add_containers c [] res h = ground (arith, h, lookup-nil {V = ResourceAllocateInfo} c)
  listed-add_containers c ((d, m) ∷ cd) res h = ground (
    arith,
    h,
    lookup-cons c d m cd,
    listed-add_resources m res,
    listed-add_containers c cd (add_resources m res),
  )

  listed-add_pods :
      (p c : String) (pd : AllocatedDevices) (res : DeviceIdMap)
      → (holds pd p c q id || listed res) ≡ true
      → listed (add_pods pd res) ≡ true
  unfolding add_pods
  listed-add_pods p c [] res h = ground (arith, h, lookup-nil {V = ContainerDevices} p)
  listed-add_pods p c ((u, cd) ∷ pd) res h = ground (
    arith,
    h,
    lookup-cons p u cd pd,
    listed-add_containers c cd res,
    listed-add_pods p c pd (add_containers cd res),
  )

-- Every recorded device is among the collected ones.
pub holds-get_allocated_devices :
    (p c q id : String) (pd : AllocatedDevices)
    → holds pd p c q id ≡ true
    → contains id (ids_of q (get_allocated_devices pd)) ≡ true
unfolding get_allocated_devices listed
holds-get_allocated_devices p c q id pd h = listed-add_pods q id p c pd [] (ground (arith, h))
