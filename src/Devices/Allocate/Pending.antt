-- ===== src/Devices/Allocate/Pending.antt =====
-- The requests of a pod that is being allocated, beside what is recorded and reserved.
use krustlet.Prelude.{
  String, true, false, none, some, List, [], ◌∷◌, ◌++◌, ◌≡◌, refl, ◌==◌, string_eq, ◌&&◌, ◌||◌,
  str_eq_iff, if◌then◌else◌, arith, contains, contains-nil, contains-cons, Option-cases, inl, inr,
}
use krustlet.Devices.Manager.{DeviceManager, ContainerAllocateInfo}
use krustlet.Devices.PodDevices.{remove_pods, add_allocated_devices}
use krustlet.Prelude.Dict.{
  insert, lookup, remove, lookup-remove, lookup-nil, lookup-cons, NodupKeys, lookup-insert, extend,
  lookup-extend,
}
use krustlet.Devices.Allocate.Holdings.{requested, requested_in}
use krustlet.Devices.Allocate.{AllRequests, add_request, Progress}
use krustlet.Devices.Types.{AllocatedDevices, ContainerDevices}
use krustlet.Devices.Allocate.Reserve.{reserved, IsReservation}
use krustlet.Devices.PodDevices.Totals.{holds, held}

-- Every recorded device is reserved, and no two containers hold the same one.
pub record IsConsistent (m : DeviceManager) : Type 0 where
  pub recorded : (p c r id : String) → holds m.pod_devices p c r id ≡ true → reserved m r id ≡ true
  pub exclusive :
      (p c p' c' r id : String)
      → holds m.pod_devices p c r id ≡ true
      → holds m.pod_devices p' c' r id ≡ true
      → (p ≡ p') × (c ≡ c')

-- The requests of one pod that is being allocated: their devices are reserved, are recorded for
-- no container, and are each requested for one container only.
pub record IsPending (m : DeviceManager) (requests : AllRequests) : Type 0 where
  pub kept : (c r id : String) → requested requests c r id ≡ true → reserved m r id ≡ true
  pub unrecorded :
      (c r id p c' : String)
      → requested requests c r id ≡ true
      → holds m.pod_devices p c' r id ≡ false
  pub alone :
      (c c' r id : String)
      → requested requests c r id ≡ true
      → requested requests c' r id ≡ true
      → c ≡ c'

pub holds-remove_pods :
    (ps : List String) (pd : AllocatedDevices) (p c r id : String)
    → holds (remove_pods ps pd) p c r id ≡ (if contains p ps then false else holds pd p c r id)
unfolding remove_pods
holds-remove_pods [] pd p c r id = simp contains-nil
holds-remove_pods (q ∷ ps) pd p c r id =
    ground (
      arith,
      holds-remove_pods ps (remove q pd) p c r id,
      lookup-remove q p pd,
      contains-cons p q ps,
    )

requested_in-append :
    (v : List ContainerAllocateInfo) (info : ContainerAllocateInfo) (c id : String)
    → requested_in (v ++ (info ∷ [])) c id ≡ (requested_in v c id || requested_in (info ∷ []) c id)
requested_in-append [] info c id = refl
requested_in-append (x ∷ v) info c id = ground (arith, requested_in-append v info c id)

requested-insert-some :
    (q c r id : String) (info : ContainerAllocateInfo) (v : List ContainerAllocateInfo)
    (requests : AllRequests)
    → lookup q requests ≡ some v
    → requested (insert q (v ++ (info ∷ [])) requests) c r id
      ≡ (requested requests c r id || (q == r && requested_in (info ∷ []) c id))
unfolding insert
requested-insert-some q c r id info v [] e =
    absurd (ground (arith, e, lookup-nil {V = List ContainerAllocateInfo} q))
requested-insert-some q c r id info v ((j, w) ∷ requests) e = ground (
  arith,
  e,
  str_eq_iff j q,
  lookup-cons q j w requests,
  requested_in-append v info c id,
  requested-insert-some q c r id info v requests,
)

requested-insert-none :
    (q c r id : String) (v : List ContainerAllocateInfo) (requests : AllRequests)
    → lookup q requests ≡ none
    → requested (insert q v requests) c r id
      ≡ (requested requests c r id || (q == r && requested_in v c id))
unfolding insert
requested-insert-none q c r id v [] e = ground (arith, e)
requested-insert-none q c r id v ((j, w) ∷ requests) e =
    ground (arith, e, lookup-cons q j w requests, requested-insert-none q c r id v requests)

requested-add_request :
    (q c r id : String) (info : ContainerAllocateInfo) (requests : AllRequests)
    → requested (add_request q info requests) c r id ≡ (
        requested requests c r id
        || (q == r
            && (info.container_name == c
                && contains id info.container_allocate_request.devices_i_ds)))
unfolding add_request
requested-add_request q c r id info requests = elim (Option-cases (lookup q requests)) [
  | inl e ↦ ground (arith, e, requested-insert-none q c r id (info ∷ []) requests e)
  | inr (v, e) ↦ ground (arith, e, requested-insert-some q c r id info v requests e)
]

abbrev pub Good : Progress → Type 0
Good p = IsConsistent p.manager × IsPending p.manager p.all_allocate_requests

-- Fewer records, and the same reservations.
pub fewer-Good :
    (m m' : DeviceManager) (requests : AllRequests)
    → m'.allocated_device_ids ≡ m.allocated_device_ids
    → ((p c r id : String)
        → holds m'.pod_devices p c r id ≡ true
        → holds m.pod_devices p c r id ≡ true)
    → IsConsistent m × IsPending m requests
    → IsConsistent m' × IsPending m' requests
fewer-Good m m' requests same fewer (good, pending) = (
  record {
    recorded = λ p c r id h. rw same (good.recorded p c r id (fewer p c r id h));
    exclusive = λ p c p' c' r id h h'.
        good.exclusive p c p' c' r id (fewer p c r id h) (fewer p' c' r id h');
  },
  record {
    kept = λ c r id h. rw same (pending.kept c r id h);
    unrecorded = λ c r id p c' h. ground (arith, fewer p c' r id, pending.unrecorded c r id p c' h);
    alone = pending.alone;
  },
)

-- A reservation for the container `c` that becomes a request of it.
pub reservation-Good :
    (r c : String) (ids : List String) (m m' : DeviceManager) (requests : AllRequests)
    → IsReservation r ids m m'
    → IsConsistent m × IsPending m requests
    → let info : ContainerAllocateInfo = record {
      container_name = c;
      container_allocate_request = record { devices_i_ds = ids };
    } in
      IsConsistent m' × IsPending m' (add_request r info requests)
reservation-Good r c ids m m' requests new (good, pending) = (
  record {
    recorded =
        λ p d q id h. ground (arith, h, new.same_records, new.adds q id, good.recorded p d q id);
    exclusive = λ p d p' d' q id h h'.
        ground (arith, h, h', new.same_records, good.exclusive p d p' d' q id);
  },
  record {
    kept = λ d q id h. ground (
      arith,
      h,
      requested-add_request r d q id info requests,
      new.adds q id,
      pending.kept d q id,
    );
    unrecorded = λ d q id p d' h. ground (
      arith,
      h,
      str_eq_iff r q,
      new.same_records,
      new.fresh id,
      requested-add_request r d q id info requests,
      pending.unrecorded d q id p d',
      good.recorded p d' q id,
    );
    alone = λ d d' q id h h'. ground (
      arith,
      h,
      h',
      str_eq_iff r q,
      str_eq_iff c d,
      str_eq_iff c d',
      new.fresh id,
      requested-add_request r d q id info requests,
      requested-add_request r d' q id info requests,
      pending.alone d d' q id,
      pending.kept d q id,
      pending.kept d' q id,
    );
  },
)
  where
    info : ContainerAllocateInfo
    info = record { container_name = c; container_allocate_request = record { devices_i_ds = ids } }

pub holds-add_allocated_devices :
    (pod p c r id : String) (out : ContainerDevices) (pd : AllocatedDevices)
    → NodupKeys out
    → holds (add_allocated_devices pod out pd) p c r id ≡ true
    → ((pod == p && held out c r id) || holds pd p c r id) ≡ true
unfolding add_allocated_devices
holds-add_allocated_devices pod p c r id out pd u h = elim (Option-cases (lookup pod pd)) [
  | inl e ↦ ground (arith, h, e, str_eq_iff pod p, lookup-insert pod p out pd)
  | inr (m, e) ↦ ground (
    arith,
    h,
    e,
    str_eq_iff pod p,
    lookup-insert pod p (extend m out) pd,
    lookup-extend c m out u,
  )
]
