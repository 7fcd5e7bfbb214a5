-- ===== src/Devices/Allocate/Consistent.antt =====
-- No device is recorded for two containers.
use krustlet.Prelude.{
  ℕ, String, true, List, [], ◌≡◌, refl, Result, ok, err, string_eq, str_eq_iff, arith, inl, inr,
  Result-cases, Bool-cases, subst, ok-injective, bind-eq-ok,
}
use krustlet.Devices.Manager.{
  DeviceManager, PluginConnection, AllocateError, update_allocated_devices, devices_to_allocate,
  without_all,
}
use krustlet.Devices.PodDevices.{remove_pods, add_allocated_devices, get_pods}
use krustlet.Prelude.Dict.{lookup-nil, NodupKeys}
use krustlet.Devices.Allocate.Holdings.{requested, allocate_all_lem}
use krustlet.Devices.Allocate.{
  AllRequests, Progress, refresh, allocate_devices, finish, do_allocate_for_pod, conclude,
  do_allocate, panicked, Run, allocate_all, allocate_containers, start,
}
use krustlet.Devices.Types.{
  ContainerAllocateRequest, ContainerAllocateResponse, ContainerDevices, PodResourceRequests,
  ResourceAllocateInfo,
}
use krustlet.Devices.Allocate.Reserve.{devices_to_allocate-IsReservation}
use krustlet.Devices.PodDevices.Totals.{holds-get_allocated_devices, held}
use krustlet.Devices.Allocate.Rules.{allocate_containers_keeps}
use krustlet.Devices.Allocate.Pending.{
  IsConsistent, IsPending, holds-remove_pods, Good, fewer-Good, reservation-Good,
  holds-add_allocated_devices,
}

module _
    (allocate : PluginConnection
      → List ContainerAllocateRequest
      → Result AllocateError (List ContainerAllocateResponse))
    (listed : Result AllocateError (List String)) (pod_uid : String) where
  refresh-Good : (p q : Progress) → refresh allocate listed pod_uid p ≡ ok q → Good p → Good q
  unfolding refresh update_allocated_devices
  refresh-Good p q e good = elim (Bool-cases p.updated_allocated_devices) [
    | inl done ↦ let same : p ≡ q = ground (arith, e, done) in subst Good same good
    | inr first ↦ elim (Result-cases listed) [
      | inr (x, failed) ↦ absurd (ground (arith, e, first, failed))
      | inl (active, found) ↦
          let gone : List String = without_all active (get_pods p.manager.pod_devices) in
          let m : DeviceManager = record p.manager {
            pod_devices = remove_pods gone p.manager.pod_devices;
          } in
          let q' : Progress = record p { manager = m; updated_allocated_devices = true } in
          let after : Good q' =
            fewer-Good p.manager m p.all_allocate_requests refl
              (λ u c r id h.
                ground (arith, h, holds-remove_pods gone p.manager.pod_devices u c r id))
              good in
          let same : q' ≡ q = ground (arith, e, first, found) in subst Good same after
    ]
  ]

  allocate_devices-Good :
      (c r : String) (n : ℕ) (p : Progress)
      → Good p
      → Good (allocate_devices allocate listed pod_uid c r n p).0
  unfolding allocate_devices
  allocate_devices-Good c r n p good = elim (Result-cases (refresh allocate listed pod_uid p)) [
    | inr (x, failed) ↦ rw (failed, allocate_devices) good
    | inl (q, fresh) ↦ elim (Result-cases (devices_to_allocate r pod_uid c n q.manager)) [
      | inr (x, failed) ↦
          rw (fresh, allocate_devices) (rw (failed, allocate_devices) (refresh-Good p q fresh good))
      | inl (out, chosen) ↦
          rw (fresh, allocate_devices)
            (rw (chosen, allocate_devices)
              (reservation-Good r c out.0 q.manager out.1 q.all_allocate_requests
                (devices_to_allocate-IsReservation r pod_uid c n q.manager out chosen)
                (refresh-Good p q fresh good)))
    ]
  ]

  -- The records of the pod after its plugins have answered.
  commit-IsConsistent :
      (m : DeviceManager) (requests : AllRequests) (out : ContainerDevices)
      → NodupKeys out
      → ((c r id : String) → held out c r id ≡ true → requested requests c r id ≡ true)
      → IsConsistent m × IsPending m requests
      → IsConsistent (record m { pod_devices = add_allocated_devices pod_uid out m.pod_devices })
  commit-IsConsistent m requests out u justified (good, pending) = record {
    recorded = λ p c r id h. ground (
      arith,
      holds-add_allocated_devices pod_uid p c r id out m.pod_devices u h,
      justified c r id,
      good.recorded p c r id,
      pending.kept c r id,
    );
    exclusive = λ p c p' c' r id h h'. ground (
      arith,
      str_eq_iff pod_uid p,
      str_eq_iff pod_uid p',
      holds-add_allocated_devices pod_uid p c r id out m.pod_devices u h,
      holds-add_allocated_devices pod_uid p' c' r id out m.pod_devices u h',
      justified c r id,
      justified c' r id,
      good.exclusive p c p' c' r id,
      pending.unrecorded c r id p' c',
      pending.unrecorded c' r id p c,
      pending.alone c c' r id,
    );
  }

  finish-IsConsistent :
      (m : DeviceManager) (r : Result AllocateError DeviceManager)
      → IsConsistent m
      → ((m' : DeviceManager) → r ≡ ok m' → IsConsistent m')
      → IsConsistent (finish allocate listed pod_uid m r).0
  unfolding finish
  finish-IsConsistent m (ok m') good new = new m' refl
  finish-IsConsistent m (err (panicked p)) good new = good
  finish-IsConsistent m (err _) good new = record {
    recorded = λ p c r id h. holds-get_allocated_devices p c r id m.pod_devices h;
    exclusive = good.exclusive;
  }

  do_allocate_for_pod-IsConsistent :
      (m m' : DeviceManager) (requests : AllRequests)
      → IsConsistent m × IsPending m requests
      → do_allocate_for_pod allocate pod_uid requests m ≡ ok m'
      → IsConsistent m'
  unfolding do_allocate_for_pod
  do_allocate_for_pod-IsConsistent m m' requests good e =
      let (out, answered, committed) = bind-eq-ok (allocate_all allocate m requests []) _ e in
      let (nodup, justified) = allocate_all_lem allocate m requests [] out tt answered in
      subst IsConsistent (ok-injective committed) (
        commit-IsConsistent m requests out nodup
          (λ c r id h. ground (arith, justified c r id h, lookup-nil {V = ResourceAllocateInfo} c))
          good)

  conclude-IsConsistent : (r : Run) → Good r.0 → IsConsistent (conclude allocate listed pod_uid r).0
  unfolding conclude
  conclude-IsConsistent (p, err e) good = good.0
  conclude-IsConsistent (p, ok _) good =
      finish-IsConsistent p.manager
        (do_allocate_for_pod allocate pod_uid p.all_allocate_requests p.manager) good.0
        (λ m' e. do_allocate_for_pod-IsConsistent p.manager m' p.all_allocate_requests good e)

  -- Where every recorded device is reserved and no two containers hold the same device, both still
  -- hold after an allocation for a pod, whichever containers and resources it asks for, whatever the
  -- Kubernetes API and the device plugins answer, and whether it succeeds, fails or panics.
  pub do_allocate-IsConsistent :
      (requests : PodResourceRequests) (m : DeviceManager)
      → IsConsistent m
      → IsConsistent (do_allocate allocate listed pod_uid requests m).0
  unfolding do_allocate
  do_allocate-IsConsistent requests m good =
      conclude-IsConsistent
        (allocate_containers allocate listed pod_uid requests (start allocate listed pod_uid m))
        (allocate_containers_keeps allocate listed pod_uid Good allocate_devices-Good requests
          (start allocate listed pod_uid m)
          (
            good,
            record {
              kept = λ c r id h. cc;
              unrecorded = λ c r id p c' h. cc;
              alone = λ c c' r id h h'. cc;
            },
          ))
