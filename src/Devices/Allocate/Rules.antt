-- ===== src/Devices/Allocate/Rules.antt =====
-- The loops of `do_allocate`: what one round keeps, the loops keep.
use krustlet.Prelude.{inl, inr, String, List, [], ◌∷◌, Result, ok, err, ℕ, Bool-cases, Result-cases}
use krustlet.Devices.Manager.{
  PluginConnection, AllocateError, is_device_plugin_resource, get_num_from_quantity,
  is_healthy_resource,
}
use krustlet.Devices.Types.{
  ContainerAllocateRequest, ContainerAllocateResponse, Quantity, ContainerResourceRequests,
  PodResourceRequests,
}
use krustlet.Devices.Allocate.{
  Progress, allocate_devices, Run, allocate_resource, allocate_resources, allocate_containers, next,
}

module _ {ℓ}
    (allocate : PluginConnection
      → List ContainerAllocateRequest
      → Result AllocateError (List ContainerAllocateResponse))
    (listed : Result AllocateError (List String)) (pod_uid : String) (P : Progress → Type ℓ)
    (step : (c r : String) (n : ℕ) (p : Progress)
      → P p
      → P (allocate_devices allocate listed pod_uid c r n p).0) where
  next_keeps :
      (r : Run) (k : Progress → Run) → P r.0 → ((p : Progress) → P p → P (k p).0) → P (next r k).0
  next_keeps (p, ok _) k h keeps = keeps p h
  next_keeps (p, err e) k h keeps = h

  allocate_resource_keeps :
      (c r : String) (q : Quantity) (p : Progress)
      → P p
      → P (allocate_resource allocate listed pod_uid c r q p).0
  unfolding allocate_resource
  allocate_resource_keeps c r q p h = elim (Bool-cases (is_device_plugin_resource p.manager r)) [
    | inr other ↦ rw (other, allocate_resource) h
    | inl plugin ↦ elim (Result-cases (get_num_from_quantity q)) [
      | inr (e, bad) ↦ rw (plugin, allocate_resource) (rw (bad, allocate_resource) h)
      | inl (n, num) ↦ elim (Bool-cases (is_healthy_resource p.manager r n)) [
        | inl enough ↦
            rw (plugin, allocate_resource)
              (rw (num, allocate_resource) (rw enough (step c r n p h)))
        | inr few ↦ rw (plugin, allocate_resource) (rw (num, allocate_resource) (rw few h))
      ]
    ]
  ]

  allocate_resources_keeps :
      (c : String) (requests : ContainerResourceRequests) (p : Progress)
      → P p
      → P (allocate_resources allocate listed pod_uid c requests p).0
  unfolding allocate_resources
  allocate_resources_keeps c [] p h = h
  allocate_resources_keeps c ((r, q) ∷ requests) p h =
      next_keeps (allocate_resource allocate listed pod_uid c r q p) _
        (allocate_resource_keeps c r q p h) (allocate_resources_keeps c requests)

  pub allocate_containers_keeps :
      (requests : PodResourceRequests) (p : Progress)
      → P p
      → P (allocate_containers allocate listed pod_uid requests p).0
  unfolding allocate_containers
  allocate_containers_keeps [] p h = h
  allocate_containers_keeps ((c, rs) ∷ requests) p h =
      next_keeps (allocate_resources allocate listed pod_uid c rs p) _
        (allocate_resources_keeps c rs p h) (allocate_containers_keeps requests)
