-- ===== src/Devices/Allocate.antt =====
-- `do_allocate` and `do_allocate_for_pod` of
-- crates/kubelet/src/resources/device_plugin_manager/manager.rs. What they change is kept when they
-- return an error, so the state comes back beside the result. The device plugins' `allocate` call
-- and the answer of the Kubernetes API are parameters.
pub mod Holdings
pub mod Rules
pub mod Reserve
pub mod Pending
pub mod Consistent
pub mod Choice
pub mod Active
use krustlet.Prelude.{
  ℕ, String, Bool, true, false, none, some, List, [], ◌∷◌, ◌++◌, map, Result, ok, err, nothing,
  ◌>>=◌, ◌==◌, string_eq, nat_eq, if◌then◌else◌, length,
}
use krustlet.Prelude.Dict.{Dict, lookup, insert}
use krustlet.Devices.Types.{
  Quantity, ContainerResourceRequests, PodResourceRequests, ContainerAllocateRequest,
  ContainerAllocateResponse, ContainerDevices, DeviceAllocateInfo, insert_all,
}
use krustlet.Devices.PodDevices.{get_allocated_devices, add_allocated_devices}
use krustlet.Devices.Manager.{
  PluginConnection, DeviceManager, ContainerAllocateInfo, AllocateError, responses_differ, panicked,
  get_num_from_quantity, is_device_plugin_resource, is_healthy_resource, update_allocated_devices,
  devices_to_allocate,
}

abbrev pub AllRequests : Type 0
AllRequests = Dict String (List ContainerAllocateInfo)

-- The manager and the local variables of `do_allocate`.
pub record Progress : Type 0 where
  pub manager : DeviceManager
  pub all_allocate_requests : AllRequests
  pub updated_allocated_devices : Bool

abbrev pub Run : Type 0
Run = Progress × Result AllocateError (Unit {0})

-- `?` at the end of a statement of the loop.
abbrev pub next : Run → (Progress → Run) → Run
next (p, ok _) k = k p
next (p, err e) k = (p, err e)

-- `entry(resource_name).and_modify(append).or_insert`
unfoldable pub add_request : String → ContainerAllocateInfo → AllRequests → AllRequests
add_request resource_name info requests = elim (lookup resource_name requests) [
  | some v ↦ insert resource_name (v ++ (info ∷ [])) requests
  | none ↦ insert resource_name (info ∷ []) requests
]

-- `entry(container_name).and_modify(insert).or_insert_with(singleton)`
unfoldable pub add_response :
    String → String → DeviceAllocateInfo → ContainerDevices → ContainerDevices
add_response resource_name container_name info devices = elim (lookup container_name devices) [
  | some m ↦ insert container_name (insert resource_name info m) devices
  | none ↦ insert container_name ((resource_name, info) ∷ []) devices
]

unfoldable pub add_responses :
    String
    → List ContainerAllocateInfo
    → List ContainerAllocateResponse
    → ContainerDevices
    → ContainerDevices
add_responses resource_name [] _ devices = devices
add_responses resource_name (info ∷ infos) [] devices = devices
add_responses resource_name (info ∷ infos) (container_resp ∷ container_responses) devices =
    add_responses resource_name infos container_responses (
      add_response resource_name info.container_name
        (record {
          device_ids = insert_all info.container_allocate_request.devices_i_ds [];
          allocate_response = container_resp;
        })
        devices)

module _
    (allocate : PluginConnection
      → List ContainerAllocateRequest
      → Result AllocateError (List ContainerAllocateResponse)) where
  unfoldable pub allocate_all :
      DeviceManager → AllRequests → ContainerDevices → Result AllocateError ContainerDevices
  allocate_all m [] container_devices = ok container_devices
  allocate_all m ((resource_name, infos) ∷ requests) container_devices =
      elim (lookup resource_name m.plugins) [
        | none ↦ err (panicked nothing)
        | some plugin_connection ↦
            elim (allocate plugin_connection (map (λ i. i.container_allocate_request) infos)) [
              | err e ↦ err e
              | ok container_responses ↦
                  let rest =
                    allocate_all m requests
                      (add_responses resource_name infos container_responses container_devices) in
                  if length infos == length container_responses then rest else err responses_differ
            ]
      ]

  unfoldable pub do_allocate_for_pod :
      String → AllRequests → DeviceManager → Result AllocateError DeviceManager
  do_allocate_for_pod pod_uid requests m = do
    container_devices ← allocate_all m requests []
    ok (record m { pod_devices = add_allocated_devices pod_uid container_devices m.pod_devices })

  module _ (listed : Result AllocateError (List String)) (pod_uid : String) where
    unfoldable pub refresh : Progress → Result AllocateError Progress
    refresh p = if p.updated_allocated_devices then ok p else do
      m ← update_allocated_devices listed p.manager
      ok (record p { manager = m; updated_allocated_devices = true })

    unfoldable pub allocate_devices : String → String → ℕ → Progress → Run
    allocate_devices container_name resource_name num_requested p = elim (refresh p) [
      | err e ↦ (p, err e)
      | ok q ↦
          elim (devices_to_allocate resource_name pod_uid container_name num_requested q.manager) [
            | err e ↦ (q, err e)
            | ok (ids, m) ↦ (
              record q {
                manager = m;
                all_allocate_requests =
                    add_request resource_name
                      (record {
                        container_name = container_name;
                        container_allocate_request = record { devices_i_ds = ids };
                      })
                      q.all_allocate_requests;
              },
              ok tt,
            )
          ]
    ]

    -- One round of the inner loop; where the source says `continue` it ends with no error.
    unfoldable pub allocate_resource : String → String → Quantity → Progress → Run
    allocate_resource container_name resource_name quantity p =
        if is_device_plugin_resource p.manager resource_name
        then elim (get_num_from_quantity quantity) [
          | err e ↦ (p, err e)
          | ok num_requested ↦
              if is_healthy_resource p.manager resource_name num_requested
              then allocate_devices container_name resource_name num_requested p
              else (p, ok tt)
        ]
        else (p, ok tt)

    unfoldable pub allocate_resources : String → ContainerResourceRequests → Progress → Run
    allocate_resources container_name [] p = (p, ok tt)
    allocate_resources container_name ((resource_name, quantity) ∷ requested_resources) p =
        next (allocate_resource container_name resource_name quantity p)
          (allocate_resources container_name requested_resources)

    unfoldable pub allocate_containers : PodResourceRequests → Progress → Run
    allocate_containers [] p = (p, ok tt)
    allocate_containers ((container_name, requested_resources) ∷ container_devices) p =
        next (allocate_resources container_name requested_resources p)
          (allocate_containers container_devices)

    -- The last statement: the reserved devices are recomputed if the plugins did not allocate.
    unfoldable pub finish :
        DeviceManager
        → Result AllocateError DeviceManager
        → DeviceManager × Result AllocateError (Unit {0})
    finish m (ok m') = (m', ok tt)
    finish m (err (panicked p)) = (m, err (panicked p))
    finish m (err e) =
        (record m { allocated_device_ids = get_allocated_devices m.pod_devices }, err e)

    unfoldable pub conclude : Run → DeviceManager × Result AllocateError (Unit {0})
    conclude (p, err e) = (p.manager, err e)
    conclude (p, ok _) =
        finish p.manager (do_allocate_for_pod pod_uid p.all_allocate_requests p.manager)

    abbrev pub start : DeviceManager → Progress
    start m = record { manager = m; all_allocate_requests = []; updated_allocated_devices = false }

    unfoldable pub do_allocate :
        PodResourceRequests → DeviceManager → DeviceManager × Result AllocateError (Unit {0})
    do_allocate container_devices m = conclude (allocate_containers container_devices (start m))
