-- ===== src/Pod.antt =====
-- crates/kubelet/src/pod/mod.rs and status.rs, with the patch of one container's status from
-- crates/kubelet/src/container/status.rs: the statuses of a pod's containers, how they are first set,
-- and how one of them is changed.
pub mod Statuses
pub mod Patch
use krustlet.Prelude.{
  ℕ, zero, suc, String, ◌<>◌, Bool, true, false, Option, none, some, List, [], ◌∷◌, ◌++◌, map, find,
  length, Result, ok, err, ◌==◌, ◌&&◌, nat_eq, string_eq, if◌then◌else◌,
}
use krustlet.Container.{
  ContainerKey, key_name, is_init, KubeContainerStatus, ContainerState, Status, to_kubernetes,
  make_initial_container_status,
}

-- `Container` by its name, the only field that is read here; `spec` and `status` are what the
-- API server sends.
pub record PodSpec : Type 0 where
  pub containers : List String
  pub init_containers : Option (List String)

pub data Phase : Type 0 where
  pending running failed succeeded unknown : Phase

pub record PodStatus : Type 0 where
  pub phase : Option Phase
  pub reason : Option String
  pub message : Option String
  pub container_statuses : Option (List KubeContainerStatus)
  pub init_container_statuses : Option (List KubeContainerStatus)

pub record Pod : Type 0 where
  pub spec : Option PodSpec
  pub status : Option PodStatus

unfoldable pub containers : Pod → List String
containers pod = elim pod.spec [ none ↦ [] | some s ↦ s.containers ]

unfoldable pub init_containers : Pod → List String
init_containers pod = elim pod.spec [
  | none ↦ []
  | some s ↦ elim s.init_containers [ none ↦ [] | some cs ↦ cs ]
]

unfoldable pub all_containers : Pod → List String
all_containers pod = containers pod ++ init_containers pod

unfoldable pub find_container : Pod → ContainerKey → Option String
find_container pod key =
    find (λ name. name == key_name key)
      (if is_init key then init_containers pod else containers pod)

-- The first index of a status with the name, counted from `idx`.
unfoldable pub find_index : String → ℕ → List KubeContainerStatus → Option ℕ
find_index name idx [] = none
find_index name idx (s ∷ statuses) =
    let rest = find_index name (suc idx) statuses in if s.name == name then some idx else rest

unfoldable pub container_status_index : Pod → ContainerKey → Option ℕ
container_status_index pod key = elim pod.status [
  | none ↦ none
  | some status ↦
      elim (if is_init key then status.init_container_statuses else status.container_statuses) [
        | none ↦ none
        | some statuses ↦ find_index (key_name key) 0 statuses
      ]
]

-- `StatusBuilder::new`
abbrev pub empty_status : PodStatus
empty_status = record {
  phase = none;
  reason = none;
  message = none;
  container_statuses = none;
  init_container_statuses = none;
}

unfoldable pub make_status : Phase → String → PodStatus
make_status phase reason = record empty_status {
  phase = some phase;
  reason = some reason;
  message = some reason;
}

unfoldable pub make_status_with_containers :
    Phase → String → List KubeContainerStatus → List KubeContainerStatus → PodStatus
make_status_with_containers phase reason statuses init_statuses = record empty_status {
  phase = some phase;
  reason = some reason;
  container_statuses = some statuses;
  init_container_statuses = some init_statuses;
}

unfoldable pub make_registered_status : Pod → PodStatus
make_registered_status pod =
    make_status_with_containers pending "Registered"
      (map make_initial_container_status (containers pod))
      (map make_initial_container_status (init_containers pod))

-- Which of the status lists a JSON patch writes to: `/status/containerStatuses` or
-- `/status/initContainerStatuses`.
pub data StatusList : Type 0 where
  container_statuses init_container_statuses : StatusList

-- The operations of `patch_container_status`, with their paths taken apart.
pub data PatchOperation : Type 0 where
  replace_state : StatusList → ℕ → Option ContainerState → PatchOperation
  replace_ready : StatusList → ℕ → Bool → PatchOperation
  replace_started : StatusList → ℕ → Bool → PatchOperation
  add : StatusList → KubeContainerStatus → PatchOperation

unfoldable pub status_list : ContainerKey → StatusList
status_list key = if is_init key then init_container_statuses else container_statuses

-- The patch that is sent, or `none` for an unknown container, where nothing is.
unfoldable pub patch_container_status : Pod → ContainerKey → Status → Option (List PatchOperation)
patch_container_status pod key status = elim (find_container pod key) [
  | none ↦ none
  | some name ↦
      let kube_status = to_kubernetes status name in
      some (elim (container_status_index pod key) [
        | some idx ↦
            replace_state (status_list key) idx kube_status.state
            ∷ replace_ready (status_list key) idx kube_status.ready
            ∷ replace_started (status_list key) idx true
            ∷ []
        | none ↦ add (status_list key) kube_status ∷ []
      ])
]

unfoldable pub count_statuses : Option (List KubeContainerStatus) → ℕ
count_statuses none = 0
count_statuses (some statuses) = length statuses

unfoldable pub is_populated : ℕ → ℕ → Pod → Bool
is_populated num_containers num_init_containers pod =
    let status : PodStatus = elim pod.status [ none ↦ empty_status | some s ↦ s ] in
    (count_statuses status.container_statuses == num_containers)
    && (count_statuses status.init_container_statuses == num_init_containers)

-- What the pod's reflector holds at each read of it.
module _ (latest : ℕ → Pod) where
  -- The inner loop: at most `polls` reads from the `t`-th on; whether one was populated, and the next
  -- read.
  unfoldable pub wait_for_statuses : ℕ → ℕ → ℕ → ℕ → Bool × ℕ
  wait_for_statuses num_containers num_init_containers zero t = (false, t)
  wait_for_statuses num_containers num_init_containers (suc polls) t =
      let rest = wait_for_statuses num_containers num_init_containers polls (suc t) in
      if is_populated num_containers num_init_containers (latest t) then (true, suc t) else rest

  -- The main loop with `left` retries to go, from the `t`-th read on: the statuses that are sent to
  -- the API server, and the outcome.
  unfoldable pub initialize_from : ℕ → ℕ → List PodStatus × Result String (Unit {0})
  initialize_from zero t = (
    make_status failed "Timed out while initializing container statuses." ∷ [],
    err "Timed out while initializing container statuses.",
  )
  initialize_from (suc left) t =
      let pod = latest t in
      let (populated, t') =
        wait_for_statuses (length (containers pod)) (length (init_containers pod)) 10 (suc t) in
      let (patches, outcome) = initialize_from left t' in
      if populated
      then (make_registered_status pod ∷ [], ok tt)
      else (make_registered_status pod ∷ patches, outcome)

  -- With the bound `MAX_STATUS_INIT_RETRIES`.
  unfoldable pub initialize_pod_container_statuses : List PodStatus × Result String (Unit {0})
  initialize_pod_container_statuses = initialize_from 5 0
