-- ===== src/States.antt =====
-- The state machine of a pod: crates/kubelet/src/state/common and
-- crates/wasi-provider/src/states/pod. A state's `next` is one function of what the outside answers
-- (`World`) and of the pod's state.
pub mod Errors
pub mod Graph
pub mod Run
pub mod Running
pub mod Prepared
use krustlet.Prelude.{
  ℕ, zero, suc, ◌+◌, String, ◌<>◌, Bool, true, false, Option, none, some, List, [], ◌∷◌, ◌++◌, map,
  Result, ok, err, Panic, zero_capacity, ◌>>◌, ◌>>=◌, ◌==◌, nat_eq, string_eq, ltb, if◌then◌else◌,
}
use krustlet.Prelude.Dict.{Dict, insert}
use krustlet.Backoff
use krustlet.Backoff.{ExponentialBackoffStrategy}
use krustlet.Devices.Types.{ContainerAllocateResponse, Mount}
use krustlet.Volume.{VolumeRef, host_path, KubeVolume, NodeFiles}
use krustlet.Volume.Refs.{Outside, volumes_from_pod, mount_all}

-- The common states, then those of the WASI provider; `initializing` is its `RunState`.
pub data State : Type 0 where
  registered : State
  resources : State
  image_pull : State
  image_pull_backoff : State
  volume_mount : State
  error : String → State
  crash_loop_backoff : State
  terminated : State
  initializing : State
  starting : State
  running : State
  completed : State

pub data Transition : Type 0 where
  next : State → Transition
  complete : Result String (Unit {0}) → Transition

abbrev pub Modules : Type 0
Modules = Dict String (List ℕ)

abbrev pub Volumes : Type 0
Volumes = Dict String VolumeRef

abbrev pub EnvVars : Type 0
EnvVars = Dict String (Dict String String)

pub record ModuleRunContext : Type 0 where
  pub modules : Modules
  pub volumes : Volumes
  pub env_vars : EnvVars

-- `PodState` without the key of its handle.
pub record PodState : Type 0 where
  pub run_context : ModuleRunContext
  pub errors : ℕ
  pub image_pull_backoff_strategy : ExponentialBackoffStrategy
  pub crash_loop_backoff_strategy : ExponentialBackoffStrategy

abbrev pub new_pod_state : PodState
new_pod_state = record {
  run_context = record { modules = []; volumes = []; env_vars = [] };
  errors = 0;
  image_pull_backoff_strategy = Backoff.default;
  crash_loop_backoff_strategy = Backoff.default;
}

pub data BackoffSequence : Type 0 where
  for_image_pull for_crash_loop : BackoffSequence

pub data ThresholdTrigger : Type 0 where
  triggered untriggered : ThresholdTrigger

unfoldable pub set_env_vars : EnvVars → PodState → PodState
set_env_vars env_vars s = record s { run_context = record s.run_context { env_vars = env_vars } }

unfoldable pub set_modules : Modules → PodState → PodState
set_modules modules s = record s { run_context = record s.run_context { modules = modules } }

unfoldable pub set_volumes : Volumes → PodState → PodState
set_volumes volumes s = record s { run_context = record s.run_context { volumes = volumes } }

unfoldable pub backoff : BackoffSequence → PodState → Result Panic PodState
backoff for_image_pull s = do
  (strategy, _) ← Backoff.wait s.image_pull_backoff_strategy
  ok (record s { image_pull_backoff_strategy = strategy })
backoff for_crash_loop s = do
  (strategy, _) ← Backoff.wait s.crash_loop_backoff_strategy
  ok (record s { crash_loop_backoff_strategy = strategy })

unfoldable pub reset_backoff : BackoffSequence → PodState → PodState
reset_backoff for_image_pull s = record s {
  image_pull_backoff_strategy = Backoff.reset s.image_pull_backoff_strategy;
}
reset_backoff for_crash_loop s = record s {
  crash_loop_backoff_strategy = Backoff.reset s.crash_loop_backoff_strategy;
}

unfoldable pub record_error : PodState → PodState × ThresholdTrigger
record_error s =
    if ltb 3 (s.errors + 1)
    then (record s { errors = 0 }, triggered)
    else (record s { errors = s.errors + 1 }, untriggered)

-- What the outside answers while one state runs. `allocated` and `fetched` are what `do_allocate` and
-- `fetch_pod_modules` come to, a panic among it. `allocated` holds `none` where the provider has no
-- device plugin manager; its second part is what `get_pod_allocate_responses` returns. `results` are
-- the messages of the containers' channel, in their order, up to its closing.
pub record World : Type 0 where
  pub pod_name : String
  pub validated : Result String (Unit {0})
  pub containers_validated : List (Result String (Unit {0}))
  pub allocated :
      Result Panic
        (Option (Result String (Unit {0}) × Option (Dict String (List ContainerAllocateResponse))))
  pub fetched : Result Panic (Result String Modules)
  pub volume_path : Option String
  pub kube_volumes : List KubeVolume
  pub outside : Outside
  pub files : NodeFiles
  pub init_results : List (String × Result String (Unit {0}))
  pub container_count : ℕ
  pub results : List (Result String (Unit {0}))
  pub stopped : Result String (Unit {0})

-- The first error of a list of results, in their order.
unfoldable pub first_error : List (Result String (Unit {0})) → Result String (Unit {0})
first_error [] = ok tt
first_error (err e ∷ rs) = err e
first_error (ok _ ∷ rs) = first_error rs

unfoldable pub validate_pod_and_containers_runnable : World → Result String (Unit {0})
validate_pod_and_containers_runnable w = do w.validated; first_error w.containers_validated

unfoldable pub registered_next : Result String (Unit {0}) → Transition
registered_next (ok _) = next resources
registered_next (err e) = next (error e)

-- The environment and the host paths of the responses: the inner loop over one container's.
unfoldable pub collect_container :
    String → List ContainerAllocateResponse → EnvVars × List String → EnvVars × List String
collect_container c [] acc = acc
collect_container c (r ∷ rs) (env_vars, host_paths) =
    collect_container c rs
      (insert c r.envs env_vars, host_paths ++ map (λ (m : Mount). m.host_path) r.mounts)

unfoldable pub collect_all :
    Dict String (List ContainerAllocateResponse) → EnvVars × List String → EnvVars × List String
collect_all [] acc = acc
collect_all ((c, rs) ∷ responses) acc = collect_all responses (collect_container c rs acc)

-- Each path becomes a volume of that name.
unfoldable pub host_path_volumes : List String → Volumes → Volumes
host_path_volumes [] acc = acc
host_path_volumes (p ∷ paths) acc =
    host_path_volumes paths (insert p (host_path (record { host_path = p })) acc)

unfoldable pub use_responses :
    Option (Dict String (List ContainerAllocateResponse)) → PodState → PodState
use_responses none s = s
use_responses (some responses) s =
    let (env_vars, host_paths) = collect_all responses ([], []) in
    set_env_vars env_vars (set_volumes (host_path_volumes host_paths []) s)

-- The outcome of the allocation, and the responses that it left.
unfoldable pub resources_next :
    Option (Result String (Unit {0}) × Option (Dict String (List ContainerAllocateResponse)))
    → PodState
    → Transition × PodState
resources_next none s = (next image_pull, s)
resources_next (some (err e, responses)) s = (next (error e), s)
resources_next (some (ok _, responses)) s = (next image_pull, use_responses responses s)

unfoldable pub image_pull_next : Result String Modules → PodState → Transition × PodState
image_pull_next (err e) s = (next image_pull_backoff, s)
image_pull_next (ok modules) s =
    (next volume_mount, reset_backoff for_image_pull (set_modules modules s))

-- The volumes as mounting them left them.
unfoldable pub after_mounting :
    Volumes → Result String (Unit {0}) → PodState → Transition × PodState
after_mounting volumes (err e) s = (next (error e), s)
after_mounting volumes (ok _) s = (next initializing, set_volumes volumes s)

-- From the volumes of the pod's spec on.
unfoldable pub mount_found :
    String → World → Result String Volumes → PodState → Transition × PodState
mount_found base_path w (err e) s = (next (error e), s)
mount_found base_path w (ok volumes) s =
    let (_, (mounted, r)) = mount_all w.outside base_path volumes w.files in
    after_mounting mounted r s

-- The first argument is the pod's directory for volumes, where there is one.
unfoldable pub volume_mount_next : Option String → World → PodState → Transition × PodState
volume_mount_next none w s = (next initializing, s)
volume_mount_next (some base_path) w s =
    mount_found base_path w (volumes_from_pod w.outside w.kube_volumes) s

unfoldable pub error_next : PodState × ThresholdTrigger → Transition × PodState
error_next (s, triggered) = (next crash_loop_backoff, s)
error_next (s, untriggered) = (next registered, s)

-- The init containers run one after the other, up to the first that fails.
unfoldable pub run_init :
    List (String × Result String (Unit {0})) → PodState → Transition × PodState
run_init [] s = (next starting, reset_backoff for_crash_loop s)
run_init ((name, ok _) ∷ rest) s = run_init rest (reset_backoff for_crash_loop s)
run_init ((name, err e) ∷ rest) s =
    (complete (err ("Init container " <> (name <> " failed"))), reset_backoff for_crash_loop s)

-- A channel of capacity 0 panics.
unfoldable pub starting_next : World → Result Panic Transition
starting_next w = if w.container_count == 0 then err zero_capacity else ok (next running)

unfoldable pub await_results : String → ℕ → ℕ → List (Result String (Unit {0})) → Transition
await_results pod_name total completed_so_far [] =
    next (error ("Pod " <> (pod_name <> " container result channel hung up.")))
await_results pod_name total completed_so_far (err e ∷ results) = complete (err e)
await_results pod_name total completed_so_far (ok _ ∷ results) =
    let rest = await_results pod_name total (completed_so_far + 1) results in
    if completed_so_far + 1 == total then next completed else rest

unfoldable pub image_pull_backoff_next : PodState → Result Panic (Transition × PodState)
image_pull_backoff_next s = do s' ← backoff for_image_pull s; ok (next image_pull, s')

unfoldable pub crash_loop_backoff_next : PodState → Result Panic (Transition × PodState)
crash_loop_backoff_next s = do s' ← backoff for_crash_loop s; ok (next registered, s')

unfoldable pub terminated_next : Result String (Unit {0}) → Transition
terminated_next stop_result = complete stop_result

unfoldable pub completed_next : Transition
completed_next = complete (ok tt)

unfoldable pub run_state : State → World → PodState → Result Panic (Transition × PodState)
run_state registered w s = ok (registered_next (validate_pod_and_containers_runnable w), s)
run_state resources w s = do allocated ← w.allocated; ok (resources_next allocated s)
run_state image_pull w s = do fetched ← w.fetched; ok (image_pull_next fetched s)
run_state image_pull_backoff w s = image_pull_backoff_next s
run_state volume_mount w s = ok (volume_mount_next w.volume_path w s)
run_state (error message) w s = ok (error_next (record_error s))
run_state crash_loop_backoff w s = crash_loop_backoff_next s
run_state terminated w s = ok (terminated_next w.stopped, s)
run_state initializing w s = ok (run_init w.init_results s)
run_state starting w s = do t ← starting_next w; ok (t, s)
run_state running w s = ok (await_results w.pod_name w.container_count 0 w.results, s)
run_state completed w s = ok (completed_next, s)
