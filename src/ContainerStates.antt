-- ===== src/ContainerStates.antt =====
-- crates/wasi-provider/src/states/container: the states of one container. What the runtime says is an
-- argument.
pub mod Paths
pub mod Outcome
use krustlet.Prelude.{
  ℕ, zero, suc, ◌+◌, ◌-◌, ◌*◌, ◌≤◌, ◌<◌, min, String, ◌<>◌, ◌≡◌, refl, sym, ap, subst, ◌∙◌, ◌≢◌,
  ◌↔◌, ◌⊎◌, inl, inr, Bool, true, false, not, ◌&&◌, ◌||◌, Option, none, some, List, [], ◌∷◌, ◌++◌,
  map, arith, ltb, leb, if◌then◌else◌, Bool-cases, Option-cases, Result-cases, List-cases,
  some-injective, ok-injective, Eq, ◌==◌, nat_eq, string_eq, str_eq_iff, ==_refl, ==_ne, contains,
  length, get_elem?, take, length-append, keep_if, find, Result, ok, err, ◌>>=◌, ◌>>◌, Panic,
  overflow, nothing, bind-eq-ok, All,
}
use krustlet.Prelude.Dict.{
  Dict, keys, values, lookup, insert, remove, contains_key, extend, NodupKeys, lookup-nil,
  lookup-cons, lookup-insert, lookup-remove, lookup-extend,
}
use krustlet.Prelude.Text.{join}
use krustlet.Container.{
  Status, waiting as status_waiting, running as status_running, terminated as status_terminated,
  ContainerKey, key_eq,
}
use krustlet.Volume.{VolumeRef}
use krustlet.Volume.Refs.{get_path}
use krustlet.States.{ModuleRunContext, Modules, Volumes, EnvVars}

pub record VolumeMount : Type 0 where
  pub name : String
  pub mount_path : String
  pub sub_path : Option String

-- The fields of `Container` that its states read.
pub record Container : Type 0 where
  pub name : String
  pub volume_mounts : Option (List VolumeMount)
  pub args : Option (List String)

pub data State : Type 0 where
  waiting : State
  running : List Status → State
  terminated : String → Bool → State

pub data Transition : Type 0 where
  next : State → Transition
  complete : Result String (Unit {0}) → Transition

unfoldable pub guest_path : VolumeMount → String
guest_path vm = elim vm.sub_path [
  | none ↦ vm.mount_path
  | some sub_path ↦ join vm.mount_path sub_path
]

-- The host path of a mount's volume.
unfoldable pub host_path_of : String → Volumes → VolumeMount → Result String String
host_path_of container_name volumes vm = elim (lookup vm.name volumes) [
  | none ↦
      err
        ("no volume with the name of " <> (vm.name <> (" found for container " <> container_name)))
  | some vol ↦ elim (get_path vol) [
    | none ↦ err ("Volume " <> (vm.name <> " has not been mounted yet"))
    | some host_path ↦ ok host_path
  ]
]

unfoldable pub mount_pairs :
    String → Volumes → List VolumeMount → Result String (List (String × Option String))
mount_pairs container_name volumes [] = ok []
mount_pairs container_name volumes (vm ∷ mounts) =
    host_path_of container_name volumes vm >>= λ host_path.
    mount_pairs container_name volumes mounts >>= λ rest.
    ok ((host_path, some (guest_path vm)) ∷ rest)

-- The pairs are collected into a map by their host paths.
unfoldable pub volume_path_map : Container → Volumes → Result String (Dict String (Option String))
volume_path_map container volumes = elim container.volume_mounts [
  | none ↦ ok []
  | some mounts ↦ mount_pairs container.name volumes mounts >>= λ pairs. ok (extend [] pairs)
]

-- What the runtime is made of.
pub record RuntimeArgs : Type 0 where
  pub name : String
  pub module_data : List ℕ
  pub env : Dict String String
  pub args : List String
  pub dirs : Dict String (Option String)

-- What the runtime says: whether it can be made and started, the handle that it then gives, and the
-- statuses that it sends up to the end of its channel.
pub record Runtime : Type 0 where
  pub created : RuntimeArgs → Result String (Unit {0})
  pub started : RuntimeArgs → Result String String
  pub updates : RuntimeArgs → List Status

-- The handles of the running containers, by pod and container.
abbrev pub Handles : Type 0
Handles = Dict String (Dict ContainerKey String)

-- What one container's states share.
pub record Shared : Type 0 where
  pub run_context : ModuleRunContext
  pub handles : Handles

-- `ContainerState` and what the states know of the pod; `pod_env` is what `env_vars` gives.
pub record Context : Type 0 where
  pub pod_name : String
  pub namespace : String
  pub container_key : ContainerKey
  pub pod_env : Dict String String

abbrev or_empty {ℓ} : {A : Type ℓ} → Option (List A) → List A
or_empty none = []
or_empty (some xs) = xs

unfoldable pub insert_container_handle : String → ContainerKey → String → Handles → Handles
insert_container_handle pod_key key handle handles =
    insert pod_key (insert key handle (or_empty (lookup pod_key handles))) handles

abbrev pub failed : Context → Container → String → Transition
failed s container what =
    next (terminated ("Pod " <> (s.pod_name <> (" container " <> (container.name <> what)))) true)

unfoldable pub runtime_args :
    Context → Container → List ℕ → Dict String (Option String) → EnvVars → RuntimeArgs
runtime_args s container module_data dirs env_vars = record {
  name = s.namespace <> (":" <> (s.pod_name <> (":" <> container.name)));
  module_data = module_data;
  env = extend s.pod_env (or_empty (lookup container.name env_vars));
  args = or_empty container.args;
  dirs = dirs;
}

-- From the construction of the runtime on.
unfoldable pub start_runtime :
    Runtime → Context → Container → RuntimeArgs → Shared → Transition × Shared
start_runtime runtime s container given shared = elim (runtime.created given) [
  | err e ↦ (failed s container (" failed to construct runtime: " <> e), shared)
  | ok _ ↦ elim (runtime.started given) [
    | err e ↦ (failed s container (" failed to start: " <> e), shared)
    | ok handle ↦ (
      next (running (runtime.updates given)),
      record shared {
        handles =
            insert_container_handle (s.namespace <> (":" <> s.pod_name)) s.container_key handle
              shared.handles;
      },
    )
  ]
]

abbrev without_module : String → Shared → Shared
without_module name shared = record shared {
  run_context = record shared.run_context { modules = remove name shared.run_context.modules };
}

abbrev without_env : String → Shared → Shared
without_env name shared = record shared {
  run_context = record shared.run_context { env_vars = remove name shared.run_context.env_vars };
}

-- `Waiting::next`
unfoldable pub waiting_next : Runtime → Context → Container → Shared → Transition × Shared
waiting_next runtime s container shared = elim (lookup container.name shared.run_context.modules) [
  | none ↦ (failed s container " failed load module data from run context.", shared)
  | some module_data ↦
      let taken = without_module container.name shared in
      elim (volume_path_map container shared.run_context.volumes) [
        | err e ↦ (failed s container (" failed to map volume paths: " <> e), taken)
        | ok dirs ↦
            start_runtime runtime s container
              (runtime_args s container module_data dirs shared.run_context.env_vars)
              (without_env container.name taken)
      ]
]

-- `Running::next`: the first status that says the container has terminated.
unfoldable pub running_next : List Status → Transition
running_next [] = next (terminated "WASI Runtime channel hung up" true)
running_next (status_waiting t message ∷ statuses) = running_next statuses
running_next (status_running t ∷ statuses) = running_next statuses
running_next (status_terminated t message has_failed ∷ statuses) =
    next (terminated message has_failed)

-- `Terminated::next`
unfoldable pub terminated_next : String → Bool → Transition
terminated_next message has_failed = complete (if has_failed then err message else ok tt)

unfoldable pub run_state : Runtime → Context → Container → State → Shared → Transition × Shared
run_state runtime s container waiting shared = waiting_next runtime s container shared
run_state runtime s container (running statuses) shared = (running_next statuses, shared)
run_state runtime s container (terminated message has_failed) shared =
    (terminated_next message has_failed, shared)
