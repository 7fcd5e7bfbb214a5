-- ===== src/Tests/Pods.antt =====
-- Runs of the theorems on pods, containers, references and stores.
use krustlet.Volume.{host_path, KubeVolume}
use krustlet.Tests.Mounts.{outside}
use krustlet.States.{
  next, Transition, PodState, new_pod_state, World, run_state, await_results, first_error, error,
  crash_loop_backoff, registered,
}
use krustlet.States.Errors.{after_errors, error_next-fourth}
use krustlet.States.Running.{outcome, await_results-outcome}
use krustlet.Container.{
  ContainerMap, KubeContainerStatus, make_initial_container_status, ContainerKey, app, init, key_eq,
  running, to_kubernetes, is_init, key_name, contains_key_name, get_mut_by_name,
}
use krustlet.Container.Keys.{IsNamed, get_mut_by_name-IsNamed}
use krustlet.Pod.{
  Pod, PodStatus, empty_status, containers, init_containers, find_container, patch_container_status,
  add,
}
use krustlet.Pod.Patch.{IsFirst, IsUnnamed, list_of, replacing, patch_container_status-IsFirst}
use krustlet.Prelude.{
  ltb, string_eq, nat_eq, find, ℕ, String, true, false, Option, none, some, List, [], ◌∷◌, ◌++◌,
  Result, ok, err, ◌≡◌, ◌⊎◌, refl, arith, Panic, ◌≤◌, ◌+◌, ◌%◌, length, take, if◌then◌else◌, ◌==◌,
}
use krustlet.Backoff.{from_secs}

abbrev data_volume : KubeVolume
data_volume = record {
  name = "data";
  config_map = none;
  secret = none;
  persistent_volume_claim = none;
  host_path = some "/data";
}

-- Everything answers well; the pod has one container.
abbrev pub well : World
well = record {
  pod_name = "pod";
  validated = ok tt;
  containers_validated = [];
  allocated = ok none;
  fetched = ok (ok (("main", 0 ∷ []) ∷ []));
  volume_path = some "/volumes";
  kube_volumes = data_volume ∷ [];
  outside = outside;
  files = [];
  init_results = [];
  container_count = 1;
  results = ok tt ∷ [];
  stopped = ok tt;
}

abbrev Safe : Result Panic (Transition × PodState) → Type 0
Safe r =
    (out : Transition × PodState) × (r ≡ ok out)
    × (out.1.errors ≤ 3)
    × (out.1.image_pull_backoff_strategy.last_duration ≤ from_secs 300)
    × (out.1.crash_loop_backoff_strategy.last_duration ≤ from_secs 300)

error_next-fourth_example :
    run_state (error "trap") well (after_errors 3 new_pod_state)
    ≡ ok (
      next (if (3 + 1) % 4 == 0 then crash_loop_backoff else registered),
      after_errors 4 new_pod_state,
    )
error_next-fourth_example = error_next-fourth 3 new_pod_state "trap" well refl

abbrev two_results : List (Result String (Unit {0}))
two_results = ok tt ∷ err "trap" ∷ []

await_results-outcome_example :
    await_results "pod" 2 0 (two_results ++ ok tt ∷ [])
    ≡ outcome "pod" 2
        (first_error (take 2 (two_results ++ ok tt ∷ [])))
        (length (take 2 (two_results ++ ok tt ∷ [])))
await_results-outcome_example =
    await_results-outcome "pod" 2 (two_results ++ ok tt ∷ []) (ground arith)

-- The pod state after each of the states between `Resources` and `Initializing`.
abbrev pub pulled : PodState
pulled = record new_pod_state {
  run_context = record new_pod_state.run_context { modules = ("main", 0 ∷ []) ∷ [] };
}

abbrev pub mounted : PodState
mounted = record pulled {
  run_context = record pulled.run_context {
    volumes = ("data", host_path (record { host_path = "/data" })) ∷ [];
  };
}

-- A pod of one container, whose statuses the reflector shows from the fifth read on.
abbrev waiting_pod : Option (List KubeContainerStatus) → Pod
waiting_pod statuses = record {
  spec = some (record { containers = "main" ∷ []; init_containers = none });
  status = some (record empty_status { container_statuses = statuses });
}

abbrev latest : ℕ → Pod
latest t = waiting_pod (if ltb t 5 then none else some (make_initial_container_status "main" ∷ []))

abbrev statuses_of : List KubeContainerStatus
statuses_of = make_initial_container_status "side" ∷ make_initial_container_status "main" ∷ []

abbrev pod_status : PodStatus
pod_status = record empty_status { container_statuses = some statuses_of }

abbrev two_containers : Pod
two_containers = record {
  spec = some (record { containers = "side" ∷ "main" ∷ []; init_containers = none });
  status = some pod_status;
}

patch_container_status-IsFirst_example :
    ((idx : ℕ) × IsFirst "main" idx statuses_of
      × (patch_container_status two_containers (app "main") (running 7)
          ≡ some (replacing (app "main") idx (to_kubernetes (running 7) "main"))))
    ⊎ (IsUnnamed "main" statuses_of
        × (patch_container_status two_containers (app "main") (running 7)
            ≡ some (add (list_of (app "main")) (to_kubernetes (running 7) "main") ∷ [])))
unfolding find_container find is_init key_name containers
patch_container_status-IsFirst_example =
    patch_container_status-IsFirst two_containers (app "main") (running 7) "main" pod_status
      statuses_of refl refl refl

abbrev only_init : ContainerMap ℕ
only_init = (init "a", 1) ∷ []

get_mut_by_name-IsNamed_example :
    ((contains_key_name "a" only_init ≡ false) × (get_mut_by_name "a" only_init ≡ none))
    ⊎ ((contains_key_name "a" only_init ≡ true)
        × ((k : ContainerKey) × (v : ℕ) × (get_mut_by_name "a" only_init ≡ some (k, v))
            × IsNamed "a" only_init k v))
get_mut_by_name-IsNamed_example = get_mut_by_name-IsNamed "a" only_init
