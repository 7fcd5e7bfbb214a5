-- ===== src/ContainerStates/Outcome.antt =====
-- How a container ends.
use krustlet.Prelude.{
  ℕ, zero, suc, String, ◌≡◌, ◌↔◌, true, false, Option, some, List, [], ◌∷◌, nat_eq, string_eq,
  Result, ok,
}
use krustlet.Prelude.Dict.{Dict, lookup}
use krustlet.Container.{
  Status, waiting as status_waiting, running as status_running, terminated as status_terminated,
}
use krustlet.ContainerStates.{
  Container, waiting, running, terminated, Transition, next, complete, Runtime, Shared, Context,
  runtime_args, run_state, volume_path_map,
}

-- A number of further states.
unfoldable pub run_for :
    Runtime → Context → Container → ℕ → Transition × Shared → Transition × Shared
run_for runtime s container zero (t, shared) = (t, shared)
run_for runtime s container (suc n) (complete r, shared) = (complete r, shared)
run_for runtime s container (suc n) (next state, shared) =
    run_for runtime s container n (run_state runtime s container state shared)

-- The first status that says that the container has terminated says that it has not failed; and there
-- is one.
abbrev pub EndsWell : List Status → Type 0
EndsWell [] = true ≡ false
EndsWell (status_waiting t message ∷ statuses) = EndsWell statuses
EndsWell (status_running t ∷ statuses) = EndsWell statuses
EndsWell (status_terminated t message has_failed ∷ statuses) = has_failed ≡ false

-- What it takes for a container to succeed.
pub record Succeeds (runtime : Runtime) (s : Context) (container : Container) (shared : Shared)
    : Type 0 where
  pub module_data : List ℕ
  pub dirs : Dict String (Option String)
  pub handle : String
  pub has_module : lookup container.name shared.run_context.modules ≡ some module_data
  pub has_dirs : volume_path_map container shared.run_context.volumes ≡ ok dirs
  pub created :
      runtime.created (runtime_args s container module_data dirs shared.run_context.env_vars)
      ≡ ok tt
  pub started :
      runtime.started (runtime_args s container module_data dirs shared.run_context.env_vars)
      ≡ ok handle
  pub ends_well :
      EndsWell
        (runtime.updates (runtime_args s container module_data dirs shared.run_context.env_vars))

-- Two states on, the container has ended, and without an error exactly under a condition.
abbrev pub IsDone : Runtime → Context → Container → Transition × Shared → Type 0 → Type 0
IsDone runtime s container t Condition =
    (r : Result String (Unit {0})) × ((run_for runtime s container 2 t).0 ≡ complete r)
    × ((r ≡ ok tt) ↔ Condition)
