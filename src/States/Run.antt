-- ===== src/States/Run.antt =====
-- Whole runs of the state machine, from `Registered` on.
use krustlet.States.{
  State, Transition, registered, image_pull, starting, next, PodState, new_pod_state, World,
  run_state, starting_next,
}
use krustlet.Prelude.{
  [], ◌∷◌, nat_eq, ◌≤◌, ◌≡◌, Result, ok, arith, Panic, List, Option, ◌≢◌, String,
}
use krustlet.Backoff.{ExponentialBackoffStrategy, from_secs}
use krustlet.Prelude.Dict.{Dict}
use krustlet.Devices.Types.{ContainerAllocateResponse}

-- A machine that has come to a state, with a pod state; the outside answers anew at each step, the
-- last answers standing first.
pub data Reach : List World → State → PodState → Type 0 where
  start : Reach [] registered new_pod_state
  step :
      {ws : List World} {st : State} {s : PodState} (w : World) (t : State) (s' : PodState)
      → Reach ws st s
      → run_state st w s ≡ ok (next t, s')
      → Reach (w ∷ ws) t s'

-- A strategy as `default` makes it, at any wait.
pub record IsDefault (b : ExponentialBackoffStrategy) : Type 0 where
  pub base : b.base_duration ≡ from_secs 10
  pub cap : b.cap ≡ from_secs 300
  pub bounded : b.last_duration ≤ from_secs 300

pub record IsSound (s : PodState) : Type 0 where
  pub errors : s.errors ≤ 3
  pub image_pull : IsDefault s.image_pull_backoff_strategy
  pub crash_loop : IsDefault s.crash_loop_backoff_strategy

abbrev pub Allocated : Type 0
Allocated =
    Option (Result String (Unit {0}) × Option (Dict String (List ContainerAllocateResponse)))

-- A step that does not panic, and what it keeps.
abbrev Steps : Result Panic (Transition × PodState) → Type 0
Steps r = (out : Transition × PodState) × (r ≡ ok out) × IsSound out.1

-- A pod that has come past `starting` has containers.
pub starting-containers :
    (w : World) (s : PodState) (out : Transition × PodState)
    → run_state starting w s ≡ ok out
    → w.container_count ≢ 0
unfolding run_state starting_next
starting-containers w s out e = λ z. ground (arith, e, z)
