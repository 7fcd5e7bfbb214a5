-- ===== src/States/Graph.antt =====
-- The transitions of the state machine.
use krustlet.States.{
  triggered, untriggered, State, Transition, registered, resources, image_pull, image_pull_backoff,
  volume_mount, error, crash_loop_backoff, terminated, initializing, starting, running, completed,
  next, complete, run_init, await_results, resources_next, PodState, World, registered_next,
  image_pull_next, volume_mount_next, error_next, run_state, Modules, Volumes, ThresholdTrigger,
  starting_next, validate_pod_and_containers_runnable, backoff, for_image_pull, record_error,
  for_crash_loop, image_pull_backoff_next, crash_loop_backoff_next, terminated_next, completed_next,
  after_mounting, mount_found,
}
use krustlet.Volume.Refs.{volumes_from_pod, mount_all}
use krustlet.Prelude.{
  nat_eq, String, ◌≡◌, Result, ok, err, ◌>>=◌, arith, List, [], ◌∷◌, ℕ, Bool-cases, none, ◌+◌, some,
  ◌==◌, inl, inr, Option, Panic, subst, ok-injective, bind-eq-ok,
}
use krustlet.Container.{running}
use krustlet.Prelude.Dict.{Dict}
use krustlet.Devices.Types.{ContainerAllocateResponse}

-- The transitions that the states make; the one to the run state is not declared in the source.
pub data Moves : State → State → Type 0 where
  registered_error : (m : String) → Moves registered (error m)
  registered_resources : Moves registered resources
  resources_error : (m : String) → Moves resources (error m)
  resources_image_pull : Moves resources image_pull
  image_pull_failed : Moves image_pull image_pull_backoff
  image_pull_volume_mount : Moves image_pull volume_mount
  backoff_image_pull : Moves image_pull_backoff image_pull
  volume_mount_error : (m : String) → Moves volume_mount (error m)
  volume_mount_run : Moves volume_mount initializing
  error_crash_loop : (m : String) → Moves (error m) crash_loop_backoff
  error_registered : (m : String) → Moves (error m) registered
  crash_loop_registered : Moves crash_loop_backoff registered
  initializing_starting : Moves initializing starting
  initializing_error : (m : String) → Moves initializing (error m)
  starting_running : Moves starting running
  running_completed : Moves running completed
  running_error : (m : String) → Moves running (error m)

-- A transition out of `st` is to a declared state, or the end of the machine.
abbrev pub Legal : State → Transition → Type 0
Legal st (next t) = Moves st t
Legal st (complete r) = Unit

run_init-Legal :
    (rs : List (String × Result String (Unit {0}))) (s : PodState)
    → Legal initializing (run_init rs s).0
unfolding run_init
run_init-Legal [] s = initializing_starting
run_init-Legal ((n, ok _) ∷ rs) s = run_init-Legal rs _
run_init-Legal ((n, err e) ∷ rs) s = tt

await_results-Legal :
    (p : String) (total done : ℕ) (rs : List (Result String (Unit {0})))
    → Legal running (await_results p total done rs)
unfolding await_results
await_results-Legal p total done [] = running_error _
await_results-Legal p total done (err e ∷ rs) = tt
await_results-Legal p total done (ok _ ∷ rs) = elim (Bool-cases (done + 1 == total)) [
  | inl e ↦ rw e running_completed
  | inr e ↦ rw e (await_results-Legal p total (done + 1) rs)
]

registered_next-Legal : (r : Result String (Unit {0})) → Legal registered (registered_next r)
unfolding registered_next
registered_next-Legal (ok _) = registered_resources
registered_next-Legal (err e) = registered_error e

resources_next-Legal :
    (a : Option (Result String (Unit {0}) × Option (Dict String (List ContainerAllocateResponse))))
    (s : PodState)
    → Legal resources (resources_next a s).0
unfolding resources_next
resources_next-Legal none s = resources_image_pull
resources_next-Legal (some (err e, responses)) s = resources_error e
resources_next-Legal (some (ok _, responses)) s = resources_image_pull

image_pull_next-Legal :
    (r : Result String Modules) (s : PodState) → Legal image_pull (image_pull_next r s).0
unfolding image_pull_next
image_pull_next-Legal (err e) s = image_pull_failed
image_pull_next-Legal (ok modules) s = image_pull_volume_mount

after_mounting-Legal :
    (volumes : Volumes) (r : Result String (Unit {0})) (s : PodState)
    → Legal volume_mount (after_mounting volumes r s).0
unfolding after_mounting
after_mounting-Legal volumes (err e) s = volume_mount_error e
after_mounting-Legal volumes (ok _) s = volume_mount_run

mount_found-Legal :
    (path : String) (w : World) (r : Result String Volumes) (s : PodState)
    → Legal volume_mount (mount_found path w r s).0
unfolding mount_found
mount_found-Legal path w (err e) s = volume_mount_error e
mount_found-Legal path w (ok volumes) s =
    after_mounting-Legal (mount_all w.outside path volumes w.files).1.0
      (mount_all w.outside path volumes w.files).1.1 s

volume_mount_next-Legal :
    (p : Option String) (w : World) (s : PodState) → Legal volume_mount (volume_mount_next p w s).0
unfolding volume_mount_next
volume_mount_next-Legal none w s = volume_mount_run
volume_mount_next-Legal (some path) w s =
    mount_found-Legal path w (volumes_from_pod w.outside w.kube_volumes) s

error_next-Legal : (m : String) (r : PodState × ThresholdTrigger) → Legal (error m) (error_next r).0
unfolding error_next
error_next-Legal m (s, triggered) = error_crash_loop m
error_next-Legal m (s, untriggered) = error_registered m

Legal-ok :
    (st : State) (a out : Transition × PodState)
    → Legal st a.0
    → ◌≡◌ {A = Result Panic (Transition × PodState)} (ok a) (ok out)
    → Legal st out.0
Legal-ok st a out h e = subst (λ (o : Transition × PodState). Legal st o.0) (ok-injective e) h

-- Bound in a `Result` that did not panic.
Legal-bind :
    (st t : State) (r : Result Panic PodState) (out : Transition × PodState)
    → Moves st t
    → (r >>= λ s. ok (next t, s)) ≡ ok out
    → Legal st out.0
Legal-bind st t (ok s) out d e = Legal-ok st (next t, s) out d e
Legal-bind st t (err p) out d e = absurd (ground (arith, e))

starting-Legal :
    (w : World) (s : PodState) (out : Transition × PodState)
    → (starting_next w >>= λ t. ok (t, s)) ≡ ok out
    → Legal starting out.0
unfolding starting_next
starting-Legal w s out e = elim (Bool-cases (w.container_count == 0)) [
  | inl z ↦ absurd (ground (arith, e, z))
  | inr z ↦ Legal-ok starting (next running, s) out starting_running (ground (arith, e, z))
]

-- Whatever the outside answers, a state that does not panic ends the machine or makes one of its moves.
pub run_state-Legal :
    (st : State) (w : World) (s : PodState) (out : Transition × PodState)
    → run_state st w s ≡ ok out
    → Legal st out.0
unfolding run_state image_pull_backoff_next crash_loop_backoff_next terminated_next completed_next
run_state-Legal registered w s out e =
    Legal-ok registered (registered_next (validate_pod_and_containers_runnable w), s) out
      (registered_next-Legal (validate_pod_and_containers_runnable w)) e
run_state-Legal resources w s out e =
    let (a, _, e') = bind-eq-ok w.allocated _ e in
    Legal-ok resources (resources_next a s) out (resources_next-Legal a s) e'
run_state-Legal image_pull w s out e =
    let (f, _, e') = bind-eq-ok w.fetched _ e in
    Legal-ok image_pull (image_pull_next f s) out (image_pull_next-Legal f s) e'
run_state-Legal image_pull_backoff w s out e =
    Legal-bind image_pull_backoff image_pull (backoff for_image_pull s) out backoff_image_pull e
run_state-Legal volume_mount w s out e =
    Legal-ok volume_mount (volume_mount_next w.volume_path w s) out
      (volume_mount_next-Legal w.volume_path w s) e
run_state-Legal (error m) w s out e =
    Legal-ok (error m) (error_next (record_error s)) out (error_next-Legal m (record_error s)) e
run_state-Legal crash_loop_backoff w s out e =
    Legal-bind crash_loop_backoff registered (backoff for_crash_loop s) out crash_loop_registered e
run_state-Legal terminated w s out e = Legal-ok terminated (complete w.stopped, s) out tt e
run_state-Legal initializing w s out e =
    Legal-ok initializing (run_init w.init_results s) out (run_init-Legal w.init_results s) e
run_state-Legal starting w s out e = starting-Legal w s out e
run_state-Legal running w s out e =
    Legal-ok running (await_results w.pod_name w.container_count 0 w.results, s) out
      (await_results-Legal w.pod_name w.container_count 0 w.results) e
run_state-Legal completed w s out e = Legal-ok completed (complete (ok tt), s) out tt e
