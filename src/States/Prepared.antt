-- ===== src/States/Prepared.antt =====
-- What a pod has come through when its containers run.
use krustlet.Prelude.{String, ◌≡◌, ◌⊎◌, ◌≢◌, Result, ok, none, some, List, [], ◌∷◌, nat_eq}
use krustlet.Volume.Refs.{volumes_from_pod, mount_all}
use krustlet.States.{State, PodState, World, Volumes, next, run_state}
use krustlet.States.Run.{Reach}

-- The step that led to `t`, which is one of `st`.
abbrev CameFrom : State → List World → State → PodState → Type 0
CameFrom st ws t s' =
    (w : World) × (rest : List World) × (s : PodState) × (ws ≡ (w ∷ rest))
    × Reach rest st s
    × (run_state st w s ≡ ok (next t, s'))

-- The volumes of the pod state are those that were mounted, if the pod has a directory for them.
abbrev pub AreMounted : World → PodState → Type 0
AreMounted w s =
    (w.volume_path ≡ none)
    ⊎ ((path : String) × (volumes : Volumes) × (w.volume_path ≡ some path)
        × (volumes_from_pod w.outside w.kube_volumes ≡ ok volumes)
        × ((mount_all w.outside path volumes w.files).1 ≡ (s.run_context.volumes, ok tt)))

-- Every init container has ended without an error.
abbrev pub HaveSucceeded : List (String × Result String (Unit {0})) → Type 0
HaveSucceeded [] = Unit
HaveSucceeded ((name, r) ∷ results) = (r ≡ ok tt) × HaveSucceeded results

-- What the four steps before a running pod's last one were answered.
pub record IsPrepared (ws : List World) (s : PodState) : Type 0 where
  pub started : World
  pub initialized : World
  pub mounted : World
  pub pulled : World
  pub earlier : List World
  pub steps : ws ≡ (started ∷ initialized ∷ mounted ∷ pulled ∷ earlier)
  pub containers : started.container_count ≢ 0
  pub init_containers : HaveSucceeded initialized.init_results
  pub volumes : AreMounted mounted s
  pub modules : pulled.fetched ≡ ok (ok s.run_context.modules)
