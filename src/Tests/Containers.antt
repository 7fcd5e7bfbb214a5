-- ===== src/Tests/Containers.antt =====
-- Runs of the theorems on the states of a container.
use krustlet.Prelude.{String, Option, none, some, List, [], ◌∷◌, nat_eq, string_eq, ok, false}
use krustlet.Prelude.Dict.{Dict}
use krustlet.Volume.{host_path}
use krustlet.Container.{app, terminated}
use krustlet.States.{Volumes}
use krustlet.ContainerStates.{VolumeMount, Container, Runtime, Shared, Context}

-- One volume at two places.
abbrev two_mounts : List VolumeMount
two_mounts =
    record { name = "data"; mount_path = "/a"; sub_path = none }
    ∷ (record { name = "data"; mount_path = "/b"; sub_path = some "c" } ∷ [])

abbrev container : Container
container = record { name = "main"; volume_mounts = some two_mounts; args = none }

abbrev volumes : Volumes
volumes = ("data", host_path (record { host_path = "/data" })) ∷ []

abbrev dirs : Dict String (Option String)
dirs = ("/data", some "/b/c") ∷ []

abbrev context : Context
context = record { pod_name = "p"; namespace = "default"; container_key = app "main"; pod_env = [] }

abbrev runtime : Runtime
runtime = record {
  created = λ given. ok tt;
  started = λ given. ok "handle";
  updates = λ given. terminated 5 "done" false ∷ [];
}

abbrev shared : Shared
shared = record {
  run_context = record { modules = ("main", 0 ∷ []) ∷ []; volumes = volumes; env_vars = [] };
  handles = [];
}
