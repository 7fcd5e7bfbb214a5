-- ===== src/ContainerStates/Paths.antt =====
-- Which directories a container gets.
use krustlet.Prelude.{
  String, Option, some, List, [], ◌∷◌, if◌then◌else◌, ◌==◌, nat_eq, string_eq, ok, err,
}
use krustlet.Prelude.Dict.{Dict}
use krustlet.States.{Volumes}
use krustlet.ContainerStates.{VolumeMount, guest_path, host_path_of}

-- What the last mount of a host path says, starting from what is known.
abbrev pub last_guest :
    String → String → Volumes → List VolumeMount → Option (Option String) → Option (Option String)
last_guest p container_name volumes [] o = o
last_guest p container_name volumes (vm ∷ mounts) o =
    last_guest p container_name volumes mounts (elim (host_path_of container_name volumes vm) [
      | err e ↦ o
      | ok host_path ↦ if host_path == p then some (some (guest_path vm)) else o
    ])
