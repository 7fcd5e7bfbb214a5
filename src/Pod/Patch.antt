-- ===== src/Pod/Patch.antt =====
-- Which status a patch of one container writes to.
use krustlet.Pod.{
  containers, init_containers, Pod, PodStatus, PatchOperation, replace_state, replace_ready,
  replace_started, add, find_index, find_container, container_status_index, patch_container_status,
  status_list, StatusList, init_container_statuses, container_statuses,
}
use krustlet.Container.{
  ContainerKey, init, app, Status, to_kubernetes, KubeContainerStatus, key_name, is_init,
}
use krustlet.Prelude.{
  some-injective, Option-cases, ◌⊎◌, subst, find, ℕ, zero, suc, ◌+◌, ◌<◌, ◌≡◌, none, some, List, [],
  ◌∷◌, get_elem?, String, true, ◌==◌, string_eq, arith, refl, Bool-cases, inl, inr, if◌then◌else◌,
  str_eq_iff, ◌≢◌,
}

-- The first status of the name stands at `idx`.
pub record IsFirst (name : String) (idx : ℕ) (statuses : List KubeContainerStatus) : Type 0 where
  pub status : KubeContainerStatus
  pub found : get_elem? statuses idx ≡ some status
  pub named : status.name ≡ name
  pub first :
      (i : ℕ) (other : KubeContainerStatus)
      → i < idx
      → get_elem? statuses i ≡ some other
      → other.name ≢ name

IsFirst-later :
    (name : String) (n : ℕ) (s : KubeContainerStatus) (statuses : List KubeContainerStatus)
    → s.name ≢ name
    → IsFirst name n statuses
    → IsFirst name (suc n) (s ∷ statuses)
IsFirst-later name n s statuses other f = record {
  status = f.status;
  found = f.found;
  named = f.named;
  first = IsFirst-other;
}
  where
    IsFirst-other :
        (i : ℕ) (o : KubeContainerStatus)
        → i < suc n
        → get_elem? (s ∷ statuses) i ≡ some o
        → o.name ≢ name
    IsFirst-other zero o l g =
        subst (λ (x : KubeContainerStatus). x.name ≢ name) (some-injective g) other
    IsFirst-other (suc i) o l g = f.first i o (omega (arith, l)) g

find_index-IsFirst :
    (name : String) (from idx : ℕ) (statuses : List KubeContainerStatus)
    → find_index name from statuses ≡ some idx
    → (n : ℕ) × (idx ≡ from + n) × IsFirst name n statuses
unfolding find_index
find_index-IsFirst name from idx [] h = absurd (ground (arith, h))
find_index-IsFirst name from idx (s ∷ statuses) h = elim (Bool-cases (s.name == name)) [
  | inl e ↦ (
    0,
    ground (arith, h, e),
    record {
      status = s;
      found = refl;
      named = (str_eq_iff s.name name).0 e;
      first = λ i other l g. absurd (omega (arith, l));
    },
  )
  | inr e ↦
      let (n, p, f) = find_index-IsFirst name (suc from) idx statuses (ground (arith, h, e)) in
      (
        suc n,
        omega (arith, p),
        IsFirst-later name n s statuses (λ q. ground (arith, e, (str_eq_iff s.name name).1 q)) f,
      )
]

-- None of the statuses has the name.
abbrev pub IsUnnamed : String → List KubeContainerStatus → Type 0
IsUnnamed name statuses =
    (i : ℕ) (s : KubeContainerStatus) → get_elem? statuses i ≡ some s → s.name ≢ name

IsUnnamed-cons :
    (name : String) (s : KubeContainerStatus) (statuses : List KubeContainerStatus)
    → s.name ≢ name
    → IsUnnamed name statuses
    → IsUnnamed name (s ∷ statuses)
IsUnnamed-cons name s statuses other u zero o g =
    subst (λ (x : KubeContainerStatus). x.name ≢ name) (some-injective g) other
IsUnnamed-cons name s statuses other u (suc i) o g = u i o g

find-name :
    (wanted : String) (names : List String) (name : String)
    → find (λ n. n == wanted) names ≡ some name
    → name ≡ wanted
unfolding find
find-name wanted [] name h = absurd (ground (arith, h))
find-name wanted (n ∷ names) name h = elim (Bool-cases (n == wanted)) [
  | inl e ↦ ground (arith, h, e, str_eq_iff n wanted)
  | inr e ↦ find-name wanted names name (ground (arith, h, e))
]

-- The list of a pod's status that has the container's status.
abbrev pub list_of : ContainerKey → StatusList
list_of (init name) = init_container_statuses
list_of (app name) = container_statuses

status_list-list_of : (key : ContainerKey) → status_list key ≡ list_of key
unfolding status_list is_init
status_list-list_of (init name) = refl
status_list-list_of (app name) = refl

-- The operations that replace the fields of the status at an index.
abbrev pub replacing : ContainerKey → ℕ → KubeContainerStatus → List PatchOperation
replacing key idx s =
    replace_state (list_of key) idx s.state
    ∷ replace_ready (list_of key) idx s.ready
    ∷ replace_started (list_of key) idx true
    ∷ []

find_index-IsUnnamed :
    (name : String) (from : ℕ) (statuses : List KubeContainerStatus)
    → find_index name from statuses ≡ none
    → IsUnnamed name statuses
unfolding find_index
find_index-IsUnnamed name from [] h = λ i s g. absurd (ground (arith, g))
find_index-IsUnnamed name from (s ∷ statuses) h = elim (Bool-cases (s.name == name)) [
  | inl e ↦ absurd (ground (arith, h, e))
  | inr e ↦
      IsUnnamed-cons name s statuses (λ q. ground (arith, e, (str_eq_iff s.name name).1 q))
        (find_index-IsUnnamed name (suc from) statuses (ground (arith, h, e)))
]

find_container-name :
    (pod : Pod) (key : ContainerKey) (name : String)
    → find_container pod key ≡ some name
    → name ≡ key_name key
unfolding find_container
find_container-name pod key name h =
    find-name (key_name key) (if is_init key then init_containers pod else containers pod) name h

-- For a container that the pod's spec lists, whose status list is there: either the patch replaces the
-- fields of the first status with the container's name, at its index in that list, or no status there
-- has the name, and the patch adds one that has it; it writes to the list of the init containers for
-- an init container and to that of the other containers for another one.
pub patch_container_status-IsFirst :
    (pod : Pod) (key : ContainerKey) (status : Status) (name : String) (pod_status : PodStatus)
    (statuses : List KubeContainerStatus)
    → find_container pod key ≡ some name
    → pod.status ≡ some pod_status
    → (if is_init key then pod_status.init_container_statuses else pod_status.container_statuses)
      ≡ some statuses
    → ((idx : ℕ) × IsFirst (key_name key) idx statuses
        × (patch_container_status pod key status
            ≡ some (replacing key idx (to_kubernetes status (key_name key)))))
      ⊎ (IsUnnamed (key_name key) statuses
          × (patch_container_status pod key status
              ≡ some (add (list_of key) (to_kubernetes status (key_name key)) ∷ [])))
unfolding patch_container_status container_status_index
patch_container_status-IsFirst pod key status name pod_status statuses f p l =
    elim (Option-cases (find_index (key_name key) 0 statuses)) [
      | inl n ↦ inr (
        find_index-IsUnnamed (key_name key) 0 statuses n,
        ground (arith, f, found, indexed, n, status_list-list_of key),
      )
      | inr (i, n) ↦
          let (idx, same, first) = find_index-IsFirst (key_name key) 0 i statuses n in
          inl (idx, first, ground (arith, f, found, indexed, n, same, status_list-list_of key))
    ]
  where
    found : name ≡ key_name key
    found = find_container-name pod key name f

    indexed : container_status_index pod key ≡ find_index (key_name key) 0 statuses
    indexed = rw (p, container_status_index) (rw l refl)
