-- ===== src/Container.antt =====
-- crates/kubelet/src/container/mod.rs and status.rs: container keys, pull policies, maps by name, and
-- the status that is reported for a container. The getters of `Container` are the fields of
-- `KubeContainer`.
pub mod Policy
pub mod Keys
use krustlet.Prelude.{
  ℕ, String, Bool, true, false, Option, none, some, List, Result, ok, err, ◌>>=◌, ◌==◌, string_eq,
  if◌then◌else◌, Eq, ◌↔◌, ◌≡◌, arith, str_eq_iff, ◌||◌,
}
use krustlet.Prelude.Dict.{Dict, lookup, insert, contains_key}
use krustlet.Reference.{Reference}

pub data PullPolicy : Type 0 where
  always if_not_present never : PullPolicy

-- The error names the policy that is not recognised.
unfoldable pub parse_str : String → Result String (Option PullPolicy)
parse_str name =
    if name == "Always"
    then ok (some always)
    else if name == "IfNotPresent"
    then ok (some if_not_present)
    else if name == "Never"
    then ok (some never)
    else err name

unfoldable pub parse : Option String → Result String (Option PullPolicy)
parse none = ok none
parse (some s) = parse_str s

-- `Some("latest") | None => Always, _ => IfNotPresent`
unfoldable pub default_policy : Option String → PullPolicy
default_policy none = always
default_policy (some tag) = if tag == "latest" then always else if_not_present

unfoldable pub parse_effective : Option String → Option Reference → Result String PullPolicy
parse_effective policy image = do
  parsed ← parse policy
  elim parsed [
    | some p ↦ ok p
    | none ↦ elim image [ some r ↦ ok (default_policy r.tag) | none ↦ ok if_not_present ]
  ]

pub data ContainerKey : Type 0 where
  init : String → ContainerKey
  app : String → ContainerKey

unfoldable pub key_name : ContainerKey → String
key_name (init name) = name
key_name (app name) = name

unfoldable pub is_app : ContainerKey → Bool
is_app (init _) = false
is_app (app _) = true

unfoldable pub is_init : ContainerKey → Bool
is_init (init _) = true
is_init (app _) = false

abbrev key_eqb : ContainerKey → ContainerKey → Bool
key_eqb (init a) (init b) = a == b
key_eqb (app a) (app b) = a == b
key_eqb (init _) (app _) = false
key_eqb (app _) (init _) = false

pub key_eqb_iff : (a b : ContainerKey) → (key_eqb a b ≡ true) ↔ (a ≡ b)
key_eqb_iff (init a) (init b) = ground (arith, str_eq_iff a b)
key_eqb_iff (app a) (app b) = ground (arith, str_eq_iff a b)
key_eqb_iff (init _) (app _) = ground arith
key_eqb_iff (app _) (init _) = ground arith

instance abbrev pub key_eq : Eq ContainerKey
key_eq = record { eqb = key_eqb; eqb_iff = key_eqb_iff }

abbrev pub ContainerMap : Type 0 → Type 0
ContainerMap V = Dict ContainerKey V

module _ {V : Type 0} where
  -- `get_mut_by_name`: the value that the caller may change, and the key that it stands under.
  unfoldable pub get_mut_by_name : String → ContainerMap V → Option (ContainerKey × V)
  get_mut_by_name name m = elim (lookup (app name) m) [
    | some v ↦ some (app name, v)
    | none ↦ elim (lookup (init name) m) [ some v ↦ some (init name, v) | none ↦ none ]
  ]

  unfoldable pub contains_key_name : String → ContainerMap V → Bool
  contains_key_name name m = contains_key (app name) m || contains_key (init name) m

abbrev pub Time : Type 0
Time = ℕ

-- `timestamp` is the clock's answer when the status is made.
pub data Status : Type 0 where
  waiting : Time → String → Status
  running : Time → Status
  terminated : Time → String → Bool → Status

pub record ContainerStateWaiting : Type 0 where
  pub message : Option String
  pub reason : Option String

pub record ContainerStateTerminated : Type 0 where
  pub exit_code : ℕ
  pub finished_at : Option Time
  pub message : Option String

pub record ContainerState : Type 0 where
  pub waiting_state : Option ContainerStateWaiting
  pub running_state : Option Time
  pub terminated_state : Option ContainerStateTerminated

abbrev pub no_state : ContainerState
no_state = record { waiting_state = none; running_state = none; terminated_state = none }

pub record KubeContainerStatus : Type 0 where
  pub name : String
  pub ready : Bool
  pub started : Option Bool
  pub state : Option ContainerState

unfoldable pub state_of : Status → ContainerState
state_of (waiting t message) = record no_state {
  waiting_state = some (record { message = some message; reason = none });
}
state_of (running t) = record no_state { running_state = some t }
state_of (terminated t message failed) = record no_state {
  terminated_state = some (record {
    exit_code = if failed then 1 else 0;
    finished_at = some t;
    message = some message;
  });
}

unfoldable pub to_kubernetes : Status → String → KubeContainerStatus
to_kubernetes status container_name =
    let state = state_of status in
    record {
      name = container_name;
      ready = elim state.running_state [ none ↦ false | some _ ↦ true ];
      started = some true;
      state = some state;
    }

unfoldable pub make_initial_container_status : String → KubeContainerStatus
make_initial_container_status name = record {
  name = name;
  ready = false;
  started = some false;
  state = some (record no_state {
    waiting_state = some (record { message = some "Registered"; reason = some "Registered" });
  });
}
