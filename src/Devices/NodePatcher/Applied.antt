-- ===== src/Devices/NodePatcher/Applied.antt =====
-- The patch, against what the standards of JSON pointers and patches make of it.
use krustlet.Prelude.{
  ℕ, ◌≤◌, String, ◌≡◌, Bool, true, false, Option, none, some, List, [], ◌∷◌, if◌then◌else◌, ◌==◌,
  nat_eq, string_eq, length,
}
use krustlet.Prelude.Dict.{Dict, insert}
use Prim.Native.Char.{code}
use krustlet.Prelude.Text.{has_char, split}
use krustlet.Devices.Types.{PluginDevicesMap, DeviceMap}
use krustlet.Devices.NodePatcher.{AddOperation, count_healthy}

-- A reference token of a JSON pointer, read; the flag says that a tilde stands before.
unfoldable pub decode : Bool → String → String
decode false String.[] = String.[]
decode true String.[] = "~"
decode false (String.◌∷◌ c s) =
    let plain = decode false s in
    let escaped = decode true s in if code c == b'~' then escaped else String.◌∷◌ c plain
decode true (String.◌∷◌ c s) =
    let rest = decode false s in
    if code c == b'1'
    then String.◌∷◌ "/" rest
    else if code c == b'0'
    then String.◌∷◌ "~" rest
    else String.◌∷◌ "~" (String.◌∷◌ c rest)

-- The parts of a node's status that the patch is about.
pub record NodeStatus : Type 0 where
  pub capacity : Dict String ℕ
  pub allocatable : Dict String ℕ

-- An addition, by the tokens of its path.
unfoldable pub add_at : List String → ℕ → NodeStatus → NodeStatus
add_at (root ∷ (status ∷ (kind ∷ (token ∷ [])))) value s =
    if kind == "capacity"
    then record s { capacity = insert (decode false token) value s.capacity }
    else if kind == "allocatable"
    then record s { allocatable = insert (decode false token) value s.allocatable }
    else s
add_at _ value s = s

unfoldable pub apply : List AddOperation → NodeStatus → NodeStatus
apply [] s = s
apply (operation ∷ operations) s =
    apply operations (add_at (split b'/' operation.path) operation.value s)

-- The names of resources: no tilde, as in every qualified name.
abbrev pub ArePlain : DeviceMap → Type 0
ArePlain [] = Unit
ArePlain ((name, devices) ∷ rest) = (has_char b'~' name ≡ false) × ArePlain rest

-- A status with the two entries of a resource.
abbrev with_entries : String → ℕ → ℕ → NodeStatus → NodeStatus
with_entries name capacity allocatable s = record {
  capacity = insert name capacity s.capacity;
  allocatable = insert name allocatable s.allocatable;
}

-- No more healthy devices than devices.
abbrev pub IsBounded : Option PluginDevicesMap → Type 0
IsBounded none = Unit
IsBounded (some ds) = count_healthy ds ≤ length ds
