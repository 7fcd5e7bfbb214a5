-- ===== src/Tests/Resources.antt =====
-- Runs of the theorems on the node's resources.
use krustlet.Prelude.{String, ◌≡◌, ◌↔◌, true, [], ◌∷◌, ◌==◌, nat_eq, string_eq}
use krustlet.Devices.Types.{DeviceMap}
use krustlet.Devices.NodePatcher.Applied.{NodeStatus}
use krustlet.Devices.Names.{Formats, is_extended_resource_name}
use krustlet.Devices.Names.Extended.{IsExtended, is_extended_resource_name-IsExtended}

abbrev device_map : DeviceMap
device_map =
    (
      "example.com/gpu",
      ("d1", record { id = "d1"; health = "Healthy" })
          ∷ (("d2", record { id = "d2"; health = "Unhealthy" }) ∷ []),
    )
    ∷ []

abbrev status : NodeStatus
status = record { capacity = ("cpu", 4) ∷ []; allocatable = ("cpu", 4) ∷ [] }

-- Expressions that match these two texts.
abbrev formats : Formats
formats = record { is_qualified = λ s. s == "gpu"; is_subdomain = λ s. s == "requests.example.com" }

is_extended_resource_name-IsExtended_example :
    (is_extended_resource_name formats "example.com/gpu" ≡ true) ↔ (
      (domain : String) × (resource : String) × IsExtended formats "example.com/gpu" domain
        resource)
is_extended_resource_name-IsExtended_example =
    is_extended_resource_name-IsExtended formats "example.com/gpu"
