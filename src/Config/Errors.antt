-- ===== src/Config/Errors.antt =====
-- Which errors `build` returns.
use krustlet.Prelude.{String, ◌≡◌, ◌⊎◌, Option, some, nat_eq, string_eq, Result, ok, err}
use krustlet.Config.{
  IpAddr, ConfigBuilder, ConfigBuilderFallbacks, Failure, invalid_config_value_error,
}

-- The error of a value that was present and did not parse, by its name.
abbrev Fault {ℓ} : {A : Type ℓ} → String → Option (Result String A) → Failure → Type ℓ
Fault {A = A} name o f =
    (e : String) × (◌≡◌ {A = Option (Result String A)} o (some (err e)))
    × (f ≡ invalid_config_value_error name e)

-- The error of one of the four values that can be present and bad.
abbrev pub HasFault : ConfigBuilder → Failure → Type 0
HasFault b f =
    Fault "server address" b.server_addr f
    ⊎ Fault "server port" b.server_port f
    ⊎ Fault "node IP" b.node_ip f
    ⊎ Fault "maximum pods" b.max_pods f

-- How a value that may be bad turns out.
abbrev pub Checked {ℓ} : {A : Type ℓ} → Result Failure A → (Failure → Type 0) → Type ℓ
Checked {A = A} r HasIt =
    ((a : A) × (r ≡ ok a) × ((f : Failure) → ¬ HasIt f)) ⊎ ((f : Failure) × (r ≡ err f) × HasIt f)

-- Fallbacks that do not panic.
pub record AreTotal (fallbacks : ConfigBuilderFallbacks) : Type 0 where
  pub hostname : (s : String) × (fallbacks.hostname ≡ ok s)
  pub data_dir : (s : String) × (fallbacks.data_dir ≡ ok s)
  pub node_ip : (s : String) (ip : IpAddr) → (a : IpAddr) × (fallbacks.node_ip s ip ≡ ok a)
