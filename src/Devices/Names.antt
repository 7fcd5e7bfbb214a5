-- ===== src/Devices/Names.antt =====
-- crates/kubelet/src/resources/util/mod.rs: the names of extended resources. What the two regular
-- expressions match is a parameter.
pub mod Extended
use krustlet.Prelude.{
  ℕ, zero, suc, ◌+◌, ◌-◌, ◌*◌, ◌≤◌, ◌<◌, min, String, ◌<>◌, ◌≡◌, refl, sym, ap, subst, ◌∙◌, ◌≢◌,
  ◌↔◌, ◌⊎◌, inl, inr, Bool, true, false, not, ◌&&◌, ◌||◌, Option, none, some, List, [], ◌∷◌, ◌++◌,
  map, arith, ltb, leb, if◌then◌else◌, Bool-cases, Option-cases, Result-cases, List-cases,
  some-injective, ok-injective, Eq, ◌==◌, nat_eq, string_eq, str_eq_iff, ==_refl, ==_ne, contains,
  length, get_elem?, take, length-append, keep_if, find, Result, ok, err, ◌>>=◌, ◌>>◌, Panic,
  overflow, nothing, bind-eq-ok, All,
}
use krustlet.Prelude.Dict.{
  Dict, keys, values, lookup, insert, remove, contains_key, extend, NodupKeys, lookup-nil,
  lookup-cons, lookup-insert, lookup-remove, lookup-extend,
}
use text.Mathlib.Text.{starts_with, find?}
use Prim.Native.String.{len}
use krustlet.Prelude.Text.{has_char, split}

-- Whether a text matches QUALIFIED_NAME_FMT or DNS_1123_SUBDOMAIN_FMT as a whole.
pub record Formats : Type 0 where
  pub is_qualified : String → Bool
  pub is_subdomain : String → Bool

abbrev pub is_found : Option ℕ → Bool
is_found none = false
is_found (some i) = true

unfoldable pub is_native_resource : String → Bool
is_native_resource name = not (has_char b'/' name) || is_found (find? name "kubernetes.io/")

unfoldable pub is_dns_1123_subdomain : Formats → String → Result String (Unit {0})
is_dns_1123_subdomain formats value =
    if ltb 253 (len value)
    then err "DNS subdomain cannot be more than 253 characters"
    else if not (formats.is_subdomain value)
    then err "dns subdomain not properly formatted"
    else ok tt

unfoldable pub check_name : Formats → String → Result String (Unit {0})
check_name formats name =
    if ltb 63 (len name)
    then err "expected qualified name to be no longer than 63 characters"
    else if not (formats.is_qualified name)
    then err "qualified name not properly formatted"
    else ok tt

-- By the parts between the slashes.
unfoldable pub check_parts : Formats → List String → Result String (Unit {0})
check_parts formats (name ∷ []) = check_name formats name
check_parts formats (prefix ∷ (name ∷ [])) =
    if prefix == ""
    then err "prefix part must not be empty"
    else is_dns_1123_subdomain formats prefix >> check_name formats name
check_parts formats _ =
    err "a qualified name was expected with an optional DNS subdomain prefix and '/'"

unfoldable pub is_qualified_name : Formats → String → Result String (Unit {0})
is_qualified_name formats name = check_parts formats (split b'/' name)

unfoldable pub is_extended_resource_name : Formats → String → Bool
is_extended_resource_name formats name =
    if is_native_resource name || starts_with name "requests."
    then false
    else elim (is_qualified_name formats ("requests." <> name)) [ ok _ ↦ true | err e ↦ false ]
