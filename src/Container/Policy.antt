-- ===== src/Container/Policy.antt =====
-- The pull policy that a container comes to.
use krustlet.Container.{
  PullPolicy, always, if_not_present, never, parse_str, parse, default_policy, parse_effective,
}
use krustlet.Reference.{Reference}
use krustlet.Prelude.{
  String, Option, none, some, ok, ◌≡◌, ◌↔◌, ◌⊎◌, string_eq, str_eq_iff, arith, Option-cases, ◌≢◌,
  Result, refl, Bool-cases, ◌==◌,
}

-- `Display`'s names are those of the Kubernetes API.
abbrev pub policy_name : PullPolicy → String
policy_name always = "Always"
policy_name if_not_present = "IfNotPresent"
policy_name never = "Never"

-- The three names differ.
names-distinct :
    (policy_name always ≢ "IfNotPresent")
    × (policy_name always ≢ "Never")
    × (policy_name if_not_present ≢ "Never")
names-distinct = (
  λ h. ground (arith, (str_eq_iff "Always" "IfNotPresent").1 h),
  λ h. ground (arith, (str_eq_iff "Always" "Never").1 h),
  λ h. ground (arith, (str_eq_iff "IfNotPresent" "Never").1 h),
)

parse_effective-written :
    (s : String) (image : Option Reference) (p : PullPolicy)
    → (parse_effective (some s) image ≡ ok p) ↔ (s ≡ policy_name p)
unfolding parse_effective parse parse_str
parse_effective-written s image always = ground (
  arith,
  str_eq_iff s "Always",
  str_eq_iff s "IfNotPresent",
  str_eq_iff s "Never",
  names-distinct,
)
parse_effective-written s image if_not_present = ground (
  arith,
  str_eq_iff s "Always",
  str_eq_iff s "IfNotPresent",
  str_eq_iff s "Never",
  names-distinct,
)
parse_effective-written s image never = ground (
  arith,
  str_eq_iff s "Always",
  str_eq_iff s "IfNotPresent",
  str_eq_iff s "Never",
  names-distinct,
)

default_policy-always :
    (t : Option String) → (default_policy t ≡ always) ↔ ((t ≡ none) ⊎ (t ≡ some "latest"))
unfolding default_policy
default_policy-always none = ground arith
default_policy-always (some s) = ground (arith, str_eq_iff s "latest")

parse_effective-never : (image : Option Reference) → ¬ (parse_effective none image ≡ ok never)
unfolding parse_effective parse default_policy
parse_effective-never none h = ground (arith, h)
parse_effective-never (some r) h = ground (arith, h, Option-cases r.tag)

parse_effective-tagged :
    (t : Option String) (p : PullPolicy)
    → (◌≡◌ {A = Result String PullPolicy} (ok (default_policy t)) (ok p)) ↔ (
        ((p ≡ always) × ((t ≡ none) ⊎ (t ≡ some "latest")))
        ⊎ ((p ≡ if_not_present) × ((t ≢ none) × (t ≢ some "latest"))))
unfolding default_policy
parse_effective-tagged none p = ground arith
parse_effective-tagged (some s) p =
    ground (arith, str_eq_iff s "latest", Bool-cases (s == "latest"))

-- A policy that is written must be the name of the policy used, whatever the image. Without one, an
-- image with the tag `latest` or with none is always pulled, and an image with another tag, or no
-- image, only where it is not present.
pub parse_effective-policy_name :
    ((s : String) (image : Option Reference) (p : PullPolicy)
      → (parse_effective (some s) image ≡ ok p) ↔ (s ≡ policy_name p))
    × ((r : Reference) (p : PullPolicy)
        → (parse_effective none (some r) ≡ ok p) ↔ (
            ((p ≡ always) × ((r.tag ≡ none) ⊎ (r.tag ≡ some "latest")))
            ⊎ ((p ≡ if_not_present) × ((r.tag ≢ none) × (r.tag ≢ some "latest")))))
    × (parse_effective none none ≡ ok if_not_present)
unfolding parse_effective parse
parse_effective-policy_name = (parse_effective-written, λ r p. parse_effective-tagged r.tag p, refl)
