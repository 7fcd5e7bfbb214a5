-- ===== src/Devices/Names/Extended.antt =====
-- What the name of an extended resource is made of.
use krustlet.Prelude.{
  ℕ, ◌≤◌, String, ◌<>◌, ◌≡◌, refl, sym, ap, subst, ◌∙◌, ◌↔◌, inl, inr, true, false, ◌||◌, none, [],
  ◌∷◌, arith, Option-cases, Result-cases, List-cases, ◌==◌, nat_eq, string_eq, str_eq_iff, ==_ne,
  ok, ◌>>◌,
}
use text.Mathlib.Text.{starts_with, find?}
use text.Mathlib.TextLemmas.{append_assoc, cons-append, nil-append, append-eq-nil_iff}
use Prim.Native.String.{len}
use krustlet.Prelude.Text.{
  has_char, split, split_once, split_once-some, split-append, split-single, split-nonempty,
}
use krustlet.Prelude.{then-eq-ok}
use krustlet.Devices.Names.{
  Formats, is_found, is_native_resource, is_dns_1123_subdomain, check_name, check_parts,
  is_qualified_name, is_extended_resource_name,
}

-- A name in the domain of a vendor.
pub record IsExtended (formats : Formats) (name domain resource : String) : Type 0 where
  pub name_is : name ≡ domain <> String.◌∷◌ "/" resource
  pub domain_plain : has_char b'/' domain ≡ false
  pub resource_plain : has_char b'/' resource ≡ false
  pub not_native : is_found (find? name "kubernetes.io/") ≡ false
  pub not_requests : starts_with name "requests." ≡ false
  pub domain_length : len ("requests." <> domain) ≤ 253
  pub domain_format : formats.is_subdomain ("requests." <> domain) ≡ true
  pub resource_length : len resource ≤ 63
  pub resource_format : formats.is_qualified resource ≡ true

has_char-append : (c : ℕ) (s t : String) → has_char c (s <> t) ≡ (has_char c s || has_char c t)
unfolding has_char
has_char-append c String.[] t = rw (nil-append t) refl
has_char-append c (String.◌∷◌ d s) t =
    rw (cons-append d s t) (ground (arith, has_char-append c s t))

split_once-has_char : (c : ℕ) (s : String) → split_once c s ≡ none → has_char c s ≡ false
unfolding split_once has_char
split_once-has_char c String.[] h = refl
split_once-has_char c (String.◌∷◌ d s) h =
    ground (arith, h, split_once-has_char c s, Option-cases (split_once c s))

is_dns_1123_subdomain-ok :
    (formats : Formats) (value : String)
    → (is_dns_1123_subdomain formats value ≡ ok tt)
      ↔ ((len value ≤ 253) × (formats.is_subdomain value ≡ true))
unfolding is_dns_1123_subdomain
is_dns_1123_subdomain-ok formats value = ground arith

check_name-ok :
    (formats : Formats) (name : String)
    → (check_name formats name ≡ ok tt) ↔ ((len name ≤ 63) × (formats.is_qualified name ≡ true))
unfolding check_name
check_name-ok formats name = ground arith

prefix_nonempty : (s : String) → ("requests." <> s == "") ≡ false
prefix_nonempty s = ==_ne ("requests." <> s) "" (λ h.
    let empty : "requests." ≡ "" = (append-eq-nil_iff.0 h).0 in
    ground (arith, (str_eq_iff "requests." "").1 empty))

split_requests :
    (domain resource : String)
    → has_char b'/' domain ≡ false
    → split b'/' ("requests." <> (domain <> String.◌∷◌ "/" resource))
      ≡ ("requests." <> domain) ∷ split b'/' resource
unfolding has_char
split_requests domain resource plain =
    ap (split b'/') (sym (append_assoc "requests." domain (String.◌∷◌ "/" resource)))
    ∙ split-append "/" ("requests." <> domain) resource
        (has_char-append b'/' "requests." domain ∙ plain)

-- Two parts, the second one without a slash.
check_parts-ok :
    (formats : Formats) (domain resource : String)
    → check_parts formats (("requests." <> domain) ∷ split b'/' resource) ≡ ok tt
    → (has_char b'/' resource ≡ false)
      × (is_dns_1123_subdomain formats ("requests." <> domain) ≡ ok tt)
      × (check_name formats resource ≡ ok tt)
unfolding check_parts
check_parts-ok formats domain resource h = elim (List-cases (split b'/' resource)) [
  | inl q ↦ absurd (split-nonempty b'/' resource q)
  | inr (x, rest, q) ↦ elim (List-cases rest) [
    | inr (y, more, q') ↦ absurd (ground (arith, q, q', h))
    | inl q' ↦
        let (x_is, plain) = split-single b'/' resource x (q ∙ ap (λ ys. x ∷ ys) q') in
        let both : (is_dns_1123_subdomain formats ("requests." <> domain) >> check_name formats x)
            ≡ ok tt =
          ground (arith, q, q', h, prefix_nonempty domain) in
        let (first, second) =
          then-eq-ok (is_dns_1123_subdomain formats ("requests." <> domain)) both in
        (plain, first, subst (λ z. check_name formats z ≡ ok tt) x_is second)
  ]
]

split-plain : (c : ℕ) (s : String) → has_char c s ≡ false → split c s ≡ s ∷ []
unfolding split has_char
split-plain c String.[] h = refl
split-plain c (String.◌∷◌ d s) h = ground (arith, h, split-plain c s)

is_extended_resource_name-parts :
    (formats : Formats) (name : String)
    → is_extended_resource_name formats name ≡ true
    → (domain : String) × (resource : String) × IsExtended formats name domain resource
unfolding is_extended_resource_name is_native_resource is_qualified_name
is_extended_resource_name-parts formats name h =
    let slashed : has_char b'/' name ≡ true = ground (arith, h) in
    let not_found : is_found (find? name "kubernetes.io/") ≡ false = ground (arith, h) in
    let not_started : starts_with name "requests." ≡ false = ground (arith, h) in
    elim (Option-cases (split_once b'/' name)) [
      | inl q ↦ absurd (ground (arith, slashed, split_once-has_char b'/' name q))
      | inr (pair, q) ↦
          let (whole, plain) = split_once-some "/" name pair.0 pair.1 q in
          elim (Result-cases (check_parts formats (split b'/' ("requests." <> name)))) [
            | inr (e, q') ↦ absurd (ground (arith, slashed, not_found, not_started, q', h))
            | inl (_, q') ↦
                let parts : check_parts formats (("requests." <> pair.0) ∷ split b'/' pair.1)
                    ≡ ok tt =
                  ap (check_parts formats) (
                    sym (split_requests pair.0 pair.1 plain)
                    ∙ ap (λ n. split b'/' ("requests." <> n)) (sym whole))
                  ∙ q' in
                let (resource_plain, domain_ok, resource_ok) =
                  check_parts-ok formats pair.0 pair.1 parts in
                let (domain_length, domain_format) =
                  (is_dns_1123_subdomain-ok formats ("requests." <> pair.0)).0 domain_ok in
                let (resource_length, resource_format) =
                  (check_name-ok formats pair.1).0 resource_ok in
                (
                  pair.0,
                  pair.1,
                  record {
                    name_is = whole;
                    domain_plain = plain;
                    resource_plain = resource_plain;
                    not_native = not_found;
                    not_requests = not_started;
                    domain_length = domain_length;
                    domain_format = domain_format;
                    resource_length = resource_length;
                    resource_format = resource_format;
                  },
                )
          ]
    ]

IsExtended-is_extended_resource_name :
    (formats : Formats) (name domain resource : String)
    → IsExtended formats name domain resource
    → is_extended_resource_name formats name ≡ true
unfolding is_extended_resource_name is_native_resource is_qualified_name check_parts has_char
IsExtended-is_extended_resource_name formats name domain resource x =
    let slashed : has_char b'/' name ≡ true =
      ap (has_char b'/') x.name_is
      ∙ has_char-append b'/' domain (String.◌∷◌ "/" resource)
      ∙ ground (arith, x.domain_plain) in
    let parts : split b'/' ("requests." <> name) ≡ ("requests." <> domain) ∷ (resource ∷ []) =
      ap (λ n. split b'/' ("requests." <> n)) x.name_is
      ∙ split_requests domain resource x.domain_plain
      ∙ ap (λ ys. ("requests." <> domain) ∷ ys) (split-plain b'/' resource x.resource_plain) in
    let first : is_dns_1123_subdomain formats ("requests." <> domain) ≡ ok tt =
      (is_dns_1123_subdomain-ok formats ("requests." <> domain)).1
        (x.domain_length, x.domain_format) in
    let second : check_name formats resource ≡ ok tt =
      (check_name-ok formats resource).1 (x.resource_length, x.resource_format) in
    ground
      (arith, slashed, x.not_native, x.not_requests, parts, prefix_nonempty domain, first, second)

-- A name is taken for that of an extended resource exactly if it is a domain, a slash and a resource,
-- with no other slash, does not mention `kubernetes.io/` and does not start with `requests.`, the
-- domain after `requests.` being a subdomain of at most 253 bytes and the resource a qualified name of
-- at most 63 bytes.
pub is_extended_resource_name-IsExtended :
    (formats : Formats) (name : String)
    → (is_extended_resource_name formats name ≡ true)
      ↔ ((domain : String) × (resource : String) × IsExtended formats name domain resource)
is_extended_resource_name-IsExtended formats name = (
  is_extended_resource_name-parts formats name,
  λ (domain, resource, x). IsExtended-is_extended_resource_name formats name domain resource x,
)
