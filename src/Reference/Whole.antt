-- ===== src/Reference/Whole.antt =====
-- What a reference is parsed from is what it prints.
use text.Mathlib.TextLemmas.{append-nil, append_assoc, append-eq-nil_iff}
use Prim.Native.String.{len, slice}
use krustlet.Prelude.{
  ◌≤◌, String, ◌<>◌, false, Option, none, some, ◌≡◌, ◌≢◌, refl, ◌∙◌, sym, ap, ◌⊎◌, inl, inr, ok,
  ◌==◌, nat_eq, string_eq, ltb, if◌then◌else◌, str_eq_iff, arith, Bool-cases, Option-cases,
}
use krustlet.Reference.{
  Captures, push_part, full_name, reference_of, split_domain, split_captures, try_from, whole,
  Reference, name_total_length_max, check_digest,
}

abbrev pub suffix : String → Option String → String
suffix mark none = ""
suffix mark (some part) = mark <> part

-- The groups of the reference expression follow one another, and the name is never empty.
pub record IsReferenceRegexp (captures : String → Option Captures) : Type 0 where
  pub covers :
      (s : String) (c : Captures)
      → captures s ≡ some c
      → s ≡ (c.name <> suffix ":" c.tag) <> suffix "@" c.digest
  pub named : (s : String) (c : Captures) → captures s ≡ some c → c.name ≢ ""

abbrev pub domain_part : Option String → String → String
domain_part none rest = rest
domain_part (some domain) rest = domain <> ("/" <> rest)

-- A name is its domain, if it has one, a slash and the rest; a domain is never empty.
pub record IsNameRegexp (captures : String → Option (Option String × Option String)) : Type 0 where
  pub covers :
      (n : String) (domain : Option String) (rest : String)
      → captures n ≡ some (domain, some rest)
      → n ≡ domain_part domain rest
  pub nonempty :
      (n domain : String) (rest : Option String)
      → captures n ≡ some (some domain, rest)
      → domain ≢ ""

push_part-suffix :
    (mark s : String) (part : Option String)
    → s ≢ ""
    → push_part mark s part ≡ s <> suffix mark part
unfolding push_part
push_part-suffix mark s none h = sym (append-nil s)
push_part-suffix mark s (some part) h = elim (Bool-cases (s == "")) [
  | inl e ↦ absurd (h ((str_eq_iff s "").0 e))
  | inr e ↦ rw e (append_assoc s mark part)
]

append-ne_nil : (s t : String) → s ≢ "" → s <> t ≢ ""
append-ne_nil s t h e = h ((append-eq-nil_iff {p = s} {q = t}).0 e).0

module _ (reference_captures : String → Option Captures)
    (name_captures : String → Option (Option String × Option String)) where
  -- What stands behind an accepted reference.
  pub accepted :
      (s : String) (r : Reference)
      → try_from reference_captures name_captures s ≡ ok r
      → (c : Captures) × (reference_captures s ≡ some c)
        × (reference_of reference_captures name_captures c ≡ r)
        × (ltb name_total_length_max (len r.repository) ≡ false)
        × (check_digest r.digest ≡ ok tt)
  unfolding try_from
  accepted s r e = elim (Option-cases (reference_captures s)) [
    | inl missed ↦ absurd (ground (arith, e, missed))
    | inr (c, found) ↦
        (c, found, ground (arith, e, found), ground (arith, e, found), ground (arith, e, found))
  ]

module _ (reference_captures : String → Option Captures)
    (name_captures : String → Option (Option String × Option String))
    (reference_regexp : IsReferenceRegexp reference_captures)
    (name_regexp : IsNameRegexp name_captures) where
  abbrev joined : String × String → String
  joined (registry, repository) =
      if registry == "" then repository else registry <> ("/" <> repository)

  joined-split_captures :
      (n : String) (o : Option (Option String × Option String))
      → name_captures n ≡ o
      → joined (split_captures n o) ≡ n
  unfolding split_captures
  joined-split_captures n none e = refl
  joined-split_captures n (some (domain, none)) e = refl
  joined-split_captures n (some (none, some rest)) e = sym (name_regexp.covers n none rest e)
  joined-split_captures n (some (some domain, some rest)) e = ground (
    arith,
    str_eq_iff domain "",
    name_regexp.nonempty n domain (some rest) e,
    name_regexp.covers n (some domain) rest e,
  )

  full_name-reference_of :
      (c : Captures) → full_name (reference_of reference_captures name_captures c) ≡ c.name
  unfolding full_name reference_of split_domain
  full_name-reference_of c = joined-split_captures c.name (name_captures c.name) refl

  printed :
      (c : Captures)
      → whole (reference_of reference_captures name_captures c)
        ≡ push_part "@" (push_part ":" c.name c.tag) c.digest
  unfolding whole reference_of
  printed c = rw (full_name-reference_of c)

  -- Where the captures of the two expressions cover what they match, with a name and a domain that
  -- are not empty, every text that parses as a reference is what the reference prints.
  pub whole-try_from :
      (s : String) (r : Reference)
      → try_from reference_captures name_captures s ≡ ok r
      → whole r ≡ s
  whole-try_from s r e =
      let (c, found, same, _, _) = accepted reference_captures name_captures s r e in
      let named : c.name ≢ "" = reference_regexp.named s c found in
      let tagged : push_part ":" c.name c.tag ≡ c.name <> suffix ":" c.tag =
        push_part-suffix ":" c.name c.tag named in
      ap whole (sym same)
      ∙ printed c
      ∙ ap (λ (t : String). push_part "@" t c.digest) tagged
      ∙ push_part-suffix "@" (c.name <> suffix ":" c.tag) c.digest
          (append-ne_nil c.name (suffix ":" c.tag) named)
      ∙ sym (reference_regexp.covers s c found)

-- A digest that names one of the three algorithms and has as many hexadecimal digits as its hash.
abbrev pub IsDigest : Option String → Type 0
IsDigest none = Unit
IsDigest (some d) =
    ((slice d 0 6 ≡ "sha256") × (len d ≡ 71))
    ⊎ (((slice d 0 6 ≡ "sha384") × (len d ≡ 103)) ⊎ ((slice d 0 6 ≡ "sha512") × (len d ≡ 135)))

check_digest-IsDigest : (d : Option String) → check_digest d ≡ ok tt → IsDigest d
unfolding check_digest
check_digest-IsDigest none e = tt
check_digest-IsDigest (some d) e = ground (
  arith,
  e,
  str_eq_iff (slice d 0 6) "sha256",
  str_eq_iff (slice d 0 6) "sha384",
  str_eq_iff (slice d 0 6) "sha512",
)

-- Whatever the expressions capture, an accepted reference has a repository of at most 255 bytes, and
-- no digest or one of an algorithm that is supported, with the length of that algorithm's hash.
pub try_from-IsDigest :
    (reference_captures : String → Option Captures)
    (name_captures : String → Option (Option String × Option String)) (s : String) (r : Reference)
    → try_from reference_captures name_captures s ≡ ok r
    → (len r.repository ≤ 255) × IsDigest r.digest
try_from-IsDigest reference_captures name_captures s r e =
    let (_, _, _, short, checked) = accepted reference_captures name_captures s r e in
    (ground (arith, short), check_digest-IsDigest r.digest checked)
