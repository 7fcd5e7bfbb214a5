-- ===== src/Reference.antt =====
-- crates/oci-distribution/src/reference.rs: references to images in a registry. The two regular
-- expressions of regexp.rs are parameters: the captures that they give.
pub mod Whole
use krustlet.Prelude.{
  ℕ, ◌<◌, String, ◌<>◌, Bool, true, false, Option, none, some, Result, ok, err, ◌>>=◌, ◌>>◌, ◌==◌,
  nat_eq, string_eq, ltb, if◌then◌else◌, ◌-◌,
}
use Prim.Native.String.{len, slice}

pub data ParseError : Type 0 where
  digest_invalid_format : ParseError
  digest_invalid_length : ParseError
  digest_unsupported : ParseError
  name_contains_uppercase : ParseError
  name_empty : ParseError
  name_too_long : ParseError
  reference_invalid_format : ParseError
  tag_invalid_format : ParseError

abbrev pub name_total_length_max : ℕ
name_total_length_max = 255

pub record Reference : Type 0 where
  pub registry : String
  pub repository : String
  pub tag : Option String
  pub digest : Option String

unfoldable pub full_name : Reference → String
full_name r = if r.registry == "" then r.repository else r.registry <> ("/" <> r.repository)

-- `if !s.is_empty() { s.push(mark) }; s.push_str(part)`
unfoldable pub push_part : String → String → Option String → String
push_part mark s none = s
push_part mark s (some part) = (if s == "" then s else s <> mark) <> part

unfoldable pub whole : Reference → String
whole r = push_part "@" (push_part ":" (full_name r) r.tag) r.digest

-- What the full reference expression captures: groups 1, 2 and 3.
pub record Captures : Type 0 where
  pub name : String
  pub tag : Option String
  pub digest : Option String

-- The digest's length, its first six bytes as the algorithm, and what follows the seventh byte. The
-- regular expression admits only ASCII in a digest, so no slice ends inside a character.
unfoldable pub check_digest : Option String → Result ParseError (Unit {0})
check_digest none = ok tt
check_digest (some d) =
    let algo = slice d 0 6 in
    let hex = len d - 7 in
    if ltb (len d) 8
    then err digest_invalid_format
    else if algo == "sha256"
    then (if hex == 64 then ok tt else err digest_invalid_length)
    else if algo == "sha384"
    then (if hex == 96 then ok tt else err digest_invalid_length)
    else if algo == "sha512"
    then (if hex == 128 then ok tt else err digest_invalid_length)
    else err digest_unsupported

-- The pair of registry and repository that `split_domain` takes from the captures.
unfoldable pub split_captures : String → Option (Option String × Option String) → String × String
split_captures name none = ("", name)
split_captures name (some (domain, none)) = ("", name)
split_captures name (some (none, some repository)) = ("", repository)
split_captures name (some (some registry, some repository)) = (registry, repository)

module _ (reference_captures : String → Option Captures)
    (name_captures : String → Option (Option String × Option String)) where
  unfoldable pub split_domain : String → String × String
  split_domain name = split_captures name (name_captures name)

  unfoldable pub reference_of : Captures → Reference
  reference_of c =
      let (registry, repository) = split_domain c.name in
      record { registry = registry; repository = repository; tag = c.tag; digest = c.digest }

  unfoldable pub try_from : String → Result ParseError Reference
  try_from s = if s == "" then err name_empty else elim (reference_captures s) [
    | none ↦ err reference_invalid_format
    | some captures ↦
        let reference = reference_of captures in
        if ltb name_total_length_max (len reference.repository)
        then err name_too_long
        else (check_digest reference.digest >> ok reference)
  ]
