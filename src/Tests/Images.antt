-- ===== src/Tests/Images.antt =====
-- Runs of the theorems on references and stores.
use krustlet.Reference.{
  Reference, Captures, try_from, whole, check_digest, reference_of, split_domain, split_captures,
}
use krustlet.Reference.Whole.{
  suffix, domain_part, IsReferenceRegexp, IsNameRegexp, IsDigest, whole-try_from, try_from-IsDigest,
}
use krustlet.Registry.Types.{ImageLayer, ImageData}
use krustlet.Store.{
  Layer, Disk, FileOutcomes, get, ensure, pull, store, remove_digest, write_image, write_digest,
  then_on, pull_path, tag_or_latest, get_local, is_present_with_digest,
}
use krustlet.Store.Digests.{IsLabelled, IsHonest, IsTorn}
use krustlet.Store.Get.{get-IsLabelled, get_always}
use krustlet.Store.Again.{get-if_not_present}
use krustlet.Container.{if_not_present, never}
use krustlet.Prelude.{
  ok-injective, sym, ◌<>◌, ap, ◌∙◌, subst, some-injective, string_eq, nat_eq, String, Option, none,
  some, List, [], ◌∷◌, Result, ok, err, ◌≡◌, ◌⊎◌, inl, inr, refl, arith, ◌≤◌, ◌==◌, str_eq_iff,
  if◌then◌else◌, Bool-cases,
}
use krustlet.Prelude.Dict.{lookup, insert}
use Prim.Native.String.{len}

abbrev text : String
text = "example.com/app:v1"

abbrev app_captures : Captures
app_captures = record { name = "example.com/app"; tag = some "v1"; digest = none }

-- An expression that matches one text.
abbrev captures : String → Option Captures
captures s = if s == text then some app_captures else none

abbrev name_captures : String → Option (Option String × Option String)
name_captures n = if n == "example.com/app" then some (some "example.com", some "app") else none

abbrev app_reference : Reference
app_reference = record {
  registry = "example.com";
  repository = "app";
  tag = some "v1";
  digest = none;
}

only_match :
    {A : Type 0} (t s : String) (a b : A)
    → (if s == t then some a else none) ≡ some b
    → (s ≡ t) × (a ≡ b)
only_match t s a b h = elim (Bool-cases (s == t)) [
  | inl e ↦ ((str_eq_iff s t).0 e, some-injective (ground (arith, h, e)))
  | inr e ↦ absurd (ground (arith, h, e))
]

captures-IsReferenceRegexp : IsReferenceRegexp captures
captures-IsReferenceRegexp = record {
  covers = λ s c h.
      let (same, found) = only_match text s app_captures c h in
      subst (λ (x : Captures). s ≡ (x.name <> suffix ":" x.tag) <> suffix "@" x.digest) found same;
  named = λ s c h q.
      let (same, found) = only_match text s app_captures c h in
      ground (arith, (str_eq_iff app_captures.name "").1 (ap (λ (x : Captures). x.name) found ∙ q));
}

abbrev app_parts : Option String × Option String
app_parts = (some "example.com", some "app")

name_captures-IsNameRegexp : IsNameRegexp name_captures
name_captures-IsNameRegexp = record {
  covers = λ n domain rest h.
      let (same, found) = only_match "example.com/app" n app_parts (domain, some rest) h in
      subst
        (λ (x : Option String × Option String).
          n ≡ domain_part x.0 (elim x.1 [ none ↦ "" | some r ↦ r ]))
        found same;
  nonempty = λ n domain rest h q.
      let (same, found) = only_match "example.com/app" n app_parts (some domain, rest) h in
      ground (
        arith,
        (str_eq_iff "example.com" "").1
            (some-injective (ap (λ (x : Option String × Option String). x.0) found) ∙ q),
      );
}

app_accepted : try_from captures name_captures text ≡ ok app_reference
unfolding try_from check_digest reference_of split_domain split_captures
app_accepted = refl

whole-try_from_example : whole app_reference ≡ text
whole-try_from_example =
    whole-try_from captures name_captures captures-IsReferenceRegexp name_captures-IsNameRegexp text
      app_reference app_accepted

try_from-IsDigest_example : (len app_reference.repository ≤ 255) × IsDigest app_reference.digest
try_from-IsDigest_example = try_from-IsDigest captures name_captures text app_reference app_accepted

abbrev registry_digest : Reference → Result String String
registry_digest r = ok "sha256:1"

abbrev registry_image : Reference → Result String ImageData
registry_image r = ok (record {
  layers = record { layer_data = "code"; media_type = "application/wasm" } ∷ [];
  digest = some "sha256:1";
})

-- The digest is written in part.
abbrev torn : FileOutcomes
torn = record {
  created = ok tt;
  removed = ok tt;
  module_written = ok tt;
  module_left = none;
  digest_written = err "no space";
  digest_left = some "sha";
  module_read = ok tt;
  digest_read = ok tt;
}

abbrev whole_io : FileOutcomes
whole_io = record torn { digest_written = ok tt; digest_left = none }

abbrev empty_disk : Disk
empty_disk = record { modules = []; digests = [] }

-- The registry has published one layer.
abbrev IsDigestText : String → Type 0
IsDigestText d = d ≡ "sha256:1"

abbrev Published : String → Layer → Type 0
Published d layer = (d ≡ "sha256:1") × (layer ≡ "code")

empty-IsLabelled : IsLabelled IsDigestText Published empty_disk
unfolding lookup
empty-IsLabelled path d h is_digest = absurd (ground (arith, h))

registry-IsHonest :
    (r : Reference) (image : ImageData)
    → registry_image r ≡ ok image
    → IsHonest IsDigestText Published image
registry-IsHonest r image h layer rest d l q =
    let same = ok-injective h in
    (
      sym (some-injective (ap (λ (i : ImageData). i.digest) same ∙ q)),
      ground (arith, ap (λ (i : ImageData). i.layers) same ∙ l),
    )

torn-IsTorn : IsTorn IsDigestText Published torn
torn-IsTorn t h is_digest =
    ground (arith, (str_eq_iff "sha" "sha256:1").1 (some-injective h ∙ is_digest))

get-IsLabelled_example :
    IsLabelled IsDigestText Published
      (get "/root" registry_digest registry_image torn if_not_present app_reference empty_disk).0
get-IsLabelled_example =
    get-IsLabelled "/root" IsDigestText Published registry_digest registry_image registry-IsHonest
      torn torn-IsTorn if_not_present app_reference empty_disk empty-IsLabelled

get_always_example :
    Published "sha256:1" "code"
    ⊎ ((image : ImageData) × (first : ImageLayer) × (rest : List ImageLayer) × (registry_image
            app_reference
          ≡ ok image)
        × (image.layers ≡ (first ∷ rest))
        × (first.layer_data ≡ "code"))
unfolding get ensure pull store remove_digest write_image write_digest then_on get_local
    is_present_with_digest lookup insert pull_path tag_or_latest
get_always_example =
    get_always "/root" IsDigestText Published registry_digest registry_image whole_io app_reference
      empty_disk "sha256:1" "code" empty-IsLabelled refl refl refl

abbrev cached : Disk
cached = record empty_disk { modules = ("/root/example.com/app/v1", "old") ∷ [] }

get-if_not_present_example :
    get "/root" registry_digest registry_image whole_io if_not_present
      (record app_reference { digest = some "sha256:1" })
      (get "/root" registry_digest registry_image whole_io never app_reference cached).0
    ≡ ((get "/root" registry_digest registry_image whole_io never app_reference cached).0, ok "old")
unfolding get ensure then_on get_local lookup pull_path tag_or_latest
get-if_not_present_example =
    get-if_not_present "/root" registry_digest registry_digest registry_image registry_image
      whole_io whole_io never app_reference (some "sha256:1") cached "old" refl refl
