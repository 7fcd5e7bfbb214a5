-- ===== src/Registry/Pull.antt =====
-- What an image that was pulled consists of.
use krustlet.Prelude.{
  String, ◌≡◌, refl, sym, ap, subst, ◌∙◌, ◌≢◌, inl, inr, true, false, ◌&&◌, some, List, [], ◌∷◌,
  arith, ltb, leb, Bool-cases, List-cases, ok-injective, ◌==◌, nat_eq, string_eq, contains, Result,
  ok, err, ◌>>=◌, bind-eq-ok,
}
use krustlet.Prelude.Dict.{contains_key}
use krustlet.Reference.{Reference}
use krustlet.Registry.Types.{
  RegistryAuth, RegistryOperation, pull_operation, Client, OciDescriptor, OciManifest, ImageLayer,
  ImageData, Response, Network, PullError, Parsers, unexpected_error, try,
}
use krustlet.Registry.Auth.{get_registry, to_v2_blob_url, to_v2_manifest_url, request_to}
use krustlet.Registry.{
  first_error, read_manifest, check_layers, validate_layers, pull_manifest_now, refused,
  write_chunks, pull_layer, pull_layers, ensure_auth, with_client, pull_image, pull,
}

-- Each layer is what the registry sent for the digest that the manifest names, with the media type that
-- it names, which is an accepted one.
abbrev pub AreServed :
    Network → Reference → Client → List String → List OciDescriptor → List ImageLayer → Type 0
AreServed n image c accepted [] [] = Unit
AreServed n image c accepted [] (l ∷ ls) = true ≡ false
AreServed n image c accepted (d ∷ ds) [] = true ≡ false
AreServed n image c accepted (d ∷ ds) (l ∷ ls) =
    ((res : Response) × (n.get
          (request_to c image (to_v2_blob_url c (get_registry image) image.repository d.digest))
        ≡ ok res)
      × (write_chunks res.chunks ≡ ok l.layer_data))
    × (l.media_type ≡ d.media_type)
    × (contains d.media_type accepted ≡ true)
    × AreServed n image c accepted ds ls

try-ok {ℓ} : {A : Type ℓ} (r : Result String A) (a : A) → try r ≡ ok a → r ≡ ok a
try-ok (ok b) a h = cc
try-ok (err e) a h = cc

check_layers-cons :
    (accepted : List String) (d : OciDescriptor) (ds : List OciDescriptor)
    → check_layers accepted (d ∷ ds) ≡ ok tt
    → (contains d.media_type accepted ≡ true) × (check_layers accepted ds ≡ ok tt)
unfolding check_layers
check_layers-cons accepted d ds h = ground (arith, h)

pull_layers-AreServed :
    (n : Network) (image : Reference) (c : Client) (accepted : List String)
    (ds : List OciDescriptor) (ls : List ImageLayer)
    → check_layers accepted ds ≡ ok tt
    → pull_layers n image c ds ≡ ok ls
    → AreServed n image c accepted ds ls
unfolding pull_layers pull_layer
pull_layers-AreServed n image c accepted [] ls checked h =
    subst (AreServed n image c accepted []) (ok-injective {E = PullError} h) tt
pull_layers-AreServed n image c accepted (d ∷ ds) ls checked h =
    let (out, e, h1) = bind-eq-ok (pull_layer n image d.digest c) _ h in
    let (rest, e', h2) = bind-eq-ok (pull_layers n image c ds) _ h1 in
    let (first, others) = check_layers-cons accepted d ds checked in
    let (res, got, wrote) =
      bind-eq-ok
        (try (
          n.get
            (request_to c image (to_v2_blob_url c (get_registry image) image.repository d.digest))))
        _ e in
    subst (AreServed n image c accepted (d ∷ ds)) (ok-injective {E = PullError} h2) (
      (res, try-ok _ res got, wrote),
      refl,
      first,
      pull_layers-AreServed n image c accepted ds rest others e',
    )

validate_layers-ok :
    (accepted : List String) (manifest : OciManifest)
    → validate_layers accepted manifest ≡ ok tt
    → (manifest.layers ≢ []) × (check_layers accepted manifest.layers ≡ ok tt)
unfolding validate_layers
validate_layers-ok accepted manifest h = elim (List-cases manifest.layers) [
  | inl e ↦ absurd (ground (arith, e, h))
  | inr (x, rest, e) ↦ (λ q. ground (arith, q, h), ground (arith, e, h))
]

err_after :
    {A : Type 0} {B : Type 0} (r : Result PullError A) (f : A → PullError) (b : B)
    → (r >>= λ a. err (f a)) ≢ ok b
err_after (ok a) f b h = cc
err_after (err e) f b h = cc

err_after_both :
    {A : Type 0} {B : Type 0} {C : Type 0} (r : Result PullError A) (g : A → Result PullError B)
    (f : B → PullError) (b : C)
    → (r >>= λ a. g a >>= λ x. err (f x)) ≢ ok b
err_after_both (ok a) g f b h = err_after (g a) f b h
err_after_both (err e) g f b h = cc

refused_fails :
    {A : Type 0} (parsers : Parsers) (url : String) (res : Response) (a : A)
    → refused parsers url res ≢ ok a
unfolding refused
refused_fails parsers url res a h = elim (Bool-cases (leb 400 res.status && ltb res.status 500)) [
  | inl e ↦
      err_after_both (try res.text) (λ text. try (parsers.errors text))
        (λ errors. first_error errors url) a (rw e at h)
  | inr e ↦ elim (Bool-cases (leb 500 res.status && ltb res.status 600)) [
    | inl e2 ↦ absurd (ground (arith, e, e2, h))
    | inr e2 ↦ err_after (try res.text) (unexpected_error res.status) a (rw (e, e2) at h)
  ]
]

-- Where a manifest comes from.
pull_manifest_now-read :
    (n : Network) (image : Reference) (c : Client) (found : OciManifest × String)
    → pull_manifest_now n image c ≡ ok found
    → (res : Response) × (n.get (request_to c image (to_v2_manifest_url c image)) ≡ ok res)
      × (res.status ≡ 200)
      × (read_manifest n res ≡ ok found)
unfolding pull_manifest_now
pull_manifest_now-read n image c found h =
    let (res, got, h1) =
      bind-eq-ok (try (n.get (request_to c image (to_v2_manifest_url c image)))) _ h in
    elim (Bool-cases (res.status == 200)) [
      | inl e ↦ (res, try-ok _ res got, ground (arith, e), ground (arith, e, h1))
      | inr e ↦
          absurd
            (refused_fails n.parsers (to_v2_manifest_url c image) res found (ground (arith, e, h1)))
    ]

ensure_auth-same :
    (n : Network) (image : Reference) (a : RegistryAuth) (o : RegistryOperation) (key : String)
    (c : Client)
    → contains_key key c.tokens ≡ true
    → ensure_auth n image a o key c ≡ ok c
unfolding ensure_auth
ensure_auth-same n image a o key c h = ground (arith, h)

-- The manifest that an image was pulled with.
abbrev pub IsPulled : Network → Reference → Client → List String → ImageData → Type 0
IsPulled n image c accepted pulled_image =
    (found : OciManifest × String) × ((res : Response) × (n.get
          (request_to c image (to_v2_manifest_url c image))
        ≡ ok res)
      × (res.status ≡ 200)
      × (read_manifest n res ≡ ok found))
    × (found.0.layers ≢ [])
    × (pulled_image.digest ≡ some found.1)
    × AreServed n image c accepted found.0.layers pulled_image.layers

pull_image-IsPulled :
    (n : Network) (image : Reference) (c : Client) (accepted : List String)
    (pulled_image : ImageData)
    → pull_image n image accepted c ≡ ok pulled_image
    → IsPulled n image c accepted pulled_image
unfolding pull_image
pull_image-IsPulled n image c accepted pulled_image h =
    let (found, e, h1) = bind-eq-ok (pull_manifest_now n image c) _ h in
    let (_, valid, h2) = bind-eq-ok (validate_layers accepted found.0) _ h1 in
    let (layers, pulled, h3) = bind-eq-ok (pull_layers n image c found.0.layers) _ h2 in
    let (some_layer, checked) = validate_layers-ok accepted found.0 valid in
    subst (IsPulled n image c accepted) (ok-injective {E = PullError} h3) (
      found,
      pull_manifest_now-read n image c found e,
      some_layer,
      refl,
      pull_layers-AreServed n image c accepted found.0.layers layers checked pulled,
    )

with_client-ok :
    {A : Type 0} (c c' : Client) (granted : Result PullError Client)
    (rest : Client → Result PullError A) (a : A)
    → with_client c granted rest ≡ (c', ok a)
    → (granted ≡ ok c') × (rest c' ≡ ok a)
with_client-ok c c' (err e) rest a h = absurd (cc)
with_client-ok {A} c c' (ok next) rest a h =
    let same = ap (λ (r : Client × Result PullError A). r.0) h in
    (ap ok same, subst (λ x. rest x ≡ ok a) same (ap (λ (r : Client × Result PullError A). r.1) h))

-- An image that was pulled is what the registry served to the client that remains. A manifest was
-- answered with status 200 and has layers; the image's digest is that of the answer's header; each
-- layer is the body answered for the digest that the manifest names, in order, of a media type that is
-- accepted. A client that had a token for the registry is unchanged.
pub pull-IsPulled :
    (n : Network) (image : Reference) (a : RegistryAuth) (accepted : List String) (c c' : Client)
    (pulled_image : ImageData)
    → pull n image a accepted c ≡ (c', ok pulled_image)
    → IsPulled n image c' accepted pulled_image
      × (contains_key (get_registry image) c.tokens ≡ true → c' ≡ c)
unfolding pull
pull-IsPulled n image a accepted c c' pulled_image h =
    let (granted, read) =
      with_client-ok c c' (ensure_auth n image a pull_operation (get_registry image) c)
        (pull_image n image accepted) pulled_image h in
    (
      pull_image-IsPulled n image c' accepted pulled_image read,
      λ known.
          ok-injective {E = PullError}
            (sym granted ∙ ensure_auth-same n image a pull_operation (get_registry image) c known),
    )
