-- ===== src/Registry.antt =====
-- crates/oci-distribution/src/client.rs: pulling from a registry. What the registry answers to a
-- request is an argument, as is the parsing of its JSON texts.
pub mod Types
pub mod Auth
pub mod Pull
use krustlet.Prelude.{
  ℕ, zero, suc, ◌+◌, ◌-◌, ◌*◌, ◌≤◌, ◌<◌, min, String, ◌<>◌, ◌≡◌, refl, sym, ap, subst, ◌∙◌, ◌≢◌,
  ◌↔◌, ◌⊎◌, inl, inr, Bool, true, false, not, ◌&&◌, ◌||◌, Option, none, some, List, [], ◌∷◌, ◌++◌,
  map, arith, ltb, leb, if◌then◌else◌, Bool-cases, Option-cases, Result-cases, List-cases,
  some-injective, ok-injective, Eq, ◌==◌, nat_eq, string_eq, str_eq_iff, ==_refl, ==_ne, contains,
  length, get_elem?, take, length-append, keep_if, find, Result, ok, err, ◌>>=◌, ◌>>◌, Panic,
  overflow, nothing, bind-eq-ok, All, map_err,
}
use krustlet.Prelude.Dict.{
  Dict, keys, values, lookup, insert, remove, contains_key, extend, NodupKeys, lookup-nil,
  lookup-cons, lookup-insert, lookup-remove, lookup-extend,
}
use krustlet.Reference.{Reference}
use krustlet.Config.{Config}
use krustlet.Registry.Types.{
  Authorization, BearerChallenge, Client, ClientProtocol, ImageData, ImageLayer, Network,
  OciDescriptor, OciManifest, Parsers, PullError, RegistryAuth, RegistryOperation, RegistryToken,
  Request, Response, Versioned, access_token, anonymous, basic, bearer, credentials, failed, http,
  https, https_except, panicked, pull_operation, push_operation, token, try, unexpected_error,
  unsupported_schema_version,
}
use krustlet.Registry.Auth.{
  client_protocol, new_client, scheme_for, get_registry, base_url, to_v2_manifest_url,
  to_v2_blob_url, bearer_token, auth_headers, request_to, authenticated, scope_of, ask_realm,
  answer, challenges_of, auth,
}

unfoldable pub digest_header_value : Response → Result PullError String
digest_header_value res = elim res.digest [
  | none ↦ err (failed "resgistry did not return a digest header")
  | some r ↦ try r
]

unfoldable pub check_layers : List String → List OciDescriptor → Result PullError (Unit {0})
check_layers accepted [] = ok tt
check_layers accepted (layer ∷ layers) =
    if contains layer.media_type accepted
    then check_layers accepted layers
    else err (failed ("incompatible layer media type: " <> layer.media_type))

unfoldable pub validate_layers : List String → OciManifest → Result PullError (Unit {0})
validate_layers accepted manifest = elim manifest.layers [
  | [] ↦ err (failed "no layers to pull")
  | layer ∷ layers ↦ check_layers accepted (layer ∷ layers)
]

abbrev image_manifest_media_type : String
image_manifest_media_type = "application/vnd.docker.distribution.manifest.v2+json"

unfoldable pub validate_image_manifest : Parsers → String → Result PullError (Unit {0})
validate_image_manifest parsers text = try (parsers.versioned text) >>= λ versioned.
    if not (versioned.schema_version == 2)
    then err (unsupported_schema_version versioned.schema_version)
    else elim versioned.media_type [
      | none ↦ ok tt
      | some media_type ↦
          if media_type == image_manifest_media_type
          then ok tt
          else err (failed ("unsupported media type: " <> media_type))
    ]

-- An answer that is no success; `errors[0]` of an empty list is a panic.
unfoldable pub first_error : List String → String → PullError
first_error [] url = panicked
first_error (e ∷ errors) url = failed (e <> (" on " <> url))

unfoldable pub refused : {A : Type 0} → Parsers → String → Response → Result PullError A
refused parsers url res =
    if leb 400 res.status && ltb res.status 500
    then (try res.text >>= λ text.
        try (parsers.errors text) >>= λ errors. err (first_error errors url))
    else if leb 500 res.status && ltb res.status 600
    then err (failed ("Server error at " <> url))
    else (try res.text >>= λ text. err (unexpected_error res.status text))

abbrev read_manifest : Network → Response → Result PullError (OciManifest × String)
read_manifest n res = digest_header_value res >>= λ digest. try res.text >>= λ text.
    validate_image_manifest n.parsers text >>= λ _.
    try (n.parsers.manifest text) >>= λ manifest. ok (manifest, digest)

-- `_pull_manifest`
unfoldable pub pull_manifest_now :
    Network → Reference → Client → Result PullError (OciManifest × String)
pull_manifest_now n image c =
    try (n.get (request_to c image (to_v2_manifest_url c image))) >>= λ res.
    let read = read_manifest n res in
    if res.status == 200 then read else refused n.parsers (to_v2_manifest_url c image) res

-- The stream of a body, written out one piece after the other.
unfoldable pub write_chunks : List (Result String String) → Result PullError String
write_chunks [] = ok ""
write_chunks (chunk ∷ chunks) =
    try chunk >>= λ bytes. write_chunks chunks >>= λ rest. ok (bytes <> rest)

unfoldable pub pull_layer : Network → Reference → String → Client → Result PullError String
pull_layer n image digest c =
    try (n.get (request_to c image (to_v2_blob_url c (get_registry image) image.repository digest)))
    >>= λ res. write_chunks res.chunks

-- The layers are asked for one after the other; where two fail, the error is the first one's.
unfoldable pub pull_layers :
    Network → Reference → Client → List OciDescriptor → Result PullError (List ImageLayer)
pull_layers n image c [] = ok []
pull_layers n image c (layer ∷ layers) = pull_layer n image layer.digest c >>= λ out.
    pull_layers n image c layers >>= λ rest.
    ok (record { layer_data = out; media_type = layer.media_type } ∷ rest)

-- The client with a token for a key, if it needs one; a failure leaves it as it was.
unfoldable pub ensure_auth :
    Network
    → Reference
    → RegistryAuth
    → RegistryOperation
    → String
    → Client
    → Result PullError Client
ensure_auth n image authentication operation key c =
    let granted = auth n image authentication operation c in
    if contains_key key c.tokens then ok c else granted

-- What follows the authentication. A token that was granted stays also where the rest fails.
abbrev pub with_client {ℓ} :
    {A : Type ℓ}
    → Client
    → Result PullError Client
    → (Client → Result PullError A)
    → Client × Result PullError A
with_client c (err e) rest = (c, err e)
with_client c (ok c') rest = (c', rest c')

-- From the manifest on.
unfoldable pub pull_image : Network → Reference → List String → Client → Result PullError ImageData
pull_image n image accepted c = pull_manifest_now n image c >>= λ (manifest, digest).
    validate_layers accepted manifest >>= λ _. pull_layers n image c manifest.layers >>= λ layers.
    ok (record { layers = layers; digest = some digest })

unfoldable pub pull :
    Network → Reference → RegistryAuth → List String → Client → Client × Result PullError ImageData
pull n image authentication accepted c =
    with_client c (ensure_auth n image authentication pull_operation (get_registry image) c)
      (pull_image n image accepted)

-- Here the key is the registry's name itself.
unfoldable pub pull_manifest :
    Network → Reference → RegistryAuth → Client → Client × Result PullError (OciManifest × String)
pull_manifest n image authentication c =
    with_client c (ensure_auth n image authentication pull_operation image.registry c)
      (pull_manifest_now n image)

unfoldable pub get_manifest_digest : Network → Reference → Client → Result PullError String
get_manifest_digest n image c =
    try (n.get (request_to c image (to_v2_manifest_url c image))) >>= λ res.
    if res.status == 200
    then digest_header_value res
    else refused n.parsers (to_v2_manifest_url c image) res

unfoldable pub fetch_manifest_digest :
    Network → Reference → RegistryAuth → Client → Client × Result PullError String
fetch_manifest_digest n image authentication c =
    with_client c (ensure_auth n image authentication pull_operation (get_registry image) c)
      (get_manifest_digest n image)

-- With the configuration, which is read as a text.
unfoldable pub pull_manifest_and_config_now :
    Network → Reference → Client → Result PullError (OciManifest × (String × String))
pull_manifest_and_config_now n image c = pull_manifest_now n image c >>= λ (manifest, digest).
    pull_layer n image manifest.config.digest c >>= λ out.
    try (n.parsers.from_utf8 out) >>= λ text. ok (manifest, (digest, text))

unfoldable pub pull_manifest_and_config :
    Network
    → Reference
    → RegistryAuth
    → Client
    → Client × Result PullError (OciManifest × (String × String))
pull_manifest_and_config n image authentication c =
    with_client c (ensure_auth n image authentication pull_operation image.registry c)
      (pull_manifest_and_config_now n image)
