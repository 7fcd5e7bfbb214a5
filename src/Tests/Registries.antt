-- ===== src/Tests/Registries.antt =====
-- Runs of the theorems on a registry that serves one image.
use krustlet.Prelude.{◌≡◌, refl, true, none, some, [], ◌∷◌, nat_eq, string_eq, contains, ok, String}
use krustlet.Prelude.Dict.{lookup, insert, contains_key}
use krustlet.Reference.{Reference}
use krustlet.Registry.Types.{
  http, token, anonymous, Client, OciDescriptor, OciManifest, ImageData, Response, Parsers, Network,
}
use krustlet.Registry.Auth.{
  get_registry, to_v2_manifest_url, to_v2_blob_url, scheme_for, auth, challenges_of, answer,
  ask_realm, scope_of,
}
use krustlet.Registry.{
  digest_header_value, check_layers, validate_layers, validate_image_manifest, pull_manifest_now,
  write_chunks, pull_layer, pull_layers, ensure_auth, pull_image, pull,
}
use krustlet.Store.{Layer, Disk, FileOutcomes, get}
use krustlet.Store.Served.{wasm_layer_media_type}
use krustlet.Registry.Pull.{IsPulled, pull-IsPulled}
use krustlet.Store

abbrev wasm : OciDescriptor
wasm = record { media_type = wasm_layer_media_type; digest = "sha256:ab" }

abbrev served_manifest : OciManifest
served_manifest = record { config = wasm; layers = wasm ∷ [] }

abbrev json : Parsers
json = record {
  versioned = λ text. ok (record { schema_version = 2; media_type = none });
  manifest = λ text. ok served_manifest;
  errors = λ text. ok [];
  registry_token = λ text. ok (token text);
  from_utf8 = λ text. ok text;
}

abbrev page : Response
page = record {
  status = 200;
  challenge =
      some (ok (some (record { realm = some "http://auth"; service = none; scope = none } ∷ [])));
  digest = some (ok "sha256:cd");
  text = ok "text";
  chunks = ok "wa" ∷ ok "sm" ∷ [];
}

abbrev registry : Network
registry = record { get = λ request. ok page; parsers = json }

abbrev hello : Reference
hello = record { registry = "example.com"; repository = "hello"; tag = some "v1"; digest = none }

abbrev fresh : Client
fresh = record { protocol = http; tokens = [] }

abbrev granted : Client
granted = record { protocol = http; tokens = ("example.com", token "text") ∷ [] }

abbrev hello_image : ImageData
hello_image = record {
  layers = record { layer_data = "wasm"; media_type = wasm_layer_media_type } ∷ [];
  digest = some "sha256:cd";
}

pull-IsPulled_example :
    IsPulled registry hello granted (wasm_layer_media_type ∷ []) hello_image
    × (contains_key (get_registry hello) fresh.tokens ≡ true → granted ≡ fresh)
unfolding lookup insert contains get_registry to_v2_manifest_url to_v2_blob_url scheme_for auth
    challenges_of answer ask_realm scope_of digest_header_value check_layers validate_layers
    validate_image_manifest pull_manifest_now write_chunks pull_layer pull_layers ensure_auth
    pull_image pull
pull-IsPulled_example =
    pull-IsPulled registry hello anonymous (wasm_layer_media_type ∷ []) fresh granted hello_image
      refl

abbrev works : FileOutcomes
works = record {
  created = ok tt;
  removed = ok tt;
  module_written = ok tt;
  module_left = none;
  digest_written = ok tt;
  digest_left = none;
  module_read = ok tt;
  digest_read = ok tt;
}

abbrev empty_disk : Disk
empty_disk = record { modules = []; digests = [] }

abbrev IsHelloDigest : String → Type 0
IsHelloDigest d = d ≡ "sha256:cd"

abbrev IsHello : String → Layer → Type 0
IsHello d layer = layer ≡ "wasm"
