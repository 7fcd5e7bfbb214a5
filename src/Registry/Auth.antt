-- ===== src/Registry/Auth.antt =====
-- crates/oci-distribution/src/client.rs: the addresses of a registry, and its tokens.
use krustlet.Prelude.{
  String, ◌<>◌, Option, none, some, List, [], ◌∷◌, if◌then◌else◌, ◌==◌, nat_eq, string_eq, contains,
  Result, ok, err, ◌>>=◌,
}
use krustlet.Prelude.Dict.{lookup, insert}
use krustlet.Reference.{Reference}
use krustlet.Config.{Config}
use krustlet.Registry.Types.{
  Authorization, BearerChallenge, Client, ClientProtocol, Network, PullError, RegistryAuth,
  RegistryOperation, RegistryToken, Request, access_token, anonymous, basic, bearer, credentials,
  failed, http, https, https_except, panicked, pull_operation, push_operation, token, try,
}

-- `Config::client_config`
unfoldable pub client_protocol : Option (List String) → ClientProtocol
client_protocol none = https
client_protocol (some registries) = https_except registries

abbrev pub new_client : Config → Client
new_client config = record { protocol = client_protocol config.insecure_registries; tokens = [] }

unfoldable pub scheme_for : ClientProtocol → String → String
scheme_for https registry = "https"
scheme_for http registry = "http"
scheme_for (https_except exceptions) registry =
    if contains registry exceptions then "http" else "https"

unfoldable pub get_registry : Reference → String
get_registry image =
    if image.registry == "docker.io" then "registry-1.docker.io" else image.registry

abbrev tag_or_latest : Option String → String
tag_or_latest none = "latest"
tag_or_latest (some t) = t

abbrev pub base_url : ClientProtocol → String → String
base_url protocol registry = scheme_for protocol registry <> ("://" <> (registry <> "/v2/"))

-- The digest of a reference, or else its tag.
abbrev manifest_name : Reference → String
manifest_name image = elim image.digest [ some d ↦ d | none ↦ tag_or_latest image.tag ]

unfoldable pub to_v2_manifest_url : Client → Reference → String
to_v2_manifest_url c image =
    base_url c.protocol (get_registry image)
    <> (image.repository <> ("/manifests/" <> manifest_name image))

unfoldable pub to_v2_blob_url : Client → String → String → String → String
to_v2_blob_url c registry repository digest =
    base_url c.protocol registry <> (repository <> ("/blobs/" <> digest))

unfoldable pub bearer_token : RegistryToken → Authorization
bearer_token (token t) = bearer t
bearer_token (access_token t) = bearer t

unfoldable pub auth_headers : Client → Reference → Option Authorization
auth_headers c image = elim (lookup (get_registry image) c.tokens) [
  | none ↦ none
  | some t ↦ some (bearer_token t)
]

abbrev pub request_to : Client → Reference → String → Request
request_to c image url = record { url = url; query = []; authorization = auth_headers c image }

abbrev pub authenticated : RegistryAuth → Option Authorization
authenticated anonymous = none
authenticated (basic user password) = some (credentials user password)

unfoldable pub scope_of : RegistryOperation → Reference → String
scope_of pull_operation image = "repository:" <> (image.repository <> ":pull")
scope_of push_operation image = "repository:" <> (image.repository <> ":pull,push")

abbrev service_query : Option String → List (String × String)
service_query none = []
service_query (some s) = ("service", s) ∷ []

-- The token that a realm grants.
unfoldable pub ask_realm :
    Network → RegistryAuth → String → BearerChallenge → String → Result PullError RegistryToken
ask_realm n authentication scope challenge realm =
    try (
      n.get (record {
        url = realm;
        query = ("scope", scope) ∷ service_query challenge.service;
        authorization = authenticated authentication;
      }))
    >>= λ auth_res. try auth_res.text >>= λ text.
        if auth_res.status == 200
        then try (n.parsers.registry_token text)
        else err (failed ("failed to authenticate: " <> text))

-- The first challenge is answered; a list without one, or a challenge without a realm, is a panic.
unfoldable pub answer :
    Network → RegistryAuth → String → List BearerChallenge → Result PullError RegistryToken
answer n authentication scope [] = err panicked
answer n authentication scope (challenge ∷ more) = elim challenge.realm [
  | none ↦ err panicked
  | some realm ↦ ask_realm n authentication scope challenge realm
]

-- The challenges of the registry, where it asks for a token.
unfoldable pub challenges_of :
    Network → Client → Reference → Result PullError (Option (List BearerChallenge))
challenges_of n c image =
    try (
      n.get (record {
        url = base_url c.protocol (get_registry image);
        query = [];
        authorization = none;
      }))
    >>= λ res. elim res.challenge [ none ↦ ok none | some parsed ↦ try parsed ]

unfoldable pub auth :
    Network → Reference → RegistryAuth → RegistryOperation → Client → Result PullError Client
auth n image authentication operation c = challenges_of n c image >>= λ found. elim found [
  | none ↦ ok c
  | some challenges ↦ answer n authentication (scope_of operation image) challenges >>= λ granted.
      ok (record c { tokens = insert (get_registry image) granted c.tokens })
]
