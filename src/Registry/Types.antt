-- ===== src/Registry/Types.antt =====
-- crates/oci-distribution/src/client.rs, manifest.rs and secrets.rs: the data of a pull.
use krustlet.Prelude.{ℕ, String, Option, List, nat_eq, string_eq, Result, map_err}
use krustlet.Prelude.Dict.{Dict}

pub data ClientProtocol : Type 0 where
  http : ClientProtocol
  https : ClientProtocol
  https_except : List String → ClientProtocol

pub data RegistryToken : Type 0 where
  token access_token : String → RegistryToken

pub data RegistryAuth : Type 0 where
  anonymous : RegistryAuth
  basic : String → String → RegistryAuth

pub data RegistryOperation : Type 0 where
  pull_operation push_operation : RegistryOperation

-- The configuration's protocol, and the tokens by registry.
pub record Client : Type 0 where
  pub protocol : ClientProtocol
  pub tokens : Dict String RegistryToken

-- The fields that a pull reads, also in the manifest.
pub record OciDescriptor : Type 0 where
  pub media_type : String
  pub digest : String

pub record OciManifest : Type 0 where
  pub config : OciDescriptor
  pub layers : List OciDescriptor

-- A negative version, which is refused like any other but 2, is left out.
pub record Versioned : Type 0 where
  pub schema_version : ℕ
  pub media_type : Option String

pub record BearerChallenge : Type 0 where
  pub realm : Option String
  pub service : Option String
  pub scope : Option String

pub record ImageLayer : Type 0 where
  pub layer_data : String
  pub media_type : String

pub record ImageData : Type 0 where
  pub layers : List ImageLayer
  pub digest : Option String

pub data Authorization : Type 0 where
  bearer : String → Authorization
  credentials : String → String → Authorization

-- A GET request; the `Accept` header, which is the same in all of them, is left out.
pub record Request : Type 0 where
  pub url : String
  pub query : List (String × String)
  pub authorization : Option Authorization

-- An answer: the challenges of a `WWW-Authenticate` header, the digest header, the text of the body,
-- and the body as a stream.
pub record Response : Type 0 where
  pub status : ℕ
  pub challenge : Option (Result String (Option (List BearerChallenge)))
  pub digest : Option (Result String String)
  pub text : Result String String
  pub chunks : List (Result String String)

-- `serde_json::from_str` for each type, and `String::from_utf8`.
pub record Parsers : Type 0 where
  pub versioned : String → Result String Versioned
  pub manifest : String → Result String OciManifest
  pub errors : String → Result String (List String)
  pub registry_token : String → Result String RegistryToken
  pub from_utf8 : String → Result String String

pub record Network : Type 0 where
  pub get : Request → Result String Response
  pub parsers : Parsers

pub data PullError : Type 0 where
  failed : String → PullError
  unsupported_schema_version : ℕ → PullError
  unexpected_error : ℕ → String → PullError
  panicked : PullError

abbrev pub try {ℓ} : {A : Type ℓ} → Result String A → Result PullError A
try r = map_err failed r
