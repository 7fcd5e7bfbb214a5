-- ===== src/Store/Served.antt =====
-- The store over the client of an OCI registry: crates/kubelet/src/store/oci/client.rs.
use krustlet.Prelude.{String, [], ◌∷◌, Result, map_err, string_eq}
use krustlet.Reference.{Reference}
use krustlet.Container.{PullPolicy, always, if_not_present, never}
use krustlet.Registry.Types.{Network, Client, RegistryAuth, ImageData, PullError}
use krustlet.Registry.{pull, fetch_manifest_digest}
use krustlet.Store.{Layer, Disk, FileOutcomes, get}

abbrev pub wasm_layer_media_type : String
wasm_layer_media_type = "application/vnd.wasm.content.layer.v1+wasm"

unfoldable pub client_pull :
    Network → RegistryAuth → Client → Reference → Client × Result PullError ImageData
client_pull n a c image = pull n image a (wasm_layer_media_type ∷ []) c

unfoldable pub client_fetch_digest :
    Network → RegistryAuth → Client → Reference → Client × Result PullError String
client_fetch_digest n a c image = fetch_manifest_digest n image a c

-- The client that a pull finds: with `always`, the one that fetching the digest left.
abbrev pub pulling_client : Network → RegistryAuth → PullPolicy → Client → Reference → Client
pulling_client n a always c r = (client_fetch_digest n a c r).0
pulling_client n a if_not_present c r = c
pulling_client n a never c r = c

-- `LocalStore::get` with the client of a registry; `message` prints an error.
unfoldable pub client_get :
    Network
    → RegistryAuth
    → (PullError → String)
    → String
    → FileOutcomes
    → PullPolicy
    → Client
    → Reference
    → Disk
    → Disk × Result String Layer
client_get n a message root_dir io policy c r disk =
    get root_dir (λ image. map_err message (client_fetch_digest n a c image).1)
      (λ image. map_err message (client_pull n a (pulling_client n a policy c image) image).1) io
      policy r disk
