-- ===== src/Store.antt =====
-- crates/kubelet/src/store: the store that keeps what it pulls in files (mod.rs and oci/file.rs), and
-- the store that an interceptor overlays (composite/mod.rs).
pub mod Digests
pub mod Get
pub mod Again
pub mod Served
use krustlet.Prelude.{
  String, ◌<>◌, Bool, true, false, Option, none, some, List, [], ◌∷◌, Result, ok, err, ◌==◌,
  string_eq, ◌&&◌, if◌then◌else◌,
}
use krustlet.Prelude.Dict.{Dict, lookup, insert, remove, contains_key}
use krustlet.Reference.{Reference}
use krustlet.Registry.Types.{ImageLayer, ImageData}
use krustlet.Container.{PullPolicy, always, if_not_present, never}

-- The bytes of a layer.
abbrev pub Layer : Type 0
Layer = String

-- The files `module.wasm` and `digest.txt`, by the directory that `pull_path` names.
pub record Disk : Type 0 where
  pub modules : Dict String Layer
  pub digests : Dict String String

-- How the file operations of one call end. A write that fails may leave the file as it was (`none`) or
-- with other contents.
pub record FileOutcomes : Type 0 where
  pub created : Result String (Unit {0})
  pub removed : Result String (Unit {0})
  pub module_written : Result String (Unit {0})
  pub module_left : Option Layer
  pub digest_written : Result String (Unit {0})
  pub digest_left : Option String
  pub module_read : Result String (Unit {0})
  pub digest_read : Result String (Unit {0})

unfoldable pub tag_or_latest : Option String → String
tag_or_latest none = "latest"
tag_or_latest (some tag) = tag

unfoldable pub pull_path : String → Reference → String
pull_path root_dir r =
    if r.registry == ""
    then root_dir <> ("/" <> (r.repository <> ("/" <> tag_or_latest r.tag)))
    else root_dir
      <> ("/" <> (r.registry <> ("/" <> (r.repository <> ("/" <> tag_or_latest r.tag)))))

-- A file after a write that failed.
unfoldable pub leave : {V : Type 0} → String → Option V → Dict String V → Dict String V
leave path none files = files
leave path (some content) files = insert path content files

unfoldable pub write_digest :
    FileOutcomes → String → Option String → Disk → Disk × Result String (Unit {0})
write_digest io path none disk = (disk, ok tt)
write_digest io path (some d) disk = elim io.digest_written [
  | ok _ ↦ (record disk { digests = insert path d disk.digests }, ok tt)
  | err e ↦ (record disk { digests = leave path io.digest_left disk.digests }, err e)
]

-- From the first layer on, the digest file being gone.
unfoldable pub write_image :
    FileOutcomes → String → ImageData → Disk → Disk × Result String (Unit {0})
write_image io path image disk = elim image.layers [
  | [] ↦ (disk, err "No module layer present in image data")
  | layer ∷ _ ↦ elim io.module_written [
    | ok _ ↦
        write_digest io path image.digest
          (record disk { modules = insert path layer.layer_data disk.modules })
    | err e ↦ (record disk { modules = leave path io.module_left disk.modules }, err e)
  ]
]

unfoldable pub remove_digest : FileOutcomes → String → Disk → Disk × Result String (Unit {0})
remove_digest io path disk =
    if contains_key path disk.digests
    then elim io.removed [
      | ok _ ↦ (record disk { digests = remove path disk.digests }, ok tt)
      | err e ↦ (disk, err e)
    ]
    else (disk, ok tt)

-- The next operation, on the disk that the last one left, unless that one failed.
unfoldable pub then_on :
    {A B : Type 0}
    → Disk × Result String A
    → (Disk → Disk × Result String B)
    → Disk × Result String B
then_on (disk, ok a) f = f disk
then_on (disk, err e) f = (disk, err e)

module _ (root_dir : String) where
  unfoldable pub store :
      FileOutcomes → Reference → ImageData → Disk → Disk × Result String (Unit {0})
  store io r image disk =
      then_on (disk, io.created)
        (λ d.
          then_on (remove_digest io (pull_path root_dir r) d)
            (λ d'. write_image io (pull_path root_dir r) image d'))

  unfoldable pub get_local : FileOutcomes → Reference → Disk → Disk × Result String Layer
  get_local io r disk = elim (lookup (pull_path root_dir r) disk.modules) [
    | none ↦ (disk, err "Image ref not available locally")
    | some layer ↦ elim io.module_read [ ok _ ↦ (disk, ok layer) | err e ↦ (disk, err e) ]
  ]

  unfoldable pub is_present : Reference → Disk → Bool
  is_present r disk = contains_key (pull_path root_dir r) disk.modules

  unfoldable pub is_present_with_digest : FileOutcomes → Reference → String → Disk → Bool
  is_present_with_digest io r digest disk = elim (lookup (pull_path root_dir r) disk.digests) [
    | none ↦ false
    | some text ↦ elim io.digest_read [ ok _ ↦ text == digest | err _ ↦ false ]
  ]

  -- The client of the registry, with the answers of one call.
  module _ (fetch_digest : Reference → Result String String)
      (pull_image : Reference → Result String ImageData) where
    unfoldable pub pull : FileOutcomes → Reference → Disk → Disk × Result String (Unit {0})
    pull io r disk = elim (pull_image r) [
      | err e ↦ (disk, err e)
      | ok image ↦ store io r image disk
    ]

    unfoldable pub ensure :
        FileOutcomes → PullPolicy → Reference → Disk → Disk × Result String (Unit {0})
    ensure io if_not_present r disk = if is_present r disk then (disk, ok tt) else pull io r disk
    ensure io always r disk = elim (fetch_digest r) [
      | err e ↦ (disk, err e)
      | ok digest ↦
          if is_present_with_digest io r digest disk then (disk, ok tt) else pull io r disk
    ]
    ensure io never r disk = (disk, ok tt)

    unfoldable pub get : FileOutcomes → PullPolicy → Reference → Disk → Disk × Result String Layer
    get io policy r disk = then_on (ensure io policy r disk) (λ d. get_local io r d)

-- The store of local files under the registry `fs`: crates/kubelet/src/store/fs/mod.rs.
unfoldable pub intercepts : Reference → Bool
intercepts r = r.registry == "fs"

unfoldable pub file_system_get : (String → Result String Layer) → Reference → Result String Layer
file_system_get read_file r = read_file r.repository

-- The `get` of a `CompositeStore`, over the `get` of its base and of its interceptor.
unfoldable pub composite_get :
    {S : Type 0}
    → (Reference → Bool)
    → (S → S × Result String Layer)
    → (S → S × Result String Layer)
    → Reference
    → S
    → S × Result String Layer
composite_get intercepted interceptor base r s = if intercepted r then interceptor s else base s
