-- ===== src/Store/Again.antt =====
-- What `get` returns for a module that it has returned before.
use krustlet.Store.{
  Layer, Disk, FileOutcomes, pull_path, then_on, get_local, is_present, pull, ensure, get,
}
use krustlet.Prelude.{
  if◌then◌else◌, ap, String, true, Option, some, Result, ok, string_eq, ◌≡◌, arith, refl, subst,
  ◌∙◌, Bool,
}
use krustlet.Prelude.Dict.{lookup}
use krustlet.Reference.{Reference}
use krustlet.Registry.Types.{ImageData}
use krustlet.Container.{PullPolicy, if_not_present}
use krustlet.Store.Get.{then_on-eq-ok, get_local-module, get-disk}

get-module :
    (root_dir : String) (fetch_digest : Reference → Result String String)
    (pull_image : Reference → Result String ImageData) (io : FileOutcomes) (policy : PullPolicy)
    (r : Reference) (disk : Disk) (layer : Layer)
    → (get root_dir fetch_digest pull_image io policy r disk).1 ≡ ok layer
    → lookup
        (pull_path root_dir r)
        (get root_dir fetch_digest pull_image io policy r disk).0.modules
      ≡ some layer
unfolding get
get-module root_dir fetch_digest pull_image io policy r disk layer h =
    let (u, _, same) =
      then_on-eq-ok (ensure root_dir fetch_digest pull_image io policy r disk)
        (λ d. get_local root_dir io r d) layer h in
    ap (λ (d : Disk). lookup (pull_path root_dir r) d.modules)
      (get-disk root_dir fetch_digest pull_image io policy r disk)
    ∙ get_local-module root_dir io r (ensure root_dir fetch_digest pull_image io policy r disk).0
        layer (subst (λ (o : Disk × Result String Layer). o.1 ≡ ok layer) same h)

is_present-lookup :
    (root_dir : String) (r : Reference) (disk : Disk) (layer : Layer)
    → lookup (pull_path root_dir r) disk.modules ≡ some layer
    → is_present root_dir r disk ≡ true
unfolding is_present
is_present-lookup root_dir r disk layer h = ground (arith, h)

get_local-lookup :
    (root_dir : String) (io : FileOutcomes) (r : Reference) (disk : Disk) (layer : Layer)
    → lookup (pull_path root_dir r) disk.modules ≡ some layer
    → io.module_read ≡ ok tt
    → get_local root_dir io r disk ≡ (disk, ok layer)
unfolding get_local
get_local-lookup root_dir io r disk layer h readable = ground (arith, h, readable)

-- A module that is there is returned.
present-if_not_present :
    (root_dir : String) (fetch_digest : Reference → Result String String)
    (pull_image : Reference → Result String ImageData) (io : FileOutcomes) (r : Reference)
    (disk : Disk) (layer : Layer)
    → lookup (pull_path root_dir r) disk.modules ≡ some layer
    → io.module_read ≡ ok tt
    → get root_dir fetch_digest pull_image io if_not_present r disk ≡ (disk, ok layer)
unfolding get ensure then_on
present-if_not_present root_dir fetch_digest pull_image io r disk layer h readable =
    ap
      (λ (b : Bool).
        then_on (if b then (disk, ok tt) else pull root_dir fetch_digest pull_image io r disk)
          (λ d. get_local root_dir io r d))
      (is_present-lookup root_dir r disk layer h)
    ∙ get_local-lookup root_dir io r disk layer h readable

pull_path-pinned :
    (root_dir : String) (r : Reference) (pinned : Option String)
    → pull_path root_dir r ≡ pull_path root_dir (record r { digest = pinned })
unfolding pull_path
pull_path-pinned root_dir r pinned = refl

-- What `get` has once returned for a reference, with any policy, is what it returns later with
-- `IfNotPresent`, the disk being as it was left and the file readable, for every reference with the same
-- registry, repository and tag: whatever digest that one pins, whatever digest and image the registry
-- would answer now, and without a change to the disk.
pub get-if_not_present :
    (root_dir : String) (fetch_digest fetch_digest' : Reference → Result String String)
    (pull_image pull_image' : Reference → Result String ImageData) (io io' : FileOutcomes)
    (policy : PullPolicy) (r : Reference) (pinned : Option String) (disk : Disk) (layer : Layer)
    → (get root_dir fetch_digest pull_image io policy r disk).1 ≡ ok layer
    → io'.module_read ≡ ok tt
    → get root_dir fetch_digest' pull_image' io' if_not_present
        (record r { digest = pinned })
        (get root_dir fetch_digest pull_image io policy r disk).0
      ≡ ((get root_dir fetch_digest pull_image io policy r disk).0, ok layer)
get-if_not_present root_dir fetch_digest fetch_digest' pull_image pull_image' io io' policy r pinned
      disk layer h readable =
    let left : Disk = (get root_dir fetch_digest pull_image io policy r disk).0 in
    present-if_not_present root_dir fetch_digest' pull_image' io' (record r { digest = pinned })
      left layer
      (subst (λ path. lookup path left.modules ≡ some layer) (pull_path-pinned root_dir r pinned)
        (get-module root_dir fetch_digest pull_image io policy r disk layer h))
      readable
