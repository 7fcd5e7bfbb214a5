-- ===== src/Store/Get.antt =====
-- What `get` returns.
use krustlet.Store.{
  Layer, Disk, FileOutcomes, pull_path, write_digest, write_image, remove_digest, then_on, store,
  get_local, is_present, is_present_with_digest, pull, ensure, get,
}
use krustlet.Store.Digests.{IsLabelled, IsHonest, IsTorn, store-IsLabelled}
use krustlet.Prelude.{
  String, true, some, List, ◌∷◌, Result, ok, err, string_eq, str_eq_iff, ◌≡◌, ◌⊎◌, inl, inr,
  Option-cases, Bool-cases, Result-cases, List-cases, arith, refl, subst, sym, ◌∙◌, some-injective,
}
use krustlet.Prelude.Dict.{lookup, lookup-insert}
use krustlet.Reference.{Reference}
use krustlet.Registry.Types.{ImageLayer, ImageData}
use krustlet.Container.{PullPolicy, always, if_not_present, never}

write_image-module :
    (io : FileOutcomes) (path : String) (image : ImageData) (disk : Disk)
    → (write_image io path image disk).1 ≡ ok tt
    → (layer : ImageLayer) × (rest : List ImageLayer) × (image.layers ≡ (layer ∷ rest))
      × (lookup path (write_image io path image disk).0.modules ≡ some layer.layer_data)
unfolding write_image write_digest
write_image-module io path image disk h = elim (List-cases image.layers) [
  | inl q ↦ absurd (ground (arith, h, q))
  | inr (layer, rest, q) ↦ (
    layer,
    rest,
    q,
    ground (
      arith,
      h,
      q,
      Result-cases io.module_written,
      Option-cases image.digest,
      Result-cases io.digest_written,
      lookup-insert path path layer.layer_data disk.modules,
      str_eq_iff path path,
    ),
  )
]

pub then_on-eq-ok :
    {A B : Type 0} (r : Disk × Result String A) (f : Disk → Disk × Result String B) (b : B)
    → (then_on r f).1 ≡ ok b
    → (a : A) × (r.1 ≡ ok a) × (then_on r f ≡ f r.0)
unfolding then_on
then_on-eq-ok (disk, ok a) f b h = (a, refl, refl)
then_on-eq-ok (disk, err e) f b h = absurd (ground (arith, h))

then_on-kept :
    {A B : Type 0} (r : Disk × Result String A) (f : Disk → Disk × Result String B)
    → ((d : Disk) → (f d).0 ≡ d)
    → (then_on r f).0 ≡ r.0
unfolding then_on
then_on-kept (disk, ok a) f h = h disk
then_on-kept (disk, err e) f h = refl

module _ (root_dir : String) where
  get_local-disk :
      (io : FileOutcomes) (r : Reference) (disk : Disk) → (get_local root_dir io r disk).0 ≡ disk
  unfolding get_local
  get_local-disk io r disk = elim (Option-cases (lookup (pull_path root_dir r) disk.modules)) [
    | inl l ↦ ground (arith, l)
    | inr (layer, l) ↦ ground (arith, l, Result-cases io.module_read)
  ]

  store-module :
      (io : FileOutcomes) (r : Reference) (image : ImageData) (disk : Disk)
      → (store root_dir io r image disk).1 ≡ ok tt
      → (layer : ImageLayer) × (rest : List ImageLayer) × (image.layers ≡ (layer ∷ rest))
        × (lookup (pull_path root_dir r) (store root_dir io r image disk).0.modules
            ≡ some layer.layer_data)
  unfolding store
  store-module io r image disk h =
      let (u, e, same) = then_on-eq-ok (disk, io.created) _ tt h in
      let h' = subst (λ (o : Disk × Result String (Unit {0})). o.1 ≡ ok tt) same h in
      let (v, e', same') = then_on-eq-ok (remove_digest io (pull_path root_dir r) disk) _ tt h' in
      let (layer, rest, q, at) =
        write_image-module io (pull_path root_dir r) image
          (remove_digest io (pull_path root_dir r) disk).0
          (subst (λ (o : Disk × Result String (Unit {0})). o.1 ≡ ok tt) same' h') in
      (
        layer,
        rest,
        q,
        subst
            (λ (o : Disk × Result String (Unit {0})).
              lookup (pull_path root_dir r) o.0.modules ≡ some layer.layer_data)
            (sym (same ∙ same')) at,
      )

  pub get_local-module :
      (io : FileOutcomes) (r : Reference) (disk : Disk) (layer : Layer)
      → (get_local root_dir io r disk).1 ≡ ok layer
      → lookup (pull_path root_dir r) disk.modules ≡ some layer
  unfolding get_local
  get_local-module io r disk layer h = ground (
    arith,
    h,
    Option-cases (lookup (pull_path root_dir r) disk.modules),
    Result-cases io.module_read,
  )

  is_present_with_digest-lookup :
      (io : FileOutcomes) (r : Reference) (digest : String) (disk : Disk)
      → is_present_with_digest root_dir io r digest disk ≡ true
      → lookup (pull_path root_dir r) disk.digests ≡ some digest
  unfolding is_present_with_digest
  is_present_with_digest-lookup io r digest disk h =
      elim (Option-cases (lookup (pull_path root_dir r) disk.digests)) [
        | inl l ↦ absurd (ground (arith, h, l))
        | inr (text, l) ↦ ground (arith, h, l, Result-cases io.digest_read, str_eq_iff text digest)
      ]

  module _ (fetch_digest : Reference → Result String String)
      (pull_image : Reference → Result String ImageData) (io : FileOutcomes) where
    pull-cases :
        (r : Reference) (disk : Disk)
        → ((m : String) × (pull root_dir fetch_digest pull_image io r disk ≡ (disk, err m)))
          ⊎ ((image : ImageData) × (pull_image r ≡ ok image)
              × (pull root_dir fetch_digest pull_image io r disk ≡ store root_dir io r image disk))
    unfolding pull
    pull-cases r disk = elim (Result-cases (pull_image r)) [
      | inl (image, e) ↦ inr (image, e, ground (arith, e))
      | inr (m, e) ↦ inl (m, ground (arith, e))
    ]

    -- Either the disk is left, or an image is pulled and stored.
    ensure-cases :
        (policy : PullPolicy) (r : Reference) (disk : Disk)
        → ((ensure root_dir fetch_digest pull_image io policy r disk).0 ≡ disk)
          ⊎ ((image : ImageData) × (pull_image r ≡ ok image)
              × (ensure root_dir fetch_digest pull_image io policy r disk
                  ≡ store root_dir io r image disk))
    unfolding ensure
    ensure-cases always r disk = elim (Result-cases (fetch_digest r)) [
      | inr (m, e) ↦ inl (ground (arith, e))
      | inl (digest, e) ↦ elim (Bool-cases (is_present_with_digest root_dir io r digest disk)) [
        | inl i ↦ inl (ground (arith, e, i))
        | inr i ↦ elim (pull-cases r disk) [
          | inl (m, p) ↦ inl (ground (arith, e, i, p))
          | inr (image, q, p) ↦ inr (image, q, ground (arith, e, i, p))
        ]
      ]
    ]
    ensure-cases if_not_present r disk = elim (Bool-cases (is_present root_dir r disk)) [
      | inl i ↦ inl (ground (arith, i))
      | inr i ↦ elim (pull-cases r disk) [
        | inl (m, p) ↦ inl (ground (arith, i, p))
        | inr (image, q, p) ↦ inr (image, q, ground (arith, i, p))
      ]
    ]
    ensure-cases never r disk = inl refl

    pub get-disk :
        (policy : PullPolicy) (r : Reference) (disk : Disk)
        → (get root_dir fetch_digest pull_image io policy r disk).0
          ≡ (ensure root_dir fetch_digest pull_image io policy r disk).0
    unfolding get
    get-disk policy r disk =
        then_on-kept (ensure root_dir fetch_digest pull_image io policy r disk) _
          (get_local-disk io r)

  module _ (IsDigestText : String → Type 0) (Published : String → Layer → Type 0)
      (fetch_digest : Reference → Result String String)
      (pull_image : Reference → Result String ImageData)
      (honest : (r : Reference) (image : ImageData)
        → pull_image r ≡ ok image
        → IsHonest IsDigestText Published image)
      (io : FileOutcomes) (torn : IsTorn IsDigestText Published io) where
    ensure-IsLabelled :
        (policy : PullPolicy) (r : Reference) (disk : Disk)
        → IsLabelled IsDigestText Published disk
        → IsLabelled IsDigestText Published
            (ensure root_dir fetch_digest pull_image io policy r disk).0
    ensure-IsLabelled policy r disk h =
        elim (ensure-cases fetch_digest pull_image io policy r disk) [
          | inl same ↦ subst (λ (d : Disk). IsLabelled IsDigestText Published d) (sym same) h
          | inr (image, e, same) ↦
              subst (λ (o : Disk × Result String (Unit {0})). IsLabelled IsDigestText Published o.0)
                (sym same)
                (store-IsLabelled IsDigestText Published root_dir io r image disk torn
                  (honest r image e) h)
        ]

    -- With any pull policy, whichever file operations fail: where the registry's images are honest, and
    -- a digest that was written in part is no digest, a disk whose digest files name their modules is
    -- left as one.
    pub get-IsLabelled :
        (policy : PullPolicy) (r : Reference) (disk : Disk)
        → IsLabelled IsDigestText Published disk
        → IsLabelled IsDigestText Published
            (get root_dir fetch_digest pull_image io policy r disk).0
    get-IsLabelled policy r disk h =
        subst (λ (d : Disk). IsLabelled IsDigestText Published d)
          (sym (get-disk fetch_digest pull_image io policy r disk))
          (ensure-IsLabelled policy r disk h)

  module _ (IsDigestText : String → Type 0) (Published : String → Layer → Type 0)
      (fetch_digest : Reference → Result String String)
      (pull_image : Reference → Result String ImageData) (io : FileOutcomes) where
    -- What `get` returns with the policy `Always` was published under the digest that the registry
    -- answered in this call, or is the first layer of the image that it sent in this call. It is
    -- assumed that every digest file of the disk that holds a digest has a module beside it that was
    -- published under that digest, and that the answered text is a digest.
    pub get_always :
        (r : Reference) (disk : Disk) (digest : String) (layer : Layer)
        → IsLabelled IsDigestText Published disk
        → fetch_digest r ≡ ok digest
        → IsDigestText digest
        → (get root_dir fetch_digest pull_image io always r disk).1 ≡ ok layer
        → Published digest layer
          ⊎ ((image : ImageData) × (first : ImageLayer) × (rest : List ImageLayer) × (pull_image r
                ≡ ok image)
              × (image.layers ≡ (first ∷ rest))
              × (first.layer_data ≡ layer))
    unfolding get ensure
    get_always r disk digest layer h f d g =
        let (u, e, same) =
          then_on-eq-ok (ensure root_dir fetch_digest pull_image io always r disk) _ layer g in
        let at =
          get_local-module io r (ensure root_dir fetch_digest pull_image io always r disk).0 layer
            (subst (λ (o : Disk × Result String Layer). o.1 ≡ ok layer) same g) in
        elim (Bool-cases (is_present_with_digest root_dir io r digest disk)) [
          | inl i ↦
              let (layer', at', published) =
                h (pull_path root_dir r) digest (is_present_with_digest-lookup io r digest disk i)
                  d in
              inl (
                subst (λ (l : Layer). Published digest l)
                  (some-injective (ground (arith, at, at', f, i))) published)
          | inr i ↦ elim (pull-cases fetch_digest pull_image io r disk) [
            | inl (m, p) ↦ absurd (ground (arith, e, p, f, i))
            | inr (image, q, p) ↦
                let (layer', rest, l, at') =
                  store-module io r image disk (ground (arith, e, p, f, i)) in
                inr (image, layer', rest, q, l, some-injective (ground (arith, at, at', f, i, p)))
          ]
        ]
