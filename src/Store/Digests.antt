-- ===== src/Store/Digests.antt =====
-- The digest files of the store.
use krustlet.Store.{
  Layer, Disk, FileOutcomes, pull_path, leave, write_digest, write_image, remove_digest, then_on,
  store,
}
use krustlet.Prelude.{
  List-cases, String, true, Option, none, some, List, ◌∷◌, Result, ok, err, ◌==◌, string_eq,
  str_eq_iff, ◌≡◌, inl, inr, Option-cases, Bool-cases, Result-cases, arith, refl, subst, sym,
  some-injective,
}
use krustlet.Prelude.Dict.{lookup, insert, remove, lookup-insert, lookup-remove}
use krustlet.Reference.{Reference}
use krustlet.Registry.Types.{ImageLayer, ImageData}

-- What is a digest, and which layer was published under one.
module _ (IsDigestText : String → Type 0) (Published : String → Layer → Type 0) where
  -- A directory whose digest file holds a digest has a module that was published under it.
  abbrev pub IsLabelled : Disk → Type 0
  IsLabelled disk =
      (path d : String)
      → lookup path disk.digests ≡ some d
      → IsDigestText d
      → (layer : Layer) × (lookup path disk.modules ≡ some layer) × Published d layer

  -- The registry's image has a layer that was published under its digest.
  abbrev pub IsHonest : ImageData → Type 0
  IsHonest image =
      (layer : ImageLayer) (rest : List ImageLayer) (d : String)
      → image.layers ≡ (layer ∷ rest)
      → image.digest ≡ some d
      → Published d layer.layer_data

  -- A digest that was only written in part is no digest.
  abbrev pub IsTorn : FileOutcomes → Type 0
  IsTorn io = (text : String) → io.digest_left ≡ some text → ¬ IsDigestText text

  to-IsLabelled : {d d' : Disk} → d ≡ d' → IsLabelled d' → IsLabelled d
  to-IsLabelled same h = subst (λ (d : Disk). IsLabelled d) (sym same) h

  module-IsLabelled :
      (path : String) (content : Layer) (disk : Disk)
      → lookup path disk.digests ≡ none
      → IsLabelled disk
      → IsLabelled (record disk { modules = insert path content disk.modules })
  module-IsLabelled path content disk gone h p d found is_digest =
      let (layer, at, published) = h p d found is_digest in
      (
        layer,
        ground
            (arith, gone, found, at, lookup-insert path p content disk.modules, str_eq_iff path p),
        published,
      )

  digest-IsLabelled :
      (path text : String) (layer : Layer) (disk : Disk)
      → lookup path disk.modules ≡ some layer
      → (IsDigestText text → Published text layer)
      → IsLabelled disk
      → IsLabelled (record disk { digests = insert path text disk.digests })
  digest-IsLabelled path text layer disk at published h p d found is_digest =
      elim (Bool-cases (path == p)) [
        | inl e ↦ (
          layer,
          ground (arith, at, (str_eq_iff path p).0 e),
          subst (λ (t : String). Published t layer) (same e)
              (published (subst (λ (t : String). IsDigestText t) (sym (same e)) is_digest)),
        )
        | inr e ↦ h p d (ground (arith, found, e, lookup-insert path p text disk.digests)) is_digest
      ]
    where
      same : (path == p) ≡ true → text ≡ d
      same e = some-injective (ground (arith, found, e, lookup-insert path p text disk.digests))

  leave_module-IsLabelled :
      (path : String) (left : Option Layer) (disk : Disk)
      → lookup path disk.digests ≡ none
      → IsLabelled disk
      → IsLabelled (record disk { modules = leave path left disk.modules })
  unfolding leave
  leave_module-IsLabelled path none disk gone h = h
  leave_module-IsLabelled path (some content) disk gone h =
      module-IsLabelled path content disk gone h

  write_digest-IsLabelled :
      (io : FileOutcomes) (path : String) (digest : Option String) (layer : Layer) (disk : Disk)
      → IsTorn io
      → lookup path disk.modules ≡ some layer
      → ((d : String) → digest ≡ some d → Published d layer)
      → IsLabelled disk
      → IsLabelled (write_digest io path digest disk).0
  unfolding write_digest leave
  write_digest-IsLabelled io path none layer disk torn at published h = h
  write_digest-IsLabelled io path (some d) layer disk torn at published h =
      elim (Result-cases io.digest_written) [
        | inl (u, e) ↦ rw e (digest-IsLabelled path d layer disk at (λ _. published d refl) h)
        | inr (m, e) ↦ rw e (elim (Option-cases io.digest_left) [
          | inl l ↦ rw l h
          | inr (t, l) ↦ rw l (digest-IsLabelled path t layer disk at (λ i. absurd (torn t l i)) h)
        ])
      ]

  write_image-IsLabelled :
      (io : FileOutcomes) (path : String) (image : ImageData) (disk : Disk)
      → IsTorn io
      → IsHonest image
      → lookup path disk.digests ≡ none
      → IsLabelled disk
      → IsLabelled (write_image io path image disk).0
  unfolding write_image
  write_image-IsLabelled io path image disk torn honest gone h = elim (List-cases image.layers) [
    | inl q ↦ to-IsLabelled (ground (arith, q)) h
    | inr (layer, rest, q) ↦ elim (Result-cases io.module_written) [
      | inl (u, e) ↦ to-IsLabelled (ground (arith, q, e)) (
          write_digest-IsLabelled io path image.digest layer.layer_data
            (record disk { modules = insert path layer.layer_data disk.modules }) torn
            (ground
              (arith, lookup-insert path path layer.layer_data disk.modules, str_eq_iff path path))
            (λ d p. honest layer rest d q p) (module-IsLabelled path layer.layer_data disk gone h))
      | inr (m, e) ↦
          to-IsLabelled (ground (arith, q, e))
            (leave_module-IsLabelled path io.module_left disk gone h)
    ]
  ]

  gone-IsLabelled :
      (path : String) (disk : Disk)
      → IsLabelled disk
      → IsLabelled (record disk { digests = remove path disk.digests })
  gone-IsLabelled path disk h p d found =
      h p d (ground (arith, found, lookup-remove path p disk.digests))

  remove_digest-IsLabelled :
      (io : FileOutcomes) (path : String) (disk : Disk)
      → IsLabelled disk
      → IsLabelled (remove_digest io path disk).0
        × ((remove_digest io path disk).1 ≡ ok tt
            → lookup path (remove_digest io path disk).0.digests ≡ none)
  unfolding remove_digest
  remove_digest-IsLabelled io path disk h = elim (Option-cases (lookup path disk.digests)) [
    | inl l ↦ (to-IsLabelled (ground (arith, l)) h, λ _. ground (arith, l))
    | inr (d, l) ↦ elim (Result-cases io.removed) [
      | inl (u, e) ↦ (
        to-IsLabelled (ground (arith, l, e)) (gone-IsLabelled path disk h),
        λ _. ground (arith, l, e, lookup-remove path path disk.digests, str_eq_iff path path),
      )
      | inr (m, e) ↦ (to-IsLabelled (ground (arith, l, e)) h, λ q. absurd (ground (arith, q, l, e)))
    ]
  ]

  then_on-IsLabelled :
      {A B : Type 0} (r : Disk × Result String A) (f : Disk → Disk × Result String B)
      → IsLabelled r.0
      → ((a : A) → r.1 ≡ ok a → IsLabelled (f r.0).0)
      → IsLabelled (then_on r f).0
  unfolding then_on
  then_on-IsLabelled (disk, ok a) f h g = g a refl
  then_on-IsLabelled (disk, err e) f h g = h

  module _ (root_dir : String) where
    pub store-IsLabelled :
        (io : FileOutcomes) (r : Reference) (image : ImageData) (disk : Disk)
        → IsTorn io
        → IsHonest image
        → IsLabelled disk
        → IsLabelled (store root_dir io r image disk).0
    unfolding store
    store-IsLabelled io r image disk torn honest h =
        then_on-IsLabelled (disk, io.created) _ h
          (λ _ _.
            let (kept, gone) = remove_digest-IsLabelled io (pull_path root_dir r) disk h in
            then_on-IsLabelled (remove_digest io (pull_path root_dir r) disk) _ kept (λ u e.
              write_image-IsLabelled io (pull_path root_dir r) image
                (remove_digest io (pull_path root_dir r) disk).0 torn honest (gone e) kept))
