-- ===== src/Volume/Files/Mounted.antt =====
-- What a volume of files leaves on the node: while it is mounted, and when it is unmounted again.
use krustlet.Prelude.{
  String, ◌<>◌, ◌≡◌, refl, sym, ap, ◌∙◌, inl, inr, Bool, true, false, Option, none, some, List, [],
  ◌∷◌, ◌++◌, arith, if◌then◌else◌, Bool-cases, Result-cases, ◌==◌, nat_eq, string_eq, str_eq_iff,
  ==_ne, ok, ◌>>◌, All, then-eq-ok, ◌≢◌, Option-cases,
}
use krustlet.Prelude.Dict.{Dict, lookup, insert, extend, NodupKeys, lookup-insert, lookup-extend}
use text.Mathlib.Text.{starts_with}
use text.Mathlib.TextEquality.{starts_with_iff}
use text.Mathlib.TextLemmas.{append_assoc}
use krustlet.Prelude.Text.{join, ends_with_char}
use krustlet.Volume.{
  KeyToPath, KeyedVolume, ConfigMap, Cluster, NodeFiles, WriteOutcome, written, unwritten,
  FileSystem, ItemMount, mount_at, do_not_mount, mount_setting_for,
}
use krustlet.Volume.Files.Entries.{
  config_map_files, PutsAt, HasData, lookup-HasEntry, HasEntry-lookup, config_map_files-HasData,
  HasData-config_map_files,
}
use krustlet.Volume.Files.{
  placed, files_of, write_file, write_files, mount_files, or_empty, mount_config_map, remove_dir,
  unmount_keyed,
}

-- The file is below the directory.
abbrev pub below : String → String → Bool
below dir path = starts_with path (dir <> "/")

-- A directory's path as `join` makes it: not empty, and without a slash at its end.
abbrev pub IsDir : String → Type 0
IsDir dir = ((dir == "") ≡ false) × (ends_with_char b'/' dir ≡ false)

abbrev IsRelativeMount : ItemMount → Type 0
IsRelativeMount (mount_at path) = starts_with path "/" ≡ false
IsRelativeMount do_not_mount = Unit

-- The keys of the data are mounted at relative paths.
abbrev pub AreRelative : Option (List KeyToPath) → Dict String String → Type 0
AreRelative items contents =
    All (λ entry. IsRelativeMount (mount_setting_for entry.0 items)) contents

join-relative :
    (dir path : String)
    → IsDir dir
    → starts_with path "/" ≡ false
    → dir <> ("/" <> path) ≡ join dir path
unfolding join
join-relative dir path (some_dir, no_slash) relative = ground (arith, some_dir, no_slash, relative)

below-join :
    (dir path : String)
    → IsDir dir
    → starts_with path "/" ≡ false
    → below dir (join dir path) ≡ true
below-join dir path d relative =
    (starts_with_iff (join dir path) (dir <> "/")).1
      (path, append_assoc dir "/" path ∙ join-relative dir path d relative)

abbrev AreBelow : String → List (String × String) → Type 0
AreBelow dir contents = All (λ file. below dir file.0 ≡ true) contents

placed-AreBelow :
    (dir : String) (m : ItemMount) (content : String) (rest : List (String × String))
    → IsDir dir
    → IsRelativeMount m
    → AreBelow dir rest
    → AreBelow dir (placed m dir content rest)
placed-AreBelow dir (mount_at path) content rest d h hs = (below-join dir path d h, hs)
placed-AreBelow dir do_not_mount content rest d h hs = hs

files_of-AreBelow :
    (dir : String) (items : Option (List KeyToPath)) (contents : Dict String String)
    → IsDir dir
    → AreRelative items contents
    → AreBelow dir (files_of dir items contents)
unfolding files_of
files_of-AreBelow dir items [] d h = tt
files_of-AreBelow dir items ((key, content) ∷ contents) d (h, hs) =
    placed-AreBelow dir (mount_setting_for key items) content (files_of dir items contents) d h
      (files_of-AreBelow dir items contents d hs)

AreBelow-append :
    (dir : String) (xs ys : List (String × String))
    → AreBelow dir xs
    → AreBelow dir ys
    → AreBelow dir (xs ++ ys)
AreBelow-append dir [] ys h k = k
AreBelow-append dir (x ∷ xs) ys (h, hs) k = (h, AreBelow-append dir xs ys hs k)

write_file-ok :
    (outcome : WriteOutcome) (path content : String) (files : NodeFiles)
    → (write_file outcome path content files).1 ≡ ok tt
    → (write_file outcome path content files).0 ≡ insert path content files
unfolding write_file
write_file-ok written path content files h = refl
write_file-ok (unwritten e none) path content files h = cc
write_file-ok (unwritten e (some other)) path content files h = cc

write_files-ok :
    (fs : FileSystem) (contents : List (String × String)) (files : NodeFiles)
    → (write_files fs contents files).1 ≡ ok tt
    → (write_files fs contents files).0 ≡ extend files contents
unfolding write_files extend
write_files-ok fs [] files h = refl
write_files-ok fs ((path, content) ∷ more) files h =
    let (first, rest) = then-eq-ok (write_file (fs.write_outcome path) path content files).1 h in
    write_files-ok fs more (write_file (fs.write_outcome path) path content files).0 rest
    ∙ ap (λ d. extend d more) (write_file-ok (fs.write_outcome path) path content files first)

lookup-remove_dir :
    (dir p : String) (files : NodeFiles)
    → lookup p (remove_dir (λ path. false) dir files)
      ≡ (if below dir p then none else lookup p files)
unfolding remove_dir lookup
lookup-remove_dir dir p [] = ground arith
lookup-remove_dir dir p ((path, content) ∷ files) =
    ground (arith, lookup-remove_dir dir p files, str_eq_iff path p)

-- A file that is elsewhere is as before.
lookup-extend_elsewhere :
    (dir p : String) (files contents : NodeFiles)
    → AreBelow dir contents
    → below dir p ≡ false
    → lookup p (extend files contents) ≡ lookup p files
unfolding extend
lookup-extend_elsewhere dir p files [] h e = refl
lookup-extend_elsewhere dir p files ((path, content) ∷ contents) (h, hs) e =
    let other : (path == p) ≡ false = ==_ne path p (λ q. ground (arith, h, e, q)) in
    lookup-extend_elsewhere dir p (insert path content files) contents hs e
    ∙ ground (arith, lookup-insert path p content files, other)

-- A mount that succeeds: what it wrote, and where.
mount_files-ok :
    (fs : FileSystem) (path : String) (contents : List (String × String)) (v : KeyedVolume)
    (files : NodeFiles)
    → (mount_files fs path contents v files).1.1 ≡ ok tt
    → ((mount_files fs path contents v files).0 ≡ extend files contents)
      × ((mount_files fs path contents v files).1.0 ≡ record v { mounted_path = some path })
unfolding mount_files
mount_files-ok fs path contents v files h = elim (Result-cases (fs.created path)) [
  | inr (e, q) ↦ absurd (ground (arith, q, h))
  | inl (_, q) ↦ elim (Result-cases ((write_files fs contents files).1 >> fs.set_readonly path)) [
    | inr (e, q') ↦ absurd (ground (arith, q, q', h))
    | inl (_, q') ↦
        let (wrote, _) = then-eq-ok (write_files fs contents files).1 q' in
        (ground (arith, q, q', write_files-ok fs contents files wrote), ground (arith, q, q'))
  ]
]

lookup-unmount_keyed :
    (fs : FileSystem) (path p : String) (v : KeyedVolume) (files contents : NodeFiles)
    → fs.removed path ≡ ok tt
    → AreBelow path contents
    → lookup p (unmount_keyed fs (record v { mounted_path = some path }) (extend files contents)).0
      ≡ (if below path p then none else lookup p files)
unfolding unmount_keyed
lookup-unmount_keyed fs path p v files contents r h = elim (Bool-cases (below path p)) [
  | inl e ↦ ground (arith, r, e, lookup-remove_dir path p (extend files contents))
  | inr e ↦ ground (
    arith,
    r,
    e,
    lookup-remove_dir path p (extend files contents),
    lookup-extend_elsewhere path p files contents h e,
  )
]

abbrev else_before : Option String → Option String → Option String
else_before before none = before
else_before before (some content) = some content

or_before :
    (before : Option String) {o : Option String} {content : String}
    → o ≡ some content
    → else_before before o ≡ some content
or_before before e = ap (else_before before) e

mount_config_map-unmounted :
    (cluster : Cluster) (fs : FileSystem) (base_path p : String) (v : KeyedVolume) (cm : ConfigMap)
    (files : NodeFiles)
    → cluster.config_map v.source_name ≡ ok cm
    → IsDir (join base_path v.vol_name)
    → AreRelative v.items (or_empty cm.binary_data)
    → AreRelative v.items (or_empty cm.text_data)
    → NodupKeys (config_map_files (join base_path v.vol_name) v cm)
    → (mount_config_map cluster fs base_path v files).1.1 ≡ ok tt
    → fs.removed (join base_path v.vol_name) ≡ ok tt
    → (lookup p (mount_config_map cluster fs base_path v files).0
        ≡ else_before
            (lookup p files)
            (lookup p (config_map_files (join base_path v.vol_name) v cm)))
      × (lookup p
            (unmount_keyed fs
              (mount_config_map cluster fs base_path v files).1.0
              (mount_config_map cluster fs base_path v files).0).0
          ≡ (if below (join base_path v.vol_name) p then none else lookup p files))
unfolding mount_config_map
mount_config_map-unmounted cluster fs base_path p v cm files found d binary text distinct h r =
    let path : String = join base_path v.vol_name in
    let contents : List (String × String) = config_map_files path v cm in
    let same : mount_config_map cluster fs base_path v files
        ≡ mount_files fs path contents v files =
      ground (arith, found) in
    let (wrote, mounted) =
      mount_files-ok fs path contents v files (ap (λ m. m.1.1) (sym same) ∙ h) in
    let below_dir : AreBelow path contents =
      AreBelow-append path _ _ (files_of-AreBelow path v.items (or_empty cm.binary_data) d binary)
        (files_of-AreBelow path v.items (or_empty cm.text_data) d text) in
    (
      ap (λ m. lookup p m.0) same ∙ ap (lookup p) wrote ∙ lookup-extend p files contents distinct,
      ap (λ m. lookup p (unmount_keyed fs m.1.0 m.0).0) same
          ∙ ap (λ f. lookup p (unmount_keyed fs (mount_files fs path contents v files).1.0 f).0)
              wrote
          ∙ ap (λ u. lookup p (unmount_keyed fs u (extend files contents)).0) mounted
          ∙ lookup-unmount_keyed fs path p v files contents r below_dir,
    )

-- A config map that is mounted without an error, the paths of its files relative and different. A key
-- of its data, text or binary, is put at its own name, or at the path of the first item for it where
-- the volume has items: each file there has the content of its key, and every other file is as before.
-- When the volume is unmounted and the directory's removal has no error, nothing is left below the
-- directory, and the files elsewhere are those from before the mount.
pub mount_config_map-unmount_keyed :
    (cluster : Cluster) (fs : FileSystem) (base_path : String) (v : KeyedVolume) (cm : ConfigMap)
    (files : NodeFiles)
    → cluster.config_map v.source_name ≡ ok cm
    → IsDir (join base_path v.vol_name)
    → AreRelative v.items (or_empty cm.binary_data)
    → AreRelative v.items (or_empty cm.text_data)
    → NodupKeys (config_map_files (join base_path v.vol_name) v cm)
    → (mount_config_map cluster fs base_path v files).1.1 ≡ ok tt
    → fs.removed (join base_path v.vol_name) ≡ ok tt
    → ((key content path : String)
        → HasData cm key content
        → PutsAt v.items key path
        → lookup
            (join (join base_path v.vol_name) path)
            (mount_config_map cluster fs base_path v files).0
          ≡ some content)
      × ((p : String)
          → ((key content path : String)
              → HasData cm key content
              → PutsAt v.items key path
              → p ≢ join (join base_path v.vol_name) path)
          → lookup p (mount_config_map cluster fs base_path v files).0 ≡ lookup p files)
      × ((p : String)
          → lookup p
              (unmount_keyed fs
                (mount_config_map cluster fs base_path v files).1.0
                (mount_config_map cluster fs base_path v files).0).0
            ≡ (if below (join base_path v.vol_name) p then none else lookup p files))
mount_config_map-unmount_keyed cluster fs base_path v cm files found d binary text distinct h r =
    let dir : String = join base_path v.vol_name in
    let whole : (p : String) → _ = λ p.
      mount_config_map-unmounted cluster fs base_path p v cm files found d binary text distinct h
        r in
    (
      λ key content path there at.
          (whole (join dir path)).0
          ∙ or_before (lookup (join dir path) files) (
              HasEntry-lookup (config_map_files dir v cm) (join dir path) content distinct
                (config_map_files-HasData dir v cm key content path there at)),
      λ p apart. elim (Option-cases (lookup p (config_map_files dir v cm))) [
        | inl e ↦ (whole p).0 ∙ rw e refl
        | inr (content, e) ↦
            let (key, path, there, at, same) =
              HasData-config_map_files dir v cm p content
                (lookup-HasEntry (config_map_files dir v cm) p content e) in
            absurd (apart key content path there at same)
      ],
      λ p. (whole p).1,
    )
