-- ===== src/Volume/Files/Entries.antt =====
-- The data of a volume of files, and where its items put it.
use krustlet.Prelude.{
  String, ◌≡◌, refl, sym, inl, inr, true, false, Option, none, some, List, [], ◌∷◌, ◌++◌, arith,
  Bool-cases, ◌==◌, nat_eq, string_eq, str_eq_iff, ◌⊎◌, ◌↔◌, ◌≢◌,
}
use krustlet.Prelude.Dict.{Dict, lookup, NodupKeys}
use krustlet.Prelude.Text.{join}
use krustlet.Volume.{
  KeyToPath, KeyedVolume, ConfigMap, ItemMount, mount_at, do_not_mount, mount_setting_for,
  find_item,
}
use krustlet.Volume.Files.{placed, files_of, or_empty}

-- The files that a config map becomes.
abbrev pub config_map_files : String → KeyedVolume → ConfigMap → List (String × String)
config_map_files path v cm =
    files_of path v.items (or_empty cm.binary_data) ++ files_of path v.items (or_empty cm.text_data)

-- An entry of some data.
abbrev pub HasEntry : Dict String String → String → String → Type 0
HasEntry [] key content = true ≡ false
HasEntry ((k, c) ∷ d) key content = ((k ≡ key) × (c ≡ content)) ⊎ HasEntry d key content

-- The first of the items for a key puts it at its path.
abbrev pub FirstPutsAt : List KeyToPath → String → String → Type 0
FirstPutsAt [] key path = true ≡ false
FirstPutsAt (item ∷ items) key path =
    ((item.key ≡ key) × (item.path ≡ path)) ⊎ ((item.key ≢ key) × FirstPutsAt items key path)

-- Without items every key is put at its own name.
abbrev pub PutsAt : Option (List KeyToPath) → String → String → Type 0
PutsAt none key path = key ≡ path
PutsAt (some items) key path = FirstPutsAt items key path

find_item-FirstPutsAt :
    (items : List KeyToPath) (key path : String)
    → FirstPutsAt items key path ↔ (find_item key items ≡ mount_at path)
unfolding find_item
find_item-FirstPutsAt [] key path = ground arith
find_item-FirstPutsAt (item ∷ items) key path = ground (
  arith,
  find_item-FirstPutsAt items key path,
  str_eq_iff item.key key,
  Bool-cases (item.key == key),
)

mount_setting_for-PutsAt :
    (items : Option (List KeyToPath)) (key path : String)
    → PutsAt items key path ↔ (mount_setting_for key items ≡ mount_at path)
unfolding mount_setting_for
mount_setting_for-PutsAt none key path = ground arith
mount_setting_for-PutsAt (some items) key path = find_item-FirstPutsAt items key path

HasEntry-left :
    (d d' : Dict String String) (key content : String)
    → HasEntry d key content
    → HasEntry (d ++ d') key content
HasEntry-left [] d' key content h = absurd (ground (arith, h))
HasEntry-left ((k, c) ∷ d) d' key content (inl h) = inl h
HasEntry-left ((k, c) ∷ d) d' key content (inr h) = inr (HasEntry-left d d' key content h)

HasEntry-right :
    (d d' : Dict String String) (key content : String)
    → HasEntry d' key content
    → HasEntry (d ++ d') key content
HasEntry-right [] d' key content h = h
HasEntry-right ((k, c) ∷ d) d' key content h = inr (HasEntry-right d d' key content h)

HasEntry-append :
    (d d' : Dict String String) (key content : String)
    → HasEntry (d ++ d') key content
    → HasEntry d key content ⊎ HasEntry d' key content
HasEntry-append [] d' key content h = inr h
HasEntry-append ((k, c) ∷ d) d' key content (inl h) = inl (inl h)
HasEntry-append ((k, c) ∷ d) d' key content (inr h) = elim (HasEntry-append d d' key content h) [
  | inl here ↦ inl (inr here)
  | inr there ↦ inr there
]

pub lookup-HasEntry :
    (d : Dict String String) (key content : String)
    → lookup key d ≡ some content
    → HasEntry d key content
unfolding lookup
lookup-HasEntry [] key content h = absurd (ground (arith, h))
lookup-HasEntry ((k, c) ∷ d) key content h = elim (Bool-cases (k == key)) [
  | inl e ↦ inl ((str_eq_iff k key).0 e, ground (arith, h, e))
  | inr e ↦ inr (lookup-HasEntry d key content (ground (arith, h, e)))
]

pub HasEntry-lookup :
    (d : Dict String String) (key content : String)
    → NodupKeys d
    → HasEntry d key content
    → lookup key d ≡ some content
unfolding lookup
HasEntry-lookup [] key content u h = absurd (ground (arith, h))
HasEntry-lookup ((k, c) ∷ d) key content (free, u) (inl (e, e')) =
    ground (arith, e', (str_eq_iff k key).1 e)
HasEntry-lookup ((k, c) ∷ d) key content (free, u) (inr h) =
    let later : lookup key d ≡ some content = HasEntry-lookup d key content u h in
    elim (Bool-cases (k == key)) [
      | inl e ↦ absurd (ground (arith, free, later, (str_eq_iff k key).0 e))
      | inr e ↦ ground (arith, later, e)
    ]

placed-HasEntry :
    (dir : String) (m : ItemMount) (c : String) (rest : Dict String String) (p content : String)
    → HasEntry rest p content
    → HasEntry (placed m dir c rest) p content
placed-HasEntry dir (mount_at path) c rest p content h = inr h
placed-HasEntry dir do_not_mount c rest p content h = h

HasEntry-placed :
    (dir : String) (m : ItemMount) (c : String) (rest : Dict String String) (p content : String)
    → HasEntry (placed m dir c rest) p content
    → ((path : String) × (m ≡ mount_at path) × (p ≡ join dir path) × (c ≡ content))
      ⊎ HasEntry rest p content
HasEntry-placed dir (mount_at path) c rest p content (inl (e, e')) = inl (path, refl, sym e, e')
HasEntry-placed dir (mount_at path) c rest p content (inr h) = inr h
HasEntry-placed dir do_not_mount c rest p content h = inr h

files_of-HasEntry :
    (dir : String) (items : Option (List KeyToPath)) (d : Dict String String)
    (key content path : String)
    → HasEntry d key content
    → PutsAt items key path
    → HasEntry (files_of dir items d) (join dir path) content
unfolding files_of
files_of-HasEntry dir items [] key content path h at = absurd (ground (arith, h))
files_of-HasEntry dir items ((k, c) ∷ d) key content path (inl (e, e')) at =
    rw (e, (mount_setting_for-PutsAt items key path).0 at) (inl (refl, e'))
files_of-HasEntry dir items ((k, c) ∷ d) key content path (inr h) at =
    placed-HasEntry dir (mount_setting_for k items) c (files_of dir items d) (join dir path) content
      (files_of-HasEntry dir items d key content path h at)

HasEntry-files_of :
    (dir : String) (items : Option (List KeyToPath)) (d : Dict String String) (p content : String)
    → HasEntry (files_of dir items d) p content
    → (key : String) × (path : String) × HasEntry d key content
      × PutsAt items key path
      × (p ≡ join dir path)
unfolding files_of
HasEntry-files_of dir items [] p content h = absurd (ground (arith, h))
HasEntry-files_of dir items ((k, c) ∷ d) p content h =
    elim (HasEntry-placed dir (mount_setting_for k items) c (files_of dir items d) p content h) [
      | inl (path, m, e, e') ↦
          (k, path, inl (refl, e'), (mount_setting_for-PutsAt items k path).1 m, e)
      | inr later ↦
          let (key, path, there, at, e) = HasEntry-files_of dir items d p content later in
          (key, path, inr there, at, e)
    ]

-- The data of a config map, binary or text.
abbrev pub HasData : ConfigMap → String → String → Type 0
HasData cm key content =
    HasEntry (or_empty cm.binary_data) key content ⊎ HasEntry (or_empty cm.text_data) key content

pub config_map_files-HasData :
    (dir : String) (v : KeyedVolume) (cm : ConfigMap) (key content path : String)
    → HasData cm key content
    → PutsAt v.items key path
    → HasEntry (config_map_files dir v cm) (join dir path) content
config_map_files-HasData dir v cm key content path (inl h) at =
    HasEntry-left (files_of dir v.items (or_empty cm.binary_data))
      (files_of dir v.items (or_empty cm.text_data)) (join dir path) content
      (files_of-HasEntry dir v.items (or_empty cm.binary_data) key content path h at)
config_map_files-HasData dir v cm key content path (inr h) at =
    HasEntry-right (files_of dir v.items (or_empty cm.binary_data))
      (files_of dir v.items (or_empty cm.text_data)) (join dir path) content
      (files_of-HasEntry dir v.items (or_empty cm.text_data) key content path h at)

pub HasData-config_map_files :
    (dir : String) (v : KeyedVolume) (cm : ConfigMap) (p content : String)
    → HasEntry (config_map_files dir v cm) p content
    → (key : String) × (path : String) × HasData cm key content
      × PutsAt v.items key path
      × (p ≡ join dir path)
HasData-config_map_files dir v cm p content h =
    elim (HasEntry-append (files_of dir v.items (or_empty cm.binary_data))
      (files_of dir v.items (or_empty cm.text_data)) p content h) [
        | inl first ↦
            let (key, path, there, at, e) =
              HasEntry-files_of dir v.items (or_empty cm.binary_data) p content first in
            (key, path, inl there, at, e)
        | inr second ↦
            let (key, path, there, at, e) =
              HasEntry-files_of dir v.items (or_empty cm.text_data) p content second in
            (key, path, inr there, at, e)
      ]
