-- ===== src/Volume/Refs/Unmounted.antt =====
-- What a mount that fails leaves.
use krustlet.Prelude.{
  String, ◌≡◌, refl, sym, ap, subst, ◌∙◌, ◌⊎◌, inl, inr, Option, none, some, List, arith,
  Bool-cases, Option-cases, Result-cases, ok-injective, nat_eq, string_eq, Result, ok, err, ◌>>=◌,
  ◌>>◌, bind-eq-ok,
}
use krustlet.Prelude.Text.{join}
use krustlet.Volume.{
  KubeVolume, KeyedSource, KeyedVolume, PvcVolume, VolumeRef, config_map, secret,
  persistent_volume_claim, host_path, Cluster, NodeFiles, FileSystem,
}
use krustlet.Volume.Files.{
  new_keyed, new_config_map, new_secret, new_host_path, mount_host_path, mount_files, write_files,
  mount_config_map, mount_secret, unmount_keyed, mount_host_path,
}
use krustlet.Volume.Claims.{new_claim, mount_claim, unmount_claim}
use krustlet.Volume.Claims.Handshake.{new_claim-fresh, IsPublished, mount_claim-IsPublished}
use krustlet.Volume.Refs.{
  is_some, to_volume_ref, Outside, Mounting, keyed, claimed, get_path, mount, unmount,
}

-- The directory of a volume: below the pod's, but for a host path.
abbrev pub dir_of : String → VolumeRef → String
dir_of base_path (config_map v) = join base_path v.vol_name
dir_of base_path (secret v) = join base_path v.vol_name
dir_of base_path (persistent_volume_claim v) = join base_path v.name
dir_of base_path (host_path v) = v.host_path

-- A mount that gave the volume its path, or that gave it none: then an unmount does nothing.
abbrev pub IsSettled : Outside → String → Mounting → Type 0
IsSettled o path (files, (v, r)) =
    ((r ≡ ok tt) × (get_path v ≡ some path))
    ⊎ (((e : String) × (r ≡ err e)) × (unmount o v files ≡ (files, (v, ok tt))))

-- The same of a volume of files.
abbrev IsSettledKeyed :
    FileSystem → String → NodeFiles × (KeyedVolume × Result String (Unit {0})) → Type 0
IsSettledKeyed fs path (files, (v, r)) =
    ((r ≡ ok tt) × (v.mounted_path ≡ some path))
    ⊎ (((e : String) × (r ≡ err e)) × (unmount_keyed fs v files ≡ (files, (v, ok tt))))

unmounted :
    (fs : FileSystem) (v : KeyedVolume) (files : NodeFiles)
    → v.mounted_path ≡ none
    → unmount_keyed fs v files ≡ (files, (v, ok tt))
unfolding unmount_keyed
unmounted fs v files h = ground (arith, h)

mount_files-IsSettled :
    (fs : FileSystem) (path : String) (contents : List (String × String)) (v : KeyedVolume)
    (files : NodeFiles)
    → v.mounted_path ≡ none
    → IsSettledKeyed fs path (mount_files fs path contents v files)
unfolding mount_files
mount_files-IsSettled fs path contents v files h = elim (Result-cases (fs.created path)) [
  | inr (e, q) ↦ rw (q, mount_files) (inr ((e, refl), unmounted fs v files h))
  | inl (_, q) ↦ elim (Result-cases ((write_files fs contents files).1 >> fs.set_readonly path)) [
    | inr (e, q') ↦
        rw (q, q', mount_files)
          (inr ((e, refl), unmounted fs v (write_files fs contents files).0 h))
    | inl (_, q') ↦ rw (q, q', mount_files) (inl (refl, refl))
  ]
]

mount_config_map-IsSettled :
    (cluster : Cluster) (fs : FileSystem) (base_path : String) (v : KeyedVolume) (files : NodeFiles)
    → v.mounted_path ≡ none
    → IsSettledKeyed fs (join base_path v.vol_name) (mount_config_map cluster fs base_path v files)
unfolding mount_config_map
mount_config_map-IsSettled cluster fs base_path v files h =
    elim (Result-cases (cluster.config_map v.source_name)) [
      | inr (e, q) ↦ rw (q, mount_config_map) (inr ((e, refl), unmounted fs v files h))
      | inl (cm, q) ↦
          rw (q, mount_config_map)
            (mount_files-IsSettled fs (join base_path v.vol_name) _ v files h)
    ]

mount_secret-IsSettled :
    (cluster : Cluster) (fs : FileSystem) (base_path : String) (v : KeyedVolume) (files : NodeFiles)
    → v.mounted_path ≡ none
    → IsSettledKeyed fs (join base_path v.vol_name) (mount_secret cluster fs base_path v files)
unfolding mount_secret
mount_secret-IsSettled cluster fs base_path v files h =
    elim (Result-cases (cluster.secret v.source_name)) [
      | inr (e, q) ↦ rw (q, mount_secret) (inr ((e, refl), unmounted fs v files h))
      | inl (contents, q) ↦
          rw (q, mount_secret) (mount_files-IsSettled fs (join base_path v.vol_name) _ v files h)
    ]

config_map-IsSettled :
    (o : Outside) (path : String) (m : NodeFiles × (KeyedVolume × Result String (Unit {0})))
    → IsSettledKeyed o.fs path m
    → IsSettled o path (keyed config_map m)
unfolding get_path unmount
config_map-IsSettled o path (files, (v, r)) (inl (done, at)) = inl (done, at)
config_map-IsSettled o path (files, (v, r)) (inr (failed, same)) =
    inr (failed, ap (keyed config_map) same)

secret-IsSettled :
    (o : Outside) (path : String) (m : NodeFiles × (KeyedVolume × Result String (Unit {0})))
    → IsSettledKeyed o.fs path m
    → IsSettled o path (keyed secret m)
unfolding get_path unmount
secret-IsSettled o path (files, (v, r)) (inl (done, at)) = inl (done, at)
secret-IsSettled o path (files, (v, r)) (inr (failed, same)) = inr (failed, ap (keyed secret) same)

claimed-IsSettled :
    (o : Outside) (base_path : String) (v : PvcVolume) (files : NodeFiles)
    → v.mounted_path ≡ none
    → IsSettled o
        (join base_path v.name)
        (claimed files v (mount_claim o.decode o.cluster o.fs (o.driver v.csi_client) base_path v))
unfolding get_path unmount unmount_claim
claimed-IsSettled o base_path v files h =
    elim (Result-cases (mount_claim o.decode o.cluster o.fs (o.driver v.csi_client) base_path v)) [
      | inl (v', q) ↦
          let p : IsPublished (o.driver v.csi_client) base_path v v' =
            mount_claim-IsPublished o.decode o.cluster o.fs (o.driver v.csi_client) base_path v v'
              q in
          rw q (inl (refl, p.mounted ∙ ap (λ x. some x) p.target_is))
      | inr (e, q) ↦ rw q (inr ((e, refl), ground (arith, h)))
    ]

-- A volume as it is made.
abbrev pub IsFresh : VolumeRef → Type 0
IsFresh (config_map v) = v.mounted_path ≡ none
IsFresh (secret v) = v.mounted_path ≡ none
IsFresh (persistent_volume_claim v) = v.mounted_path ≡ none
IsFresh (host_path v) = Unit

mount-IsSettled :
    (o : Outside) (base_path : String) (v : VolumeRef) (files : NodeFiles)
    → IsFresh v
    → IsSettled o (dir_of base_path v) (mount o base_path v files)
unfolding mount get_path unmount
mount-IsSettled o base_path (config_map v) files h =
    config_map-IsSettled o (join base_path v.vol_name) _
      (mount_config_map-IsSettled o.cluster o.fs base_path v files h)
mount-IsSettled o base_path (secret v) files h =
    secret-IsSettled o (join base_path v.vol_name) _
      (mount_secret-IsSettled o.cluster o.fs base_path v files h)
mount-IsSettled o base_path (persistent_volume_claim v) files h =
    claimed-IsSettled o base_path v files h
mount-IsSettled o base_path (host_path v) files h = elim (Result-cases (mount_host_path o.fs v)) [
  | inl (_, q) ↦ rw q (inl (refl, refl))
  | inr (e, q) ↦ rw q (inr ((e, refl), refl))
]

new_keyed-fresh :
    (wrong_type no_name vol_name : String) (source : Option KeyedSource) (v : KeyedVolume)
    → new_keyed wrong_type no_name vol_name source ≡ ok v
    → v.mounted_path ≡ none
unfolding new_keyed
new_keyed-fresh wrong_type no_name vol_name none v h = absurd cc
new_keyed-fresh wrong_type no_name vol_name (some source) v h = elim (Option-cases source.name) [
  | inl e ↦ absurd (ground (arith, e, h))
  | inr (name, e) ↦
      let made : KeyedVolume = record {
        vol_name = vol_name;
        source_name = name;
        items = source.items;
        mounted_path = none;
      } in
      let same : made ≡ v = ok-injective {E = String} (ground (arith, e, h)) in
      ap (λ (u : KeyedVolume). u.mounted_path) (sym same)
]

-- A result that was mapped.
map_ok-IsFresh :
    {A : Type 0} (kind : A → VolumeRef) (r : Result String A) (v : VolumeRef)
    → (r >>= λ a. ok (kind a)) ≡ ok v
    → ((a : A) → r ≡ ok a → IsFresh (kind a))
    → IsFresh v
map_ok-IsFresh kind r v h fresh =
    let (a, e, same) = bind-eq-ok r _ h in
    subst IsFresh (ok-injective {E = String} same) (fresh a e)

to_volume_ref-IsFresh :
    (o : Outside) (vol : KubeVolume) (v : VolumeRef) → to_volume_ref o vol ≡ ok v → IsFresh v
unfolding to_volume_ref
to_volume_ref-IsFresh o vol v h = elim (Bool-cases (is_some vol.config_map)) [
  | inl e1 ↦
      map_ok-IsFresh config_map (new_config_map vol) v (ground (arith, e1, h))
        (new_keyed-fresh _ _ vol.name vol.config_map)
  | inr e1 ↦ elim (Bool-cases (is_some vol.secret)) [
    | inl e2 ↦
        map_ok-IsFresh secret (new_secret vol) v (ground (arith, e1, e2, h))
          (new_keyed-fresh _ _ vol.name vol.secret)
    | inr e2 ↦ elim (Bool-cases (is_some vol.persistent_volume_claim)) [
      | inl e3 ↦
          map_ok-IsFresh persistent_volume_claim
            (new_claim o.cluster o.channel o.plugin_registry vol) v (ground (arith, e1, e2, e3, h))
            (λ u. new_claim-fresh o.cluster o.channel o.plugin_registry vol u)
      | inr e3 ↦ elim (Bool-cases (is_some vol.host_path)) [
        | inl e4 ↦
            map_ok-IsFresh host_path (new_host_path vol) v (ground (arith, e1, e2, e3, e4, h))
              (λ u q. tt)
        | inr e4 ↦ absurd (ground (arith, e1, e2, e3, e4, h))
      ]
    ]
  ]
]

-- A volume of a pod, of any kind, made and then mounted: either the mount succeeds, and `get_path`
-- gives the volume's directory; or it fails, and then an unmount does nothing and reports no error:
-- what the mount had written by then stays.
pub to_volume_ref-IsSettled :
    (o : Outside) (vol : KubeVolume) (v : VolumeRef) (base_path : String) (files : NodeFiles)
    → to_volume_ref o vol ≡ ok v
    → IsSettled o (dir_of base_path v) (mount o base_path v files)
to_volume_ref-IsSettled o vol v base_path files h =
    mount-IsSettled o base_path v files (to_volume_ref-IsFresh o vol v h)
