-- ===== src/Volume/Claims/Handshake.antt =====
-- What a storage driver has agreed to when the volume of a claim is mounted and unmounted.
use krustlet.Prelude.{
  ℕ, String, ◌≡◌, refl, sym, ap, subst, ◌∙◌, inl, inr, Bool, true, false, Option, none, some, List,
  arith, Option-cases, Result-cases, ok-injective, nat_eq, string_eq, Result, ok, ◌>>=◌, ◌>>◌,
  bind-eq-ok, then-eq-ok,
}
use krustlet.Prelude.Dict.{Dict}
use krustlet.Prelude.Text.{join}
use krustlet.PluginWatcher.{Plugins}
use krustlet.Volume.{KubeVolume, CsiSource, ClaimSpec, PvcVolume, Cluster, FileSystem}
use krustlet.Volume.Modes.{
  VolumeMode, volume_mode_of, validate, validate_volume_mode, validate_access_modes,
  validate_label_selector, validate_storage_class,
}
use krustlet.Volume.Claims.{
  or_default, AccessType, get_access_type, StageRequest, PublishRequest, Driver, any_rpc,
  supports_stage_unstage, Decode, get_secrets_map, stage_request, publish_request, stage_volume,
  mount_claim, unmount_claim, get_pvc_spec, get_csi_client, get_csi, new_claim,
}

-- What stands before a publication: the staging of the volume, which the driver has accepted, at the
-- same place and for the same access, or none.
abbrev pub IsStaged : Driver → Option StageRequest → PublishRequest → Bool → Type 0
IsStaged driver before r true =
    (s : StageRequest) × (before ≡ some s)
    × (driver.staged s ≡ ok tt)
    × (s.volume_id ≡ r.volume_id)
    × (s.staging_target_path ≡ r.staging_target_path)
    × (s.access_type ≡ r.access_type)
IsStaged driver before r false = (before ≡ none) × (r.staging_target_path ≡ "")

stage_volume-IsStaged :
    (decode : Decode) (cluster : Cluster) (driver : Driver) (csi : CsiSource)
    (staging path : String) (access : AccessType) (stages : Bool) (secrets : Dict String String)
    (before : Option StageRequest)
    → stage_volume decode cluster driver csi staging access stages ≡ ok before
    → IsStaged driver before (publish_request csi staging stages path secrets access) stages
unfolding stage_volume stage_request publish_request
stage_volume-IsStaged decode cluster driver csi staging path access false secrets before h =
    (sym (ok-injective {E = String} h), refl)
stage_volume-IsStaged decode cluster driver csi staging path access true secrets before h =
    let (found, _, asked) =
      bind-eq-ok (get_secrets_map decode cluster csi.node_stage_secret_ref) _ h in
    let (_, staged, same) =
      bind-eq-ok (driver.staged (stage_request csi staging found access)) _ asked in
    (
      stage_request csi staging found access,
      sym (ok-injective {E = String} same),
      staged,
      refl,
      refl,
      refl,
    )

publish_request-target :
    (csi : CsiSource) (staging path : String) (stages : Bool) (secrets : Dict String String)
    (access : AccessType)
    → ((publish_request csi staging stages path secrets access).target_path ≡ path)
      × ((publish_request csi staging stages path secrets access).volume_id ≡ csi.volume_handle)
unfolding publish_request
publish_request-target csi staging path stages secrets access = (refl, refl)

-- What holds of a mount that succeeded.
pub record IsPublished (driver : Driver) (base_path : String) (v v' : PvcVolume) : Type 0 where
  pub before : Option StageRequest
  pub request : PublishRequest
  pub capabilities : List (Option ℕ)
  pub capabilities_are : driver.capabilities ≡ ok capabilities
  pub published : driver.published before request ≡ ok tt
  pub staged : IsStaged driver before request (any_rpc capabilities)
  pub volume_is : request.volume_id ≡ v.csi_pv_source.volume_handle
  pub target_is : request.target_path ≡ join base_path v.name
  pub source_is : v'.csi_pv_source ≡ v.csi_pv_source
  pub mounted : v'.mounted_path ≡ some request.target_path

pub mount_claim-IsPublished :
    (decode : Decode) (cluster : Cluster) (fs : FileSystem) (driver : Driver) (base_path : String)
    (v v' : PvcVolume)
    → mount_claim decode cluster fs driver base_path v ≡ ok v'
    → IsPublished driver base_path v v'
unfolding mount_claim supports_stage_unstage
mount_claim-IsPublished decode cluster fs driver base_path v v' h =
    let (stages, e1, h1) = bind-eq-ok (supports_stage_unstage driver) _ h in
    let (_, _, h2) = bind-eq-ok (fs.created (join base_path v.name)) _ h1 in
    let (staging, _, h3) = bind-eq-ok (fs.tempdir v.csi_pv_source.volume_handle) _ h2 in
    let (mode, _, h4) = bind-eq-ok (volume_mode_of (or_default v.spec.volume_mode)) _ h3 in
    let (before, e5, h5) =
      bind-eq-ok
        (stage_volume decode cluster driver v.csi_pv_source staging
          (get_access_type mode v.csi_pv_source) stages)
        _ h4 in
    let (secrets, _, h6) =
      bind-eq-ok (get_secrets_map decode cluster v.csi_pv_source.node_publish_secret_ref) _ h5 in
    let (_, e7, h7) =
      bind-eq-ok
        (driver.published before (
          publish_request v.csi_pv_source staging stages (join base_path v.name) secrets
            (get_access_type mode v.csi_pv_source)))
        _ h6 in
    let (capabilities, e, counted) = bind-eq-ok driver.capabilities _ e1 in
    let stages_is : any_rpc capabilities ≡ stages = ok-injective counted in
    let csi : CsiSource = v.csi_pv_source in
    let access : AccessType = get_access_type mode csi in
    let request : PublishRequest =
      publish_request csi staging stages (join base_path v.name) secrets access in
    let (target, volume) =
      publish_request-target csi staging (join base_path v.name) stages secrets access in
    record {
      before = before;
      request = request;
      capabilities = capabilities;
      capabilities_are = e;
      published = e7;
      staged = subst (IsStaged driver before request) (sym stages_is) (
          stage_volume-IsStaged decode cluster driver csi staging (join base_path v.name) access
            stages secrets before e5);
      volume_is = volume;
      target_is = target;
      source_is = ap (λ u. u.csi_pv_source) (sym (ok-injective h7));
      mounted = ap (λ u. u.mounted_path) (sym (ok-injective h7)) ∙ ap (λ x. some x) (sym target);
    }

-- A claim's volume that is mounted and then unmounted, both without an error: the driver had accepted a
-- publication of the volume at the directory that the volume keeps as its path; when it did, it had
-- accepted its staging at the same place and for the same access if it tells of any RPC capability, and
-- no staging otherwise; it has accepted the end of just this publication, and the volume has no path any more.
pub mount_claim-unmount_claim :
    (decode : Decode) (cluster : Cluster) (fs : FileSystem) (driver : Driver) (base_path : String)
    (v v' : PvcVolume)
    → mount_claim decode cluster fs driver base_path v ≡ ok v'
    → (unmount_claim fs driver v').1 ≡ ok tt
    → (p : IsPublished driver base_path v v') × (driver.unpublished p.request.volume_id
          p.request.target_path
        ≡ ok tt)
      × (fs.removed p.request.target_path ≡ ok tt)
      × ((unmount_claim fs driver v').0.mounted_path ≡ none)
unfolding unmount_claim
mount_claim-unmount_claim decode cluster fs driver base_path v v' h u =
    let p : IsPublished driver base_path v v' =
      mount_claim-IsPublished decode cluster fs driver base_path v v' h in
    let ended : (driver.unpublished v'.csi_pv_source.volume_handle p.request.target_path
          >> fs.removed p.request.target_path)
        ≡ ok tt =
      ground (arith, p.mounted, u) in
    let (unpublished, removed) =
      then-eq-ok (driver.unpublished v'.csi_pv_source.volume_handle p.request.target_path) ended in
    let volume : p.request.volume_id ≡ v'.csi_pv_source.volume_handle =
      p.volume_is ∙ ap (λ c. c.volume_handle) (sym p.source_is) in
    (
      p,
      ap (λ i. driver.unpublished i p.request.target_path) volume ∙ unpublished,
      removed,
      ground (arith, p.mounted),
    )

validate-mode :
    (spec : ClaimSpec)
    → validate spec ≡ ok tt
    → (s : String) × (m : VolumeMode) × (spec.volume_mode ≡ some s) × (volume_mode_of s ≡ ok m)
unfolding validate validate_volume_mode
validate-mode spec h =
    let (first, _) =
      then-eq-ok
        (validate_access_modes spec.access_modes
          >> validate_label_selector spec.has_selector
          >> validate_storage_class spec.storage_class_name
          >> validate_volume_mode spec.volume_mode)
        h in
    let (_, mode) =
      then-eq-ok
        (validate_access_modes spec.access_modes
          >> validate_label_selector spec.has_selector
          >> validate_storage_class spec.storage_class_name)
        first in
    elim (Option-cases spec.volume_mode) [
      | inl e ↦ absurd (ground (arith, e, mode))
      | inr (s, e) ↦ elim (Result-cases (volume_mode_of s)) [
        | inl (m, q) ↦ (s, m, e, q)
        | inr (f, q) ↦ absurd (ground (arith, e, q, mode))
      ]
    ]

get_pvc_spec-valid :
    (cluster : Cluster) (claim_name : String) (spec : ClaimSpec)
    → get_pvc_spec cluster claim_name ≡ ok spec
    → validate spec ≡ ok tt
unfolding get_pvc_spec
get_pvc_spec-valid cluster claim_name spec h =
    let (found, _, checked) = bind-eq-ok (cluster.claim claim_name) _ h in
    elim (Option-cases found) [
      | inl e ↦ absurd (ground (arith, e, checked))
      | inr (s, e) ↦
          let both : (validate s >> ok s) ≡ ok spec = ground (arith, e, checked) in
          let (valid, same) = then-eq-ok (validate s) both in
          subst (λ x. validate x ≡ ok tt) (ok-injective {E = String} same) valid
    ]

-- A volume that was made, of a claim whose specification is valid, and without a path.
new_claim-made :
    (cluster : Cluster) (channel : String → Result String (Unit {0})) (plugins : Option Plugins)
    (vol : KubeVolume) (v : PvcVolume)
    → new_claim cluster channel plugins vol ≡ ok v
    → (validate v.spec ≡ ok tt) × (v.mounted_path ≡ none)
unfolding new_claim
new_claim-made cluster channel none vol v h = absurd cc
new_claim-made cluster channel (some plugins) vol v h =
    elim (Option-cases vol.persistent_volume_claim) [
      | inl e ↦ absurd (ground (arith, e, h))
      | inr (claim_name, e) ↦
          let made : (get_pvc_spec cluster claim_name >>= λ spec.
          get_csi_client cluster channel spec plugins >>= λ csi_client.
          get_csi cluster claim_name spec >>= λ csi. ok (record {
            name = vol.name;
            spec = spec;
            csi_client = csi_client;
            csi_pv_source = csi;
            mounted_path = none;
            staging_dir = none;
          }))
              ≡ ok v =
            ground (arith, e, h) in
          let (spec, checked, h1) = bind-eq-ok (get_pvc_spec cluster claim_name) _ made in
          let (csi_client, _, h2) = bind-eq-ok (get_csi_client cluster channel spec plugins) _ h1 in
          let (_, _, h3) = bind-eq-ok (get_csi cluster claim_name spec) _ h2 in
          let same : spec ≡ v.spec =
            ap (λ (u : PvcVolume). u.spec) (ok-injective {E = String} h3) in
          (
            subst (λ x. validate x ≡ ok tt) same
                (get_pvc_spec-valid cluster claim_name spec checked),
            ap (λ (u : PvcVolume). u.mounted_path) (sym (ok-injective {E = String} h3)),
          )
    ]

-- For every volume that `PvcVolume::new` makes, the parse of the volume mode that `mount` unwraps
-- succeeds.
pub new_claim-volume_mode_of :
    (cluster : Cluster) (channel : String → Result String (Unit {0})) (plugins : Option Plugins)
    (vol : KubeVolume) (v : PvcVolume)
    → new_claim cluster channel plugins vol ≡ ok v
    → (m : VolumeMode) × (volume_mode_of (or_default v.spec.volume_mode) ≡ ok m)
new_claim-volume_mode_of cluster channel plugins vol v h =
    let (s, m, written, parsed) =
      validate-mode v.spec (new_claim-made cluster channel plugins vol v h).0 in
    (m, ap (λ o. volume_mode_of (or_default o)) written ∙ parsed)

pub new_claim-fresh :
    (cluster : Cluster) (channel : String → Result String (Unit {0})) (plugins : Option Plugins)
    (vol : KubeVolume) (v : PvcVolume)
    → new_claim cluster channel plugins vol ≡ ok v
    → v.mounted_path ≡ none
new_claim-fresh cluster channel plugins vol v h = (new_claim-made cluster channel plugins vol v h).1
