-- ===== src/PluginWatcher/Accept.antt =====
-- Which plugins are accepted, and what is found under their names then.
use krustlet.Prelude.{
  String, ◌≡◌, refl, sym, ap, subst, ◌∙◌, ◌↔◌, ◌⊎◌, inl, inr, true, Option, none, some, arith,
  if◌then◌else◌, Bool-cases, Option-cases, Result-cases, some-injective, ◌==◌, nat_eq, string_eq,
  str_eq_iff, contains, ok, err, ◌>>◌, then-eq-ok,
}
use krustlet.Prelude.Dict.{lookup, lookup-insert}
use krustlet.PluginWatcher.{
  PluginInfo, PluginEntry, Peer, Plugins, Rejection, CreateError, rejected, api_version,
  plugin_type, is_allowed_plugin_type, is_endpoint, check_entry, validate_is_unique, validate,
  validate_plugin_type, validate_plugin_version, entry_of, register, get_endpoint, inform_plugin,
  conclude, handle_path,
}
use krustlet.PluginWatcher.Names.{check_entry-ok}

-- The name is free, or belongs to the same plugin: the same path and, if one is announced, the same
-- endpoint.
abbrev IsFree : Plugins → PluginInfo → String → Type 0
IsFree plugins info path =
    (lookup info.name plugins ≡ none)
    ⊎ ((v : PluginEntry) × (lookup info.name plugins ≡ some v)
        × (path ≡ v.plugin_path)
        × (((info.endpoint == "") ≡ true) ⊎ (v.endpoint ≡ some info.endpoint)))

-- The three questions of the validation.
pub record IsAcceptable (plugins : Plugins) (info : PluginInfo) (path : String) : Type 0 where
  pub type_is : info.type_name ≡ "CSIPlugin"
  pub version_is : contains api_version info.supported_versions ≡ true
  pub name_is : IsFree plugins info path

validate_plugin_type-ok : (t : String) → validate_plugin_type t ≡ ok tt → t ≡ "CSIPlugin"
unfolding validate_plugin_type plugin_type is_allowed_plugin_type
validate_plugin_type-ok t h = elim (Bool-cases (t == "CSIPlugin")) [
  | inl e ↦ (str_eq_iff t "CSIPlugin").0 e
  | inr e ↦ elim (Bool-cases (t == "DevicePlugin")) [
    | inl e' ↦ absurd (ground (arith, e, e', h))
    | inr e' ↦ absurd (ground (arith, e, e', h))
  ]
]

validate_plugin_type-csi : validate_plugin_type "CSIPlugin" ≡ ok tt
unfolding validate_plugin_type plugin_type is_allowed_plugin_type
validate_plugin_type-csi = refl

validate_is_unique-IsFree :
    (plugins : Plugins) (info : PluginInfo) (path : String)
    → validate_is_unique plugins info path ≡ ok tt
    → IsFree plugins info path
unfolding validate_is_unique
validate_is_unique-IsFree plugins info path h = elim (Option-cases (lookup info.name plugins)) [
  | inl e ↦ inl e
  | inr (v, e) ↦
      let (same, endpoint) = check_entry-ok info path v (ground (arith, e, h)) in
      inr (v, e, same, endpoint)
]

is_endpoint-some : (e : String) (o : Option String) → o ≡ some e → is_endpoint e o ≡ true
unfolding is_endpoint
is_endpoint-some e none h = cc
is_endpoint-some e (some e') h = (str_eq_iff e e').1 (sym (some-injective h))

IsFree-validate_is_unique :
    (plugins : Plugins) (info : PluginInfo) (path : String)
    → IsFree plugins info path
    → validate_is_unique plugins info path ≡ ok tt
unfolding validate_is_unique check_entry
IsFree-validate_is_unique plugins info path (inl e) = ground (arith, e)
IsFree-validate_is_unique plugins info path (inr (v, e, same, inl empty)) =
    ground (arith, e, empty, (str_eq_iff path v.plugin_path).1 same)
IsFree-validate_is_unique plugins info path (inr (v, e, same, inr endpoint)) = ground (
  arith,
  e,
  is_endpoint-some info.endpoint v.endpoint endpoint,
  (str_eq_iff path v.plugin_path).1 same,
)

validate-IsAcceptable :
    (plugins : Plugins) (info : PluginInfo) (path : String)
    → (validate plugins info path ≡ ok tt) ↔ IsAcceptable plugins info path
unfolding validate validate_plugin_version
validate-IsAcceptable plugins info path = (
  λ h.
      let (first, unique) =
        then-eq-ok
          (validate_plugin_type info.type_name >> validate_plugin_version info.supported_versions)
          h in
      let (type_ok, version_ok) = then-eq-ok (validate_plugin_type info.type_name) first in
      record {
        type_is = validate_plugin_type-ok info.type_name type_ok;
        version_is = ground (arith, version_ok);
        name_is = validate_is_unique-IsFree plugins info path unique;
      },
  λ a.
      let type_ok : validate_plugin_type info.type_name ≡ ok tt =
        subst (λ t. validate_plugin_type t ≡ ok tt) (sym a.type_is) validate_plugin_type-csi in
      ground (arith, type_ok, a.version_is, IsFree-validate_is_unique plugins info path a.name_is),
)

get_endpoint-register :
    (info : PluginInfo) (path k : String) (plugins : Plugins)
    → get_endpoint k (register info path plugins) ≡ (
        if info.name == k
        then some (if info.endpoint == "" then path else info.endpoint)
        else get_endpoint k plugins)
unfolding get_endpoint register entry_of
get_endpoint-register info path k plugins =
    ground (arith, lookup-insert info.name k (entry_of info path) plugins)

handle_path-valid :
    (peer : Peer) (info : PluginInfo) (path : String) (plugins : Plugins)
    → peer.info ≡ ok info
    → validate plugins info path ≡ ok tt
    → handle_path peer path plugins ≡ (register info path plugins, inform_plugin peer none)
unfolding handle_path conclude
handle_path-valid peer info path plugins q v = ground (arith, q, v)

handle_path-invalid :
    (peer : Peer) (info : PluginInfo) (path : String) (plugins : Plugins) (e : Rejection)
    → peer.info ≡ ok info
    → validate plugins info path ≡ err e
    → handle_path peer path plugins ≡ (plugins, inform_plugin peer (some e) >> err (rejected e))
unfolding handle_path conclude
handle_path-invalid peer info path plugins e q v = ground (arith, q, v)

-- What `handle_path` does with a plugin that tells about itself. One that is acceptable is registered,
-- also if it cannot be told so: `get_endpoint` then gives its endpoint, or its socket if it announced
-- none, and the other names are as before. Any other changes nothing, and the result is an error.
pub handle_path-get_endpoint :
    (peer : Peer) (info : PluginInfo) (path : String) (plugins : Plugins)
    → peer.info ≡ ok info
    → (IsAcceptable plugins info path
        × ((k : String)
            → get_endpoint k (handle_path peer path plugins).0 ≡ (
                if info.name == k
                then some (if info.endpoint == "" then path else info.endpoint)
                else get_endpoint k plugins))
        × ((handle_path peer path plugins).1 ≡ inform_plugin peer none))
      ⊎ ((¬ IsAcceptable plugins info path)
          × ((handle_path peer path plugins).0 ≡ plugins)
          × ((e : CreateError) × ((handle_path peer path plugins).1 ≡ err e)))
unfolding handle_path conclude
handle_path-get_endpoint peer info path plugins q =
    elim (Result-cases (validate plugins info path)) [
      | inl (_, v) ↦
          let done : handle_path peer path plugins
              ≡ (register info path plugins, inform_plugin peer none) =
            handle_path-valid peer info path plugins q v in
          inl (
            (validate-IsAcceptable plugins info path).0 v,
            (λ k. ap (λ r. get_endpoint k r.0) done ∙ get_endpoint-register info path k plugins),
            ap (λ r. r.1) done,
          )
      | inr (e, v) ↦
          let done : handle_path peer path plugins
              ≡ (plugins, inform_plugin peer (some e) >> err (rejected e)) =
            handle_path-invalid peer info path plugins e q v in
          inr (
            (λ a.
                let valid : validate plugins info path ≡ ok tt =
                  (validate-IsAcceptable plugins info path).1 a in
                cc),
            ap (λ r. r.0) done,
            elim (Result-cases (inform_plugin peer (some e))) [
              | inl (_, i) ↦ (rejected e, ap (λ r. r.1) done ∙ ap (λ m. m >> err (rejected e)) i)
              | inr (f, i) ↦ (f, ap (λ r. r.1) done ∙ ap (λ m. m >> err (rejected e)) i)
            ],
          )
    ]
