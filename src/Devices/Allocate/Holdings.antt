-- ===== src/Devices/Allocate/Holdings.antt =====
-- Which devices the records of the manager hold, and what one answer of the device plugins adds.
use krustlet.Prelude.{
  String, Bool, true, false, List, [], ◌∷◌, ◌≡◌, Result, ok, ◌==◌, string_eq, ◌&&◌, ◌||◌,
  str_eq_iff, if◌then◌else◌, arith, contains, contains-nil, Option-cases, inl, inr, subst,
  ok-injective, Result-cases, map,
}
use krustlet.Devices.Types.{
  ContainerDevices, insert_all, DeviceAllocateInfo, ContainerAllocateResponse,
  ContainerAllocateRequest,
}
use krustlet.Devices.Manager.{ContainerAllocateInfo, PluginConnection, AllocateError, DeviceManager}
use krustlet.Devices.Allocate.{AllRequests, add_response, add_responses, allocate_all}
use krustlet.Prelude.Dict.{
  lookup, NodupKeys, lookup-insert, insert-NodupKeys, lookup-cons, lookup-nil, insert,
}
use krustlet.Devices.PodDevices.Totals.{held, contains-insert_all}

-- The device is requested for the container in a list of requests, and in all of them.
abbrev pub requested_in : List ContainerAllocateInfo → String → String → Bool
requested_in [] c id = false
requested_in (info ∷ infos) c id =
    (info.container_name == c && contains id info.container_allocate_request.devices_i_ds)
    || requested_in infos c id

abbrev pub requested : AllRequests → String → String → String → Bool
requested [] c r id = false
requested ((q, infos) ∷ requests) c r id =
    (q == r && requested_in infos c id) || requested requests c r id

held-add_response :
    (q n : String) (info : DeviceAllocateInfo) (cd : ContainerDevices) (c r id : String)
    → held (add_response q n info cd) c r id
      ≡ (if n == c && q == r then contains id info.device_ids else held cd c r id)
unfolding add_response
held-add_response q n info cd c r id = elim (Option-cases (lookup n cd)) [
  | inl e ↦ ground (
    arith,
    e,
    str_eq_iff n c,
    lookup-insert n c ((q, info) ∷ []) cd,
    lookup-cons r q info [],
    lookup-nil {V = DeviceAllocateInfo} r,
  )
  | inr (m, e) ↦
      ground
        (arith, e, str_eq_iff n c, lookup-insert n c (insert q info m) cd, lookup-insert q r info m)
]

add_response-NodupKeys :
    (q n : String) (info : DeviceAllocateInfo) (cd : ContainerDevices)
    → NodupKeys cd
    → NodupKeys (add_response q n info cd)
unfolding add_response
add_response-NodupKeys q n info cd u = elim (Option-cases (lookup n cd)) [
  | inl e ↦ rw (e, add_response) (insert-NodupKeys n ((q, info) ∷ []) cd u)
  | inr (m, e) ↦ rw (e, add_response) (insert-NodupKeys n (insert q info m) cd u)
]

add_responses_lem :
    (q : String) (infos : List ContainerAllocateInfo) (rs : List ContainerAllocateResponse)
    (cd : ContainerDevices)
    → NodupKeys cd
    → NodupKeys (add_responses q infos rs cd)
      × ((c r id : String)
          → held (add_responses q infos rs cd) c r id ≡ true
          → ((q == r && requested_in infos c id) || held cd c r id) ≡ true)
unfolding add_responses
add_responses_lem q [] _ cd u = (u, λ c r id h. ground (arith, h))
add_responses_lem q (info ∷ infos) [] cd u = (u, λ c r id h. ground (arith, h))
add_responses_lem q (info ∷ infos) (x ∷ rs) cd u =
    let ids : List String = info.container_allocate_request.devices_i_ds in
    let given : DeviceAllocateInfo = record {
      device_ids = insert_all ids [];
      allocate_response = x;
    } in
    let cd' : ContainerDevices = add_response q info.container_name given cd in
    let (nodup, rest) =
      add_responses_lem q infos rs cd' (add_response-NodupKeys q info.container_name given cd u) in
    (
      nodup,
      λ c r id h. ground (
        arith,
        rest c r id h,
        held-add_response q info.container_name given cd c r id,
        contains-insert_all id ids [],
        contains-nil id,
      ),
    )

module _
    (allocate : PluginConnection
      → List ContainerAllocateRequest
      → Result AllocateError (List ContainerAllocateResponse))
    (m : DeviceManager) where
  abbrev pub Justified : AllRequests → ContainerDevices → ContainerDevices → Type 0
  Justified requests cd out =
      NodupKeys out
      × ((c r id : String)
          → held out c r id ≡ true
          → (requested requests c r id || held cd c r id) ≡ true)

  -- What the plugins' answers add to the records was requested.
  pub allocate_all_lem :
      (requests : AllRequests) (cd out : ContainerDevices)
      → NodupKeys cd
      → allocate_all allocate m requests cd ≡ ok out
      → Justified requests cd out
  unfolding allocate_all
  allocate_all_lem [] cd out u e = subst (Justified [] cd) (ok-injective e) (u, λ c r id h. h)
  allocate_all_lem ((q, infos) ∷ requests) cd out u e = elim (Option-cases (lookup q m.plugins)) [
    | inl absent ↦ absurd (ground (arith, e, absent))
    | inr (plugin, found) ↦
        elim (Result-cases (allocate plugin (map (λ i. i.container_allocate_request) infos))) [
          | inr (x, failed) ↦ absurd (ground (arith, e, found, failed))
          | inl (rs, answered) ↦
              let cd' : ContainerDevices = add_responses q infos rs cd in
              let (u', one) = add_responses_lem q infos rs cd u in
              let (nodup, rest) =
                allocate_all_lem requests cd' out u' (ground (arith, e, found, answered)) in
              (nodup, λ c r id h. ground (arith, rest c r id h, one c r id))
        ]
  ]
