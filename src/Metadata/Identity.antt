-- ===== src/Metadata/Identity.antt =====
-- Which requests the identity requirement refuses, and whose identity is reported.
use vtpm_mds.Prelude.{
  ◌≡◌, ◌≢◌, refl, ◌∙◌, subst, Option, [], Bool, true, false, not, ◌&&◌, ◌++◌, none, some, arith,
  if◌then◌else◌, Text, same, same_iff, codes, cut,
}
use vtpm_mds.Inventory.{VmConfig}
use vtpm_mds.Metadata.{
  Net, Request, Response, Site, Body, text, json, validates, is_bound, bound_vm,
  require_vm_identity, instance_id,
}
use vtpm_mds.Metadata.Routes.{
  Route, instance_id_route, document, pattern_of, path_of, requires_vm_identity, handler, serve,
}

-- The two routes that report an identity.
abbrev pub is_identity : Route → Bool
is_identity instance_id_route = true
is_identity document = true
is_identity _ = false

wrapped : (route : Route) → requires_vm_identity (path_of (pattern_of route)) ≡ is_identity route
unfolding requires_vm_identity pattern_of cut same
wrapped instance_id_route = refl
wrapped _ = refl

abbrev pub reported_id : Body → Text
reported_id (text t) = t
reported_id (json doc) = doc.instance_id

bound_record :
    (o : Option VmConfig) → is_bound o ≡ true → (vm : VmConfig) × (o ≡ some vm) × (vm.vmid ≢ [])
unfolding is_bound
bound_record none h = cc
bound_record (some vm) h = (vm, refl, λ e. ground (arith, same_iff vm.vmid []))

module _ {IP : Type 0} (net : Net IP) (site : Site) (r : Request) where
  -- A service that requires an instance identity answers a request with a valid token of a caller
  -- that is not bound, on a route that reports an identity, as it answers an unknown path, and
  -- every other request of the metadata tree as a service that requires none.
  pub identity_refused :
      (ec2_compat : Bool) (route : Route)
      → serve net ec2_compat true site r (some route) ≡ (
          if is_identity route && validates site r && not (is_bound r.vm)
          then serve net ec2_compat true site r none
          else serve net ec2_compat false site r (some route))
  unfolding serve require_vm_identity validates
  identity_refused ec2_compat route = ground (arith, wrapped route)

  bound_id :
      (vm : VmConfig)
      → r.vm ≡ some vm
      → is_bound (some vm) ≡ true
      → instance_id net r ≡ codes "i-" ++ vm.vmid
  unfolding bound_vm instance_id
  bound_id vm e h = rw (e, instance_id, bound_vm) (rw h refl)

  -- An answer of 200 comes through the guard and the requirement.
  admitted :
      (ec2_compat : Bool) (route : Route)
      → is_identity route ≡ true
      → (serve net ec2_compat true site r (some route)).status ≡ 200
      → (is_bound r.vm ≡ true)
        × (validates site r ≡ true)
        × (serve net ec2_compat true site r (some route) ≡ handler net site r route)
  unfolding serve require_vm_identity validates handler
  admitted ec2_compat instance_id_route k h = ground (arith, wrapped instance_id_route)
  admitted ec2_compat document k h = ground (arith, wrapped document)
  admitted ec2_compat _ k h = cc

  body_id :
      (route : Route)
      → is_identity route ≡ true
      → validates site r ≡ true
      → (handler net site r route).status ≡ 200
      → reported_id (handler net site r route).body ≡ instance_id net r
  unfolding handler
  body_id instance_id_route k v h = ground arith
  body_id document k v h = ground arith
  body_id _ k v h = cc

  -- Where an instance identity is required, a route that reports an identity answers 200 only to a
  -- caller with a valid token that is bound to a record with a VM ID, and what it reports is that
  -- ID behind "i-".
  pub identity_of_bound_vm :
      (ec2_compat : Bool) (route : Route)
      → is_identity route ≡ true
      → (serve net ec2_compat true site r (some route)).status ≡ 200
      → (validates site r ≡ true)
        × ((vm : VmConfig) × (r.vm ≡ some vm)
            × (vm.vmid ≢ [])
            × (reported_id (serve net ec2_compat true site r (some route)).body
                ≡ codes "i-" ++ vm.vmid))
  identity_of_bound_vm ec2_compat route k h =
      let (b, v, e) = admitted ec2_compat route k h in
      let (vm, is_vm, named) = bound_record r.vm b in
      (
        v,
        (
          vm,
          is_vm,
          named,
          rw e (
              body_id route k v (subst (λ (x : Response). x.status ≡ 200) e h)
              ∙ bound_id vm is_vm (rw is_vm at b)),
        ),
      )
