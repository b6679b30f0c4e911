-- ===== src/Tests/Metadata.antt =====
-- A guest with a token, and one without a record, against the metadata tree.
use vtpm_mds.Prelude.{
  Option, Bool, false, none, ap, arith, same_iff, ◌≡◌, ◌≢◌, ◌≤◌, ◌+◌, refl, true, not, ◌&&◌, some,
  [], ◌∷◌, ◌++◌, if◌then◌else◌, Text, codes, same, cut, sort_texts, text_lt,
}
use vtpm_mds.Dict
use vtpm_mds.Inventory.{VmConfig}
use vtpm_mds.Tokens.{
  generate_token_at, insert_token, prune_peer_expired, evict_oldest_of_peer, settle, expired,
  validate_token,
}
use vtpm_mds.Metadata.{
  peer_ip, Net, Request, Site, plain, lines, validates, is_bound, instance_tags, instance_id,
  bound_vm, require_vm_identity, token_required,
}
use vtpm_mds.Metadata.Routes.{
  peer_of, instance_id_route, domain, tag_keys, tag, serve, handler, handle_create_token,
  pattern_of, requires_vm_identity, tag_keys_answer,
}
use vtpm_mds.Metadata.Access.{serve_needs_token}
use vtpm_mds.Metadata.Identity.{is_identity, reported_id, identity_refused, identity_of_bound_vm}
use vtpm_mds.Metadata.Listing.{Listed, tags-Listed}
use vtpm_mds.Metadata.Opening.{after, token_opens}
use vtpm_mds.Tokens.{TokenStore, cleanup_tick, peer_name}
use vtpm_mds.Tokens.Invariant.{IsValid}
use vtpm_mds.Tokens.Generate.{IsFresh}
use vtpm_mds.Tokens.History.{Reach-IsSound, here}
use vtpm_mds.Tokens.Later.{Others, at_once, minting, sweeping}
use vtpm_mds.Tests.Store.{caps, store0, store1}

-- A network where every text is an address.
abbrev net : Net Text
net = record {
  split_host_port = λ s. none;
  parse_ip = λ s. some s;
  to4 = λ ip. some ip;
  ip_string = λ ip. ip;
}

abbrev guest : VmConfig
guest = record {
  vmid = codes "350";
  name = codes "web";
  raw_config = [];
  tags = (codes "role", codes "db") ∷ (codes "env", codes "lab") ∷ [];
  macs = [];
  ek_sha256 = [];
}

abbrev request : Request
request = record {
  token = codes "aa";
  remote_addr = codes "10.0.0.5";
  host = codes "169.254.169.254";
  vm = some guest;
  key = codes "role";
}

abbrev stranger : Request
stranger = record request { vm = none }

abbrev fresh_site : Site
fresh_site = record { store = store0; topology = (codes "region", codes "local") ∷ []; now = 100 }

abbrev site : Site
site = record { store = store1; topology = (codes "region", codes "local") ∷ []; now = 120 }

valid : validates site request ≡ true
unfolding validates validate_token expired generate_token_at insert_token prune_peer_expired
    evict_oldest_of_peer settle Dict.get Dict.put Dict.remove same
valid = refl

id_served : serve net true true site request (some instance_id_route) ≡ plain 200 (codes "i-350")
unfolding serve requires_vm_identity pattern_of cut same handler require_vm_identity is_bound
    validates validate_token expired generate_token_at insert_token prune_peer_expired
    evict_oldest_of_peer settle Dict.get Dict.put Dict.remove instance_id bound_vm
id_served = refl

keys_served :
    serve net true true site request (some tag_keys)
    ≡ plain 200 (lines (codes "env" ∷ codes "role" ∷ []))
unfolding serve requires_vm_identity pattern_of cut same handler tag_keys_answer instance_tags
    validates validate_token expired generate_token_at insert_token prune_peer_expired
    evict_oldest_of_peer settle Dict.get Dict.put Dict.remove sort_texts text_lt
keys_served = refl

minted_200 : (handle_create_token net caps fresh_site request (some (codes "aa"))).1.status ≡ 200
unfolding handle_create_token generate_token_at insert_token prune_peer_expired evict_oldest_of_peer
    settle Dict.get Dict.put Dict.remove same
minted_200 = refl

serve_needs_token_example :
    (validates site request ≡ false
      → serve net true true site request (some domain) ≡ token_required)
    × (validates site request ≡ true
        → (serve net true true site request (some domain)).status ≢ 401)
serve_needs_token_example = serve_needs_token net site request true domain (λ e. cc)

identity_refused_example : serve net true true site stranger (some instance_id_route) ≡ (
    if is_identity instance_id_route && validates site stranger && not (is_bound none)
    then serve net true true site stranger none
    else serve net true false site stranger (some instance_id_route))
identity_refused_example = identity_refused net site stranger true instance_id_route

identity_of_bound_vm_example :
    (validates site request ≡ true)
    × ((vm : VmConfig) × (some guest ≡ some vm)
        × (vm.vmid ≢ [])
        × (reported_id (serve net true true site request (some instance_id_route)).body
            ≡ codes "i-" ++ vm.vmid))
identity_of_bound_vm_example =
    identity_of_bound_vm net site request true instance_id_route refl (rw id_served refl)

tags-Listed_example :
    Listed guest.tags
      (serve net true true site request (some tag_keys))
      (λ key. serve net true true site (record request { key = key }) (some tag))
unfolding instance_tags
tags-Listed_example = tags-Listed net true site request guest.tags valid refl

valid0 : IsValid store0
valid0 = (Reach-IsSound caps 60 {ts = store0} (omega arith) here).0

IsFresh-red : IsFresh store0 (some (codes "aa"))
unfolding Dict.get
IsFresh-red = refl

-- The store after the mint, after one for another guest, and after a sweep.
abbrev minted_store : TokenStore
minted_store = (handle_create_token net caps fresh_site request (some (codes "aa"))).0

abbrev shared_store : TokenStore
shared_store = (generate_token_at caps minted_store (codes "10.0.0.6") 110 (some (codes "bb"))).0

abbrev swept_store : TokenStore
swept_store = cleanup_tick caps shared_store 115

IsFresh-blue : IsFresh minted_store (some (codes "bb"))
unfolding handle_create_token generate_token_at insert_token prune_peer_expired evict_oldest_of_peer
    settle Dict.get Dict.put Dict.remove same
IsFresh-blue = refl

apart : peer_name (codes "10.0.0.5") ≢ peer_name (codes "10.0.0.6")
unfolding same
apart e =
    absurd
      (ground (arith, (same_iff (peer_name (codes "10.0.0.5")) (peer_name (codes "10.0.0.6"))).1 e))

is_bb : Option Text → Bool
unfolding same
is_bb none = false
is_bb (some t) = same t (codes "bb")

other_value : some (codes "bb") ≢ some (codes "aa")
unfolding is_bb same
other_value e = let no : true ≡ false = ap is_bb e in cc

Others-acted :
    Others caps
      (peer_of net (peer_ip net request.remote_addr))
      (codes "aa")
      120
      minted_store
      swept_store
unfolding peer_ip
Others-acted =
    sweeping
      (minting at_once (codes "10.0.0.6") 110 (some (codes "bb")) apart IsFresh-blue other_value)
      115 (omega arith)

token_opens_example :
    ((handle_create_token net caps fresh_site request (some (codes "aa"))).1
      ≡ plain 200 (codes "aa"))
    × (120 ≤ 100 + 60
        → (serve net true true
            (after net caps fresh_site request (codes "aa") 120 swept_store)
            request
            (some domain)).status
          ≢ 401)
    × (100 + 60 + 1 ≤ 120
        → serve net true true
            (after net caps fresh_site request (codes "aa") 120 swept_store)
            request
            (some domain)
          ≡ token_required)
token_opens_example =
    token_opens net caps fresh_site request (codes "aa") 120 swept_store true domain request valid0
      IsFresh-red minted_200 Others-acted (λ e. cc) refl (λ e. cc)
