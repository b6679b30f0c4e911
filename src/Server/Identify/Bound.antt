-- ===== src/Server/Identify/Bound.antt =====
-- Whom a connection is bound to.
use vtpm_mds.Prelude.{
  ◌≡◌, ◌≢◌, ◌⊎◌, ◌∙◌, refl, true, none, some, Option, List, [], ◌∷◌, arith, Text, codes, same,
  same_iff, has_prefix, fields_func, is_space, split_on, to_lower, trim_space, inl, inr, Bool-cases,
  In,
}
use vtpm_mds.Dict
use vtpm_mds.Dict.{Dict, IsKeyed}
use vtpm_mds.Inventory.{VmConfig, get_vmid_by_mac, has_mac}
use vtpm_mds.Inventory.Lookup.{get_vmid_by_mac-has_mac}
use vtpm_mds.Server.Identify.{
  ArpMac, no_mac, panicked, mac, zero_mac, arp_fields, arp_line, arp_loop, get_mac_from_arp,
  find_vm_config_by_mac, bound, unbound, crashed, extract_vm_config, of_found,
}

-- An ARP line gives an address a MAC: its first field is the address, its fourth is the MAC in some
-- case, and the MAC is not all zeros.
abbrev pub Gives : Text → Text → Text → Type 0
Gives line ip m =
    (kind flags hardware : Text) × (rest : List Text) × (fields_func is_space line
      ≡ ip ∷ kind ∷ flags ∷ hardware ∷ rest)
    × (m ≡ to_lower hardware)
    × (m ≢ zero_mac)

fields_give :
    (ip m : Text) (fields : List Text)
    → arp_fields ip fields ≡ mac m
    → (kind flags hardware : Text) × (rest : List Text) × (fields
        ≡ ip ∷ kind ∷ flags ∷ hardware ∷ rest)
      × (m ≡ to_lower hardware)
      × (m ≢ zero_mac)
unfolding arp_fields
fields_give ip m [] h = cc
fields_give ip m (a ∷ []) h = cc
fields_give ip m (a ∷ b ∷ []) h = cc
fields_give ip m (a ∷ b ∷ c ∷ []) h = cc
fields_give ip m (a ∷ b ∷ c ∷ d ∷ []) h = ground (arith, same_iff a ip)
fields_give ip m (a ∷ b ∷ c ∷ d ∷ e ∷ []) h = ground (arith, same_iff a ip)
fields_give ip m (a ∷ b ∷ c ∷ d ∷ e ∷ f ∷ rest) h = (
  b,
  c,
  d,
  e ∷ f ∷ rest,
  ground (arith, same_iff a ip),
  ground (arith, same_iff a ip),
  ground (arith, same_iff a ip, same_iff (to_lower d) zero_mac),
)

line-Gives : (ip m line : Text) → arp_line ip line ≡ mac m → Gives line ip m
unfolding arp_line
line-Gives ip m line h = elim (Bool-cases (has_prefix (codes "IP address") line)) [
  | inl e ↦ let no : no_mac ≡ mac m = rw e at h in cc
  | inr e ↦ fields_give ip m (fields_func is_space line) (rw e at h)
]

ArpMac-cases : (a : ArpMac) → (a ≡ no_mac) ⊎ ((a ≡ panicked) ⊎ ((m : Text) × (a ≡ mac m)))
ArpMac-cases no_mac = inl refl
ArpMac-cases panicked = inr (inl refl)
ArpMac-cases (mac m) = inr (inr (m, refl))

loop-Gives :
    (ip m : Text) (lines : List Text)
    → arp_loop ip lines ≡ mac m
    → (line : Text) × In line lines × Gives line ip m
unfolding arp_loop has_prefix
loop-Gives ip m [] h = cc
loop-Gives ip m (line ∷ lines) h = elim (ArpMac-cases (arp_line ip line)) [
  | inl e ↦ let (l, i, g) = loop-Gives ip m lines (rw e at h) in (l, inr i, g)
  | inr (inl e) ↦ let no : panicked ≡ mac m = rw e at h in cc
  | inr (inr (n, e)) ↦
      let found : mac n ≡ mac m = rw e at h in (line, inl refl, line-Gives ip m line (e ∙ found))
]

abbrev pub normal : Text → Text
normal m = to_lower (trim_space m)

bound_found : (o : Option VmConfig) (vm : VmConfig) → of_found o ≡ bound vm → o ≡ some vm
bound_found none vm h = cc
bound_found (some w) vm h = cc

found_has_mac :
    (cache : Dict VmConfig) (m : Text) (vm : VmConfig)
    → IsKeyed cache
    → find_vm_config_by_mac cache m ≡ some vm
    → (vmid : Text) × (Dict.get vmid cache ≡ some vm) × (has_mac (normal (normal m)) vm.macs ≡ true)
unfolding find_vm_config_by_mac
found_has_mac cache m vm k h =
    let vmid = get_vmid_by_mac cache (normal m) in
    elim (Bool-cases (same vmid [])) [
      | inl e ↦ let no : none ≡ some vm = rw e at h in cc
      | inr e ↦
          let stored : Dict.get vmid cache ≡ some vm = rw e at h in
          let named : vmid ≢ [] = λ q. cc ((same_iff vmid []).1 q) in
          (vmid, stored, get_vmid_by_mac-has_mac (normal m) cache vm k named stored)
    ]

has_mac-In :
    (m : Text) (macs : List Text)
    → has_mac m macs ≡ true
    → (own : Text) × In own macs × (to_lower own ≡ m)
unfolding has_mac
has_mac-In m [] h = cc
has_mac-In m (own ∷ macs) h = elim (Bool-cases (same (to_lower own) m)) [
  | inl q ↦ (own, inl refl, (same_iff (to_lower own) m).0 q)
  | inr q ↦ let (found, i, e) = has_mac-In m macs (rw q at h) in (found, inr i, e)
]

-- Where every ID stands once in the cache, a connection is bound to a record only if the ARP table
-- can be read and has a line with the address of the peer and a MAC other than zeros, and the
-- record is in the cache and has that MAC, up to case and surrounding space.
pub bound_by_arp :
    (cache : Dict VmConfig) (table : Option Text) (ip : Text) (vm : VmConfig)
    → IsKeyed cache
    → extract_vm_config cache table ip ≡ bound vm
    → (content line vmid m : Text) × (table ≡ some content)
      × In line (split_on 10 content)
      × Gives line ip m
      × (Dict.get vmid cache ≡ some vm)
      × ((own : Text) × In own vm.macs × (to_lower own ≡ normal (normal m)))
unfolding extract_vm_config get_mac_from_arp
bound_by_arp cache none ip vm k h = cc
bound_by_arp cache (some content) ip vm k h =
    elim (ArpMac-cases (arp_loop ip (split_on 10 content))) [
      | inl e ↦ let no : unbound ≡ bound vm = rw (e, extract_vm_config) at h in cc
      | inr (inl e) ↦ let no : crashed ≡ bound vm = rw (e, extract_vm_config) at h in cc
      | inr (inr (m, e)) ↦
          let (line, i, g) = loop-Gives ip m (split_on 10 content) e in
          let (vmid, stored, has) =
            found_has_mac cache m vm k (bound_found _ vm (rw (e, extract_vm_config) at h)) in
          (content, line, vmid, m, refl, i, g, stored, has_mac-In _ vm.macs has)
    ]
