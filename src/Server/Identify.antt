-- ===== src/Server/Identify.antt =====
-- How a connection is bound to a VM record: getMACFromARP, findVMConfigByMAC and
-- extractVMConfigByRouting of internal/server/server.go. `none` is an ARP table that cannot be read.
pub mod Bound
use vtpm_mds.Prelude.{
  ℕ, ◌≡◌, ◌≢◌, ◌∙◌, refl, sym, ap, subst, Bool, true, false, none, some, Option, List, [], ◌∷◌,
  arith, if◌then◌else◌, Text, codes, same, same_iff, has_prefix, fields_func, is_space, split_on,
  to_lower, trim_space, inl, inr, Bool-cases, In, length, ◌≤◌,
}
use vtpm_mds.Dict
use vtpm_mds.Dict.{Dict}
use vtpm_mds.Inventory.{VmConfig, get_vmid_by_mac, has_mac}

-- What one line says of an address: nothing, its MAC, or a panic at the sixth field.
pub data ArpMac : Type 0 where
  no_mac panicked : ArpMac
  mac : Text → ArpMac

abbrev pub zero_mac : Text
zero_mac = codes "00:00:00:00:00:00"

-- The debug line reads the sixth field, whether it is written or not.
abbrev checked_device : Text → List Text → ArpMac
checked_device address (mask ∷ device ∷ rest) = mac address
checked_device address _ = panicked

pub arp_fields : Text → List Text → ArpMac
arp_fields ip (address ∷ kind ∷ flags ∷ hardware ∷ rest) =
    if same address ip
    then if same (to_lower hardware) zero_mac
      then no_mac
      else checked_device (to_lower hardware) rest
    else no_mac
arp_fields ip _ = no_mac

unfoldable pub arp_line : Text → Text → ArpMac
unfolding arp_fields
arp_line ip line =
    if has_prefix (codes "IP address") line
    then no_mac
    else arp_fields ip (fields_func is_space line)

unfoldable pub arp_loop : Text → List Text → ArpMac
unfolding arp_line
arp_loop ip [] = no_mac
arp_loop ip (line ∷ lines) = elim (arp_line ip line) [
  | no_mac ↦ arp_loop ip lines
  | panicked ↦ panicked
  | mac m ↦ mac m
]

-- getMACFromARP
unfoldable pub get_mac_from_arp : Option Text → Text → ArpMac
unfolding arp_loop
get_mac_from_arp none ip = no_mac
get_mac_from_arp (some table) ip = arp_loop ip (split_on 10 table)

abbrev cached : Dict VmConfig → Text → Option VmConfig
cached cache vmid = if same vmid [] then none else Dict.get vmid cache

-- findVMConfigByMAC
unfoldable pub find_vm_config_by_mac : Dict VmConfig → Text → Option VmConfig
find_vm_config_by_mac cache m = cached cache (get_vmid_by_mac cache (to_lower (trim_space m)))

pub data Binding : Type 0 where
  bound : VmConfig → Binding
  unbound crashed : Binding

abbrev of_found : Option VmConfig → Binding
of_found none = unbound
of_found (some vm) = bound vm

-- extractVMConfigByRouting, for a TCP peer with the address `ip`
unfoldable pub extract_vm_config : Dict VmConfig → Option Text → Text → Binding
extract_vm_config cache table ip = elim (get_mac_from_arp table ip) [
  | no_mac ↦ unbound
  | panicked ↦ crashed
  | mac m ↦ of_found (find_vm_config_by_mac cache m)
]
