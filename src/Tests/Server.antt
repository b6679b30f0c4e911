-- ===== src/Tests/Server.antt =====
-- An inventory that changes under a running server, and callers of it.
use vtpm_mds.Prelude.{
  ℕ, ◌≡◌, ◌-◌, ◌<◌, ◌↔◌, refl, Bool, true, false, none, some, [], ◌∷◌, inl, Text, codes, same, In,
  has_prefix, fields_func, is_space, split_on, to_lower, lower_rune, trim_space, drop_spaces,
}
use vtpm_mds.Dict
use vtpm_mds.Dict.{Dict}
use vtpm_mds.Inventory.{VmConfig, get_vmid_by_mac, has_mac}
use vtpm_mds.Server.{
  Server, Source, new_server, reload_now, reload_if_changed, refresh_vm_config_cache, readiness,
  status_ok, ca_readable_cache_ttl, devid_ca_readable_cached, detail_of,
}
use vtpm_mds.Server.Reloads.{Reach, start, health, Check, loads, IsCurrent, Reach-IsCurrent}
use vtpm_mds.Server.Polls.{Serves, poll_catches_up}
use vtpm_mds.Server.Ready.{ready_iff}
use vtpm_mds.Server.Identify.{
  bound, crashed, extract_vm_config, get_mac_from_arp, arp_loop, arp_line, find_vm_config_by_mac,
}
use vtpm_mds.Server.Identify.Bound.{Gives, normal, bound_by_arp}

abbrev web : VmConfig
web = record {
  vmid = codes "350";
  name = codes "web";
  raw_config = [];
  tags = [];
  macs = codes "bc:24:11:00:00:01" ∷ [];
  ek_sha256 = [];
}

abbrev vms : Dict VmConfig
vms = (codes "350", web) ∷ []

-- An empty inventory, one with a guest, and one that does not load.
abbrev blank : Source
blank = record { fingerprint = codes "f"; vms = some []; topology = [] }

abbrev filled : Source
filled = record { fingerprint = codes "ff"; vms = some vms; topology = [] }

abbrev broken : Source
broken = record { fingerprint = codes "fff"; vms = none; topology = [] }

abbrev server0 : Server
server0 = (reload_now (new_server []) blank blank 10).0

reached0 : Reach server0 blank blank (some blank) []
reached0 = start [] blank blank 10

abbrev server1 : Server
server1 = (readiness true server0 20 true).0

reached1 : Reach server1 blank blank (some blank) ((20, true) ∷ [])
reached1 = health reached0 true 20 true

ready : (readiness true server0 20 true).1.status ≡ status_ok
unfolding readiness reload_now refresh_vm_config_cache devid_ca_readable_cached detail_of same
ready = refl

polled : (reload_if_changed server0 filled filled 30).0.cache ≡ vms
unfolding reload_if_changed reload_now refresh_vm_config_cache same
polled = refl

kept : (reload_if_changed server0 broken broken 30).0.cache ≡ []
unfolding reload_if_changed reload_now refresh_vm_config_cache same
kept = refl

Reach-IsCurrent_example : IsCurrent server1 blank blank (some blank)
Reach-IsCurrent_example = Reach-IsCurrent reached1

poll_catches_up_example : Serves (reload_if_changed server1 filled filled 30).0 filled
poll_catches_up_example = poll_catches_up filled 30 reached1 (λ e. absurd (cc e)) (inl refl)

ready_iff_example :
    (t : ℕ) × (ok : Bool) × In {A = Check} (t, ok) ((30, false) ∷ (20, true) ∷ [])
    × (30 - t < ca_readable_cache_ttl)
    × ((readiness true server1 30 false).1.status ≡ status_ok
        ↔ (loads blank ≡ true) × (true ≡ true → ok ≡ true))
ready_iff_example = ready_iff true 30 false reached1

abbrev table : Text
table =
    codes
      "IP address HW type Flags HW address Mask Device\n10.0.0.5 0x1 0x2 BC:24:11:00:00:01 * br0"

binds : extract_vm_config vms (some table) (codes "10.0.0.5") ≡ bound web
unfolding extract_vm_config get_mac_from_arp arp_loop arp_line find_vm_config_by_mac get_vmid_by_mac
    has_mac Dict.get same has_prefix fields_func is_space split_on to_lower lower_rune trim_space
    drop_spaces
binds = refl

-- A line that ends behind the MAC ends the connection by a panic.
short_line :
    extract_vm_config vms (some (codes "10.0.0.5 0x1 0x2 BC:24:11:00:00:01")) (codes "10.0.0.5")
    ≡ crashed
unfolding extract_vm_config get_mac_from_arp arp_loop arp_line same has_prefix fields_func is_space
    split_on to_lower lower_rune
short_line = refl

vms-IsKeyed : Dict.IsKeyed vms
unfolding Dict.get
vms-IsKeyed = (refl, tt)

bound_by_arp_example :
    (content line vmid m : Text) × (some table ≡ some content)
    × In line (split_on 10 content)
    × Gives line (codes "10.0.0.5") m
    × (Dict.get vmid vms ≡ some web)
    × ((own : Text) × In own web.macs × (to_lower own ≡ normal (normal m)))
bound_by_arp_example = bound_by_arp vms (some table) (codes "10.0.0.5") web vms-IsKeyed binds
