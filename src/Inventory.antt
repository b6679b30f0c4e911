-- ===== src/Inventory.antt =====
-- The inventory, internal/inventory/inventory.go and tags.go. The YAML decoder is not part of it: LoadYAML
-- starts from the decoded entries. `parse` is net.ParseIP with To4 and String, for a text that is an
-- IPv4 address. Zone and region of an entry are only logged.
pub mod Loaded
pub mod Lookup
use vtpm_mds.Prelude.{
  ℕ, Bool, true, false, not, ◌&&◌, ◌||◌, ◌==◌, ltb, leb, if◌then◌else◌, Option, none, some, List,
  [], ◌∷◌, length, Text, codes, same, trim_space, to_lower,
}
use vtpm_mds.Dict
use vtpm_mds.Dict.{Dict}

pub record VmEntry : Type 0 where
  pub id : Text
  pub name : Text
  pub macs : List Text
  pub ek_sha256 : Text
  pub public_ipv4 : Text
  pub tags : Dict Text

pub record VmConfig : Type 0 where
  pub vmid : Text
  pub name : Text
  pub raw_config : Dict Text
  pub tags : Dict Text
  pub macs : List Text
  pub ek_sha256 : Text

abbrev pub is_letter_or_digit : ℕ → Bool
is_letter_or_digit c =
    (leb b'A' c && leb c b'Z') || (leb b'a' c && leb c b'z') || (leb b'0' c && leb c b'9')

abbrev pub is_key_rune : ℕ → Bool
is_key_rune c = is_letter_or_digit c || c == b'_' || c == b'+' || c == b'-'

unfoldable pub all_runes : (ℕ → Bool) → Text → Bool
all_runes p [] = true
all_runes p (c ∷ s) = p c && all_runes p s

-- ValidTagKey
unfoldable pub valid_tag_key : Text → Bool
unfolding all_runes
valid_tag_key s = ltb 0 (length s) && leb (length s) 63 && all_runes is_key_rune s

-- ValidTagValue
unfoldable pub valid_tag_value : Text → Bool
unfolding all_runes
valid_tag_value s =
    ltb 0 (length s) && leb (length s) 255 && all_runes (λ c. is_key_rune c || c == b'.') s

-- The loop over the MAC addresses of an entry.
unfoldable pub clean_macs : List Text → List Text
clean_macs [] = []
clean_macs (mac ∷ macs) =
    let rest = clean_macs macs in
    if same (to_lower (trim_space mac)) [] then rest else to_lower (trim_space mac) ∷ rest

-- The loop over the tags: an invalid one is left out.
unfoldable pub clean_tags : Dict Text → Dict Text → Dict Text
clean_tags out [] = out
clean_tags out ((key, value) ∷ tags) =
    let next =
      if not (valid_tag_key (trim_space key)) || not (valid_tag_value (trim_space value))
      then out
      else Dict.put (trim_space key) (trim_space value) out in
    clean_tags next tags

module _ (parse : Text → Option Text) where
  abbrev with_address : Dict Text → Option Text → Option (Dict Text)
  with_address raw none = none
  with_address raw (some ip) = some (Dict.put (codes "public-ipv4") ip raw)

  -- The raw keys of an entry, `none` where its public address is none.
  unfoldable pub raw_config_of : VmEntry → Option (Dict Text)
  raw_config_of vm =
      let raw = (codes "name", vm.name) ∷ [] in
      if same (trim_space vm.public_ipv4) []
      then some raw
      else with_address raw (parse (trim_space vm.public_ipv4))

  abbrev pub config_of : VmEntry → Dict Text → VmConfig
  config_of vm raw = record {
    vmid = vm.id;
    name = vm.name;
    raw_config = raw;
    tags = clean_tags [] vm.tags;
    macs = clean_macs vm.macs;
    ek_sha256 = to_lower (trim_space vm.ek_sha256);
  }

  abbrev pub put_config : Dict VmConfig → VmEntry → Option (Dict Text) → Option (Dict VmConfig)
  put_config out vm none = none
  put_config out vm (some raw) = some (Dict.put vm.id (config_of vm raw) out)

  unfoldable pub load_entry : Dict VmConfig → VmEntry → Option (Dict VmConfig)
  unfolding raw_config_of
  load_entry out vm = if same vm.id [] then some out else put_config out vm (raw_config_of vm)

  unfoldable pub load_loop : Dict VmConfig → List VmEntry → Option (Dict VmConfig)
  unfolding load_entry
  load_loop out [] = some out
  load_loop out (vm ∷ vms) = elim (load_entry out vm) [
    | none ↦ none
    | some next ↦ load_loop next vms
  ]

  -- LoadYAML of the decoded entries, `none` where it is an error
  unfoldable pub load_yaml : List VmEntry → Option (Dict VmConfig)
  unfolding load_loop
  load_yaml vms = load_loop [] vms

unfoldable pub has_mac : Text → List Text → Bool
has_mac mac [] = false
has_mac mac (m ∷ macs) = same (to_lower m) mac || has_mac mac macs

mac_loop : Text → Dict VmConfig → Text
unfolding has_mac
mac_loop mac [] = []
mac_loop mac ((vmid, vm) ∷ vms) =
    let rest = mac_loop mac vms in if has_mac mac vm.macs then vmid else rest

-- GetVMIDByMAC
unfoldable pub get_vmid_by_mac : Dict VmConfig → Text → Text
unfolding mac_loop
get_vmid_by_mac vms mac = mac_loop (to_lower (trim_space mac)) vms
