-- ===== src/Tests/Loading.antt =====
-- A small inventory.
use vtpm_mds.Prelude.{
  ◌≡◌, refl, Option, none, some, [], ◌∷◌, Text, codes, same, trim_space, to_lower, drop_spaces,
  is_space, lower_rune,
}
use vtpm_mds.Dict
use vtpm_mds.Dict.{Dict}
use vtpm_mds.Inventory.{
  VmEntry, VmConfig, load_yaml, load_loop, load_entry, raw_config_of, clean_macs, get_vmid_by_mac,
  has_mac, config_of,
}
use vtpm_mds.Inventory.Loaded.{IsLoaded, load_yaml-IsLoaded}

abbrev web : VmEntry
web = record {
  id = codes "350";
  name = codes "web";
  macs = codes " BC:24:11:00:00:01 " ∷ [];
  ek_sha256 = [];
  public_ipv4 = [];
  tags = (codes "role", codes "db") ∷ (codes "bad key", codes "x") ∷ [];
}

abbrev no_address : Text → Option Text
no_address s = none

abbrev loaded : Dict VmConfig
loaded = (codes "350", config_of no_address web ((codes "name", codes "web") ∷ [])) ∷ []

loads : load_yaml no_address (web ∷ []) ≡ some loaded
unfolding load_yaml load_loop load_entry raw_config_of same trim_space drop_spaces is_space Dict.put
loads = refl

finds : get_vmid_by_mac loaded (codes "bc:24:11:00:00:01") ≡ codes "350"
unfolding get_vmid_by_mac has_mac clean_macs same trim_space drop_spaces is_space to_lower
    lower_rune
finds = refl

load_yaml-IsLoaded_example : IsLoaded loaded
load_yaml-IsLoaded_example = load_yaml-IsLoaded no_address (web ∷ []) loaded loads
