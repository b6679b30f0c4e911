-- ===== src/Tests/Starting.antt =====
-- A configuration file, and the enroller that it gives.
use vtpm_mds.Prelude.{
  ◌≡◌, ◌≢◌, ◌↔◌, refl, true, false, none, some, Option, [], ◌∷◌, ◌++◌, Text, codes, same,
  if◌then◌else◌,
}
use vtpm_mds.Config.{
  ℤ, pos, MdsConfig, default_config, load, loaded, check, lifetime_error, pin_error,
}
use vtpm_mds.Config.Loads.{IsUsable, load_iff}
use vtpm_mds.Server.Enrolling.{
  Files, Settings, load_devid_enroller, failed, enrolls, bad_duration, bad_lifetime, settings,
  credential_ca_key_path,
}
use vtpm_mds.Server.Enrolling.Configured.{Fits, configured_enroller}

-- Hours alone.
abbrev duration : Text → Option ℤ
duration s =
    if same s (codes "2160h")
    then some (pos 7776000000000000)
    else if same s (codes "60s")
    then some (pos 60000000000)
    else none

-- A file that sets the pin requirement.
abbrev decode : Text → MdsConfig → Option MdsConfig
decode s cfg = some (record cfg { require_cluster_pin = true })

abbrev strict : MdsConfig
strict = record default_config { require_cluster_pin = true }

empty_duration : duration [] ≡ none
unfolding same
empty_duration = refl

loads_strict : load duration decode (some (codes "x")) ≡ loaded strict
unfolding load check lifetime_error pin_error same
loads_strict = refl

load_iff_example : load duration decode (some (codes "x")) ≡ loaded strict ↔ (
    (content : Text) × (some (codes "x") ≡ some content)
    × (decode content default_config ≡ some strict)
    × IsUsable duration strict)
load_iff_example = load_iff duration decode (some (codes "x")) strict

abbrev files : Files
files = record {
  size = λ path. some 1;
  read_file = λ path. some (codes "pem");
  load_ca = λ cert key. true;
  append_certs = λ pem. true;
  pem_block = λ pem. none;
  parse_certificate = λ block. false;
  join = λ a b. a ++ (b'/' ∷ b);
  dir = λ path. path;
  credentials_directory = [];
  state_directory = codes "/var/lib/vtpm-mds";
}

starts :
    load_devid_enroller duration files strict ≡ enrolls (settings files strict 7776000000000000)
unfolding load_devid_enroller credential_ca_key_path same
starts = refl

configured_enroller_example :
    (load_devid_enroller duration files strict ≢ failed bad_duration)
    × (load_devid_enroller duration files strict ≢ failed bad_lifetime)
    × ((s : Settings)
        → load_devid_enroller duration files strict ≡ enrolls s
        → Fits duration files strict s)
configured_enroller_example =
    configured_enroller duration files strict decode (some (codes "x")) empty_duration loads_strict
