-- ===== src/Config.antt =====
-- The service configuration, internal/config/config.go. The YAML decoder, which overlays a file on a
-- configuration, and time.ParseDuration are parameters; a duration is a number of nanoseconds.
pub mod Loads
use vtpm_mds.Prelude.{
  ℕ, ◌*◌, Bool, true, false, not, ◌&&◌, ltb, if◌then◌else◌, Option, none, some, [], Text, codes,
  same,
}

-- `negsuc n` is -(n + 1).
pub data ℤ : Type 0 where
  pos : ℕ → ℤ
  negsuc : ℕ → ℤ

pub record MdsConfig : Type 0 where
  pub listen_addr : Text
  pub jwks_path : Text
  pub attestation_ca : Text
  pub ek_ca_chain : Text
  pub devid_ca_cert : Text
  pub devid_ca_key : Text
  pub devid_lifetime : Text
  pub token_ttl : Text
  pub jwt_ttl : Text
  pub enable_ec2_compat : Bool
  pub enable_tpm_attestation : Bool
  pub tpm_device : Text
  pub host_tpm_device : Text
  pub signing_key_path : Text
  pub inventory_path : Text
  pub require_vm_identity : Bool
  pub cluster_pin_dir : Text
  pub require_cluster_pin : Bool

-- MaxDevIDLifetime, 8760 hours
abbrev pub max_devid_lifetime : ℕ
max_devid_lifetime = 31536000000000000

-- DefaultConfig
abbrev pub default_config : MdsConfig
default_config = record {
  listen_addr = codes "169.254.169.1:80";
  jwks_path = codes "/var/lib/vtpm-mds/jwks.json";
  attestation_ca = codes "/etc/vtpm-mds/attestation-ca.pem";
  ek_ca_chain = codes "/etc/vtpm-mds/ek-chain.pem";
  devid_ca_cert = codes "/etc/vtpm-mds/devid-ca.pem";
  devid_ca_key = codes "/etc/vtpm-mds/devid-ca-key.pem";
  devid_lifetime = codes "2160h";
  token_ttl = codes "60s";
  jwt_ttl = codes "5m";
  enable_ec2_compat = true;
  enable_tpm_attestation = true;
  tpm_device = codes "/dev/tpm0";
  host_tpm_device = codes "/dev/tpmrm0";
  signing_key_path = codes "/var/lib/vtpm-mds/signing-key.pem";
  inventory_path = [];
  require_vm_identity = true;
  cluster_pin_dir = codes "/etc/pve/vtpm-ek";
  require_cluster_pin = false;
}

-- The errors of Load, in the order of its checks.
pub data ConfigError : Type 0 where
  not_read not_parsed no_listen_addr bad_token_ttl bad_lifetime lifetime_not_positive : ConfigError
  lifetime_too_long no_cluster_pin_dir pin_with_inventory : ConfigError

pub data Loaded : Type 0 where
  loaded : MdsConfig → Loaded
  refused : ConfigError → Loaded

-- The checks on the lifetime, with the error of the one that fails.
unfoldable pub lifetime_error : Option ℤ → Option ConfigError
lifetime_error none = some bad_lifetime
lifetime_error (some (negsuc n)) = some lifetime_not_positive
lifetime_error (some (pos n)) =
    if ltb 0 n
    then if ltb max_devid_lifetime n then some lifetime_too_long else none
    else some lifetime_not_positive

-- The checks on the cluster pins.
unfoldable pub pin_error : MdsConfig → Option ConfigError
pin_error cfg =
    if cfg.require_cluster_pin
    then if same cfg.cluster_pin_dir []
      then some no_cluster_pin_dir
      else if not (same cfg.inventory_path [])
      then some pin_with_inventory
      else none
    else none

abbrev pub or_else : Option ConfigError → Option ConfigError → Option ConfigError
or_else (some e) other = some e
or_else none other = other

abbrev pub answer : MdsConfig → Option ConfigError → Loaded
answer cfg none = loaded cfg
answer cfg (some e) = refused e

abbrev pub ttl_error : Option ℤ → Option ConfigError
ttl_error none = some bad_token_ttl
ttl_error (some d) = none

module _ (parse_duration : Text → Option ℤ) where
  -- What Load checks of a decoded configuration.
  unfoldable pub check : MdsConfig → Loaded
  unfolding lifetime_error pin_error
  check cfg =
      if same cfg.listen_addr []
      then refused no_listen_addr
      else answer cfg (
          or_else (ttl_error (parse_duration cfg.token_ttl))
            (or_else (lifetime_error (parse_duration cfg.devid_lifetime)) (pin_error cfg)))

  abbrev check_decoded : Option MdsConfig → Loaded
  check_decoded none = refused not_parsed
  check_decoded (some cfg) = check cfg

  -- Load. The first argument is the content of the file, `none` where it cannot be read.
  unfoldable pub load : (Text → MdsConfig → Option MdsConfig) → Option Text → Loaded
  unfolding check
  load decode none = refused not_read
  load decode (some file) = check_decoded (decode file default_config)
