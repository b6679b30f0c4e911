-- ===== src/Server/Enrolling.antt =====
-- The enroller that the server starts with: credentialCAKeyPath, loadDevIDEnroller, inventoryPins and
-- ekPinDir of internal/server/server.go. filepath.Join, filepath.Dir and devid.LoadCA are arguments,
-- and so are the reads and the parsers of the EK chain.
pub mod Configured
use vtpm_mds.Prelude.{
  ℕ, ◌⊎◌, Bool, true, false, not, ◌&&◌, ◌||◌, none, some, Option, List, [], ◌∷◌, arith,
  if◌then◌else◌, ltb, Text, codes, same, same_iff, same_ne, cut, inl, inr, Bool-cases, Option-cases,
}
use vtpm_mds.Dict
use vtpm_mds.Dict.{Dict}
use vtpm_mds.Inventory.{VmConfig}
use vtpm_mds.Config.{ℤ, pos, negsuc, MdsConfig, default_config, max_devid_lifetime}

-- What the start of the enrolment reads. `size` is os.Stat with the size, `append_certs` is
-- AppendCertsFromPEM, `pem_block` and `parse_certificate` are those of the clearer error, and `load_ca`
-- is whether LoadCA gives no error.
pub record Files : Type 0 where
  pub size : Text → Option ℕ
  pub read_file : Text → Option Text
  pub load_ca : Text → Text → Bool
  pub append_certs : Text → Bool
  pub pem_block : Text → Option Text
  pub parse_certificate : Text → Bool
  pub join : Text → Text → Text
  pub dir : Text → Text
  pub credentials_directory : Text
  pub state_directory : Text

pub record Settings : Type 0 where
  pub lifetime : ℕ
  pub pin_dir : Text
  pub cluster_pin_dir : Text
  pub guest_config_root : Text
  pub require_cluster_pin : Bool

pub data EnrollError : Type 0 where
  no_ca_cert no_ca_key bad_ca bad_duration bad_lifetime chain_not_read chain_empty bad_chain :
      EnrollError

pub data Enrolling : Type 0 where
  skipped : Enrolling
  failed : EnrollError → Enrolling
  enrolls : Settings → Enrolling

abbrev credential_at : Text → Option ℕ → Text
credential_at path none = []
credential_at path (some n) = if ltb 0 n then path else []

-- credentialCAKeyPath
unfoldable pub credential_ca_key_path : Files → Text
credential_ca_key_path files =
    if same files.credentials_directory []
    then []
    else let path = files.join files.credentials_directory (codes "devid_ca.key") in
      credential_at path (files.size path)

-- ekPinDir
unfoldable pub ek_pin_dir : Files → Text
ek_pin_dir files =
    let (state, rest, found) = cut b':' files.state_directory in
    if same files.state_directory []
    then files.join (files.dir default_config.jwks_path) (codes "ek-pins")
    else files.join state (codes "ek-pins")

-- inventoryPins
unfoldable pub inventory_pins : Dict VmConfig → Dict Text
inventory_pins [] = []
inventory_pins ((vmid, vm) ∷ vms) =
    let rest = inventory_pins vms in
    if same vm.ek_sha256 [] then rest else Dict.put vmid vm.ek_sha256 rest

-- The lifetime of the certificates.
unfoldable pub lifetime_of : Option ℤ → EnrollError ⊎ ℕ
lifetime_of none = inl bad_duration
lifetime_of (some (negsuc n)) = inl bad_lifetime
lifetime_of (some (pos n)) =
    if not (ltb 0 n) || ltb max_devid_lifetime n then inl bad_lifetime else inr n

-- The EK roots: whether they can be built.
abbrev single_root : Files → Option Text → Option EnrollError
single_root files none = some chain_empty
single_root files (some block) = if files.parse_certificate block then none else some bad_chain

abbrev roots_of : Files → Option Text → Option EnrollError
roots_of files none = some chain_not_read
roots_of files (some pem) =
    if files.append_certs pem then none else single_root files (files.pem_block pem)

unfoldable pub roots_error : Files → Text → Option EnrollError
roots_error files chain =
    if not (same chain []) then roots_of files (files.read_file chain) else none

abbrev pub settings : Files → MdsConfig → ℕ → Settings
settings files cfg lifetime = record {
  lifetime = lifetime;
  pin_dir = ek_pin_dir files;
  cluster_pin_dir = if same cfg.inventory_path [] then cfg.cluster_pin_dir else [];
  guest_config_root =
      if same cfg.inventory_path [] then files.join (codes "/etc/pve") (codes "nodes") else [];
  require_cluster_pin = cfg.require_cluster_pin;
}

abbrev with_roots : Files → MdsConfig → ℕ → Option EnrollError → Enrolling
with_roots files cfg lifetime none = enrolls (settings files cfg lifetime)
with_roots files cfg lifetime (some e) = failed e

abbrev with_lifetime : Files → MdsConfig → EnrollError ⊎ ℕ → Enrolling
with_lifetime files cfg (inl e) = failed e
with_lifetime files cfg (inr n) = with_roots files cfg n (roots_error files cfg.ek_ca_chain)

abbrev is_there : Option ℕ → Bool
is_there none = false
is_there (some n) = true

abbrev pub key_path_of : Files → MdsConfig → Text
key_path_of files cfg =
    let cred = credential_ca_key_path files in if not (same cred []) then cred else cfg.devid_ca_key

abbrev pub lifetime_text : MdsConfig → Text
lifetime_text cfg =
    if same cfg.devid_lifetime [] then default_config.devid_lifetime else cfg.devid_lifetime

-- loadDevIDEnroller
unfoldable pub load_devid_enroller : (Text → Option ℤ) → Files → MdsConfig → Enrolling
unfolding lifetime_of roots_error
load_devid_enroller parse_duration files cfg =
    let key_path = key_path_of files cfg in
    if same cfg.devid_ca_cert [] || same key_path []
    then skipped
    else if not (is_there (files.size cfg.devid_ca_cert))
    then failed no_ca_cert
    else if not (is_there (files.size key_path))
    then failed no_ca_key
    else if not (files.load_ca cfg.devid_ca_cert key_path)
    then failed bad_ca
    else with_lifetime files cfg (lifetime_of (parse_duration (lifetime_text cfg)))
