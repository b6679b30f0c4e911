-- ===== src/Server.antt =====
-- The server's inventory, its reloads and its readiness: internal/server/reload.go, and
-- RefreshVMConfigCache to devIDCAReadableCached of internal/server/server.go. The package variables
-- vmConfigCache and hostTopology are fields of the server. A time is a number of nanoseconds.
pub mod Reloads
pub mod Polls
pub mod Ready
pub mod Identify
pub mod Enrolling
use vtpm_mds.Prelude.{
  ℕ, ◌+◌, ◌-◌, Bool, true, false, not, ◌&&◌, ltb, if◌then◌else◌, Option, none, some, List, [], ◌∷◌,
  length, Text, codes, same,
}
use vtpm_mds.Dict
use vtpm_mds.Dict.{Dict}
use vtpm_mds.Inventory.{VmConfig}
use vtpm_mds.Metadata.{Request, is_bound}

-- What a read of the inventory source finds: its fingerprint, the records (`none` where the load
-- fails), and the topology.
pub record Source : Type 0 where
  pub fingerprint : Text
  pub vms : Option (Dict VmConfig)
  pub topology : Dict Text

-- `last` is poll.last, and `none` while poll.have is not set.
pub record Server : Type 0 where
  pub last : Option Text
  pub cache : Dict VmConfig
  pub topology : Dict Text
  pub inventory_loaded : Bool
  pub vm_count : ℕ
  pub last_reload : Option ℕ
  pub last_error_class : Text
  pub ca_readable : Bool
  pub ca_checked_at : Option ℕ

-- The server before New reloads the inventory.
abbrev pub new_server : Dict Text → Server
new_server topology = record {
  last = none;
  cache = [];
  topology = topology;
  inventory_loaded = false;
  vm_count = 0;
  last_reload = none;
  last_error_class = [];
  ca_readable = false;
  ca_checked_at = none;
}

abbrev pub err_class_inventory_load_failed : Text
err_class_inventory_load_failed = codes "inventory_load_failed"

abbrev pub err_class_devid_ca_unreadable : Text
err_class_devid_ca_unreadable = codes "devid_ca_unreadable"

-- caReadableCacheTTL, 5 seconds
abbrev pub ca_readable_cache_ttl : ℕ
ca_readable_cache_ttl = 5000000000

-- recordInventoryLoadSuccess
pub record_inventory_load_success : Server → ℕ → ℕ → Server
record_inventory_load_success s n now = record s {
  inventory_loaded = true;
  vm_count = n;
  last_reload = some now;
  last_error_class = [];
}

-- recordInventoryLoadFailure
pub record_inventory_load_failure : Server → Server
record_inventory_load_failure s = record s { last_error_class = err_class_inventory_load_failed }

refresh_with : Server → Option (Dict VmConfig) → Dict Text → ℕ → Server × Bool
unfolding record_inventory_load_success record_inventory_load_failure
refresh_with s none topology now = (record_inventory_load_failure s, false)
refresh_with s (some vms) topology now =
    let filled = record s { cache = vms; topology = topology } in
    (record_inventory_load_success filled (length vms) now, true)

-- RefreshVMConfigCache, and whether it gives no error
unfoldable pub refresh_vm_config_cache : Server → Source → ℕ → Server × Bool
unfolding refresh_with
refresh_vm_config_cache s read now = refresh_with s read.vms read.topology now

-- reloadNow. The source may change between the fingerprint, of `seen`, and the load, of `read`.
unfoldable pub reload_now : Server → Source → Source → ℕ → Server × Bool
unfolding refresh_vm_config_cache
reload_now s seen read now =
    refresh_vm_config_cache (record s { last = some seen.fingerprint }) read now

abbrev pub is_last : Option Text → Text → Bool
is_last none fp = false
is_last (some last) fp = same fp last

-- reloadIfChanged
unfoldable pub reload_if_changed : Server → Source → Source → ℕ → Server × Bool
unfolding refresh_vm_config_cache
reload_if_changed s seen read now =
    if is_last s.last seen.fingerprint
    then (s, false)
    else ((refresh_vm_config_cache (record s { last = some seen.fingerprint }) read now).0, true)

-- What checkDevIDCAReadable reads: the loaded enroller, the configured paths, and the path of a
-- credential, which may be empty.
pub record CaFiles : Type 0 where
  pub devid : Bool
  pub cert_path : Text
  pub key_path : Text
  pub credential : Text

-- checkDevIDCAReadable
unfoldable pub check_devid_ca_readable : CaFiles → (Text → Bool) → Bool
check_devid_ca_readable ca readable_file =
    let key_path = if not (same ca.credential []) then ca.credential else ca.key_path in
    if not ca.devid
    then false
    else if same ca.cert_path []
    then false
    else if same key_path []
    then false
    else readable_file ca.cert_path && readable_file key_path

-- Whether the last check of the CA files is recent enough. A clock that went back counts as recent.
abbrev pub is_recent : Option ℕ → ℕ → Bool
is_recent none now = false
is_recent (some checked) now = ltb (now - checked) ca_readable_cache_ttl

-- devIDCAReadableCached; `checked` is what a check answers now.
unfoldable pub devid_ca_readable_cached : Server → ℕ → Bool → Server × Bool
devid_ca_readable_cached s now checked =
    if is_recent s.ca_checked_at now
    then (s, s.ca_readable)
    else (record s { ca_readable = checked; ca_checked_at = some now }, checked)

pub record HealthDetail : Type 0 where
  pub status : Text
  pub inventory_loaded : Bool
  pub vm_count : ℕ
  pub devid_ca_readable : Option Bool
  pub last_reload : Option ℕ
  pub last_error : Text

abbrev pub status_ok : Text
status_ok = codes "ok"

abbrev pub status_degraded : Text
status_degraded = codes "degraded"

abbrev pub is_not_ok : Option Bool → Bool
is_not_ok none = true
is_not_ok (some ok) = not ok

-- What readiness makes of the fields that it read; `ca_ok` is nil where attestation is off.
unfoldable pub detail_of : Server → Bool → Option Bool → HealthDetail
detail_of s attestation ca_ok =
    let last_err =
      if attestation && is_not_ok ca_ok && same s.last_error_class []
      then err_class_devid_ca_unreadable
      else s.last_error_class in
    let loaded = if not s.inventory_loaded then status_degraded else status_ok in
    let attested = if attestation && is_not_ok ca_ok then status_degraded else loaded in
    record {
      status = if not (same last_err []) then status_degraded else attested;
      inventory_loaded = s.inventory_loaded;
      vm_count = s.vm_count;
      devid_ca_readable = ca_ok;
      last_reload = s.last_reload;
      last_error = last_err;
    }

-- readiness
unfoldable pub readiness : Bool → Server → ℕ → Bool → Server × HealthDetail
unfolding devid_ca_readable_cached detail_of
readiness attestation s now checked =
    let (s', ok) = devid_ca_readable_cached s now checked in
    if attestation then (s', detail_of s true (some ok)) else (s, detail_of s false none)

pub data HealthBody : Type 0 where
  status_only : Text → HealthBody
  detailed : HealthDetail → HealthBody

-- handleHealth: a bound caller gets the status alone.
unfoldable pub handle_health : Bool → Server → Request → ℕ → Bool → Server × HealthBody
unfolding readiness
handle_health attestation s r now checked =
    let (s', detail) = readiness attestation s now checked in
    (s', if is_bound r.vm then status_only detail.status else detailed detail)
