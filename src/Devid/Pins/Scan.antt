-- ===== src/Devid/Pins/Scan.antt =====
-- The scans for an EK another VM holds, and the pin step before a certificate is issued:
-- internal/devid/pin.go, clusterpin.go and enforceOwnPin of auth.go.
use vtpm_mds.Prelude.{
  Bool, true, false, not, ◌&&◌, ◌||◌, Option, none, some, List, [], ◌∷◌, if◌then◌else◌, Text, same,
  trim_space, to_lower, equal_fold,
}
use vtpm_mds.Dict
use vtpm_mds.Dict.{Dict}
use vtpm_mds.Devid.Files.{
  Node, directory, Dir, absent, blocked, unlistable, listable, Read, missing, failed, is_directory,
  contents, read_file, Listing, no_directory, list_failed, names, list_dir, sort_entries, GuestRoot,
  guest_exists,
}
use vtpm_mds.Devid.Pins.{
  pin_store, unauthorized, already_pinned, Result, ok, err, ◌>>=◌, is_empty, validate_vmid,
  is_vmid_name, read_stored_pin, create_stored_pin_exclusive, parse_cluster_pin,
  err_cluster_pin_mismatch, err_no_cluster_pin, err_stored_pin_mismatch, err_pinned_elsewhere,
}

-- The fields of Enroller that the pins depend on. `uses_store` says that PinDir is set, and
-- `cluster_pin_dir` is `none` where ClusterPinDir is empty. The guest configurations are given as two
-- looks find them, before and after guestConfigRecheck.
pub record PinConfig : Type 0 where
  pub uses_store : Bool
  pub cluster_pin_dir : Option Dir
  pub require_cluster_pin : Bool
  pub inventory_pins : Option (Dict Text)
  pub guests : GuestRoot
  pub guests_later : GuestRoot

abbrev pub still_exists : PinConfig → Text → Bool
still_exists e vmid = guest_exists e.guests e.guests_later vmid

-- The pin, and whether the directory exists.
abbrev cluster_pin_of : Read → Result (Text × Bool)
cluster_pin_of missing = ok ([], true)
cluster_pin_of failed = err pin_store
cluster_pin_of is_directory = ok ([], true)
cluster_pin_of (contents b) = elim (parse_cluster_pin b) [
  | none ↦ ok ([], true)
  | some pin ↦ ok (pin, true)
]

abbrev cluster_pin_in : Dir → Text → Result (Text × Bool)
cluster_pin_in absent vmid = ok ([], false)
cluster_pin_in blocked vmid = err pin_store
cluster_pin_in dir vmid = cluster_pin_of (read_file dir vmid)

-- readClusterPin
unfoldable pub read_cluster_pin : PinConfig → Text → Result (Text × Bool)
read_cluster_pin e vmid = elim e.cluster_pin_dir [
  | none ↦ ok ([], false)
  | some dir ↦ if validate_vmid vmid then cluster_pin_in dir vmid else err pin_store
]

abbrev pub is_dir_entry : Node → Bool
is_dir_entry directory = true
is_dir_entry _ = false

-- The entries both scans pass over.
unfoldable pub skips : Text → Text × Node → Bool
skips vmid (name, node) = same name vmid || is_dir_entry node || not (is_vmid_name name)

abbrev matching_pin : Text → Text → Read → Result (List Text) → Result (List Text)
matching_pin name fp missing others = others
matching_pin name fp failed others = err pin_store
matching_pin name fp is_directory others = err pin_store
matching_pin name fp (contents b) others = elim (parse_cluster_pin b) [
  | none ↦ others
  | some pin ↦ if same pin fp then (others >>= λ ids. ok (name ∷ ids)) else others
]

matching_loop : Dir → Text → Text → Dict Node → Result (List Text)
unfolding skips
matching_loop dir vmid fp [] = ok []
matching_loop dir vmid fp (entry ∷ rest) =
    let others = matching_loop dir vmid fp rest in
    if skips vmid entry then others else matching_pin entry.0 fp (read_file dir entry.0) others

abbrev matching_list : Dir → Text → Text → Listing → Result (List Text)
unfolding matching_loop
matching_list dir vmid fp no_directory = ok []
matching_list dir vmid fp list_failed = err pin_store
matching_list dir vmid fp (names d) = matching_loop dir vmid fp d

-- clusterPinsMatching
unfoldable pub cluster_pins_matching : PinConfig → Text → Text → Result (List Text)
unfolding matching_loop
cluster_pins_matching e vmid fp = elim e.cluster_pin_dir [
  | none ↦ ok []
  | some dir ↦ matching_list dir vmid fp (list_dir dir)
]

-- stored != "" && strings.EqualFold(stored, fp)
abbrev pub holds_pin : Text → Text → Bool
holds_pin stored fp = not (is_empty stored) && equal_fold stored fp

unfoldable pub store_loop : PinConfig → Dir → Text → Text → Dict Node → Result Text
unfolding skips
store_loop e dir vmid fp [] = ok []
store_loop e dir vmid fp (entry ∷ rest) =
    let others = store_loop e dir vmid fp rest in
    if skips vmid entry
    then others
    else (read_stored_pin dir entry.0 >>= λ stored.
        if holds_pin stored fp && still_exists e entry.0 then ok entry.0 else others)

abbrev pub store_list : PinConfig → Dir → Text → Text → Listing → Result Text
store_list e dir vmid fp no_directory = ok []
store_list e dir vmid fp list_failed = err pin_store
store_list e dir vmid fp (names d) = store_loop e dir vmid fp d

unfoldable pub store_scan : PinConfig → Dir → Text → Text → Result Text
store_scan e dir vmid fp = if e.uses_store then store_list e dir vmid fp (list_dir dir) else ok []

unfoldable pub first_existing : PinConfig → List Text → Text
first_existing e [] = []
first_existing e (id ∷ ids) =
    let others = first_existing e ids in if still_exists e id then id else others

unfoldable pub inventory_loop : Text → Text → Dict Text → Text
inventory_loop vmid fp [] = []
inventory_loop vmid fp ((id, pin) ∷ rest) =
    let others = inventory_loop vmid fp rest in
    if not (same id vmid) && holds_pin (trim_space pin) fp then id else others

abbrev pub inventory_scan : PinConfig → Text → Text → Text
unfolding inventory_loop
inventory_scan e vmid fp = elim e.inventory_pins [
  | none ↦ []
  | some pins ↦ inventory_loop vmid fp (sort_entries pins)
]

abbrev pub unless_found : Result Text → Result Text → Result Text
unless_found found rest = found >>= λ name. if is_empty name then rest else ok name

-- pinnedToAnotherVM
unfoldable pub pinned_to_another_vm : PinConfig → Dir → Text → Text → Result Text
unfolding first_existing inventory_loop
pinned_to_another_vm e dir vmid fp =
    if is_empty fp
    then ok []
    else unless_found (store_scan e dir vmid fp) (
        unless_found
          (cluster_pins_matching e vmid (to_lower fp) >>= λ ids. ok (first_existing e ids))
          (ok (inventory_scan e vmid fp)))

-- enforceOwnPin, the check when a caller is authenticated
unfoldable pub enforce_own_pin : PinConfig → Dir → Text → Text → Result (Unit {0})
enforce_own_pin e dir vmid fp = read_cluster_pin e vmid >>= λ read.
    (if e.uses_store then read_stored_pin dir vmid else ok []) >>= λ stored.
    if not (is_empty read.0)
    then if equal_fold read.0 fp then ok tt else err (unauthorized err_cluster_pin_mismatch)
    else if e.require_cluster_pin
    then err (unauthorized err_no_cluster_pin)
    else if not (is_empty stored) && not (equal_fold stored fp)
    then err (unauthorized err_stored_pin_mismatch)
    else ok tt

-- Which of the system calls of ensurePinBeforeIssue work: the first create, the removal of a blank
-- file and the create after it.
pub record PinCalls : Type 0 where
  pub creates : Bool
  pub removes : Bool
  pub recreates : Bool

abbrev pub without_pin : Dir → Text → Dir
without_pin absent vmid = absent
without_pin blocked vmid = blocked
without_pin (unlistable d) vmid = unlistable (Dict.remove vmid d)
without_pin (listable d) vmid = listable (Dict.remove vmid d)

-- What follows a create that met a file: its pin decides, and a blank file is replaced.
abbrev pub after_conflict : PinCalls → Dir → Text → Text → Result Text → Dir × Result (Unit {0})
after_conflict calls dir vmid fp (err x) = (dir, err x)
after_conflict calls dir vmid fp (ok existing) =
    if is_empty existing
    then create_stored_pin_exclusive (if calls.removes then without_pin dir vmid else dir) vmid fp
        calls.recreates
    else if equal_fold existing fp
    then (dir, ok tt)
    else (dir, err (unauthorized err_stored_pin_mismatch))

abbrev pub after_create : PinCalls → Text → Text → Dir × Result (Unit {0}) → Dir × Result (Unit {0})
after_create calls vmid fp (dir, ok _) = (dir, ok tt)
after_create calls vmid fp (dir, err already_pinned) =
    after_conflict calls dir vmid fp (read_stored_pin dir vmid)
after_create calls vmid fp (dir, err x) = (dir, err x)

abbrev pub after_scan : PinCalls → Dir → Text → Text → Text → Result Text → Dir × Result (Unit {0})
after_scan calls dir vmid fp existing (err x) = (dir, err x)
after_scan calls dir vmid fp existing (ok other) =
    if not (is_empty other)
    then (dir, err (unauthorized err_pinned_elsewhere))
    else if not (is_empty existing)
    then (dir, ok tt)
    else after_create calls vmid fp (create_stored_pin_exclusive dir vmid fp calls.creates)

abbrev pub after_stored :
    PinConfig → PinCalls → Dir → Text → Text → Result Text → Dir × Result (Unit {0})
after_stored e calls dir vmid fp (err x) = (dir, err x)
after_stored e calls dir vmid fp (ok existing) =
    if not (is_empty existing) && not (equal_fold existing fp)
    then (dir, err (unauthorized err_stored_pin_mismatch))
    else after_scan calls dir vmid fp existing (pinned_to_another_vm e dir vmid fp)

abbrev pub after_cluster :
    PinConfig → PinCalls → Dir → Text → Text → Result (Text × Bool) → Dir × Result (Unit {0})
after_cluster e calls dir vmid fp (err x) = (dir, err x)
after_cluster e calls dir vmid fp (ok (pin, dir_exists)) =
    if not (is_empty pin)
    then (dir, if equal_fold pin fp then ok tt else err (unauthorized err_cluster_pin_mismatch))
    else if e.require_cluster_pin
    then (dir, err (unauthorized err_no_cluster_pin))
    else if not e.uses_store
    then (dir, ok tt)
    else after_stored e calls dir vmid fp (read_stored_pin dir vmid)

-- ensurePinBeforeIssue: one step, since pinCreateMu is held throughout
unfoldable pub ensure_pin_before_issue :
    PinConfig → PinCalls → Dir → Text → Text → Dir × Result (Unit {0})
ensure_pin_before_issue e calls dir vmid fp =
    after_cluster e calls dir vmid fp (read_cluster_pin e vmid)
