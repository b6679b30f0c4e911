-- ===== src/Devid/Pins.antt =====
-- The EK pins: the local store (internal/devid/pin.go) and the cluster pins (clusterpin.go). The
-- local directory is the state; the temporary file of a create is not part of it, since it is gone
-- when the call returns.
pub mod Scan
pub mod Stored
pub mod Ensured
pub mod Tofu
pub mod Free
pub mod Apart
use vtpm_mds.Prelude.{
  ℕ, ◌≡◌, Bool, true, false, not, ◌&&◌, ◌||◌, Option, none, some, List, [], ◌∷◌, ◌++◌, length, take,
  drop, reverse, ltb, leb, ◌==◌, if◌then◌else◌, Text, codes, same, text_lt, trim_space, to_lower,
  contains_rune, has_prefix, equal_fold,
}
use vtpm_mds.Dict
use vtpm_mds.Dict.{Dict}
use vtpm_mds.Devid.Files.{
  Node, file, directory, unreadable, Dir, absent, blocked, unlistable, listable, Read, missing,
  failed, is_directory, contents, read_file, Listing, no_directory, list_failed, names, list_dir,
  GuestRoot, guest_exists,
}

pub data EnrollError : Type 0 where
  -- ErrPinStore
  pin_store : EnrollError
  -- unauthorizedError, by its message
  unauthorized : Text → EnrollError
  -- errAlreadyPinned
  already_pinned : EnrollError
  -- any other error, by its message
  failure : Text → EnrollError

-- A value with a nil error, or an error.
pub data Result {i} (X : Type i) : Type i where
  err : EnrollError → Result X
  ok : X → Result X

infixl 5 ◌>>=◌ ◌>>◌
-- if err != nil { return err }, then the rest of the function
abbrev pub ◌>>=◌ {i j} : {X : Type i} {Y : Type j} → Result X → (X → Result Y) → Result Y
err problem >>= rest = err problem
ok value >>= rest = rest value

-- The same where the call gives an error alone.
abbrev pub ◌>>◌ {j} : {Y : Type j} → Result (Unit {0}) → Result Y → Result Y
check >> rest = check >>= λ _. rest

abbrev pub err_stored_pin_mismatch : Text
err_stored_pin_mismatch = codes "EK certificate does not match stored pin"

abbrev pub err_inventory_pin_mismatch : Text
err_inventory_pin_mismatch = codes "EK certificate does not match inventory pin"

abbrev pub err_pinned_elsewhere : Text
err_pinned_elsewhere = codes "EK certificate is pinned to another VM"

abbrev pub err_cluster_pin_mismatch : Text
err_cluster_pin_mismatch = codes "EK certificate does not match cluster pin"

abbrev pub err_no_cluster_pin : Text
err_no_cluster_pin = codes "no cluster pin for this VM"

abbrev pub is_empty : Text → Bool
is_empty [] = true
is_empty (c ∷ s) = false

-- strings.Contains(s, "..")
contains_dots : Text → Bool
contains_dots [] = false
contains_dots (c ∷ s) = has_prefix (codes "..") (c ∷ s) || contains_dots s

drop_slashes : Text → Text
drop_slashes [] = []
drop_slashes (c ∷ s) = let rest = drop_slashes s in if c == b'/' then rest else c ∷ s

until_slash : Text → Text
until_slash [] = []
until_slash (c ∷ s) = if c == b'/' then [] else c ∷ until_slash s

-- filepath.Base
path_base : Text → Text
unfolding drop_slashes until_slash
path_base [] = codes "."
path_base (c ∷ s) =
    let base = reverse (until_slash (drop_slashes (reverse (c ∷ s)))) in
    if is_empty base then codes "/" else base

-- validateVMID, true where it returns no error
unfoldable pub validate_vmid : Text → Bool
unfolding contains_dots path_base
validate_vmid [] = false
validate_vmid (c ∷ s) =
    let vmid : Text = c ∷ s in
    if contains_rune b'/' vmid
      || contains_rune b'\\' vmid
      || contains_dots vmid
      || has_prefix (codes ".") vmid
    then false
    else same (path_base vmid) vmid

abbrev pub is_digit : ℕ → Bool
is_digit c = leb b'0' c && leb c b'9'

all_digits : Text → Bool
all_digits [] = true
all_digits (c ∷ s) = is_digit c && all_digits s

-- isVMIDName
unfoldable pub is_vmid_name : Text → Bool
unfolding all_digits
is_vmid_name [] = false
is_vmid_name (c ∷ s) = all_digits (c ∷ s)

abbrev pub stored_text : Read → Result Text
stored_text missing = ok []
stored_text failed = err pin_store
stored_text is_directory = err pin_store
stored_text (contents t) = ok (to_lower (trim_space t))

-- readStoredPin, where PinDir is set
unfoldable pub read_stored_pin : Dir → Text → Result Text
read_stored_pin dir vmid =
    if validate_vmid vmid then stored_text (read_file dir vmid) else err pin_store

abbrev pub pin_line : Text → Text
pin_line fp = to_lower fp ++ codes "\n"

abbrev pub with_pin : Dir → Text → Text → Dir
with_pin absent vmid fp = listable ((vmid, file (pin_line fp)) ∷ [])
with_pin blocked vmid fp = blocked
with_pin (unlistable d) vmid fp = unlistable (Dict.put vmid (file (pin_line fp)) d)
with_pin (listable d) vmid fp = listable (Dict.put vmid (file (pin_line fp)) d)

abbrev pub is_blocked : Dir → Bool
is_blocked blocked = true
is_blocked _ = false

-- The exclusive link.
abbrev pub link_pin : Dir → Text → Text → Read → Dir × Result (Unit {0})
link_pin dir vmid fp missing = (with_pin dir vmid fp, ok tt)
link_pin dir vmid fp _ = (dir, err already_pinned)

-- createStoredPinExclusive. `works` says that no system call fails but an exclusive link. In a
-- directory that cannot be looked up os.MkdirAll fails.
unfoldable pub create_stored_pin_exclusive : Dir → Text → Text → Bool → Dir × Result (Unit {0})
create_stored_pin_exclusive dir vmid fp works =
    if is_empty fp || not (validate_vmid vmid) || is_blocked dir || not works
    then (dir, err pin_store)
    else link_pin dir vmid fp (read_file dir vmid)

unfoldable pub is_hex : ℕ → Bool
is_hex c = is_digit c || (leb b'a' c && leb c b'f')

unfoldable pub all_hex : Text → Bool
unfolding is_hex
all_hex [] = true
all_hex (c ∷ s) = is_hex c && all_hex s

abbrev without_newline : Text → Text
without_newline b = if length b == 65 && same (drop 64 b) (codes "\n") then take 64 b else b

-- parseClusterPin
unfoldable pub parse_cluster_pin : Text → Option Text
unfolding all_hex
parse_cluster_pin b =
    let body = without_newline b in if length body == 64 && all_hex body then some body else none
