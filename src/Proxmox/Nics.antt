-- ===== src/Proxmox/Nics.antt =====
-- The network devices of the guests, internal/proxmox/nics.go. The directory is a list of file names
-- with their contents, `none` for a file that cannot be read.
use vtpm_mds.Prelude.{
  ℕ, zero, suc, ◌+◌, ◌-◌, ◌*◌, ◌/◌, ◌%◌, Bool, true, false, not, ◌&&◌, ◌||◌, ◌==◌, ltb, leb,
  if◌then◌else◌, Option, none, some, List, [], ◌∷◌, ◌++◌, length, Text, codes, same, trim_space,
  to_lower, split_on, cut,
}
use vtpm_mds.Proxmox.{is_digit, is_header, after_prefix, trim_conf}

pub record Nic : Type 0 where
  pub vmid : Text
  pub index : ℕ
  pub model : Text
  pub mac : Text
  pub bridge : Text

-- An index of at most two digits in decimal.
unfoldable pub show_index : ℕ → Text
show_index n = if ltb n 10 then (b'0' + n) ∷ [] else (b'0' + n / 10) ∷ (b'0' + n % 10) ∷ []

-- Tap
unfoldable pub tap : Nic → Text
unfolding show_index
tap n = codes "tap" ++ (n.vmid ++ (b'i' ∷ show_index n.index))

all_digits : Text → Bool
all_digits [] = true
all_digits (c ∷ s) = is_digit c && all_digits s

digits_value : Text → Option ℕ
digits_value (a ∷ []) = if is_digit a then some (a - b'0') else none
digits_value (a ∷ b ∷ []) =
    if is_digit a && is_digit b then some ((a - b'0') * 10 + (b - b'0')) else none
digits_value _ = none

value_after : Option Text → Option ℕ
unfolding digits_value
value_after none = none
value_after (some s) = digits_value s

-- nicKeyPattern and the index: ^net(\d{1,2})$
unfoldable pub nic_index : Text → Option ℕ
unfolding value_after after_prefix
nic_index key = value_after (after_prefix (codes "net") key)

-- vmidPattern: ^[1-9][0-9]{0,8}$
unfoldable pub is_vmid : Text → Bool
unfolding all_digits
is_vmid [] = false
is_vmid (c ∷ s) = leb b'1' c && leb c b'9' && leb (length s) 8 && all_digits s

is_hex : ℕ → Bool
is_hex c = is_digit c || (leb b'A' c && leb c b'F') || (leb b'a' c && leb c b'f')

mac_groups : ℕ → Text → Bool
unfolding is_hex
mac_groups zero s = false
mac_groups (suc zero) (a ∷ b ∷ []) = is_hex a && is_hex b
mac_groups (suc zero) s = false
mac_groups (suc (suc n)) (a ∷ b ∷ c ∷ s) = is_hex a && is_hex b && c == b':' && mac_groups (suc n) s
mac_groups (suc (suc n)) s = false

-- macPattern: ^[0-9A-Fa-f]{2}(:[0-9A-Fa-f]{2}){5}$
unfoldable pub is_mac : Text → Bool
unfolding mac_groups
is_mac s = mac_groups 6 s

-- One round of the loop of parseNIC, with the variable `mac` in the field of that name.
unfoldable pub nic_field : Nic → Text → Nic
nic_field n field =
    let (k, v, found) = cut b'=' (trim_space field) in
    if same k (codes "bridge")
    then record n { bridge = v }
    else if same k (codes "model")
    then record n { model = v }
    else if same k (codes "macaddr")
    then record n { mac = v }
    else if same n.mac [] && is_mac v
    then record n { model = k; mac = v }
    else n

unfoldable pub nic_fields : Nic → List Text → Nic
unfolding nic_field
nic_fields n [] = n
nic_fields n (field ∷ fields) = nic_fields (nic_field n field) fields

-- parseNIC
unfoldable pub parse_nic : Text → ℕ → Text → Nic
unfolding nic_fields
parse_nic vmid index value =
    let n =
      nic_fields (record { vmid = vmid; index = index; model = []; mac = []; bridge = [] })
        (split_on b',' value) in
    record n { mac = if is_mac n.mac then to_lower n.mac else [] }

push_nic : Text → Text → Option ℕ → List Nic → List Nic
push_nic vmid value none nics = nics
push_nic vmid value (some index) nics = parse_nic vmid index (trim_space value) ∷ nics

-- The lines of a section.
unfoldable pub nic_lines : Text → List Text → List Nic
unfolding push_nic
nic_lines vmid [] = []
nic_lines vmid (line ∷ lines) =
    let (key, value, found) = cut b':' (trim_space line) in
    let rest = nic_lines vmid lines in
    if is_header line
    then []
    else if not found
    then rest
    else push_nic vmid value (nic_index (trim_space key)) rest

-- parseNICs
unfoldable pub parse_nics : Text → Text → List Nic
unfolding nic_lines
parse_nics vmid content = nic_lines vmid (split_on 10 content)

number : ℕ → Text → ℕ
number n [] = n
number n (c ∷ s) = number (n * 10 + (c - b'0')) s

-- The order of the sort: the VM ID as a number, then the index.
abbrev nic_lt : Nic → Nic → Bool
nic_lt a b =
    if not (number 0 a.vmid == number 0 b.vmid)
    then ltb (number 0 a.vmid) (number 0 b.vmid)
    else ltb a.index b.index

insert_nic : Nic → List Nic → List Nic
unfolding number
insert_nic n [] = n ∷ []
insert_nic n (m ∷ ms) = let rest = insert_nic n ms in if nic_lt m n then m ∷ rest else n ∷ m ∷ ms

sort_nics : List Nic → List Nic
unfolding insert_nic
sort_nics [] = []
sort_nics (n ∷ ns) = insert_nic n (sort_nics ns)

abbrev prepend_nics : List Nic → Option (List Nic) → Option (List Nic)
prepend_nics ns none = none
prepend_nics ns (some more) = some (ns ++ more)

unfoldable pub nic_files : List (Text × Option Text) → Option (List Nic)
nic_files [] = some []
nic_files ((name, content) ∷ files) =
    let rest = nic_files files in
    if not (is_vmid (trim_conf name)) then rest else elim content [
      | none ↦ none
      | some text ↦ prepend_nics (parse_nics (trim_conf name) text) rest
    ]

abbrev sorted : Option (List Nic) → Option (List Nic)
sorted none = none
sorted (some nics) = some (sort_nics nics)

-- GuestNICs, `none` where it is an error
unfoldable pub guest_nics : Option (List (Text × Option Text)) → Option (List Nic)
unfolding nic_files sort_nics
guest_nics none = none
guest_nics (some files) = sorted (nic_files files)
