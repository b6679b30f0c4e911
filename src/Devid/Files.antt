-- ===== src/Devid/Files.antt =====
-- What internal/devid sees of a directory of pin files, and of the guest configurations.
use vtpm_mds.Prelude.{
  Bool, true, false, ◌≡◌, ◌⊎◌, inl, inr, In, Bool-cases, ◌||◌, Option, none, some, List, [], ◌∷◌,
  if◌then◌else◌, Text, text_lt,
}
use vtpm_mds.Dict
use vtpm_mds.Dict.{Dict}

pub data Node : Type 0 where
  file : Text → Node
  directory unreadable : Node

-- `blocked` is a directory that cannot even be looked up, `unlistable` one whose files can be read by
-- name, though they cannot be listed.
pub data Dir : Type 0 where
  absent blocked : Dir
  unlistable listable : Dict Node → Dir

pub data Read : Type 0 where
  missing failed is_directory : Read
  contents : Text → Read

abbrev pub read_node : Option Node → Read
read_node none = missing
read_node (some (file t)) = contents t
read_node (some directory) = is_directory
read_node (some unreadable) = failed

-- os.ReadFile(filepath.Join(dir, name)) for a name without a slash
unfoldable pub read_file : Dir → Text → Read
read_file absent name = missing
read_file blocked name = failed
read_file (unlistable d) name = read_node (Dict.get name d)
read_file (listable d) name = read_node (Dict.get name d)

insert_entry : {V : Type 0} → Text → V → Dict V → Dict V
insert_entry k v [] = (k, v) ∷ []
insert_entry k v ((j, w) ∷ d) =
    if text_lt k j then (k, v) ∷ (j, w) ∷ d else (j, w) ∷ insert_entry k v d

-- The entries in the order of their keys.
unfoldable pub sort_entries : {V : Type 0} → Dict V → Dict V
unfolding insert_entry
sort_entries [] = []
sort_entries ((k, v) ∷ d) = insert_entry k v (sort_entries d)

-- Sorting keeps every entry.
In-insert_entry :
    {V : Type 0} (e : Text × V) (k : Text) (v : V) (d : Dict V)
    → (e ≡ (k, v)) ⊎ In e d
    → In e (insert_entry k v d)
unfolding insert_entry
In-insert_entry e k v [] h = h
In-insert_entry e k v ((j, w) ∷ d) h = elim (Bool-cases (text_lt k j)) [
  | inl lt ↦ rw lt h
  | inr ge ↦ rw ge (elim h [
    | inl q ↦ inr (In-insert_entry e k v d (inl q))
    | inr r ↦ elim r [ inl q ↦ inl q | inr q ↦ inr (In-insert_entry e k v d (inr q)) ]
  ])
]

pub In-sort_entries : {V : Type 0} (e : Text × V) (d : Dict V) → In e d → In e (sort_entries d)
unfolding sort_entries
In-sort_entries e [] h = elim h [ ]
In-sort_entries e ((k, v) ∷ d) (inl q) = In-insert_entry e k v (sort_entries d) (inl q)
In-sort_entries e ((k, v) ∷ d) (inr q) =
    In-insert_entry e k v (sort_entries d) (inr (In-sort_entries e d q))

-- And adds none.
In-of_insert_entry :
    {V : Type 0} (e : Text × V) (k : Text) (v : V) (d : Dict V)
    → In e (insert_entry k v d)
    → (e ≡ (k, v)) ⊎ In e d
unfolding insert_entry
In-of_insert_entry e k v [] h = h
In-of_insert_entry e k v ((j, w) ∷ d) h = elim (Bool-cases (text_lt k j)) [
  | inl lt ↦ rw lt at h
  | inr ge ↦ elim (rw ge at h) [
    | inl q ↦ inr (inl q)
    | inr q ↦ elim (In-of_insert_entry e k v d q) [ inl r ↦ inl r | inr r ↦ inr (inr r) ]
  ]
]

pub In-of_sort_entries : {V : Type 0} (e : Text × V) (d : Dict V) → In e (sort_entries d) → In e d
unfolding sort_entries
In-of_sort_entries e [] h = elim h [ ]
In-of_sort_entries e ((k, v) ∷ d) h = elim (In-of_insert_entry e k v (sort_entries d) h) [
  | inl q ↦ inl q
  | inr q ↦ inr (In-of_sort_entries e d q)
]

pub data Listing : Type 0 where
  no_directory list_failed : Listing
  names : Dict Node → Listing

-- os.ReadDir, sorted by name
unfoldable pub list_dir : Dir → Listing
unfolding sort_entries
list_dir absent = no_directory
list_dir blocked = list_failed
list_dir (unlistable d) = list_failed
list_dir (listable d) = names (sort_entries d)

pub data Stat : Type 0 where
  found not_exist stat_failed : Stat

-- An entry of /etc/pve/nodes, and the answer to a stat of <kind>/<vmid>.conf below it.
pub record ConfigNode : Type 0 where
  pub is_dir : Bool
  pub qemu_server : Text → Stat
  pub lxc : Text → Stat

-- `unset` where GuestConfigRoot is empty.
pub data GuestRoot : Type 0 where
  unset root_unlistable : GuestRoot
  nodes : List ConfigNode → GuestRoot

abbrev pub may_exist : Stat → Bool
may_exist found = true
may_exist not_exist = false
may_exist stat_failed = true

config_found : Text → List ConfigNode → Bool
config_found vmid [] = false
config_found vmid (n ∷ ns) =
    (if n.is_dir then may_exist (n.qemu_server vmid) || may_exist (n.lxc vmid) else false)
    || config_found vmid ns

-- guestConfigFound
unfoldable pub guest_config_found : GuestRoot → Text → Bool
unfolding config_found
guest_config_found unset vmid = true
guest_config_found root_unlistable vmid = true
guest_config_found (nodes ns) vmid = config_found vmid ns

-- guestExists. `later` is what the second look finds after guestConfigRecheck.
unfoldable pub guest_exists : GuestRoot → GuestRoot → Text → Bool
unfolding guest_config_found
guest_exists unset later vmid = true
guest_exists root later vmid = guest_config_found root vmid || guest_config_found later vmid

-- What the listing and reading have in common: the entries that are there.
abbrev pub entries : Dir → Dict Node
entries absent = []
entries blocked = []
entries (unlistable d) = d
entries (listable d) = d
