-- ===== src/Proxmox.antt =====
-- The guest configurations of a Proxmox node, internal/proxmox/vmconfig.go: ParseVMConfigs,
-- parseVMConfig and instanceTags. The directory is a list of file names with their contents, `none`
-- for a file that cannot be read, and `none` as a whole where it cannot be listed.
pub mod Topology
pub mod Nics
pub mod Live
pub mod Tags
pub mod Clean
use vtpm_mds.Prelude.{
  drop_bytes, ℕ, zero, suc, ◌+◌, ◌-◌, Bool, true, false, not, ◌&&◌, ◌||◌, ◌==◌, ltb, leb,
  if◌then◌else◌, Option, none, some, List, [], ◌∷◌, ◌++◌, length, take, drop, value_or, Text, codes,
  same, has_prefix, trim_space, to_lower, split_on, cut, fields_func, is_space, reverse,
}
use vtpm_mds.Dict
use vtpm_mds.Dict.{Dict}
use vtpm_mds.Inventory.{VmConfig, valid_tag_key, valid_tag_value}

abbrev pub is_digit : ℕ → Bool
is_digit c = leb b'0' c && leb c b'9'

-- [0-9A-Fa-f:]
abbrev pub is_mac_rune : ℕ → Bool
is_mac_rune c = is_digit c || (leb b'A' c && leb c b'F') || (leb b'a' c && leb c b'f') || c == b':'

-- The class \s of package regexp.
abbrev pub is_blank : ℕ → Bool
is_blank c = c == 9 || c == 10 || c == 12 || c == 13 || c == 32

-- The longest start of a text that passes a test, and the rest.
pub skip_while : (ℕ → Bool) → Text → Text
skip_while p [] = []
skip_while p (c ∷ s) = let rest = skip_while p s in if p c then rest else c ∷ s

-- The first `n` runes, if there are as many and all pass a test.
pub take_class : (ℕ → Bool) → ℕ → Text → Option Text
take_class p zero s = some []
take_class p (suc n) [] = none
take_class p (suc n) (c ∷ s) =
    let rest = take_class p n s in
    if p c then elim rest [ none ↦ none | some t ↦ some (c ∷ t) ] else none

-- What follows a prefix.
pub after_prefix : Text → Text → Option Text
after_prefix p s = if has_prefix p s then some (drop (length p) s) else none

after_index : Text → Option Text
after_index [] = none
after_index (c ∷ s) =
    if c == b':' || c == b'=' then after_prefix (codes "virtio=") (skip_while is_blank s) else none

after_digits : Text → Option Text
unfolding after_index after_prefix skip_while
after_digits [] = none
after_digits (c ∷ s) = if is_digit c then after_index (skip_while is_digit s) else none

mac_after : Option Text → Option Text
mac_after none = none
mac_after (some s) = take_class is_mac_rune 17 s

virtio_after : Option Text → Option Text
unfolding after_digits mac_after
virtio_after none = none
virtio_after (some s) = mac_after (after_digits s)

-- The second group of netPattern: ^net(\d+)[:=]\s*virtio=([0-9A-Fa-f:]{17})
unfoldable pub net_mac : Text → Option Text
unfolding virtio_after take_class after_prefix
net_mac line = virtio_after (after_prefix (codes "net") line)

-- The key and the value of a line, split at the first colon or else at the first equals sign.
unfoldable pub key_value : Text → Option (Text × Text)
key_value line =
    let (key, value, colon) = cut b':' line in
    let (key', value', equals) = cut b'=' line in
    if colon
    then some (trim_space key, trim_space value)
    else if equals
    then some (trim_space key', trim_space value')
    else none

-- The fields of VMConfig that the loop fills.
pub record Parsed : Type 0 where
  pub raw : Dict Text
  pub macs : List Text

put_raw : Option (Text × Text) → Dict Text → Dict Text
put_raw none raw = raw
put_raw (some (key, value)) raw =
    if not (same key (codes "public-ipv4")) then Dict.put key value raw else raw

push_mac : Option Text → List Text → List Text
push_mac none macs = macs
push_mac (some mac) macs = macs ++ (to_lower mac ∷ [])

-- What the loop does with a trimmed line that is no header.
unfoldable pub parse_line : Parsed → Text → Parsed
unfolding put_raw push_mac
parse_line p line =
    if same line [] || has_prefix (codes "#") line
    then p
    else record { raw = put_raw (key_value line) p.raw; macs = push_mac (net_mac line) p.macs }

abbrev pub is_header : Text → Bool
is_header line = has_prefix (codes "[") (trim_space line)

unfoldable pub parse_lines : Parsed → List Text → Parsed
unfolding parse_line
parse_lines p [] = p
parse_lines p (line ∷ lines) =
    let rest = parse_lines (parse_line p (trim_space line)) lines in
    if is_header line then p else rest

abbrev pub tag_prefix : Text
tag_prefix = codes "vtpm_mds.io."

pub record TagEntry : Type 0 where
  pub key : Text
  pub value : Text
  pub ok : Bool

abbrev pub is_separator : ℕ → Bool
is_separator c = c == b';' || c == b',' || is_space c

-- The tag that a field of the list declares, if it has the prefix in some case.
unfoldable pub tag_entry : Text → Option TagEntry
unfolding drop_bytes
tag_entry tag =
    let (key, value, has_value) = cut b'.' (drop_bytes (length tag_prefix) tag) in
    if has_prefix tag_prefix (to_lower tag)
    then some (record {
      key = key;
      value = value;
      ok = has_value && valid_tag_key key && valid_tag_value value;
    })
    else none

abbrev pub push_entry : Option TagEntry → List TagEntry → List TagEntry
push_entry none es = es
push_entry (some e) es = e ∷ es

-- The entries in the order of the fields.
unfoldable pub tag_entries : List Text → List TagEntry
unfolding tag_entry
tag_entries [] = []
tag_entries (tag ∷ tags) = push_entry (tag_entry tag) (tag_entries tags)

-- The map `entries`, whose keys keep the order of `order`.
unfoldable pub group : Dict (List TagEntry) → List TagEntry → Dict (List TagEntry)
group m [] = m
group m (e ∷ es) = group (Dict.put e.key (value_or [] (Dict.get e.key m) ++ e ∷ []) m) es

-- A key is taken from its list if that is one valid entry.
unfoldable pub put_single : Text → List TagEntry → Dict Text → Dict Text
put_single key (e ∷ []) out = if not e.ok then out else Dict.put key e.value out
put_single key _ out = out

unfoldable pub take_single : Dict Text → Dict (List TagEntry) → Dict Text
unfolding put_single
take_single out [] = out
take_single out ((key, list) ∷ rest) = take_single (put_single key list out) rest

-- instanceTags
unfoldable pub instance_tags : Text → Dict Text
unfolding tag_entries group take_single
instance_tags tags = take_single [] (group [] (tag_entries (fields_func is_separator tags)))

abbrev value_of : Dict Text → Text → Text
value_of raw key = value_or [] (Dict.get key raw)

abbrev pub config_of : Text → Parsed → VmConfig
config_of vmid p = record {
  vmid = vmid;
  name = value_of p.raw (codes "name");
  raw_config = p.raw;
  tags = instance_tags (value_of p.raw (codes "tags"));
  macs = p.macs;
  ek_sha256 = [];
}

-- parseVMConfig
unfoldable pub parse_vm_config : Text → Text → VmConfig
unfolding parse_lines
parse_vm_config vmid content =
    config_of vmid (parse_lines (record { raw = []; macs = [] }) (split_on 10 content))

-- strings.TrimSuffix(name, ".conf")
pub trim_conf : Text → Text
trim_conf name =
    if has_prefix (reverse (codes ".conf")) (reverse name)
    then reverse (drop 5 (reverse name))
    else name

unfoldable pub parse_files : Dict VmConfig → List (Text × Option Text) → Dict VmConfig
unfolding trim_conf
parse_files out [] = out
parse_files out ((name, none) ∷ files) = parse_files out files
parse_files out ((name, some content) ∷ files) =
    parse_files (Dict.put (trim_conf name) (parse_vm_config (trim_conf name) content) out) files

-- ParseVMConfigs, of the files that the pattern *.conf matches
unfoldable pub parse_vm_configs : Option (List (Text × Option Text)) → Option (Dict VmConfig)
unfolding parse_files
parse_vm_configs none = none
parse_vm_configs (some files) = some (parse_files [] files)
