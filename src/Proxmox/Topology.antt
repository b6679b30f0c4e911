-- ===== src/Proxmox/Topology.antt =====
-- The topology of a Proxmox node: HostTopology and descriptionTopology of internal/proxmox/vmconfig.go,
-- and the placement names of internal/inventory/placement.go. A file that cannot be read is `none`, and
-- url.PathUnescape is an argument.
pub mod Servable
use vtpm_mds.Prelude.{
  ℕ, suc, Bool, true, false, not, ◌&&◌, ◌||◌, ◌==◌, ltb, leb, if◌then◌else◌, Option, none, some,
  List, [], ◌∷◌, ◌++◌, length, value_or, Text, codes, same, has_prefix, trim_space, split_on, cut,
  reverse, drop, sort_texts,
}
use vtpm_mds.Dict
use vtpm_mds.Dict.{Dict}
use vtpm_mds.Inventory.{valid_tag_key, all_runes, is_key_rune, is_letter_or_digit}
use vtpm_mds.Proxmox.{is_blank, skip_while, after_prefix}

-- DefaultTopology
abbrev pub default_topology : Dict Text
default_topology =
    (codes "availability-zone", codes "proxmox") ∷ (codes "region", codes "local") ∷ []

-- ValidPlacementName
unfoldable pub valid_placement_name : Text → Bool
unfolding all_runes
valid_placement_name [] = false
valid_placement_name (c ∷ s) =
    is_letter_or_digit c && leb (length s) 62 && all_runes (λ r. is_key_rune r || r == b'.') s

-- The longest start without blanks.
take_word : Text → Text
take_word [] = []
take_word (c ∷ s) = let rest = take_word s in if is_blank c then [] else c ∷ rest

word_after : Option Text → Option Text
unfolding take_word skip_while
word_after none = none
word_after (some s) = elim (take_word (skip_while is_blank s)) [ [] ↦ none | c ∷ w ↦ some (c ∷ w) ]

-- clusterNamePattern where a line starts: \s*cluster_name:\s*(\S+)
cluster_here : Text → Option Text
unfolding word_after after_prefix
cluster_here s = word_after (after_prefix (codes "cluster_name:") (skip_while is_blank s))

-- Its first match: at the start of the text, or behind a line break.
cluster_name : Bool → Text → Option Text
unfolding cluster_here
cluster_name starts [] = none
cluster_name starts (c ∷ s) =
    let rest = cluster_name (c == 10) s in
    let here = cluster_here (c ∷ s) in
    if starts then elim here [ none ↦ rest | some name ↦ some name ] else rest

pub find_cluster_name : Text → Option Text
unfolding cluster_name
find_cluster_name s = cluster_name true s

has_break : Text → Bool
has_break [] = false
has_break (c ∷ s) = c == 10 || has_break s

trim_right : Text → Text
unfolding skip_while
trim_right s = reverse (skip_while is_blank (reverse s))

-- The value of descriptionLine, which holds no line break.
line_value : Text → Option Text
unfolding trim_right has_break
line_value s =
    let value = trim_right (skip_while is_blank s) in if has_break value then none else some value

key_and_value : Text × Text × Bool → Option (Text × Text)
unfolding line_value
key_and_value (key, rest, false) = none
key_and_value (key, rest, true) = elim (line_value rest) [ none ↦ none | some v ↦ some (key, v) ]

topology_after : Option Text → Option (Text × Text)
unfolding key_and_value
topology_after none = none
topology_after (some s) = key_and_value (cut b':' s)

-- descriptionLine: ^\s*topology\.vtpm_mds\.io/([^:]*):\s*(.*?)\s*$
unfoldable pub description_line : Text → Option (Text × Text)
unfolding topology_after after_prefix skip_while
description_line s =
    topology_after (after_prefix (codes "topology.vtpm_mds.io/") (skip_while is_blank s))

-- maxTopologyKeys
abbrev pub max_topology_keys : ℕ
max_topology_keys = 64

abbrev full_key : Text → Text
full_key key = if same key (codes "zone") then codes "availability-zone" else key

pub found_pair : Option (Text × Text) → Dict (List Text) → Dict (List Text)
found_pair none found = found
found_pair (some (key, value)) found =
    let full = full_key key in
    if not (valid_tag_key full)
    then found
    else Dict.put full (value_or [] (Dict.get full found) ++ value ∷ []) found

abbrev pub decoded_line : Option Text → Option (Text × Text)
decoded_line none = none
decoded_line (some s) = description_line s

-- A key is taken if its only value is valid and there is room.
unfoldable pub put_value : Text → List Text → Dict Text → Dict Text
put_value key (value ∷ []) out =
    if not (valid_placement_name value)
    then out
    else if leb max_topology_keys (length out)
    then out
    else Dict.put key value out
put_value key _ out = out

unfoldable pub take_keys : Dict (List Text) → Dict Text → List Text → Dict Text
unfolding put_value
take_keys found out [] = out
take_keys found out (key ∷ keys) =
    take_keys found (put_value key (value_or [] (Dict.get key found)) out) keys

unfoldable pub with_node : Option Text → Dict Text → Dict Text
with_node none t = t
with_node (some node) t =
    if valid_placement_name node
    then Dict.put (codes "node") node (Dict.put (codes "availability-zone") node t)
    else t

unfoldable pub with_cluster : Option Text → Dict Text → Dict Text
with_cluster none t = t
with_cluster (some cluster) t =
    if valid_placement_name cluster
    then Dict.put (codes "cluster") cluster (Dict.put (codes "region") cluster t)
    else t

abbrev cluster_of : Option Text → Option Text
cluster_of none = none
cluster_of (some corosync) = find_cluster_name corosync

unfoldable pub overlay : Dict Text → Dict Text → Dict Text
overlay t [] = t
overlay t ((key, value) ∷ more) = overlay (Dict.put key value t) more

module _ (path_unescape : Text → Option Text) where
  -- The key and the value that a line of the node's file declares.
  unfoldable pub line_pair : Text → Option (Text × Text)
  unfolding description_line
  line_pair line =
      let trimmed = trim_space line in
      if not (has_prefix (codes "#") trimmed)
      then none
      else decoded_line (path_unescape (drop 1 trimmed))

  unfoldable pub find_lines : Dict (List Text) → List Text → Dict (List Text)
  unfolding line_pair found_pair
  find_lines found [] = found
  find_lines found (line ∷ lines) = find_lines (found_pair (line_pair line) found) lines

  -- descriptionTopology
  unfoldable pub description_topology : Option Text → Dict Text
  unfolding find_lines take_keys
  description_topology none = []
  description_topology (some content) =
      let found = find_lines [] (split_on 10 content) in
      take_keys found [] (sort_texts (Dict.keys found))

  -- HostTopology, of the node's name (the base of the link's target), corosync.conf and the node's file
  unfoldable pub host_topology : Option Text → Option Text → Option Text → Dict Text
  unfolding with_node with_cluster overlay description_topology
  host_topology node corosync config =
      overlay (with_cluster (cluster_of corosync) (with_node node default_topology))
        (description_topology config)
