-- ===== src/Tests/Proxmox.antt =====
-- The configuration of a guest, and the topology of its node.
use vtpm_mds.Prelude.{
  keep, ◌≡◌, ◌≤◌, refl, none, some, Option, [], ◌∷◌, Text, codes, same, length, All, has_prefix,
  is_space, drop_spaces, trim_space, to_lower, lower_rune, split_on, cut, fields_func, sort_texts,
  text_lt,
}
use vtpm_mds.Dict
use vtpm_mds.Dict.{Dict}
use vtpm_mds.Inventory.{valid_tag_key, valid_tag_value}
use vtpm_mds.Proxmox.{
  parse_vm_config, parse_lines, parse_line, net_mac, instance_tags, tag_entries, is_separator,
  tag_entry, group, take_single, put_single,
}
use vtpm_mds.Proxmox.Tags.{rests, key_of, declared, instance_tags-get}
use vtpm_mds.Proxmox.Clean.{IsMac, parse_vm_config_clean}
use vtpm_mds.Proxmox.Topology.{
  host_topology, description_topology, max_topology_keys, find_lines, line_pair, description_line,
  take_keys, put_value, valid_placement_name,
}
use vtpm_mds.Proxmox.Topology.Servable.{IsServable, host_topology-IsServable}

abbrev live : Text
live = codes "name: web\nnet0: virtio=BC:24:11:00:00:01,bridge=vmbr1\npublic-ipv4: 1.2.3.4"

reads_mac : (parse_vm_config (codes "350") live).macs ≡ codes "bc:24:11:00:00:01" ∷ []
unfolding parse_vm_config parse_lines parse_line net_mac has_prefix trim_space drop_spaces is_space
    to_lower lower_rune split_on same
reads_mac = refl

abbrev tag_text : Text
tag_text = codes "vtpm_mds.io.role.db;other;VTPM_MDS.io.env.a;vtpm_mds.io.env.b"

reads_tags : instance_tags tag_text ≡ (codes "role", codes "db") ∷ []
unfolding instance_tags tag_entries tag_entry group take_single put_single fields_func is_space
    to_lower lower_rune has_prefix cut Dict.get Dict.put same valid_tag_key valid_tag_value
reads_tags = refl

instance_tags-get_example :
    Dict.get (codes "env") (instance_tags tag_text)
    ≡ declared (
        keep (λ rest. same (key_of rest) (codes "env")) (rests (fields_func is_separator tag_text)))
instance_tags-get_example = instance_tags-get tag_text (codes "env")

parse_vm_config_clean_example :
    ((parse_vm_config (codes "350") live).vmid ≡ codes "350")
    × (Dict.get (codes "public-ipv4") (parse_vm_config (codes "350") live).raw_config ≡ none)
    × All IsMac (parse_vm_config (codes "350") live).macs
parse_vm_config_clean_example = parse_vm_config_clean (codes "350") live

abbrev unescape : Text → Option Text
unescape s = some s

abbrev config : Text
config = codes "#topology.vtpm_mds.io/zone: AZ4\n#topology.vtpm_mds.io/rack: r 1"

describes :
    description_topology unescape (some config) ≡ (codes "availability-zone", codes "AZ4") ∷ []
unfolding description_topology find_lines line_pair description_line take_keys put_value sort_texts
    text_lt valid_placement_name valid_tag_key Dict.get Dict.put same cut has_prefix trim_space
    drop_spaces is_space split_on
describes = refl

host_topology-IsServable_example :
    IsServable (
      host_topology unescape (some (codes "pve1")) (some (codes "cluster_name: lab")) (some config))
    × (length (description_topology unescape (some config)) ≤ max_topology_keys)
host_topology-IsServable_example =
    host_topology-IsServable unescape (some (codes "pve1")) (some (codes "cluster_name: lab"))
      (some config)
