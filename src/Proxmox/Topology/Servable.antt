-- ===== src/Proxmox/Topology/Servable.antt =====
-- Every topology of a node can be served.
use vtpm_mds.Prelude.{
  ◌+◌, ◌≤◌, ◌≡◌, ◌∙◌, refl, sym, ap, true, List, [], ◌∷◌, ◌++◌, arith, Text, codes, same, same_iff,
  Bool-cases, inl, inr, Option, none, some, value_or, In, All, sort_texts, In-of_sort_texts, length,
  leb, split_on,
}
use vtpm_mds.Dict
use vtpm_mds.Dict.{Dict, get-put, get-empty, get-of_In}
use vtpm_mds.Inventory.{valid_tag_key}
use vtpm_mds.Proxmox.Topology.{
  default_topology, valid_placement_name, max_topology_keys, found_pair, full_key, put_value,
  take_keys, find_lines, line_pair, description_topology, with_node, with_cluster, overlay,
  host_topology, cluster_of,
}

-- Every key is a valid tag key, and every value is a valid placement name.
abbrev pub IsNamed : Dict Text → Type 0
IsNamed = All (λ e. (valid_tag_key e.0 ≡ true) × (valid_placement_name e.1 ≡ true))

abbrev pub Has : Text → Dict Text → Type 0
Has k t = (v : Text) × (Dict.get k t ≡ some v)

put-IsNamed :
    (k v : Text) (t : Dict Text)
    → valid_tag_key k ≡ true
    → valid_placement_name v ≡ true
    → IsNamed t
    → IsNamed (Dict.put k v t)
unfolding Dict.put
put-IsNamed k v [] hk hv n = ((hk, hv), tt)
put-IsNamed k v ((j, w) ∷ t) hk hv n = elim (Bool-cases (same j k)) [
  | inl e ↦ rw e ((n.0.0, hv), n.1)
  | inr e ↦ rw e (n.0, put-IsNamed k v t hk hv n.1)
]

put-Has : (j k v : Text) (t : Dict Text) → Has j t → Has j (Dict.put k v t)
put-Has j k v t (w, h) = elim (Bool-cases (same k j)) [
  | inl e ↦ (v, rw (get-put k j v t, e) refl)
  | inr e ↦ (w, rw (get-put k j v t, e) h)
]

length-put_le : (k v : Text) (t : Dict Text) → length (Dict.put k v t) ≤ length t + 1
unfolding Dict.put
length-put_le k v [] = omega arith
length-put_le k v ((j, w) ∷ t) = ground (arith, length-put_le k v t)

-- The keys of the lines that were found are valid.
abbrev HasKeys : Dict (List Text) → Type 0
HasKeys found = (k : Text) (vs : List Text) → Dict.get k found ≡ some vs → valid_tag_key k ≡ true

found_pair-HasKeys :
    (pair : Option (Text × Text)) (found : Dict (List Text))
    → HasKeys found
    → HasKeys (found_pair pair found)
unfolding found_pair
found_pair-HasKeys none found n k vs h = n k vs h
found_pair-HasKeys (some (key, value)) found n k vs h =
    let full = full_key key in
    let list = value_or [] (Dict.get full found) ++ value ∷ [] in
    elim (Bool-cases (valid_tag_key full)) [
      | inr e ↦ n k vs (rw e at h)
      | inl e ↦ elim (Bool-cases (same full k)) [
        | inl q ↦ sym (ap valid_tag_key ((same_iff full k).0 q)) ∙ e
        | inr q ↦ n k vs (rw q at (rw (get-put full k list found) at (rw e at h)))
      ]
    ]

module _ (path_unescape : Text → Option Text) where
  find_lines-HasKeys :
      (lines : List Text) (found : Dict (List Text))
      → HasKeys found
      → HasKeys (find_lines path_unescape found lines)
  unfolding find_lines
  find_lines-HasKeys [] found n = n
  find_lines-HasKeys (line ∷ lines) found n =
      find_lines-HasKeys lines (found_pair (line_pair path_unescape line) found)
        (found_pair-HasKeys (line_pair path_unescape line) found n)

put_value-IsNamed :
    (key : Text) (vs : List Text) (out : Dict Text)
    → valid_tag_key key ≡ true
    → IsNamed out
    → IsNamed (put_value key vs out)
unfolding put_value
put_value-IsNamed key [] out h n = n
put_value-IsNamed key (v ∷ w ∷ vs) out h n = n
put_value-IsNamed key (v ∷ []) out h n = elim (Bool-cases (valid_placement_name v)) [
  | inr e ↦ rw e n
  | inl e ↦ elim (Bool-cases (leb max_topology_keys (length out))) [
    | inl full ↦ rw (e, full) n
    | inr room ↦ rw (e, room) (put-IsNamed key v out h e n)
  ]
]

put_value-bounded :
    (key : Text) (vs : List Text) (out : Dict Text)
    → length out ≤ max_topology_keys
    → length (put_value key vs out) ≤ max_topology_keys
unfolding put_value
put_value-bounded key [] out h = h
put_value-bounded key (v ∷ w ∷ vs) out h = h
put_value-bounded key (v ∷ []) out h = ground (arith, length-put_le key v out)

module _ (found : Dict (List Text)) where
  take_keys-IsNamed :
      (keys : List Text) (out : Dict Text)
      → ((k : Text) → In k keys → valid_tag_key k ≡ true)
      → IsNamed out
      → length out ≤ max_topology_keys
      → IsNamed (take_keys found out keys) × (length (take_keys found out keys) ≤ max_topology_keys)
  unfolding take_keys
  take_keys-IsNamed [] out h n b = (n, b)
  take_keys-IsNamed (key ∷ keys) out h n b =
      let vs = value_or [] (Dict.get key found) in
      take_keys-IsNamed keys (put_value key vs out) (λ k m. h k (inr m))
        (put_value-IsNamed key vs out (h key (inl refl)) n) (put_value-bounded key vs out b)

module _ (path_unescape : Text → Option Text) where
  description-IsNamed :
      (config : Option Text)
      → IsNamed (description_topology path_unescape config)
        × (length (description_topology path_unescape config) ≤ max_topology_keys)
  unfolding description_topology
  description-IsNamed none = (tt, omega arith)
  description-IsNamed (some content) =
      let found = find_lines path_unescape [] (split_on 10 content) in
      let valid : HasKeys found =
        find_lines-HasKeys path_unescape (split_on 10 content) []
          (λ k vs h. absurd (cc (h, get-empty {V = List Text} k))) in
      take_keys-IsNamed found (sort_texts (Dict.keys found)) []
        (λ k m.
          let (vs, h) = get-of_In k found (In-of_sort_texts k (Dict.keys found) m) in valid k vs h)
        tt (omega arith)

-- A topology that has a zone and a region.
abbrev pub IsServable : Dict Text → Type 0
IsServable t = IsNamed t × Has (codes "availability-zone") t × Has (codes "region") t

put-IsServable :
    (k v : Text) (t : Dict Text)
    → valid_tag_key k ≡ true
    → valid_placement_name v ≡ true
    → IsServable t
    → IsServable (Dict.put k v t)
put-IsServable k v t hk hv (n, z, r) =
    (put-IsNamed k v t hk hv n, put-Has _ k v t z, put-Has _ k v t r)

overlay-IsServable :
    (more t : Dict Text) → IsNamed more → IsServable t → IsServable (overlay t more)
unfolding overlay
overlay-IsServable [] t h s = s
overlay-IsServable ((k, v) ∷ more) t h s =
    overlay-IsServable more (Dict.put k v t) h.1 (put-IsServable k v t h.0.0 h.0.1 s)

default-IsServable : IsServable default_topology
unfolding Dict.get same valid_tag_key valid_placement_name
default-IsServable =
    (((refl, refl), ((refl, refl), tt)), (codes "proxmox", refl), (codes "local", refl))

zone_key : valid_tag_key (codes "availability-zone") ≡ true
unfolding valid_tag_key
zone_key = refl

node_key : valid_tag_key (codes "node") ≡ true
unfolding valid_tag_key
node_key = refl

region_key : valid_tag_key (codes "region") ≡ true
unfolding valid_tag_key
region_key = refl

cluster_key : valid_tag_key (codes "cluster") ≡ true
unfolding valid_tag_key
cluster_key = refl

with_node-IsServable :
    (node : Option Text) (t : Dict Text) → IsServable t → IsServable (with_node node t)
unfolding with_node
with_node-IsServable none t s = s
with_node-IsServable (some node) t s = elim (Bool-cases (valid_placement_name node)) [
  | inl e ↦ rw e (put-IsServable _ node _ node_key e (put-IsServable _ node t zone_key e s))
  | inr e ↦ rw e s
]

with_cluster-IsServable :
    (cluster : Option Text) (t : Dict Text) → IsServable t → IsServable (with_cluster cluster t)
unfolding with_cluster
with_cluster-IsServable none t s = s
with_cluster-IsServable (some cluster) t s = elim (Bool-cases (valid_placement_name cluster)) [
  | inl e ↦
      rw e (put-IsServable _ cluster _ cluster_key e (put-IsServable _ cluster t region_key e s))
  | inr e ↦ rw e s
]

-- Whatever the node's files say, every key and every value of the host topology is valid, it has a
-- zone and a region, and the node's description declares at most 64 keys.
pub host_topology-IsServable :
    (path_unescape : Text → Option Text) (node corosync config : Option Text)
    → IsServable (host_topology path_unescape node corosync config)
      × (length (description_topology path_unescape config) ≤ max_topology_keys)
unfolding host_topology
host_topology-IsServable path_unescape node corosync config =
    let (named, bounded) = description-IsNamed path_unescape config in
    (
      overlay-IsServable (description_topology path_unescape config) _ named (
          with_cluster-IsServable (cluster_of corosync) _
            (with_node-IsServable node default_topology default-IsServable)),
      bounded,
    )
