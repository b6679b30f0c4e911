-- ===== src/Reconcile/Wanted/Inside.antt =====
-- The aliases of internal/reconcile/wanted.go and the prefix that Diff looks at.
use vtpm_mds.Prelude.{
  byte_length, take_bytes, drop_bytes, ◌≡◌, refl, ap, ◌∙◌, inl, inr, Bool, true, false, Option,
  none, some, List, [], ◌∷◌, ◌++◌, map, Text, codes, has_prefix, has_prefix_iff, Bool-cases, All,
  All-append, same, contains_rune, not, ◌||◌, ltb, length, equal_fold, cut, to_lower, if◌then◌else◌,
}
use mathlib.Core.List.{append_assoc}
use vtpm_mds.Reconcile.Diff.{Alias, prefix_of}
use vtpm_mds.Reconcile.Diff.Applied.{IsInCluster}
use vtpm_mds.Reconcile.Wanted.{
  Guest, Cluster, Found, Want, has_want, split_tags, reason_bad_segment, reason_nested_pool,
  add_want, add_problem, slash, add_tag, add_tags, add_collision, add_pool, guest_loop, collision,
  valid_segment, tag_prefix, alias_for, aliases_of, insert_alias, alias_lt, sort_aliases, base_of,
  wanted,
}

module _ (base : Text) where
  -- The SPIFFE ID of a want is a path below the base.
  abbrev pub IsBelow : Want → Type 0
  IsBelow w = (path : Text) × (w.0 ≡ slash base path)

  add_want-IsBelow :
      (f : Found) (id vmid : Text)
      → IsBelow (id, vmid)
      → All IsBelow f.wants
      → All IsBelow (add_want f id vmid).wants
  unfolding add_want
  add_want-IsBelow f id vmid b h = elim (Bool-cases (has_want (id, vmid) f.wants)) [
    | inl e ↦ rw e h
    | inr e ↦ rw e (All-append IsBelow f.wants ((id, vmid) ∷ []) h (b, tt))
  ]

  IsBelow-pool : (x y vmid : Text) → IsBelow (slash (slash base x) y, vmid)
  IsBelow-pool x y vmid = (
    slash x y,
    ap (λ r. r ++ y) (append_assoc (base ++ codes "/") x (codes "/"))
        ∙ append_assoc (base ++ codes "/") (x ++ codes "/") y,
  )

  add_tag-IsBelow :
      (x vmid : Text) (f : Found) (piece : Text)
      → All IsBelow f.wants
      → All IsBelow (add_tag (slash base x) vmid f piece).wants
  unfolding add_tag
  add_tag-IsBelow x vmid f piece h = by_prefix (
      ltb (byte_length piece) (length tag_prefix)
      || not (equal_fold (take_bytes (length tag_prefix) piece) tag_prefix))
    where
      by_cut :
          (b : Bool) (y : Text)
          → All IsBelow
              (if b
                then add_problem f vmid reason_bad_segment piece
                else add_want f (slash (slash base x) y) vmid).wants
      by_cut true y = h
      by_cut false y = add_want-IsBelow f (slash (slash base x) y) vmid (IsBelow-pool x y vmid) h

      by_prefix :
          (b : Bool)
          → All IsBelow
              (if b
                then f
                else (let (key, value, found) = cut b'.' (drop_bytes (length tag_prefix) piece) in
                    if not found
                      || not (valid_segment (to_lower key))
                      || not (valid_segment (to_lower value))
                    then add_problem f vmid reason_bad_segment piece
                    else add_want f
                        (slash
                          (slash base x)
                          (codes "tag/" ++ slash (to_lower key) (to_lower value)))
                        vmid)).wants
      by_prefix true = h
      by_prefix false =
          let (key, value, found) = cut b'.' (drop_bytes (length tag_prefix) piece) in
          by_cut
            (not found
              || not (valid_segment (to_lower key))
              || not (valid_segment (to_lower value)))
            (codes "tag/" ++ slash (to_lower key) (to_lower value))

  add_tags-IsBelow :
      (x vmid : Text) (f : Found) (pieces : List Text)
      → All IsBelow f.wants
      → All IsBelow (add_tags (slash base x) vmid f pieces).wants
  unfolding add_tags
  add_tags-IsBelow x vmid f [] h = h
  add_tags-IsBelow x vmid f (piece ∷ pieces) h =
      add_tags-IsBelow x vmid (add_tag (slash base x) vmid f piece) pieces
        (add_tag-IsBelow x vmid f piece h)

  add_collision-IsBelow :
      (g : Guest) (f : Found) (clash : Option Text)
      → All IsBelow f.wants
      → All IsBelow (add_collision base g f clash).wants
  unfolding add_collision add_tags
  add_collision-IsBelow g f (some detail) h = h
  add_collision-IsBelow g f none h =
      let pool = codes "pool/" ++ to_lower g.pool in
      add_tags-IsBelow pool g.vmid (add_want f (slash base pool) g.vmid) (split_tags g.tags)
        (add_want-IsBelow f (slash base pool) g.vmid (pool, refl) h)

  add_pool-IsBelow :
      (guests : List Guest) (g : Guest) (f : Found)
      → All IsBelow f.wants
      → All IsBelow (add_pool base guests g f).wants
  unfolding add_pool
  add_pool-IsBelow guests g f h =
      by_tests (same g.pool []) (contains_rune b'/' g.pool) (not (valid_segment (to_lower g.pool)))
    where
      by_tests :
          (empty nested bad : Bool)
          → All IsBelow
              (if empty
                then f
                else if nested
                then add_problem f g.vmid reason_nested_pool g.pool
                else if bad
                then add_problem f g.vmid reason_bad_segment g.pool
                else add_collision base g f (collision guests g.pool)).wants
      by_tests true nested bad = h
      by_tests false true bad = h
      by_tests false false true = h
      by_tests false false false = add_collision-IsBelow g f (collision guests g.pool) h

  guest_loop-IsBelow :
      (guests rest : List Guest) (f : Found)
      → All IsBelow f.wants
      → All IsBelow (guest_loop base guests rest f).wants
  unfolding guest_loop add_pool
  guest_loop-IsBelow guests [] f h = h
  guest_loop-IsBelow guests (g ∷ rest) f h = elim (Bool-cases g.template) [
    | inl t ↦ rw t (guest_loop-IsBelow guests rest f h)
    | inr t ↦
        let own = codes "vm/" ++ g.vmid in
        rw t (
          guest_loop-IsBelow guests rest
            (add_pool base guests g (add_want f (slash base own) g.vmid))
            (add_pool-IsBelow guests g (add_want f (slash base own) g.vmid)
              (add_want-IsBelow f (slash base own) g.vmid (own, refl) h)))
  ]

module _ (td : Text) (c : Cluster) where
  alias_for-IsInCluster :
      (w : Want) (fps : List Text)
      → IsBelow (base_of td c) w
      → All (IsInCluster td c.name) (map (alias_for w) fps)
  alias_for-IsInCluster w [] b = tt
  alias_for-IsInCluster w (fp ∷ fps) (path, e) = (
    ap (has_prefix (prefix_of td c.name)) e ∙ has_prefix_iff (prefix_of td c.name) path,
    alias_for-IsInCluster w fps (path, e),
  )

  aliases_of-IsInCluster :
      (fps : List Text) (ws : List Want)
      → All (IsBelow (base_of td c)) ws
      → All (IsInCluster td c.name) (aliases_of fps ws)
  unfolding aliases_of
  aliases_of-IsInCluster fps [] h = tt
  aliases_of-IsInCluster fps (w ∷ ws) h =
      All-append (IsInCluster td c.name) (map (alias_for w) fps) (aliases_of fps ws)
        (alias_for-IsInCluster w fps h.0) (aliases_of-IsInCluster fps ws h.1)

  insert_alias-IsInCluster :
      (a : Alias) (rest : List Alias)
      → IsInCluster td c.name a
      → All (IsInCluster td c.name) rest
      → All (IsInCluster td c.name) (insert_alias a rest)
  unfolding insert_alias
  insert_alias-IsInCluster a [] b h = (b, tt)
  insert_alias-IsInCluster a (d ∷ rest) b h = elim (Bool-cases (alias_lt a d)) [
    | inl e ↦ rw e (b, h)
    | inr e ↦ rw e (h.0, insert_alias-IsInCluster a rest b h.1)
  ]

  sort_aliases-IsInCluster :
      (l : List Alias)
      → All (IsInCluster td c.name) l
      → All (IsInCluster td c.name) (sort_aliases l)
  unfolding sort_aliases
  sort_aliases-IsInCluster [] h = tt
  sort_aliases-IsInCluster (a ∷ rest) h =
      insert_alias-IsInCluster a (sort_aliases rest) h.0 (sort_aliases-IsInCluster rest h.1)

  -- Every alias wanted for a cluster, whatever its guests, lies under the prefix of that cluster,
  -- so that Diff finds it among the cluster's entries.
  pub wanted-IsInCluster :
      (guests : List Guest) → All (IsInCluster td c.name) (wanted td c guests).0
  unfolding wanted
  wanted-IsInCluster guests =
      let f = guest_loop (base_of td c) guests guests (record { wants = []; problems = [] }) in
      sort_aliases-IsInCluster (aliases_of c.fingerprints f.wants) (
        aliases_of-IsInCluster c.fingerprints f.wants (
          guest_loop-IsBelow (base_of td c) guests guests (record { wants = []; problems = [] })
            tt))
