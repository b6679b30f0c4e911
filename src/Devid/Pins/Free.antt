-- ===== src/Devid/Pins/Free.antt =====
-- What a scan of pinnedToAnotherVM that answers nobody says of the local pins
-- (internal/devid/pin.go).
use vtpm_mds.Prelude.{
  ◌≡◌, refl, sym, inl, inr, true, false, ◌&&◌, Option, none, some, [], ◌∷◌, arith, if◌then◌else◌,
  Text, same, same_iff, Bool-cases, In, subst,
}
use vtpm_mds.Dict
use vtpm_mds.Dict.{Dict}
use vtpm_mds.Devid.Files.{
  Node, file, directory, unreadable, Dir, absent, blocked, unlistable, listable, read_file,
  list_dir, sort_entries, In-sort_entries,
}
use vtpm_mds.Devid.Pins.{Result, ◌>>=◌, ok, err, is_empty, is_vmid_name, read_stored_pin}
use vtpm_mds.Devid.Pins.Scan.{
  PinConfig, still_exists, skips, holds_pin, unless_found, store_loop, store_list, store_scan,
  pinned_to_another_vm,
}

-- A pin that the scan for another virtual machine would answer.
abbrev pub IsHolder : PinConfig → Dir → Text → Text → Type 0
IsHolder e dir name fp =
    (s : Text) × (read_stored_pin dir name ≡ ok s)
    × (holds_pin s fp ≡ true)
    × (is_vmid_name name ≡ true)
    × (still_exists e name ≡ true)

shown_name :
    (vmid name : Text) (node : Node)
    → skips vmid (name, node) ≡ false
    → (same name vmid ≡ false) × (is_vmid_name name ≡ true)
unfolding skips
shown_name vmid name node h = ground (arith, h)

shown_file :
    (vmid name t : Text)
    → same name vmid ≡ false
    → is_vmid_name name ≡ true
    → skips vmid (name, file t) ≡ false
unfolding skips
shown_file vmid name t other vm = rw (other, vm) refl

is_vmid_name-nonempty : (c : Text) → is_vmid_name c ≡ true → is_empty c ≡ false
unfolding is_vmid_name
is_vmid_name-nonempty [] h = sym h
is_vmid_name-nonempty (c ∷ s) h = refl

module _ (e : PinConfig) (dir : Dir) (vmid fp : Text) where
  free_rest :
      (name : Text) (node : Node) (rest : Dict Node)
      → store_loop e dir vmid fp ((name, node) ∷ rest) ≡ ok []
      → store_loop e dir vmid fp rest ≡ ok []
  unfolding store_loop
  free_rest name node rest h = elim (Bool-cases (skips vmid (name, node))) [
    | inl k ↦ rw k at h
    | inr k ↦ by_read k (read_stored_pin dir name) (rw k at h)
  ]
    where
      by_read :
          skips vmid (name, node) ≡ false
          → (r : Result Text)
          → (r >>= λ stored.
              if holds_pin stored fp && still_exists e name
              then ok name
              else store_loop e dir vmid fp rest)
            ≡ ok []
          → store_loop e dir vmid fp rest ≡ ok []
      by_read k (err x) q = ground (arith, q)
      by_read k (ok s) q = elim (Bool-cases (holds_pin s fp && still_exists e name)) [
        | inl g ↦
            ground (arith, rw g at q, is_vmid_name-nonempty name (shown_name vmid name node k).1)
        | inr g ↦ rw g at q
      ]

  free_head :
      (name : Text) (node : Node) (rest : Dict Node)
      → store_loop e dir vmid fp ((name, node) ∷ rest) ≡ ok []
      → skips vmid (name, node) ≡ false
      → IsHolder e dir name fp
      → ⊥
  unfolding store_loop
  free_head name node rest h shown (s, read, holds, vm, exists) =
      ground (arith, rw (shown, read, holds, exists) at h, is_vmid_name-nonempty name vm)

  free_all :
      (name : Text) (node : Node) (d : Dict Node)
      → In (name, node) d
      → store_loop e dir vmid fp d ≡ ok []
      → skips vmid (name, node) ≡ false
      → IsHolder e dir name fp
      → ⊥
  free_all name node [] i h shown = elim i [ ]
  free_all name node ((j, w) ∷ rest) (inl q) h shown =
      free_head name node rest (subst (λ x. store_loop e dir vmid fp (x ∷ rest) ≡ ok []) (sym q) h)
        shown
  free_all name node ((j, w) ∷ rest) (inr i) h shown =
      free_all name node rest i (free_rest j w rest h) shown

-- A directory entry that the reads find is in the listing.
get-In : (k : Text) (v : Node) (d : Dict Node) → Dict.get k d ≡ some v → In (k, v) d
unfolding Dict.get
get-In k v [] h = ground (arith, h)
get-In k v ((j, w) ∷ d) h = elim (Bool-cases (same j k)) [
  | inl q ↦ inl (ground (arith, (same_iff j k).0 q, rw q at h))
  | inr q ↦ inr (get-In k v d (rw q at h))
]

found_file :
    (d : Dict Node) (j s : Text)
    → read_stored_pin (listable d) j ≡ ok s
    → is_empty s ≡ false
    → (t : Text) × (Dict.get j d ≡ some (file t))
unfolding read_stored_pin read_file
found_file d j s h n = by_node (Dict.get j d) refl
  where
    by_node :
        (node : Option Node) → Dict.get j d ≡ node → (t : Text) × (Dict.get j d ≡ some (file t))
    by_node none e = absurd (ground (arith, h, e, n))
    by_node (some (file t)) e = (t, e)
    by_node (some directory) e = absurd (ground (arith, h, e))
    by_node (some unreadable) e = absurd (ground (arith, h, e))

absent_unpinned : (j s : Text) → read_stored_pin absent j ≡ ok s → is_empty s ≡ true
unfolding read_stored_pin read_file
absent_unpinned j s h = ground (arith, h)

first_free : (found rest : Result Text) → unless_found found rest ≡ ok [] → found ≡ ok []
first_free (err x) rest h = ground (arith, h)
first_free (ok []) rest h = refl
first_free (ok (c ∷ s)) rest h = h

free_store :
    (e : PinConfig) (dir : Dir) (vmid fp : Text)
    → e.uses_store ≡ true
    → is_empty fp ≡ false
    → pinned_to_another_vm e dir vmid fp ≡ ok []
    → store_list e dir vmid fp (list_dir dir) ≡ ok []
unfolding pinned_to_another_vm store_scan
free_store e dir vmid fp uses nonempty free =
    ground (arith, uses, first_free (store_scan e dir vmid fp) _ (rw nonempty at free))

-- A scan that answers nothing has passed over no holder.
pub no_other_holder :
    (e : PinConfig) (dir : Dir) (vmid fp j : Text)
    → e.uses_store ≡ true
    → is_empty fp ≡ false
    → pinned_to_another_vm e dir vmid fp ≡ ok []
    → same j vmid ≡ false
    → IsHolder e dir j fp
    → ⊥
unfolding list_dir
no_other_holder e dir vmid fp j uses nonempty free other holder =
    in_dir dir (free_store e dir vmid fp uses nonempty free) holder
  where
    in_dir : (dir : Dir) → store_list e dir vmid fp (list_dir dir) ≡ ok [] → IsHolder e dir j fp → ⊥
    in_dir absent h (s, read, holds, vm, exists) = ground (arith, absent_unpinned j s read, holds)
    in_dir blocked h holder = ground (arith, h)
    in_dir (unlistable d) h holder = ground (arith, h)
    in_dir (listable d) h (s, read, holds, vm, exists) =
        let (t, entry) = found_file d j s read (ground (arith, holds)) in
        free_all e (listable d) vmid fp j (file t) (sort_entries d)
          (In-sort_entries (j, file t) d (get-In j (file t) d entry)) h
          (shown_file vmid j t other vm) (s, read, holds, vm, exists)
