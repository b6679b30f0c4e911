-- ===== src/Inventory/Loaded.antt =====
-- What an inventory that LoadYAML of internal/inventory/inventory.go accepts holds.
use vtpm_mds.Prelude.{
  ◌≡◌, sym, ap, ◌∙◌, inl, inr, true, false, not, ◌||◌, Option, none, some, List, [], ◌∷◌, arith,
  Text, same, same_iff, Bool-cases, Option-cases, trim_space, subst,
}
use vtpm_mds.Dict
use vtpm_mds.Dict.{Dict, get-put, get-empty}
use vtpm_mds.Inventory.{
  VmEntry, VmConfig, valid_tag_key, valid_tag_value, clean_tags, config_of, put_config,
  raw_config_of, load_entry, load_loop, load_yaml,
}

-- Every tag has a valid key and a valid value.
abbrev pub HasValidTags : Dict Text → Type 0
HasValidTags tags =
    (key value : Text)
    → Dict.get key tags ≡ some value
    → (valid_tag_key key ≡ true) × (valid_tag_value value ≡ true)

clean_tags-HasValidTags :
    (out tags : Dict Text) → HasValidTags out → HasValidTags (clean_tags out tags)
unfolding clean_tags
clean_tags-HasValidTags out [] h = h
clean_tags-HasValidTags out ((k, v) ∷ tags) h =
    elim (Bool-cases (not (valid_tag_key (trim_space k)) || not (valid_tag_value (trim_space v)))) [
      | inl bad ↦ rw bad (clean_tags-HasValidTags out tags h)
      | inr good ↦
          rw good
            (clean_tags-HasValidTags (Dict.put (trim_space k) (trim_space v) out) tags (added good))
    ]
  where
    added :
        (not (valid_tag_key (trim_space k)) || not (valid_tag_value (trim_space v))) ≡ false
        → HasValidTags (Dict.put (trim_space k) (trim_space v) out)
    added good key value found = ground (
      arith,
      good,
      found,
      get-put (trim_space k) key (trim_space v) out,
      h key value,
      same_iff (trim_space k) key,
      ap valid_tag_key {x = trim_space k} {y = key},
    )

-- Every entry stands under its own VM ID, which is not empty, and has valid tags.
abbrev pub IsLoaded : Dict VmConfig → Type 0
IsLoaded out =
    (id : Text) (vm : VmConfig)
    → Dict.get id out ≡ some vm
    → (vm.vmid ≡ id) × (same id [] ≡ false) × HasValidTags vm.tags

module _ (parse : Text → Option Text) where
  config-IsLoaded :
      (out : Dict VmConfig) (vm : VmEntry) (raw : Dict Text)
      → same vm.id [] ≡ false
      → IsLoaded out
      → IsLoaded (Dict.put vm.id (config_of parse vm raw) out)
  config-IsLoaded out vm raw named h id c found = elim (Bool-cases (same vm.id id)) [
    | inl own ↦
        let made : config_of parse vm raw ≡ c =
          ground (arith, own, found, get-put vm.id id (config_of parse vm raw) out) in
        subst (λ (x : VmConfig). (x.vmid ≡ id) × (same id [] ≡ false) × HasValidTags x.tags) made
          (
            (same_iff vm.id id).0 own,
            ap (λ x. same x []) (sym ((same_iff vm.id id).0 own)) ∙ named,
            clean_tags-HasValidTags [] vm.tags none_yet,
          )
    | inr other ↦
        h id c (ground (arith, other, found, get-put vm.id id (config_of parse vm raw) out))
  ]
    where
      none_yet : HasValidTags []
      none_yet key value e = absurd (ground (arith, e, get-empty {V = Text} key))

  load_entry-IsLoaded :
      (out next : Dict VmConfig) (vm : VmEntry)
      → load_entry parse out vm ≡ some next
      → IsLoaded out
      → IsLoaded next
  unfolding load_entry
  load_entry-IsLoaded out next vm e h = elim (Bool-cases (same vm.id [])) [
    | inl blank ↦ subst IsLoaded (ground (arith, rw blank at e)) h
    | inr named ↦ by_raw named (raw_config_of parse vm) (rw named at e)
  ]
    where
      by_raw :
          same vm.id [] ≡ false
          → (raw : Option (Dict Text)) → put_config parse out vm raw ≡ some next
          → IsLoaded next
      by_raw named none q = absurd (ground (arith, q))
      by_raw named (some raw) q =
          subst IsLoaded (ground (arith, q)) (config-IsLoaded out vm raw named h)

  load_loop-IsLoaded :
      (out final : Dict VmConfig) (vms : List VmEntry)
      → load_loop parse out vms ≡ some final
      → IsLoaded out
      → IsLoaded final
  unfolding load_loop
  load_loop-IsLoaded out final [] e h = subst IsLoaded (ground (arith, e)) h
  load_loop-IsLoaded out final (vm ∷ vms) e h = elim (Option-cases (load_entry parse out vm)) [
    | inl bad ↦ absurd (ground (arith, rw (bad, load_loop) at e))
    | inr (next, good) ↦
        load_loop-IsLoaded next final vms (rw (good, load_loop) at e)
          (load_entry-IsLoaded out next vm good h)
  ]

  -- If the load of the decoded entries succeeds, every VM record stands under its own VM ID, which
  -- is not empty, and all its tags have a valid key and a valid value.
  pub load_yaml-IsLoaded :
      (vms : List VmEntry) (out : Dict VmConfig) → load_yaml parse vms ≡ some out → IsLoaded out
  unfolding load_yaml
  load_yaml-IsLoaded vms out e =
      load_loop-IsLoaded [] out vms e
        (λ id vm q. absurd (ground (arith, q, get-empty {V = VmConfig} id)))
