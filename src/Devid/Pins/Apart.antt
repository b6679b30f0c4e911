-- ===== src/Devid/Pins/Apart.antt =====
-- Which virtual machines hold an EK in the local store of internal/devid/pin.go, before and after the
-- pin step.
use vtpm_mds.Prelude.{
  ◌≡◌, [], sym, ◌∙◌, inl, inr, true, false, arith, Text, same, same_iff, same_sym, equal_fold,
  equal_fold_sym, equal_fold_trans, Bool-cases,
}
use vtpm_mds.Devid.Files.{Dir, Read, missing, contents}
use vtpm_mds.Devid.Pins.{Result, ok, is_empty, read_stored_pin, pin_line, all_hex}
use vtpm_mds.Devid.Pins.Scan.{PinConfig, PinCalls, pinned_to_another_vm, ensure_pin_before_issue}
use vtpm_mds.Devid.Pins.Stored.{stored_text-pin_line}
use vtpm_mds.Devid.Pins.Ensured.{
  Ensured, refused, by_cluster, unpinned, kept, created, cleared, IsOwnFile, ensure_pin-Ensured,
}
use vtpm_mds.Devid.Pins.Free.{IsHolder, no_other_holder}
use vtpm_mds.Devid.Pins.Tofu.{read_stored_pin_own, blank_is_valid}

-- At most one virtual machine that still exists holds an EK.
abbrev pub IsApart : PinConfig → Dir → Type 0
IsApart e dir = (j k fp : Text) → IsHolder e dir j fp → IsHolder e dir k fp → j ≡ k

-- A holder after the own file was replaced is the owner of the new file or was a holder before.
IsHolder-before :
    (e : PinConfig) (dir after : Dir) (vmid j fp : Text) (own : Read)
    → IsOwnFile dir vmid own after
    → same vmid j ≡ false
    → IsHolder e after j fp
    → IsHolder e dir j fp
IsHolder-before e dir after vmid j fp own file other (s, read, holds, vm, exists) = (
  s,
  ground (arith, read, other, read_stored_pin_own dir after vmid j own file),
  holds,
  vm,
  exists,
)

new_pin :
    (e : PinConfig) (dir after : Dir) (vmid j fp next : Text)
    → read_stored_pin dir vmid ≡ ok []
    → all_hex fp ≡ true
    → is_empty fp ≡ false
    → IsOwnFile dir vmid (contents (pin_line fp)) after
    → same vmid j ≡ true
    → IsHolder e after j next
    → equal_fold fp next ≡ true
new_pin e dir after vmid j fp next blank hex n file own (s, read, holds, vm, exists) = ground (
  arith,
  read,
  own,
  holds,
  read_stored_pin_own dir after vmid j (contents (pin_line fp)) file,
  stored_text-pin_line fp hex n,
  blank_is_valid dir vmid [] blank,
)

-- A holder elsewhere holds no pin that the scan found to be free.
free_elsewhere :
    (e : PinConfig) (dir : Dir) (vmid j fp next : Text)
    → e.uses_store ≡ true
    → is_empty fp ≡ false
    → pinned_to_another_vm e dir vmid fp ≡ ok []
    → same vmid j ≡ false
    → equal_fold fp next ≡ true
    → IsHolder e dir j next
    → ⊥
free_elsewhere e dir vmid j fp next uses n free other eq (s, read, holds, vm, exists) =
    no_other_holder e dir vmid fp j uses n free (same_sym j vmid ∙ other) (
      s,
      read,
      ground
          (arith, holds, equal_fold_trans fp next s eq, equal_fold_sym s next, equal_fold_sym fp s),
      vm,
      exists,
    )

apart :
    (e : PinConfig) (dir : Dir) (vmid fp : Text) (r : Dir × Result (Unit {0}))
    → all_hex fp ≡ true
    → Ensured e dir vmid fp r
    → IsApart e dir
    → IsApart e r.0
apart e dir vmid fp _ hex (refused x) h j k next hj hk = h j k next hj hk
apart e dir vmid fp _ hex (by_cluster pin b _ _ _) h j k next hj hk = h j k next hj hk
apart e dir vmid fp _ hex (unpinned b _ _ _) h j k next hj hk = h j k next hj hk
apart e dir vmid fp _ hex (kept t b _ _ _ _ _ _ _) h j k next hj hk = h j k next hj hk
apart e dir vmid fp _ hex (created after b _ _ uses blank n free file) h j k next hj hk =
    elim (Bool-cases (same vmid j)) [
      | inl own ↦ elim (Bool-cases (same vmid k)) [
        | inl own' ↦ sym ((same_iff vmid j).0 own) ∙ (same_iff vmid k).0 own'
        | inr other ↦ absurd (clash k j other own hk hj)
      ]
      | inr other ↦ elim (Bool-cases (same vmid k)) [
        | inl own ↦ absurd (clash j k other own hj hk)
        | inr other' ↦ h j k next (before j other hj) (before k other' hk)
      ]
    ]
  where
    before : (i : Text) → same vmid i ≡ false → IsHolder e after i next → IsHolder e dir i next
    before i other = IsHolder-before e dir after vmid i next (contents (pin_line fp)) file other

    clash :
        (i o : Text)
        → same vmid i ≡ false
        → same vmid o ≡ true
        → IsHolder e after i next
        → IsHolder e after o next
        → ⊥
    clash i o other own hi ho =
        free_elsewhere e dir vmid i fp next uses n free other
          (new_pin e dir after vmid o fp next blank hex n file own ho) (before i other hi)
apart e dir vmid fp _ hex (cleared after x blank file) h j k next hj hk =
    h j k next (before j hj) (before k hk)
  where
    before : (i : Text) → IsHolder e after i next → IsHolder e dir i next
    before i (s, read, holds, vm, exists) = elim (Bool-cases (same vmid i)) [
      | inl own ↦ absurd (
          ground (
            arith,
            read,
            own,
            holds,
            blank_is_valid dir vmid [] blank,
            read_stored_pin_own dir after vmid i missing file,
          ))
      | inr other ↦
          IsHolder-before e dir after vmid i next missing file other (s, read, holds, vm, exists)
    ]

-- If no two VMs with numeric IDs that still exist hold one EK in the local pin store, and the
-- fingerprint consists of lower-case hex digits, then no two do after the pin step, whatever it
-- answers and whichever of its system calls fail.
pub ensure_pin-IsApart :
    (e : PinConfig) (calls : PinCalls) (dir : Dir) (vmid fp : Text)
    → all_hex fp ≡ true
    → IsApart e dir
    → IsApart e (ensure_pin_before_issue e calls dir vmid fp).0
ensure_pin-IsApart e calls dir vmid fp hex =
    apart e dir vmid fp (ensure_pin_before_issue e calls dir vmid fp) hex
      (ensure_pin-Ensured e calls dir vmid fp)
