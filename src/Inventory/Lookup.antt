-- ===== src/Inventory/Lookup.antt =====
-- GetVMIDByMAC of internal/inventory/inventory.go answers the ID of a record that has the MAC.
use vtpm_mds.Prelude.{
  ◌≡◌, ◌≢◌, refl, true, false, some, [], ◌∷◌, Text, same, same_iff, inl, inr, Bool-cases, to_lower,
  trim_space, same_refl, subst, sym, none, ◌∙◌,
}
use vtpm_mds.Dict
use vtpm_mds.Dict.{Dict, IsKeyed}
use vtpm_mds.Inventory.{VmConfig, get_vmid_by_mac, has_mac, mac_loop}

mac_loop-nil : (m : Text) → mac_loop m [] ≡ []
unfolding mac_loop
mac_loop-nil m = refl

some-inj : {v w : VmConfig} → some v ≡ some w → v ≡ w
some-inj h = cc

module _ (m j : Text) (w : VmConfig) (vms : Dict VmConfig) where
  loop_hit : has_mac m w.macs ≡ true → mac_loop m ((j, w) ∷ vms) ≡ j
  unfolding mac_loop
  loop_hit e = rw e refl

  loop_miss : has_mac m w.macs ≡ false → mac_loop m ((j, w) ∷ vms) ≡ mac_loop m vms
  unfolding mac_loop
  loop_miss e = rw e refl

get_other :
    (k j : Text) (w : VmConfig) (vms : Dict VmConfig)
    → same j k ≡ false
    → Dict.get k ((j, w) ∷ vms) ≡ Dict.get k vms
unfolding Dict.get
get_other k j w vms e = rw e refl

get_head : (j : Text) (w : VmConfig) (vms : Dict VmConfig) → Dict.get j ((j, w) ∷ vms) ≡ some w
unfolding Dict.get
get_head j w vms = rw same_refl refl

-- An ID that the walk answers has a record.
loop-get :
    (m : Text) (vms : Dict VmConfig)
    → mac_loop m vms ≢ []
    → (vm : VmConfig) × (Dict.get (mac_loop m vms) vms ≡ some vm)
loop-get m [] n = absurd (n (mac_loop-nil m))
loop-get m ((j, w) ∷ vms) n = elim (Bool-cases (has_mac m w.macs)) [
  | inl e ↦ (
    w,
    subst (λ (k : Text). Dict.get k ((j, w) ∷ vms) ≡ some w) (sym (loop_hit m j w vms e))
        (get_head j w vms),
  )
  | inr e ↦
      let skip = loop_miss m j w vms e in
      elim (Bool-cases (same j (mac_loop m vms))) [
        | inl q ↦
            let here = (same_iff j (mac_loop m vms)).0 q in
            (
              w,
              rw skip (
                  subst (λ (k : Text). Dict.get k ((j, w) ∷ vms) ≡ some w) here (get_head j w vms)),
            )
        | inr q ↦
            let (vm, h) = loop-get m vms (λ z. n (skip ∙ z)) in
            (
              vm,
              subst (λ (k : Text). Dict.get k ((j, w) ∷ vms) ≡ some vm) (sym skip)
                  (get_other (mac_loop m vms) j w vms q ∙ h),
            )
      ]
]

loop-has_mac :
    (m : Text) (vms : Dict VmConfig) (vm : VmConfig)
    → IsKeyed vms
    → mac_loop m vms ≢ []
    → Dict.get (mac_loop m vms) vms ≡ some vm
    → has_mac m vm.macs ≡ true
loop-has_mac m [] vm k n g = absurd (n (mac_loop-nil m))
loop-has_mac m ((j, w) ∷ vms) vm k n g = elim (Bool-cases (has_mac m w.macs)) [
  | inl e ↦
      let head : some w ≡ some vm = sym (get_head j w vms) ∙ rw (loop_hit m j w vms e) at g in
      subst (λ (x : VmConfig). has_mac m x.macs ≡ true) (some-inj head) e
  | inr e ↦
      let skip = loop_miss m j w vms e in
      let found : mac_loop m vms ≢ [] = λ z. n (skip ∙ z) in
      elim (Bool-cases (same j (mac_loop m vms))) [
        | inl q ↦
            let (x, h) = loop-get m vms found in
            let here = (same_iff j (mac_loop m vms)).0 q in
            let missing : Dict.get (mac_loop m vms) vms ≡ none = rw (← here) k.0 in
            absurd (cc (h, missing))
        | inr q ↦
            loop-has_mac m vms vm k.1 found
              (sym (get_other (mac_loop m vms) j w vms q) ∙ rw skip at g)
      ]
]

pub get_vmid_by_mac-has_mac :
    (m : Text) (vms : Dict VmConfig) (vm : VmConfig)
    → IsKeyed vms
    → get_vmid_by_mac vms m ≢ []
    → Dict.get (get_vmid_by_mac vms m) vms ≡ some vm
    → has_mac (to_lower (trim_space m)) vm.macs ≡ true
unfolding get_vmid_by_mac
get_vmid_by_mac-has_mac m vms vm = loop-has_mac (to_lower (trim_space m)) vms vm
