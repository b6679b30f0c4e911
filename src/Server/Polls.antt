-- ===== src/Server/Polls.antt =====
-- A poll of the inventory source finds what has changed.
use vtpm_mds.Prelude.{
  ℕ, ◌≡◌, ◌≢◌, ◌⊎◌, refl, sym, true, some, Option, List, [], same_iff, inl, inr, Bool-cases, ap,
  ◌∙◌,
}
use vtpm_mds.Dict.{Dict}
use vtpm_mds.Inventory.{VmConfig}
use vtpm_mds.Server.{Server, Source, reload_if_changed, is_last}
use vtpm_mds.Server.Reloads.{
  Reach, changed, Check, IsCurrent, Reach-IsCurrent, checked_same, loads, cache_of, is_some,
}

-- Equal fingerprints mean equal contents.
abbrev pub Agree : Source → Source → Type 0
Agree x y = x.fingerprint ≡ y.fingerprint → (x.vms ≡ y.vms) × (x.topology ≡ y.topology)

-- A server whose cache and topology are those of a source that loads.
abbrev pub Serves : Server → Source → Type 0
Serves s x =
    (vms : Dict VmConfig)
    → x.vms ≡ some vms
    → (s.cache ≡ vms)
      × (s.topology ≡ x.topology)
      × (s.inventory_loaded ≡ true)
      × (s.last_error_class ≡ [])

current-Serves :
    {s : Server} {seen read : Source} {good : Option Source}
    → IsCurrent s seen read good
    → Serves s read
current-Serves {s} {seen} {read} v vms e =
    let l : loads read ≡ true = rw e refl in
    let g = v.newest l in
    (
      v.holds ∙ ap cache_of g ∙ rw e refl,
      v.placed read g,
      v.is_loaded ∙ ap is_some g,
      (same_iff s.last_error_class []).0 (v.faulted ∙ l),
    )

-- After any sequence of reloads, polls and health requests, if the last attempt loaded what it had
-- fingerprinted or fingerprinted something other than the source x, and equal fingerprints of these
-- two mean equal contents, then a poll that finds x leaves the records and the topology of x in the
-- cache, if x loads.
pub poll_catches_up :
    {s : Server} {seen read : Source} {good : Option Source} {checks : List Check} (x : Source)
    (now : ℕ)
    → Reach s seen read good checks
    → Agree seen x
    → (read ≡ seen) ⊎ (seen.fingerprint ≢ x.fingerprint)
    → Serves (reload_if_changed s x x now).0 x
poll_catches_up {s} {seen} {read} x now r agree quiet =
    let v = Reach-IsCurrent r in
    elim (Bool-cases (is_last s.last x.fingerprint)) [
      | inr e ↦ current-Serves (Reach-IsCurrent (changed r x x now e))
      | inl e ↦
          let known : seen.fingerprint ≡ x.fingerprint =
            sym ((same_iff x.fingerprint seen.fingerprint).0 (rw v.attempted at e)) in
          elim quiet [
            | inr differs ↦ absurd (differs known)
            | inl still ↦ rw (checked_same s x x now e) (λ vms h.
                let (same_vms, same_topology) = agree known in
                let (c, t, l, f) =
                  current-Serves v vms (ap (λ (y : Source). y.vms) still ∙ same_vms ∙ h) in
                (c, t ∙ ap (λ (y : Source). y.topology) still ∙ same_topology, l, f))
          ]
    ]
