-- ===== src/Server/Ready.antt =====
-- When the service says that it is ready.
use vtpm_mds.Prelude.{
  ℕ, ◌-◌, ◌<◌, ◌≡◌, ◌↔◌, ◌∙◌, refl, sym, ap, subst, Bool, true, false, none, some, Option, List, [],
  ◌∷◌, arith, same, inl, inr, Bool-cases, In, Text, ltb, ltb→lt, Option-cases, if◌then◌else◌,
}
use vtpm_mds.Dict.{Dict}
use vtpm_mds.Inventory.{VmConfig}
use vtpm_mds.Server.{
  refresh_with, Server, Source, readiness, reload_now, reload_if_changed, refresh_vm_config_cache,
  is_recent, ca_readable_cache_ttl, status_ok, new_server,
}
use vtpm_mds.Server.Reloads.{
  Reach, start, hangup, changed, unchanged, health, Check, Reach-IsCurrent, loads, with_ca, is_some,
}

-- What is known of the CA files is the result of one of the checks.
abbrev Known : Server → List Check → Type 0
Known s checks = (t : ℕ) → s.ca_checked_at ≡ some t → In (t, s.ca_readable) checks

refresh_with-ca :
    (s : Server) (vms : Option (Dict VmConfig)) (topology : Dict Text) (now : ℕ)
    → ((refresh_with s vms topology now).0.ca_checked_at ≡ s.ca_checked_at)
      × ((refresh_with s vms topology now).0.ca_readable ≡ s.ca_readable)
unfolding refresh_vm_config_cache
refresh_with-ca s none topology now = (refl, refl)
refresh_with-ca s (some vms) topology now = (refl, refl)

refresh_ca :
    (s : Server) (read : Source) (now : ℕ) (checks : List Check)
    → Known s checks
    → Known (refresh_vm_config_cache s read now).0 checks
unfolding refresh_vm_config_cache
refresh_ca s read now checks k t h =
    let (at, ok) = refresh_with-ca s read.vms read.topology now in rw ok (k t (sym at ∙ h))

-- The result that readiness uses: the last one if it is recent, or a new one.
abbrev pub used : Server → ℕ → Bool → Bool
used s now checked = if is_recent s.ca_checked_at now then s.ca_readable else checked

used_check :
    (s : Server) (now : ℕ) (checked : Bool) (checks : List Check)
    → Known s checks
    → (t : ℕ) × (In (t, used s now checked) ((now, checked) ∷ checks))
      × (now - t < ca_readable_cache_ttl)
used_check s now checked checks k = elim (Option-cases s.ca_checked_at) [
  | inl e ↦ let u : used s now checked ≡ checked = rw e refl in (now, rw u (inl refl), omega arith)
  | inr (t, e) ↦ elim (Bool-cases (ltb (now - t) ca_readable_cache_ttl)) [
    | inl recent ↦
        let u : used s now checked ≡ s.ca_readable = rw e (rw recent refl) in
        (t, inr (subst (λ (b : Bool). In (t, b) checks) (sym u) (k t e)), ltb→lt _ _ recent)
    | inr old ↦
        let u : used s now checked ≡ checked = rw e (rw old refl) in
        (now, rw u (inl refl), omega arith)
  ]
]

readiness-Known :
    (attestation : Bool) (s : Server) (now : ℕ) (checked : Bool) (checks : List Check)
    → Known s checks
    → Known (readiness attestation s now checked).0 ((now, checked) ∷ checks)
unfolding readiness
readiness-Known false s now checked checks k = λ t h. inr (k t h)
readiness-Known true s now checked checks k = elim (Bool-cases (is_recent s.ca_checked_at now)) [
  | inl e ↦
      let kept : (readiness true s now checked).0 ≡ s = rw e refl in
      subst (λ (x : Server). Known x ((now, checked) ∷ checks)) (sym kept) (λ t h. inr (k t h))
  | inr e ↦
      let renewed : (readiness true s now checked).0 ≡ with_ca s checked (some now) = rw e refl in
      subst (λ (x : Server). Known x ((now, checked) ∷ checks)) (sym renewed) (λ t h. inl (cc))
]

Reach-Known :
    {s : Server} {seen read : Source} {good : Option Source} {checks : List Check}
    → Reach s seen read good checks
    → Known s checks
unfolding reload_now reload_if_changed
Reach-Known (start topology seen read now) =
    refresh_ca (record (new_server topology) { last = some seen.fingerprint }) read now []
      (λ t h. cc)
Reach-Known (hangup {s} {checks = checks} r seen read now) =
    refresh_ca (record s { last = some seen.fingerprint }) read now checks (Reach-Known r)
Reach-Known (changed {s} {checks = checks} r seen read now e) =
    rw e (refresh_ca (record s { last = some seen.fingerprint }) read now checks (Reach-Known r))
Reach-Known (unchanged r seen read now e) = rw e (Reach-Known r)
Reach-Known (health {s} {checks = checks} r attestation now checked) =
    readiness-Known attestation s now checked checks (Reach-Known r)

status_iff :
    (attestation : Bool) (s : Server) (now : ℕ) (checked : Bool)
    → (readiness attestation s now checked).1.status ≡ status_ok ↔ (
        (s.inventory_loaded ≡ true)
        × (same s.last_error_class [] ≡ true)
        × (attestation ≡ true → used s now checked ≡ true))
unfolding readiness same
status_iff false s now checked = ((λ h. ground arith), (λ h. ground arith))
status_iff true s now checked = ((λ h. ground arith), (λ h. ground arith))

-- After any sequence of reloads, polls and health requests, there is a result of a check of the CA
-- files, less than five seconds old or of a time that is not yet reached, such that readiness says
-- ok exactly if the last attempt to load the inventory succeeded and, where attestation is enabled,
-- that result is that they are readable.
pub ready_iff :
    {s : Server} {seen read : Source} {good : Option Source} {checks : List Check}
    (attestation : Bool) (now : ℕ) (checked : Bool)
    → Reach s seen read good checks
    → (t : ℕ) × (ok : Bool) × In (t, ok) ((now, checked) ∷ checks)
      × (now - t < ca_readable_cache_ttl)
      × ((readiness attestation s now checked).1.status ≡ status_ok
          ↔ (loads read ≡ true) × (attestation ≡ true → ok ≡ true))
ready_iff {s} {read = read} {good = good} {checks = checks} attestation now checked r =
    let v = Reach-IsCurrent r in
    let (t, among, recent) = used_check s now checked checks (Reach-Known r) in
    let (there, back) = status_iff attestation s now checked in
    (
      t,
      used s now checked,
      among,
      recent,
      (
        (λ h. let (l, e, a) = there h in (sym v.faulted ∙ e, a)),
        (λ h. back (v.is_loaded ∙ ap is_some (v.newest h.0), v.faulted ∙ h.0, h.1)),
      ),
    )
