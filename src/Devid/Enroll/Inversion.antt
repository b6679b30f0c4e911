-- ===== src/Devid/Enroll/Inversion.antt =====
-- What the parts of internal/devid/auth.go and enroll.go have checked when they succeed.
use vtpm_mds.Prelude.{
  ◌≡◌, refl, sym, ap, ◌∙◌, inl, inr, true, false, not, ◌&&◌, Option, none, some, [], ◌∷◌, arith,
  if◌then◌else◌, Text, trim_space, equal_fold, Bool-cases, subst,
}
use vtpm_mds.Devid.Files.{Dir}
use vtpm_mds.Devid.Pins.{unauthorized, Result, ok, err, ◌>>=◌, ◌>>◌, is_empty, err_pinned_elsewhere}
use vtpm_mds.Devid.Pins.Scan.{pinned_to_another_vm}
use vtpm_mds.Devid.Verify.{
  Tpm, verify_ek_certificate_chain, ek_certificate_matches_key, ek_fingerprint,
}
use vtpm_mds.Devid.Enroll.{
  Caller, Enroller, authenticate_vm, authenticate_enroll_caller, parse_ek_cert_header, check_ek,
  check_pins, check_request, err_session_ek, optional,
}

pub bind_ok {ℓ κ} :
    {A : Type ℓ} {B : Type κ} (m : Result A) (f : A → Result B) (b : B)
    → (m >>= f) ≡ ok b
    → (a : A) × (m ≡ ok a) × (f a ≡ ok b)
bind_ok (ok a) f b h = (a, refl, h)
bind_ok (err x) f b h = absurd (ground (arith, h))

pub then_ok {κ} :
    {B : Type κ} (m : Result (Unit {0})) (k : Result B) (b : B)
    → (m >> k) ≡ ok b
    → (m ≡ ok tt) × (k ≡ ok b)
then_ok (ok tt) k b h = (refl, h)
then_ok (err x) k b h = absurd (ground (arith, h))

pub optional_ok {ℓ} :
    {A : Type ℓ} (message : Text) (o : Option A) (a : A) → optional message o ≡ ok a → o ≡ some a
optional_ok message none a h = absurd (ground (arith, h))
optional_ok message (some b) a h = ground (arith, h)

module _ {Cert Key : Type 0} (tpm : Tpm Cert Key) where
  -- Who was authenticated, and by which certificate.
  abbrev pub IsCaller : Enroller → Dir → Option Caller → Text → Text → Cert → Type 0
  IsCaller e dir caller header vmid ek =
      ((vm : Caller) × (caller ≡ some vm) × (vm.vmid ≡ vmid))
      × (is_empty vmid ≡ false)
      × (tpm.decode_header (trim_space header) ≡ some ek)
      × (tpm.chain_verifies ek ≡ true)
      × (pinned_to_another_vm e.pins dir vmid (ek_fingerprint tpm ek) ≡ ok [])

  -- Where the request has a certificate, the header's certifies the endorsement key.
  abbrev pub Certifies : Option Cert → Option Key → Cert → Type 0
  Certifies csr key ek =
      (c : Cert) → csr ≡ some c → ek_certificate_matches_key tpm (some ek) key ≡ true

  parsed :
      (header : Text) (ek : Cert)
      → parse_ek_cert_header tpm header ≡ ok ek
      → tpm.decode_header (trim_space header) ≡ some ek
  unfolding parse_ek_cert_header
  parsed header ek h = ground (arith, h)

  checked_ek :
      (csr : Option Cert) (key : Option Key) (ek : Cert)
      → check_ek tpm csr key ek ≡ ok tt
      → (tpm.chain_verifies ek ≡ true)
        × ((c : Cert) → csr ≡ some c → ek_certificate_matches_key tpm (some ek) key ≡ true)
  unfolding verify_ek_certificate_chain
  checked_ek none key ek h = (ground (arith, h), λ c q. absurd (ground (arith, q)))
  checked_ek (some c) key ek h = (ground (arith, h), λ c q. ground (arith, h))

  -- The other VM is nobody: what follows the scan.
  after_scan_ok :
      (other expected fp vmid : Text) (ek : Cert) (csr : Option Cert) (r : Text × Cert)
      → (if not (is_empty other)
          then err (unauthorized err_pinned_elsewhere)
          else if not (is_empty expected) && not (equal_fold expected fp)
          then err (unauthorized err_session_ek)
          else (check_request tpm csr ek >> ok (vmid, ek)))
        ≡ ok r
      → (other ≡ []) × (r ≡ (vmid, ek))
  after_scan_ok [] expected fp vmid ek csr r h =
      elim (Bool-cases (not (is_empty expected) && not (equal_fold expected fp))) [
        | inl g ↦ absurd (ground (arith, rw g at h))
        | inr g ↦ (
          refl,
          ground (arith, (then_ok (check_request tpm csr ek) (ok (vmid, ek)) r (rw g at h)).1),
        )
      ]
  after_scan_ok (c ∷ other) expected fp vmid ek csr r h = absurd (ground (arith, h))

  authenticate_vm-IsCaller :
      (e : Enroller) (dir : Dir) (vm : Caller) (header : Text) (csr : Option Cert)
      (key : Option Key) (expected vmid : Text) (ek : Cert)
      → is_empty vm.vmid ≡ false
      → authenticate_vm tpm e dir vm header csr key expected ≡ ok (vmid, ek)
      → IsCaller e dir (some vm) header vmid ek × Certifies csr key ek
  authenticate_vm-IsCaller e dir vm header csr key expected vmid ek n h =
      let (cert, parse, rest) = bind_ok (parse_ek_cert_header tpm header) _ (vmid, ek) h in
      let (other, checks, answer) =
        bind_ok
          (check_ek tpm csr key cert
            >> check_pins tpm e dir vm (ek_fingerprint tpm cert)
            >> pinned_to_another_vm e.pins dir vm.vmid (ek_fingerprint tpm cert))
          _ (vmid, ek) rest in
      let (own, scan) =
        then_ok (check_ek tpm csr key cert >> check_pins tpm e dir vm (ek_fingerprint tpm cert)) _
          other checks in
      let trust =
        checked_ek csr key cert
          (then_ok (check_ek tpm csr key cert) (check_pins tpm e dir vm (ek_fingerprint tpm cert))
            tt own).0 in
      let (nobody, who) =
        after_scan_ok other expected (ek_fingerprint tpm cert) vm.vmid cert csr (vmid, ek) answer in
      let name : vm.vmid ≡ vmid = sym (ap (λ r. r.0) who) in
      let same_cert : cert ≡ ek = sym (ap (λ r. r.1) who) in
      subst (λ x. IsCaller e dir (some vm) header x ek × Certifies csr key ek) name
        (subst (λ x. IsCaller e dir (some vm) header vm.vmid x × Certifies csr key x) same_cert
          (((vm, refl, refl), n, parsed header cert parse, trust.0, scan ∙ ap ok nobody), trust.1))

  pub authenticate-IsCaller :
      (e : Enroller) (dir : Dir) (caller : Option Caller) (header : Text) (csr : Option Cert)
      (key : Option Key) (expected vmid : Text) (ek : Cert)
      → authenticate_enroll_caller tpm e dir caller header csr key expected ≡ ok (vmid, ek)
      → IsCaller e dir caller header vmid ek × Certifies csr key ek
  unfolding authenticate_enroll_caller
  authenticate-IsCaller e dir none header csr key expected vmid ek h = absurd (ground (arith, h))
  authenticate-IsCaller e dir (some vm) header csr key expected vmid ek h =
      elim (Bool-cases (is_empty vm.vmid)) [
        | inl g ↦ absurd (ground (arith, rw g at h))
        | inr g ↦ authenticate_vm-IsCaller e dir vm header csr key expected vmid ek g (rw g at h)
      ]
