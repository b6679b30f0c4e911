-- ===== src/Devid/Enroll.antt =====
-- The enrolment service: AuthenticateEnrollCaller of internal/devid/auth.go, Enroller.Start and Finish of
-- enroll.go, and the handlers of http.go. JSON bodies come decoded, `none` where they do not decode.
pub mod Http
pub mod Inversion
pub mod Bound
pub mod Issued
pub mod History
pub mod Sound
use vtpm_mds.Prelude.{
  ℕ, ◌==◌, Bool, true, false, not, ◌&&◌, ◌||◌, Option, none, some, List, [], ◌∷◌, if◌then◌else◌,
  Text, codes, same, trim_space, equal_fold,
}
use vtpm_mds.Devid.Sessions.{Session, SessionStore, put_session, take_session}
use vtpm_mds.Devid.Files.{Dir}
use vtpm_mds.Devid.Pins.{
  EnrollError, pin_store, unauthorized, already_pinned, failure, Result, ok, err, ◌>>=◌, ◌>>◌,
  is_empty, err_inventory_pin_mismatch, err_pinned_elsewhere,
}
use vtpm_mds.Devid.Pins.Scan.{
  PinConfig, PinCalls, pinned_to_another_vm, enforce_own_pin, ensure_pin_before_issue,
}
use vtpm_mds.Devid.Verify.{
  SigningRequest, Tpm, check_devid_prop, check_ak_prop, err_key_mismatch, check_signature,
  verify_devid_residency, verify_ek_certificate_chain, ek_certificate_matches_key, ek_fingerprint,
  issue_devid,
}

-- The fields of inventory.VMConfig that enrolment reads.
pub record Caller : Type 0 where
  pub vmid : Text
  pub ek_sha256 : Text

-- The fields of Enroller that do not change, the CA by whether it is set and its lifetime.
pub record Enroller : Type 0 where
  pub has_ca : Bool
  pub lifetime : ℕ
  pub pins : PinConfig

pub record EnrollState (Cert Key : Type 0) : Type 0 where
  pub store : SessionStore (SigningRequest Cert Key)
  pub pin_dir : Dir

-- What one call gets from the clock, the random source and the file system.
pub record World : Type 0 where
  pub now : ℕ
  pub random_id : Option Text
  pub random_nonce : List ℕ
  pub pin_calls : PinCalls

-- The credential blob and the secret of CreateChallenge.
abbrev pub Challenge : Type 0
Challenge = List ℕ × List ℕ

pub record StartResult : Type 0 where
  pub session_id : Text
  pub credential_blob : List ℕ
  pub secret : List ℕ

abbrev pub err_vm_identity : Text
err_vm_identity = codes "VM identity does not match enroll session"

abbrev pub err_session_ek : Text
err_session_ek = codes "EK certificate does not match enroll session"

abbrev pub optional {ℓ} : {A : Type ℓ} → Text → Option A → Result A
optional message none = err (failure message)
optional message (some a) = ok a

module _ {Cert Key : Type 0} (tpm : Tpm Cert Key) where
  abbrev pub decoded_header : Option Cert → Result Cert
  decoded_header none = err (unauthorized (codes "ek cert header"))
  decoded_header (some cert) = ok cert

  -- ParseEKCertHeader
  unfoldable pub parse_ek_cert_header : Text → Result Cert
  parse_ek_cert_header v =
      let header = trim_space v in
      if is_empty header
      then err (unauthorized (codes "missing EK certificate header"))
      else decoded_header (tpm.decode_header header)

  abbrev pub trusted : Result (Unit {0}) → Result (Unit {0})
  trusted (ok _) = ok tt
  trusted (err x) = err (unauthorized (codes "EK certificate not trusted"))

  -- VerifyEKCertificateBound where the signing request has a certificate, else the chain alone.
  abbrev pub check_ek : Option Cert → Option Key → Cert → Result (Unit {0})
  check_ek none key ek = trusted (verify_ek_certificate_chain tpm (some ek))
  check_ek (some csr) key ek =
      trusted (verify_ek_certificate_chain tpm (some ek))
      >> (if ek_certificate_matches_key tpm (some ek) key
          then ok tt
          else err (unauthorized err_key_mismatch))

  abbrev pub check_pins : Enroller → Dir → Caller → Text → Result (Unit {0})
  check_pins e dir vm fp =
      let pin = trim_space vm.ek_sha256 in
      if not (is_empty pin)
      then if equal_fold pin fp then ok tt else err (unauthorized err_inventory_pin_mismatch)
      else enforce_own_pin e.pins dir vm.vmid fp

  -- certsDEREqual with the certificate of the request, where there is one
  abbrev pub check_request : Option Cert → Cert → Result (Unit {0})
  check_request none ek = ok tt
  check_request (some csr) ek =
      if same (tpm.raw csr) (tpm.raw ek)
      then ok tt
      else err (unauthorized (codes "EK certificate header does not match signing request"))

  abbrev pub authenticate_vm :
      Enroller → Dir → Caller → Text → Option Cert → Option Key → Text → Result (Text × Cert)
  authenticate_vm e dir vm header csr key expected = parse_ek_cert_header header >>= λ ek.
      check_ek csr key ek
      >> check_pins e dir vm (ek_fingerprint tpm ek)
      >> pinned_to_another_vm e.pins dir vm.vmid (ek_fingerprint tpm ek)
      >>= λ other.
          if not (is_empty other)
          then err (unauthorized err_pinned_elsewhere)
          else if not (is_empty expected) && not (equal_fold expected (ek_fingerprint tpm ek))
          then err (unauthorized err_session_ek)
          else (check_request csr ek >> ok (vm.vmid, ek))

  -- AuthenticateEnrollCaller
  unfoldable pub authenticate_enroll_caller :
      Enroller → Dir → Option Caller → Text → Option Cert → Option Key → Text → Result (Text × Cert)
  unfolding parse_ek_cert_header
  authenticate_enroll_caller e dir none header csr key expected =
      err (unauthorized (codes "VM identity required (MAC not in inventory)"))
  authenticate_enroll_caller e dir (some vm) header csr key expected =
      if is_empty vm.vmid
      then err (unauthorized (codes "VM identity required (MAC not in inventory)"))
      else authenticate_vm e dir vm header csr key expected

  abbrev pub key_of : Option Key → Result Key
  key_of key = optional (codes "missing public key") key

  abbrev pub session_fingerprint_ok : Option Cert → Text → Result (Unit {0})
  session_fingerprint_ok none fp = ok tt
  session_fingerprint_ok (some cert) fp =
      if not (is_empty fp) && not (equal_fold (ek_fingerprint tpm cert) fp)
      then err (failure (codes "EK fingerprint does not match authenticated certificate"))
      else ok tt

  -- The checks of Start in their order, and the challenge of CreateChallenge for a nonce.
  unfoldable pub start_checks :
      List ℕ → List ℕ → Text → List ℕ → Result (SigningRequest Cert Key × Challenge)
  start_checks request sig fp nonce =
      optional (codes "decode signing request") (tpm.unmarshal request) >>= λ sr.
      check_signature tpm sr.devid_key request sig
      >> verify_ek_certificate_chain tpm sr.endorsement_certificate
      >> verify_devid_residency tpm sr.attestation_key sr.devid_key sr.certify_data
          sr.certify_signature
      >> key_of sr.devid_key
      >>= λ devid. check_devid_prop (tpm.properties devid) >> key_of sr.attestation_key >>= λ ak.
          check_ak_prop (tpm.properties ak)
          >> session_fingerprint_ok sr.endorsement_certificate fp
          >> optional (codes "AK name") (tpm.name ak)
          >>= λ ak_name.
              optional (codes "create challenge: missing EK public") sr.endorsement_key >>= λ ek.
              optional (codes "create challenge") (tpm.make_credential ek ak_name nonce)
              >>= λ challenge. ok (sr, challenge)

  abbrev pub stored :
      Dir
      → Challenge
      → SessionStore (SigningRequest Cert Key) × Option Text
      → EnrollState Cert Key × Result StartResult
  stored dir challenge (store, none) =
      (record { store = store; pin_dir = dir }, err (failure (codes "random source")))
  stored dir (credential, secret) (store, some id) = (
    record { store = store; pin_dir = dir },
    ok (record { session_id = id; credential_blob = credential; secret = secret }),
  )

  abbrev pub start_session :
      EnrollState Cert Key
      → World
      → Text
      → Text
      → Result (SigningRequest Cert Key × Challenge)
      → EnrollState Cert Key × Result StartResult
  start_session s w vmid fp (err x) = (s, err x)
  start_session s w vmid fp (ok (sr, challenge)) =
      stored s.pin_dir challenge (put_session s.store w.random_id w.random_nonce sr vmid fp w.now)

  -- Enroller.Start
  unfoldable pub start :
      Enroller
      → EnrollState Cert Key
      → World
      → List ℕ
      → List ℕ
      → Text
      → Text
      → EnrollState Cert Key × Result StartResult
  start e s w request sig vmid fp =
      if e.has_ca
      then start_session s w vmid fp (start_checks request sig fp w.random_nonce)
      else (s, err (failure (codes "enroller not configured")))

  -- The comparisons of Finish with the session that it took.
  unfoldable pub session_checks :
      Session (SigningRequest Cert Key) → List ℕ → Text → Text → Result (Unit {0})
  session_checks sess answer vmid fp =
      if not (is_empty sess.vmid) && not (same sess.vmid vmid)
      then err (failure err_vm_identity)
      else if not (is_empty sess.ek_fingerprint) && not (equal_fold sess.ek_fingerprint fp)
      then err (failure err_session_ek)
      else if not (same sess.nonce answer)
      then err (failure (codes "challenge verification failed"))
      else ok tt

  abbrev pub pin_step : Enroller → PinCalls → Dir → Text → Text → Text → Dir × Result (Unit {0})
  pin_step e calls dir vmid fp inventory_pin =
      if is_empty (trim_space inventory_pin)
      then ensure_pin_before_issue e.pins calls dir vmid fp
      else (dir, ok tt)

  abbrev pub issue_for :
      Enroller
      → World
      → SessionStore (SigningRequest Cert Key)
      → Session (SigningRequest Cert Key)
      → Dir × Result (Unit {0})
      → EnrollState Cert Key × Result Cert
  issue_for e w store sess (dir, pinned) = (
    record { store = store; pin_dir = dir },
    pinned >> issue_devid tpm e.lifetime sess.request sess.vmid w.now,
  )

  abbrev pub finish_checked :
      Enroller
      → World
      → SessionStore (SigningRequest Cert Key)
      → Dir
      → Session (SigningRequest Cert Key)
      → Text
      → Text
      → Text
      → Result (Unit {0})
      → EnrollState Cert Key × Result Cert
  finish_checked e w store dir sess vmid fp pin (err x) =
      (record { store = store; pin_dir = dir }, err x)
  finish_checked e w store dir sess vmid fp pin (ok _) =
      issue_for e w store sess (pin_step e w.pin_calls dir vmid fp pin)

  abbrev pub finish_session :
      Enroller
      → World
      → Dir
      → List ℕ
      → Text
      → Text
      → Text
      → SessionStore (SigningRequest Cert Key) × Option (Session (SigningRequest Cert Key))
      → EnrollState Cert Key × Result Cert
  finish_session e w dir answer vmid fp pin (store, none) =
      (record { store = store; pin_dir = dir }, err (failure (codes "unknown or expired session")))
  finish_session e w dir answer vmid fp pin (store, some sess) =
      finish_checked e w store dir sess vmid fp pin (session_checks sess answer vmid fp)

  -- Enroller.Finish. It answers the leaf; the response is its PEM block and that of the CA.
  unfoldable pub finish :
      Enroller
      → EnrollState Cert Key
      → World
      → Text
      → List ℕ
      → Text
      → Text
      → Text
      → EnrollState Cert Key × Result Cert
  unfolding session_checks
  finish e s w id answer vmid fp pin =
      if e.has_ca
      then finish_session e w s.pin_dir answer vmid fp pin (take_session s.store id w.now)
      else (s, err (failure (codes "enroller not configured")))
