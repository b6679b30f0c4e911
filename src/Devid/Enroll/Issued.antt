-- ===== src/Devid/Enroll/Issued.antt =====
-- When the handlers of internal/devid/http.go issue a certificate, and the sessions that they leave.
use vtpm_mds.Prelude.{
  ℕ, ◌≡◌, refl, Bool, true, false, Option, none, some, List, [], arith, if◌then◌else◌, Text, codes,
}
use vtpm_mds.Devid.Sessions.{Session, SessionStore, take_session}
use vtpm_mds.Devid.Files.{Dir}
use vtpm_mds.Devid.Pins.{
  EnrollError, pin_store, unauthorized, already_pinned, failure, Result, ok, err,
}
use vtpm_mds.Devid.Verify.{SigningRequest, Tpm, ek_fingerprint, issue_devid}
use vtpm_mds.Devid.Enroll.{
  Caller, Enroller, EnrollState, World, authenticate_enroll_caller, session_checks, pin_step,
  finish_checked, finish_session, finish,
}
use vtpm_mds.Devid.Enroll.Http.{
  write_enroll_auth_error, finish_error, answer_finish, issued, FinishRequest, inventory_pin_of,
  finish_as, finish_body, handle_finish,
}
use vtpm_mds.Devid.Enroll.Inversion.{then_ok}

-- An error is never answered as a certificate.
auth_error_issues_nothing :
    {Cert : Type 0} (x : EnrollError) (cert : Cert) → write_enroll_auth_error x ≡ issued cert → ⊥
unfolding write_enroll_auth_error
auth_error_issues_nothing pin_store cert h = ground (arith, h)
auth_error_issues_nothing (unauthorized message) cert h = ground (arith, h)
auth_error_issues_nothing already_pinned cert h = ground (arith, h)
auth_error_issues_nothing (failure message) cert h = ground (arith, h)

finish_error_issues_nothing :
    {Cert : Type 0} (x : EnrollError) (cert : Cert) → finish_error x ≡ issued cert → ⊥
unfolding finish_error
finish_error_issues_nothing pin_store cert h = ground (arith, h)
finish_error_issues_nothing (unauthorized message) cert h = ground (arith, h)
finish_error_issues_nothing already_pinned cert h = ground (arith, h)
finish_error_issues_nothing (failure message) cert h = ground (arith, h)

module _ {Cert Key : Type 0} (tpm : Tpm Cert Key) (e : Enroller) where
  -- The session and the pin behind a certificate that Finish answers.
  abbrev pub IsIssue :
      Dir
      → World
      → List ℕ
      → Text
      → Text
      → Text
      → Option (Session (SigningRequest Cert Key))
      → Cert
      → Type 0
  IsIssue dir w answer vmid fp pin taken cert =
      (sess : Session (SigningRequest Cert Key)) × (taken ≡ some sess)
      × (session_checks tpm sess answer vmid fp ≡ ok tt)
      × ((pin_step tpm e w.pin_calls dir vmid fp pin).1 ≡ ok tt)
      × (issue_devid tpm e.lifetime sess.request sess.vmid w.now ≡ ok cert)

  finish_checked-IsIssue :
      (w : World) (store : SessionStore (SigningRequest Cert Key)) (dir : Dir)
      (sess : Session (SigningRequest Cert Key)) (vmid fp pin : Text) (cert : Cert)
      (checks : Result (Unit {0}))
      → (finish_checked tpm e w store dir sess vmid fp pin checks).1 ≡ ok cert
      → (checks ≡ ok tt)
        × ((pin_step tpm e w.pin_calls dir vmid fp pin).1 ≡ ok tt)
        × (issue_devid tpm e.lifetime sess.request sess.vmid w.now ≡ ok cert)
  finish_checked-IsIssue w store dir sess vmid fp pin cert (err x) h = absurd (ground (arith, h))
  finish_checked-IsIssue w store dir sess vmid fp pin cert (ok tt) h =
      let (pinned, made) = then_ok (pin_step tpm e w.pin_calls dir vmid fp pin).1 _ cert h in
      (refl, pinned, made)

  finish_session-IsIssue :
      (w : World) (dir : Dir) (answer : List ℕ) (vmid fp pin : Text) (cert : Cert)
      (r : SessionStore (SigningRequest Cert Key) × Option (Session (SigningRequest Cert Key)))
      → (finish_session tpm e w dir answer vmid fp pin r).1 ≡ ok cert
      → IsIssue dir w answer vmid fp pin r.1 cert
  finish_session-IsIssue w dir answer vmid fp pin cert (store, none) h = absurd (ground (arith, h))
  finish_session-IsIssue w dir answer vmid fp pin cert (store, some sess) h =
      let (checks, pinned, made) =
        finish_checked-IsIssue w store dir sess vmid fp pin cert
          (session_checks tpm sess answer vmid fp) h in
      (sess, refl, checks, pinned, made)

  pub finish-IsIssue :
      (s : EnrollState Cert Key) (w : World) (id : Text) (answer : List ℕ) (vmid fp pin : Text)
      (cert : Cert)
      → (finish tpm e s w id answer vmid fp pin).1 ≡ ok cert
      → IsIssue s.pin_dir w answer vmid fp pin (take_session s.store id w.now).1 cert
  unfolding finish
  finish-IsIssue s w id answer vmid fp pin cert h = by_ca e.has_ca h
    where
      by_ca :
          (has_ca : Bool)
          → (if has_ca
              then finish_session tpm e w s.pin_dir answer vmid fp pin
                  (take_session s.store id w.now)
              else (s, err (failure (codes "enroller not configured")))).1
            ≡ ok cert
          → IsIssue s.pin_dir w answer vmid fp pin (take_session s.store id w.now).1 cert
      by_ca true h =
          finish_session-IsIssue w s.pin_dir answer vmid fp pin cert (take_session s.store id w.now)
            h
      by_ca false h = absurd (ground (arith, h))

  issued_ok :
      (r : EnrollState Cert Key × Result Cert) (cert : Cert)
      → (answer_finish tpm e r).1 ≡ issued cert
      → r.1 ≡ ok cert
  issued_ok (s, err x) cert h = absurd (finish_error_issues_nothing x cert h)
  issued_ok (s, ok c) cert h = ground (arith, h)

  finish_as-IsIssue :
      (s : EnrollState Cert Key) (w : World) (caller : Option Caller) (id : Text) (answer : List ℕ)
      (cert : Cert) (who : Result (Text × Cert))
      → (finish_as tpm e s w caller id answer who).1 ≡ issued cert
      → (vmid : Text) × (ek : Cert) × (who ≡ ok (vmid, ek))
        × IsIssue s.pin_dir w answer vmid
            (ek_fingerprint tpm ek)
            (inventory_pin_of caller)
            (take_session s.store id w.now).1
            cert
  finish_as-IsIssue s w caller id answer cert (err x) h =
      absurd (auth_error_issues_nothing x cert h)
  finish_as-IsIssue s w caller id answer cert (ok (vmid, ek)) h =
      let issue =
        finish-IsIssue s w id answer vmid (ek_fingerprint tpm ek) (inventory_pin_of caller) cert (
          issued_ok
            (finish tpm e s w id answer vmid (ek_fingerprint tpm ek) (inventory_pin_of caller)) cert
            h) in
      (vmid, ek, refl, issue)

  -- The caller, the answer and the session behind a certificate that HandleFinish answers.
  pub handle_finish-IsIssue :
      (s : EnrollState Cert Key) (w : World) (caller : Option Caller) (header : Text)
      (body : Option FinishRequest) (cert : Cert)
      → (handle_finish tpm e s w caller header body).1 ≡ issued cert
      → (req : FinishRequest) × (answer : List ℕ) × (vmid : Text) × (ek : Cert) × (body ≡ some req)
        × (req.challenge_response ≡ some answer)
        × (authenticate_enroll_caller tpm e s.pin_dir caller header none none [] ≡ ok (vmid, ek))
        × IsIssue s.pin_dir w answer vmid
            (ek_fingerprint tpm ek)
            (inventory_pin_of caller)
            (take_session s.store req.session_id w.now).1
            cert
  unfolding handle_finish
  handle_finish-IsIssue s w caller header none cert h = absurd (ground (arith, h))
  handle_finish-IsIssue s w caller header (some req) cert h =
      by_answer req.challenge_response refl h
    where
      by_answer :
          (response : Option (List ℕ))
          → req.challenge_response ≡ response
          → (finish_body tpm e s w caller header req.session_id response).1 ≡ issued cert
          → (r : FinishRequest) × (answer : List ℕ) × (vmid : Text) × (ek : Cert) × (some req
              ≡ some r)
            × (r.challenge_response ≡ some answer)
            × (authenticate_enroll_caller tpm e s.pin_dir caller header none none []
                ≡ ok (vmid, ek))
            × IsIssue s.pin_dir w answer vmid
                (ek_fingerprint tpm ek)
                (inventory_pin_of caller)
                (take_session s.store r.session_id w.now).1
                cert
      by_answer none q h = absurd (ground (arith, h))
      by_answer (some answer) q h =
          let (vmid, ek, who, issue) =
            finish_as-IsIssue s w caller req.session_id answer cert
              (authenticate_enroll_caller tpm e s.pin_dir caller header none none []) h in
          (req, answer, vmid, ek, refl, q, who, issue)
