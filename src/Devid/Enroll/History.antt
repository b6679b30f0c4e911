-- ===== src/Devid/Enroll/History.antt =====
-- What a call of the handlers of internal/devid/http.go does to the sessions.
use vtpm_mds.Prelude.{
  ℕ, ◌≡◌, ◌⊎◌, inl, inr, refl, sym, ap, ◌∙◌, Bool, true, false, Option, none, some, List, [], arith,
  if◌then◌else◌, Text, codes, subst,
}
use vtpm_mds.Dict
use vtpm_mds.Dict.{IsKeyed}
use vtpm_mds.Devid.Sessions.{Session, SessionStore, new_session, take_session, put_session}
use vtpm_mds.Devid.Sessions.Once.{
  kept_by_put, kept_by_take, put_session-IsKeyed, take_session-IsKeyed,
}
use vtpm_mds.Devid.Files.{Dir}
use vtpm_mds.Devid.Pins.{failure, Result, ok, err}
use vtpm_mds.Devid.Verify.{SigningRequest, Tpm, ek_fingerprint, ek_certificate_matches_key}
use vtpm_mds.Devid.Enroll.{
  Caller, Enroller, EnrollState, World, StartResult, Challenge, start_checks, stored, start_session,
  start, session_checks, finish_checked, finish_session, finish, authenticate_enroll_caller,
}
use vtpm_mds.Devid.Enroll.Http.{
  StartRequest, FinishRequest, start_as, start_decoded, start_body, handle_start, finish_as,
  finish_body, handle_finish, inventory_pin_of, answer_start, answer_finish,
}
use vtpm_mds.Devid.Enroll.Inversion.{authenticate-IsCaller}
use vtpm_mds.Devid.Enroll.Bound.{IsBound, matched_key, start_checks-IsVetted}

module _ {Cert Key : Type 0} (tpm : Tpm Cert Key) (e : Enroller) where
  -- Every session has its own identifier and passed the checks of Start.
  abbrev pub IsSound : SessionStore (SigningRequest Cert Key) → Type 0
  IsSound s =
      IsKeyed s.sessions
      × ((id : Text) (sess : Session (SigningRequest Cert Key))
          → Dict.get id s.sessions ≡ some sess
          → IsBound tpm sess)

  put_session-IsSound :
      (s : SessionStore (SigningRequest Cert Key)) (id : Option Text) (nonce : List ℕ)
      (sr : SigningRequest Cert Key) (vmid fp : Text) (now : ℕ)
      → ((i : Text) → IsBound tpm (new_session i nonce sr vmid fp now))
      → IsSound s
      → IsSound (put_session s id nonce sr vmid fp now).0
  unfolding put_session
  put_session-IsSound s none nonce sr vmid fp now fresh h = h
  put_session-IsSound s (some id) nonce sr vmid fp now fresh h = (
    put_session-IsKeyed s (some id) nonce sr vmid fp now h.0,
    λ j sess found. elim (kept_by_put s id j nonce sr vmid fp now sess h.0 found) [
      | inl new ↦ subst (IsBound tpm) (sym new) (fresh id)
      | inr old ↦ h.1 j sess old
    ],
  )

  take_session-IsSound :
      (s : SessionStore (SigningRequest Cert Key)) (id : Text) (now : ℕ)
      → IsSound s
      → IsSound (take_session s id now).0
  take_session-IsSound s id now h = (
    take_session-IsKeyed s id now h.0,
    λ j sess found. h.1 j sess (kept_by_take s now id j sess h.0 found),
  )

  stored_store :
      (dir : Dir) (challenge : Challenge) (r : SessionStore (SigningRequest Cert Key) × Option Text)
      → (stored tpm dir challenge r).0.store ≡ r.0
  stored_store dir challenge (store, none) = refl
  stored_store dir challenge (store, some id) = refl

  start_session-IsSound :
      (s : EnrollState Cert Key) (w : World) (vmid fp : Text)
      (checks : Result (SigningRequest Cert Key × Challenge))
      → ((sr : SigningRequest Cert Key) (challenge : Challenge) (i : Text)
          → checks ≡ ok (sr, challenge)
          → IsBound tpm (new_session i w.random_nonce sr vmid fp w.now))
      → IsSound s.store
      → IsSound (start_session tpm s w vmid fp checks).0.store
  start_session-IsSound s w vmid fp (err x) fresh h = h
  start_session-IsSound s w vmid fp (ok (sr, challenge)) fresh h =
      subst IsSound
        (sym (
          stored_store s.pin_dir challenge
            (put_session s.store w.random_id w.random_nonce sr vmid fp w.now)))
        (put_session-IsSound s.store w.random_id w.random_nonce sr vmid fp w.now
          (λ i. fresh sr challenge i refl) h)

  start-IsSound :
      (s : EnrollState Cert Key) (w : World) (request sig : List ℕ) (vmid fp : Text)
      → ((sr : SigningRequest Cert Key) (challenge : Challenge) (i : Text)
          → start_checks tpm request sig fp w.random_nonce ≡ ok (sr, challenge)
          → IsBound tpm (new_session i w.random_nonce sr vmid fp w.now))
      → IsSound s.store
      → IsSound (start tpm e s w request sig vmid fp).0.store
  unfolding start
  start-IsSound s w request sig vmid fp fresh h = by_ca e.has_ca
    where
      by_ca :
          (has_ca : Bool)
          → IsSound
              (if has_ca
                then start_session tpm s w vmid fp (start_checks tpm request sig fp w.random_nonce)
                else (s, err (failure (codes "enroller not configured")))).0.store
      by_ca true =
          start_session-IsSound s w vmid fp (start_checks tpm request sig fp w.random_nonce) fresh h
      by_ca false = h

  answer_start_store :
      (r : EnrollState Cert Key × Result StartResult) → (answer_start tpm e r).0 ≡ r.0
  answer_start_store (s, err x) = refl
  answer_start_store (s, ok x) = refl

  start_as-IsSound :
      (s : EnrollState Cert Key) (w : World) (caller : Option Caller) (header : Text)
      (request sig : List ℕ) (sr : SigningRequest Cert Key) (who : Result (Text × Cert))
      → tpm.unmarshal request ≡ some sr
      → authenticate_enroll_caller tpm e s.pin_dir caller header sr.endorsement_certificate
          sr.endorsement_key []
        ≡ who
      → IsSound s.store
      → IsSound (start_as tpm e s w request sig who).0.store
  start_as-IsSound s w caller header request sig sr (err x) decoded auth h = h
  start_as-IsSound s w caller header request sig sr (ok (vmid, ek)) decoded auth h =
      subst (λ x. IsSound x.store)
        (sym (answer_start_store (start tpm e s w request sig vmid (ek_fingerprint tpm ek))))
        (start-IsSound s w request sig vmid (ek_fingerprint tpm ek) bound h)
    where
      bound :
          (found : SigningRequest Cert Key) (challenge : Challenge) (i : Text)
          → start_checks tpm request sig (ek_fingerprint tpm ek) w.random_nonce
            ≡ ok (found, challenge)
          → IsBound tpm (new_session i w.random_nonce found vmid (ek_fingerprint tpm ek) w.now)
      bound found challenge i checks =
          let (same_request, vetted) =
            start_checks-IsVetted tpm request sig (ek_fingerprint tpm ek) w.random_nonce found
              challenge checks in
          let ((known, n, parse, chain, nobody), matches) =
            authenticate-IsCaller tpm e s.pin_dir caller header sr.endorsement_certificate
              sr.endorsement_key [] vmid ek auth in
          let one : sr ≡ found = ground (arith, decoded, same_request) in
          (
            n,
            (
              ek,
              vetted.ek,
              refl,
              chain,
              vetted.is_ek,
              matched_key tpm
                  (subst (λ x. ek_certificate_matches_key tpm (some ek) x.endorsement_key ≡ true)
                    one
                    (matches vetted.certificate
                      (ap (λ x. x.endorsement_certificate) one ∙ vetted.is_certificate)))
                  vetted.is_ek,
            ),
            vetted,
          )

  pub handle_start-IsSound :
      (s : EnrollState Cert Key) (w : World) (caller : Option Caller) (header : Text)
      (body : Option StartRequest)
      → IsSound s.store
      → IsSound (handle_start tpm e s w caller header body).0.store
  unfolding handle_start
  handle_start-IsSound s w caller header none h = h
  handle_start-IsSound s w caller header (some body) h = by_fields body.request body.signature
    where
      by_request :
          (request sig : List ℕ) (decoded : Option (SigningRequest Cert Key))
          → tpm.unmarshal request ≡ decoded
          → IsSound (start_decoded tpm e s w caller header request sig decoded).0.store
      by_request request sig none q = h
      by_request request sig (some sr) q =
          start_as-IsSound s w caller header request sig sr _ q refl h

      by_fields :
          (request sig : Option (List ℕ))
          → IsSound (start_body tpm e s w caller header request sig).0.store
      by_fields none sig = h
      by_fields (some request) none = h
      by_fields (some request) (some sig) = by_request request sig (tpm.unmarshal request) refl

  finish_checked_store :
      (w : World) (store : SessionStore (SigningRequest Cert Key)) (dir : Dir)
      (sess : Session (SigningRequest Cert Key)) (vmid fp pin : Text) (checks : Result (Unit {0}))
      → (finish_checked tpm e w store dir sess vmid fp pin checks).0.store ≡ store
  finish_checked_store w store dir sess vmid fp pin (err x) = refl
  finish_checked_store w store dir sess vmid fp pin (ok tt) = refl

  finish_session_store :
      (w : World) (dir : Dir) (answer : List ℕ) (vmid fp pin : Text)
      (r : SessionStore (SigningRequest Cert Key) × Option (Session (SigningRequest Cert Key)))
      → (finish_session tpm e w dir answer vmid fp pin r).0.store ≡ r.0
  finish_session_store w dir answer vmid fp pin (store, none) = refl
  finish_session_store w dir answer vmid fp pin (store, some sess) =
      finish_checked_store w store dir sess vmid fp pin (session_checks tpm sess answer vmid fp)

  answer_finish_state : (r : EnrollState Cert Key × Result Cert) → (answer_finish tpm e r).0 ≡ r.0
  answer_finish_state (s, err x) = refl
  answer_finish_state (s, ok x) = refl

  -- A call of HandleFinish leaves the sessions, or takes the one that it names.
  pub handle_finish_store :
      (s : EnrollState Cert Key) (w : World) (caller : Option Caller) (header : Text)
      (body : Option FinishRequest)
      → ((handle_finish tpm e s w caller header body).0.store ≡ s.store)
        ⊎ ((id : Text) × ((handle_finish tpm e s w caller header body).0.store
              ≡ (take_session s.store id w.now).0))
  unfolding handle_finish finish
  handle_finish_store s w caller header none = inl refl
  handle_finish_store s w caller header (some body) = by_answer body.challenge_response
    where
      by_ca :
          (has_ca : Bool) (answer : List ℕ) (vmid fp pin : Text)
          → ((if has_ca
                then finish_session tpm e w s.pin_dir answer vmid fp pin
                    (take_session s.store body.session_id w.now)
                else (s, err (failure (codes "enroller not configured")))).0.store
              ≡ s.store)
            ⊎ ((if has_ca
                  then finish_session tpm e w s.pin_dir answer vmid fp pin
                      (take_session s.store body.session_id w.now)
                  else (s, err (failure (codes "enroller not configured")))).0.store
                ≡ (take_session s.store body.session_id w.now).0)
      by_ca true answer vmid fp pin = inr (
          finish_session_store w s.pin_dir answer vmid fp pin
            (take_session s.store body.session_id w.now))
      by_ca false answer vmid fp pin = inl refl

      by_caller :
          (answer : List ℕ) (who : Result (Text × Cert))
          → ((finish_as tpm e s w caller body.session_id answer who).0.store ≡ s.store)
            ⊎ ((id : Text) × ((finish_as tpm e s w caller body.session_id answer who).0.store
                  ≡ (take_session s.store id w.now).0))
      by_caller answer (err x) = inl refl
      by_caller answer (ok (vmid, ek)) =
          let answered =
            ap (λ x. x.store)
              (answer_finish_state (
                finish tpm e s w body.session_id answer vmid (ek_fingerprint tpm ek)
                  (inventory_pin_of caller))) in
          elim (by_ca e.has_ca answer vmid (ek_fingerprint tpm ek) (inventory_pin_of caller)) [
            | inl q ↦ inl (answered ∙ q)
            | inr q ↦ inr (body.session_id, answered ∙ q)
          ]

      by_answer :
          (response : Option (List ℕ))
          → ((finish_body tpm e s w caller header body.session_id response).0.store ≡ s.store)
            ⊎ ((id : Text) × ((finish_body tpm e s w caller header body.session_id response).0.store
                  ≡ (take_session s.store id w.now).0))
      by_answer none = inl refl
      by_answer (some answer) =
          by_caller answer (authenticate_enroll_caller tpm e s.pin_dir caller header none none [])

  pub handle_finish-IsSound :
      (s : EnrollState Cert Key) (w : World) (caller : Option Caller) (header : Text)
      (body : Option FinishRequest)
      → IsSound s.store
      → IsSound (handle_finish tpm e s w caller header body).0.store
  handle_finish-IsSound s w caller header body h =
      elim (handle_finish_store s w caller header body) [
        | inl q ↦ subst IsSound (sym q) h
        | inr (id, q) ↦ subst IsSound (sym q) (take_session-IsSound s.store id w.now h)
      ]
