-- ===== src/Devid/Enroll/Http.antt =====
-- The enrolment handlers, internal/devid/http.go: the decoding of a body, the caller's authentication,
-- the leg, and the status of the answer.
use vtpm_mds.Prelude.{ℕ, ◌||◌, Option, none, some, List, [], if◌then◌else◌, Text, codes, same}
use vtpm_mds.Devid.Pins.{
  EnrollError, pin_store, unauthorized, already_pinned, failure, Result, ok, err,
}
use vtpm_mds.Devid.Verify.{SigningRequest, Tpm, ek_fingerprint}
use vtpm_mds.Devid.Enroll.{
  Caller, Enroller, EnrollState, World, StartResult, err_vm_identity, err_session_ek,
  authenticate_enroll_caller, start, finish,
}

-- http.Error, and the two answers of a leg that succeeds
pub data Answer (Cert : Type 0) : Type 0 where
  http_error : ℕ → Text → Answer Cert
  started : StartResult → Answer Cert
  issued : Cert → Answer Cert

-- The bodies, each field in base64 decoded, `none` where it does not decode.
pub record StartRequest : Type 0 where
  pub request : Option (List ℕ)
  pub signature : Option (List ℕ)

pub record FinishRequest : Type 0 where
  pub session_id : Text
  pub challenge_response : Option (List ℕ)

abbrev pub err_pin_store_unavailable : Text
err_pin_store_unavailable = codes "pin store unavailable"

-- writeEnrollAuthError
unfoldable pub write_enroll_auth_error : {Cert : Type 0} → EnrollError → Answer Cert
write_enroll_auth_error pin_store = http_error 500 err_pin_store_unavailable
write_enroll_auth_error (unauthorized message) = http_error 401 message
write_enroll_auth_error already_pinned = http_error 400 (codes "ek pin already exists")
write_enroll_auth_error (failure message) = http_error 400 message

-- The status of an error of Finish.
unfoldable pub finish_error : {Cert : Type 0} → EnrollError → Answer Cert
finish_error pin_store = http_error 500 err_pin_store_unavailable
finish_error (unauthorized message) = http_error 401 message
finish_error already_pinned = http_error 400 (codes "ek pin already exists")
finish_error (failure message) =
    http_error (if same message err_vm_identity || same message err_session_ek then 401 else 400)
      message

abbrev err_message : EnrollError → Text
err_message pin_store = codes "ek pin store"
err_message (unauthorized message) = message
err_message already_pinned = codes "ek pin already exists"
err_message (failure message) = message

-- The ek_sha256 of the caller's inventory entry.
abbrev pub inventory_pin_of : Option Caller → Text
inventory_pin_of none = []
inventory_pin_of (some vm) = vm.ek_sha256

module _ {Cert Key : Type 0} (tpm : Tpm Cert Key) (e : Enroller) where
  abbrev pub answer_start :
      EnrollState Cert Key × Result StartResult → EnrollState Cert Key × Answer Cert
  answer_start (s, err x) = (s, http_error 400 (err_message x))
  answer_start (s, ok r) = (s, started r)

  abbrev pub start_as :
      EnrollState Cert Key
      → World
      → List ℕ
      → List ℕ
      → Result (Text × Cert)
      → EnrollState Cert Key × Answer Cert
  start_as s w request sig (err x) = (s, write_enroll_auth_error x)
  start_as s w request sig (ok (vmid, ek)) =
      answer_start (start tpm e s w request sig vmid (ek_fingerprint tpm ek))

  abbrev pub start_decoded :
      EnrollState Cert Key
      → World
      → Option Caller
      → Text
      → List ℕ
      → List ℕ
      → Option (SigningRequest Cert Key)
      → EnrollState Cert Key × Answer Cert
  start_decoded s w vm header request sig none =
      (s, http_error 400 (codes "invalid signing request"))
  start_decoded s w vm header request sig (some sr) = start_as s w request sig (
      authenticate_enroll_caller tpm e s.pin_dir vm header sr.endorsement_certificate
        sr.endorsement_key [])

  abbrev pub start_body :
      EnrollState Cert Key
      → World
      → Option Caller
      → Text
      → Option (List ℕ)
      → Option (List ℕ)
      → EnrollState Cert Key × Answer Cert
  start_body s w vm header none sig = (s, http_error 400 (codes "invalid request_b64"))
  start_body s w vm header (some request) none = (s, http_error 400 (codes "invalid signature_b64"))
  start_body s w vm header (some request) (some sig) =
      start_decoded s w vm header request sig (tpm.unmarshal request)

  -- HandleStart
  unfoldable pub handle_start :
      EnrollState Cert Key
      → World
      → Option Caller
      → Text
      → Option StartRequest
      → EnrollState Cert Key × Answer Cert
  unfolding write_enroll_auth_error
  handle_start s w vm header none = (s, http_error 400 (codes "invalid JSON"))
  handle_start s w vm header (some body) = start_body s w vm header body.request body.signature

  abbrev pub answer_finish : EnrollState Cert Key × Result Cert → EnrollState Cert Key × Answer Cert
  answer_finish (s, err x) = (s, finish_error x)
  answer_finish (s, ok cert) = (s, issued cert)

  abbrev pub finish_as :
      EnrollState Cert Key
      → World
      → Option Caller
      → Text
      → List ℕ
      → Result (Text × Cert)
      → EnrollState Cert Key × Answer Cert
  finish_as s w vm id answer (err x) = (s, write_enroll_auth_error x)
  finish_as s w vm id answer (ok (vmid, ek)) =
      answer_finish (finish tpm e s w id answer vmid (ek_fingerprint tpm ek) (inventory_pin_of vm))

  abbrev pub finish_body :
      EnrollState Cert Key
      → World
      → Option Caller
      → Text
      → Text
      → Option (List ℕ)
      → EnrollState Cert Key × Answer Cert
  finish_body s w vm header id none = (s, http_error 400 (codes "invalid challenge_response_b64"))
  finish_body s w vm header id (some answer) =
      finish_as s w vm id answer (authenticate_enroll_caller tpm e s.pin_dir vm header none none [])

  -- HandleFinish
  unfoldable pub handle_finish :
      EnrollState Cert Key
      → World
      → Option Caller
      → Text
      → Option FinishRequest
      → EnrollState Cert Key × Answer Cert
  unfolding write_enroll_auth_error finish_error
  handle_finish s w vm header none = (s, http_error 400 (codes "invalid JSON"))
  handle_finish s w vm header (some body) =
      finish_body s w vm header body.session_id body.challenge_response
