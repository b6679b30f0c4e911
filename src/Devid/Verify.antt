-- ===== src/Devid/Verify.antt =====
-- The checks of a signing request: internal/devid/verify.go, SigningRequest of csr.go, IssueDevID of
-- ca.go. The packages crypto, x509 and go-tpm are the record `Tpm`; certificates and public areas are
-- of any types.
use vtpm_mds.Prelude.{
  ℕ, ◌+◌, ◌*◌, ◌/◌, ◌^◌, Bool, false, not, Option, none, some, List, if◌then◌else◌, Text, codes,
}
use vtpm_mds.Devid.Pins.{failure, Result, ok, err, ◌>>◌}

-- The attribute bits of tpm2.KeyProp that are read.
pub record KeyProp : Type 0 where
  pub decrypt : Bool
  pub restricted : Bool
  pub sign : Bool
  pub fixed_tpm : Bool

pub record SigningRequest (Cert Key : Type 0) : Type 0 where
  pub endorsement_certificate : Option Cert
  pub endorsement_key : Option Key
  pub attestation_key : Option Key
  pub devid_key : Option Key
  pub certify_data : List ℕ
  pub certify_signature : List ℕ

-- The fields of the template that depend on the request. Times are nanoseconds.
pub record Template (Key : Type 0) : Type 0 where
  pub subject_cn : Text
  pub not_before : ℕ
  pub not_after : ℕ
  pub public_key : Key

pub record Tpm (Cert Key : Type 0) : Type 0 where
  -- Key() and rsa.VerifyPKCS1v15 under the scheme of the key
  pub rsa_verifies : Key → List ℕ → List ℕ → Bool
  pub properties : Key → KeyProp
  -- DecodeAttestationData and MatchesPublic: the name in the data is that of the key
  pub certifies : List ℕ → Key → Bool
  -- cert.Verify against the roots of the endorsement keys, and the public key of a certificate
  pub chain_verifies : Cert → Bool
  pub certificate_key_is : Cert → Key → Bool
  -- cert.Raw
  pub raw : Cert → List ℕ
  -- hex of the SHA-256 of raw bytes
  pub sha256_hex : List ℕ → Text
  -- Name(), and credactivation.Generate for a nonce
  pub name : Key → Option (List ℕ)
  pub make_credential : Key → List ℕ → List ℕ → Option (List ℕ × List ℕ)
  -- buildDevIDSAN succeeds
  pub has_san : SigningRequest Cert Key → Bool
  -- CA.Sign and x509.ParseCertificate
  pub sign_template : Template Key → Option Cert
  -- base64 and parseCertificateLoose of the header, SigningRequest.UnmarshalBinary
  pub decode_header : Text → Option Cert
  pub unmarshal : List ℕ → Option (SigningRequest Cert Key)

unfoldable pub check_devid_prop : KeyProp → Result (Unit {0})
check_devid_prop prop =
    if prop.decrypt
    then err (failure (codes "key attribute error: DevID should not be a decryption key"))
    else if prop.restricted
    then err (failure (codes "key attribute error: DevID should not be a restricted key"))
    else if not prop.sign
    then err (failure (codes "key attribute error: DevID should be a signing key"))
    else if not prop.fixed_tpm
    then err (failure (codes "key attribute error: DevID should be fixedTPM"))
    else ok tt

unfoldable pub check_ak_prop : KeyProp → Result (Unit {0})
check_ak_prop prop =
    if prop.decrypt
    then err (failure (codes "key attribute error: AK should not be a decryption key"))
    else if not prop.restricted
    then err (failure (codes "key attribute error: AK should be a restricted key"))
    else if not prop.sign
    then err (failure (codes "key attribute error: AK should be a signing key"))
    else if not prop.fixed_tpm
    then err (failure (codes "key attribute error: AK should be fixedTPM"))
    else ok tt

abbrev pub err_key_mismatch : Text
err_key_mismatch = codes "EK certificate does not match the endorsement key in the signing request"

module _ {Cert Key : Type 0} (tpm : Tpm Cert Key) where
  unfoldable pub check_signature : Option Key → List ℕ → List ℕ → Result (Unit {0})
  check_signature none bytes sig = err (failure (codes "missing public key"))
  check_signature (some key) bytes sig =
      if tpm.rsa_verifies key bytes sig
      then ok tt
      else err (failure (codes "crypto/rsa: verification error"))

  abbrev pub certify_name : Option Key → List ℕ → Result (Unit {0})
  certify_name none bytes = err (failure (codes "certify name does not match DevID public"))
  certify_name (some key) bytes =
      if tpm.certifies bytes key
      then ok tt
      else err (failure (codes "certify name does not match DevID public"))

  unfoldable pub verify_devid_residency :
      Option Key → Option Key → List ℕ → List ℕ → Result (Unit {0})
  verify_devid_residency ak devid bytes sig =
      check_signature ak bytes sig >> certify_name devid bytes

  unfoldable pub verify_ek_certificate_chain : Option Cert → Result (Unit {0})
  verify_ek_certificate_chain none = err (failure (codes "missing EK certificate"))
  verify_ek_certificate_chain (some cert) =
      if tpm.chain_verifies cert
      then ok tt
      else err (failure (codes "EK certificate verification failed"))

  -- ekCertificateMatchesKey
  unfoldable pub ek_certificate_matches_key : Option Cert → Option Key → Bool
  ek_certificate_matches_key none key = false
  ek_certificate_matches_key (some cert) none = false
  ek_certificate_matches_key (some cert) (some key) = tpm.certificate_key_is cert key

  -- EKFingerprint
  unfoldable pub ek_fingerprint : Cert → Text
  ek_fingerprint cert = tpm.sha256_hex (tpm.raw cert)

  -- DefaultDevIDLifetime is a lifetime of 0.
  abbrev pub template_of : ℕ → Key → Text → ℕ → Template Key
  template_of lifetime key subject_cn now =
      let start = now / 10 ^ 9 * 10 ^ 9 in
      record {
        subject_cn = subject_cn;
        not_before = start;
        not_after = start + lifetime;
        public_key = key;
      }

  abbrev signed : Option Cert → Result Cert
  signed none = err (failure (codes "issue DevID: sign"))
  signed (some cert) = ok cert

  -- CA.IssueDevID, with the lifetime that applies
  unfoldable pub issue_devid : ℕ → SigningRequest Cert Key → Text → ℕ → Result Cert
  issue_devid lifetime sr subject_cn now = elim sr.devid_key [
    | none ↦ err (failure (codes "issue DevID: missing DevID key"))
    | some key ↦
        if tpm.has_san sr
        then signed (tpm.sign_template (template_of lifetime key subject_cn now))
        else err (failure (codes "issue DevID: SAN"))
  ]
