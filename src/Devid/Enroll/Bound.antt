-- ===== src/Devid/Enroll/Bound.antt =====
-- What Enroller.Start of internal/devid/enroll.go has checked about a session that it stores.
use vtpm_mds.Prelude.{
  ◌⊎◌, equal_fold, ℕ, ◌≡◌, refl, true, false, Option, none, some, List, arith, Text, codes, subst,
}
use vtpm_mds.Devid.Sessions.{Session}
use vtpm_mds.Devid.Pins.{Result, ok, ◌>>◌, is_empty}
use vtpm_mds.Devid.Verify.{
  KeyProp, certify_name, SigningRequest, Tpm, check_devid_prop, check_ak_prop, check_signature,
  verify_devid_residency, verify_ek_certificate_chain, ek_certificate_matches_key, ek_fingerprint,
}
use vtpm_mds.Devid.Enroll.{start_checks, Challenge, optional, key_of, session_fingerprint_ok}
use vtpm_mds.Devid.Enroll.Inversion.{bind_ok, then_ok, optional_ok}

some-inj {ℓ} : {A : Type ℓ} {a b : A} → some a ≡ some b → a ≡ b
some-inj h = cc

module _ {Cert Key : Type 0} (tpm : Tpm Cert Key) where
  -- The attributes of a key that signs, and of one that signs what its TPM made, which cannot leave it.
  abbrev pub IsDevid : KeyProp → Type 0
  IsDevid p = (p.decrypt ≡ false) × (p.restricted ≡ false) × (p.sign ≡ true) × (p.fixed_tpm ≡ true)

  abbrev pub IsAk : KeyProp → Type 0
  IsAk p = (p.decrypt ≡ false) × (p.restricted ≡ true) × (p.sign ≡ true) × (p.fixed_tpm ≡ true)

  -- What Start finds about a request, a nonce and the fingerprint of the caller: its key signed the
  -- bytes that it was decoded from, its own certificate is trusted and has the fingerprint, its
  -- attestation key certified its key, both of their kinds, and a challenge was made for the nonce.
  pub record IsVetted (sr : SigningRequest Cert Key) (nonce : List ℕ) (fp : Text) : Type 0 where
    pub bytes : List ℕ
    pub signature : List ℕ
    pub devid : Key
    pub ak : Key
    pub ek : Key
    pub certificate : Cert
    pub name : List ℕ
    pub challenge : Challenge
    pub is_decoded : tpm.unmarshal bytes ≡ some sr
    pub is_devid : sr.devid_key ≡ some devid
    pub is_ak : sr.attestation_key ≡ some ak
    pub is_ek : sr.endorsement_key ≡ some ek
    pub is_certificate : sr.endorsement_certificate ≡ some certificate
    pub signed : tpm.rsa_verifies devid bytes signature ≡ true
    pub trusted : tpm.chain_verifies certificate ≡ true
    pub attested : tpm.rsa_verifies ak sr.certify_data sr.certify_signature ≡ true
    pub certified : tpm.certifies sr.certify_data devid ≡ true
    pub devid_kind : IsDevid (tpm.properties devid)
    pub ak_kind : IsAk (tpm.properties ak)
    pub has_fingerprint :
        (is_empty fp ≡ true) ⊎ (equal_fold (ek_fingerprint tpm certificate) fp ≡ true)
    pub named : tpm.name ak ≡ some name
    pub challenged : tpm.make_credential ek name nonce ≡ some challenge

  -- A session for which a certificate may be issued: its virtual machine is known, the endorsement
  -- key of its request is the one of the trusted certificate that it is bound to, and Start vetted it.
  abbrev pub IsBound : Session (SigningRequest Cert Key) → Type 0
  IsBound sess =
      (is_empty sess.vmid ≡ false)
      × ((cert : Cert) × (key : Key) × (sess.ek_fingerprint ≡ ek_fingerprint tpm cert)
          × (tpm.chain_verifies cert ≡ true)
          × (sess.request.endorsement_key ≡ some key)
          × (tpm.certificate_key_is cert key ≡ true))
      × IsVetted sess.request sess.nonce sess.ek_fingerprint

  -- The key of a request is that of a certificate which matches it.
  pub matched_key :
      {key : Option Key} {k : Key} {cert : Cert}
      → ek_certificate_matches_key tpm (some cert) key ≡ true
      → key ≡ some k
      → tpm.certificate_key_is cert k ≡ true
  unfolding ek_certificate_matches_key
  matched_key {k = k} {cert = cert} h e =
      let h' : ek_certificate_matches_key tpm (some cert) (some k) ≡ true =
        subst (λ (o : Option Key). ek_certificate_matches_key tpm (some cert) o ≡ true) e h in
      h'

  chain_ok :
      (cert : Option Cert)
      → verify_ek_certificate_chain tpm cert ≡ ok tt
      → (c : Cert) × (cert ≡ some c) × (tpm.chain_verifies c ≡ true)
  unfolding verify_ek_certificate_chain
  chain_ok none h = absurd (ground (arith, h))
  chain_ok (some c) h = (c, refl, ground (arith, h))

  signature_ok :
      (key : Option Key) (k : Key) (bytes sig : List ℕ)
      → key ≡ some k
      → check_signature tpm key bytes sig ≡ ok tt
      → tpm.rsa_verifies k bytes sig ≡ true
  unfolding check_signature
  signature_ok none k bytes sig e h = cc
  signature_ok (some j) k bytes sig e h =
      subst (λ (o : Key). tpm.rsa_verifies o bytes sig ≡ true) (some-inj e) (ground (arith, h))

  residency_ok :
      (sr : SigningRequest Cert Key) (devid ak : Key)
      → sr.devid_key ≡ some devid
      → sr.attestation_key ≡ some ak
      → verify_devid_residency tpm sr.attestation_key sr.devid_key sr.certify_data
          sr.certify_signature
        ≡ ok tt
      → (tpm.rsa_verifies ak sr.certify_data sr.certify_signature ≡ true)
        × (tpm.certifies sr.certify_data devid ≡ true)
  unfolding verify_devid_residency
  residency_ok sr devid ak d a h =
      let (signature, name) =
        then_ok (check_signature tpm sr.attestation_key sr.certify_data sr.certify_signature)
          (certify_name tpm sr.devid_key sr.certify_data) tt h in
      (
        signature_ok sr.attestation_key ak sr.certify_data sr.certify_signature a signature,
        named sr.devid_key d name,
      )
    where
      named :
          (key : Option Key)
          → key ≡ some devid
          → certify_name tpm key sr.certify_data ≡ ok tt
          → tpm.certifies sr.certify_data devid ≡ true
      named none e q = cc
      named (some j) e q =
          subst (λ (o : Key). tpm.certifies sr.certify_data o ≡ true) (some-inj e)
            (ground (arith, q))

  IsDevid-ok : (p : KeyProp) → check_devid_prop p ≡ ok tt → IsDevid p
  unfolding check_devid_prop
  IsDevid-ok p h = ground (arith, h)

  IsAk-ok : (p : KeyProp) → check_ak_prop p ≡ ok tt → IsAk p
  unfolding check_ak_prop
  IsAk-ok p h = ground (arith, h)

  fingerprint_ok :
      (cert : Option Cert) (c : Cert) (fp : Text)
      → cert ≡ some c
      → session_fingerprint_ok tpm cert fp ≡ ok tt
      → (is_empty fp ≡ true) ⊎ (equal_fold (ek_fingerprint tpm c) fp ≡ true)
  fingerprint_ok none c fp e h = cc
  fingerprint_ok (some d) c fp e h =
      subst (λ (x : Cert). (is_empty fp ≡ true) ⊎ (equal_fold (ek_fingerprint tpm x) fp ≡ true))
        (some-inj e) (ground (arith, h))

  first_of :
      (a b : SigningRequest Cert Key) (c d : Challenge)
      → ◌≡◌ {A = Result (SigningRequest Cert Key × Challenge)} (ok (a, c)) (ok (b, d))
      → a ≡ b
  first_of a b c d h = ground (arith, h)

  pub start_checks-IsVetted :
      (request sig : List ℕ) (fp : Text) (nonce : List ℕ) (sr : SigningRequest Cert Key)
      (challenge : Challenge)
      → start_checks tpm request sig fp nonce ≡ ok (sr, challenge)
      → (tpm.unmarshal request ≡ some sr) × IsVetted sr nonce fp
  unfolding start_checks
  start_checks-IsVetted request sig fp nonce sr challenge h =
      let (found, decoded, rest) =
        bind_ok (optional (codes "decode signing request") (tpm.unmarshal request)) _
          (sr, challenge) h in
      let (devid, checks, rest2) = bind_ok _ _ (sr, challenge) rest in
      let (residency, key) = then_ok _ (key_of tpm found.devid_key) devid checks in
      let (chains, resident) =
        then_ok _
          (verify_devid_residency tpm found.attestation_key found.devid_key found.certify_data
            found.certify_signature)
          tt residency in
      let (signature, chain) =
        then_ok (check_signature tpm found.devid_key request sig)
          (verify_ek_certificate_chain tpm found.endorsement_certificate) tt chains in
      let (ak, attested, rest3) =
        bind_ok (check_devid_prop (tpm.properties devid) >> key_of tpm found.attestation_key) _
          (sr, challenge) rest2 in
      let (devid_prop, ak_key) =
        then_ok (check_devid_prop (tpm.properties devid)) (key_of tpm found.attestation_key) ak
          attested in
      let (ak_name, named, rest4) =
        bind_ok
          (check_ak_prop (tpm.properties ak)
            >> session_fingerprint_ok tpm found.endorsement_certificate fp
            >> optional (codes "AK name") (tpm.name ak))
          _ (sr, challenge) rest3 in
      let (ek, has_key, rest5) =
        bind_ok (optional (codes "create challenge: missing EK public") found.endorsement_key) _
          (sr, challenge) rest4 in
      let (made, credential, answer) =
        bind_ok (optional (codes "create challenge") (tpm.make_credential ek ak_name nonce)) _
          (sr, challenge) rest5 in
      let (kinds, name) =
        then_ok
          (check_ak_prop (tpm.properties ak)
            >> session_fingerprint_ok tpm found.endorsement_certificate fp)
          (optional (codes "AK name") (tpm.name ak)) ak_name named in
      let (ak_prop, print) =
        then_ok (check_ak_prop (tpm.properties ak))
          (session_fingerprint_ok tpm found.endorsement_certificate fp) tt kinds in
      let is_decoded =
        optional_ok (codes "decode signing request") (tpm.unmarshal request) found decoded in
      let is_devid = optional_ok (codes "missing public key") found.devid_key devid key in
      let is_ak = optional_ok (codes "missing public key") found.attestation_key ak ak_key in
      let (own, is_own, trust) = chain_ok found.endorsement_certificate chain in
      let (attest, certify) = residency_ok found devid ak is_devid is_ak resident in
      subst (λ x. (tpm.unmarshal request ≡ some x) × IsVetted x nonce fp)
        (first_of found sr made challenge answer)
        (
          is_decoded,
          record {
            bytes = request;
            signature = sig;
            devid = devid;
            ak = ak;
            ek = ek;
            certificate = own;
            name = ak_name;
            challenge = made;
            is_decoded = is_decoded;
            is_devid = is_devid;
            is_ak = is_ak;
            is_ek =
                optional_ok (codes "create challenge: missing EK public") found.endorsement_key ek
                  has_key;
            is_certificate = is_own;
            signed = signature_ok found.devid_key devid request sig is_devid signature;
            trusted = trust;
            attested = attest;
            certified = certify;
            devid_kind = IsDevid-ok (tpm.properties devid) devid_prop;
            ak_kind = IsAk-ok (tpm.properties ak) ak_prop;
            has_fingerprint = fingerprint_ok found.endorsement_certificate own fp is_own print;
            named = optional_ok (codes "AK name") (tpm.name ak) ak_name name;
            challenged =
                optional_ok (codes "create challenge") (tpm.make_credential ek ak_name nonce) made
                  credential;
          },
        )
