-- ===== src/Devid/Csr.antt =====
-- MarshalBinary, UnmarshalBinary and parseCertificateLoose of internal/devid/csr.go. The encodings of
-- base64, JSON, ASN.1, x509 and go-tpm are the record `Codec`.
pub mod Roundtrip
use vtpm_mds.Prelude.{
  ℕ, ◌≡◌, ◌≢◌, Bool, if◌then◌else◌, Option, none, some, List, [], ◌∷◌, Text, same,
}
use vtpm_mds.Devid.Verify.{SigningRequest}

-- A signing request with its PlatformIdentity, which the checks of a request do not read.
pub record NamedRequest (Rdn Cert Key : Type 0) : Type 0 where
  pub platform_identity : List Rdn
  pub request : SigningRequest Cert Key

-- signingRequestWire
pub record Wire : Type 0 where
  pub platform_identity_b64 : Text
  pub endorsement_certificate_b64 : Text
  pub endorsement_key_b64 : Text
  pub attestation_key_b64 : Text
  pub devid_key_b64 : Text
  pub certify_data_b64 : Text
  pub certify_signature_b64 : Text

pub record Codec (Rdn Cert Key : Type 0) : Type 0 where
  pub base64_encode : List ℕ → Text
  pub base64_decode : Text → Option (List ℕ)
  -- json.Marshal and json.Unmarshal of the wire struct
  pub json_marshal : Wire → List ℕ
  pub json_unmarshal : List ℕ → Option Wire
  -- asn1.Marshal, and asn1.Unmarshal with the bytes that it leaves
  pub marshal_rdns : List Rdn → Option (List ℕ)
  pub unmarshal_rdns : List ℕ → Option (List Rdn × List ℕ)
  -- the FullBytes of the first ASN.1 value
  pub first_value : List ℕ → Option (List ℕ)
  -- cert.Raw and x509.ParseCertificate
  pub raw : Cert → List ℕ
  pub parse_certificate : List ℕ → Option Cert
  -- Public.Encode and tpm2.DecodePublic
  pub encode_public : Key → Option (List ℕ)
  pub decode_public : List ℕ → Option Key

-- The errors of UnmarshalBinary.
pub data CsrError : Type 0 where
  bad_json bad_base64 bad_identity trailing_data bad_certificate bad_ek bad_ak bad_devid : CsrError

pub data Decoded {ℓ} (A : Type ℓ) : Type ℓ where
  decoded : A → Decoded A
  refused : CsrError → Decoded A

infixl 5 ◌>>=◌
abbrev pub ◌>>=◌ {ℓ κ} : {A : Type ℓ} {B : Type κ} → Decoded A → (A → Decoded B) → Decoded B
decoded a >>= f = f a
refused e >>= f = refused e

abbrev pub or_refuse {ℓ} : {A : Type ℓ} → CsrError → Option A → Decoded A
or_refuse e none = refused e
or_refuse e (some a) = decoded a

abbrev pub in_option {ℓ} : {A : Type ℓ} → Decoded A → Decoded (Option A)
in_option (decoded a) = decoded (some a)
in_option (refused e) = refused e

module _ {Rdn Cert Key : Type 0} (c : Codec Rdn Cert Key) where
  -- A field that is left out where there is nothing to encode.
  unfoldable pub encode_bytes : List ℕ → Text
  encode_bytes [] = []
  encode_bytes (b ∷ bytes) = c.base64_encode (b ∷ bytes)

  abbrev pub in_base64 : Option (List ℕ) → Option Text
  in_base64 none = none
  in_base64 (some b) = some (c.base64_encode b)

  unfoldable pub encode_identity : List Rdn → Option Text
  encode_identity [] = some []
  encode_identity (r ∷ rdns) = in_base64 (c.marshal_rdns (r ∷ rdns))

  unfoldable pub encode_certificate : Option Cert → Text
  encode_certificate none = []
  encode_certificate (some cert) = c.base64_encode (c.raw cert)

  unfoldable pub encode_key : Option Key → Option Text
  encode_key none = some []
  encode_key (some key) = in_base64 (c.encode_public key)

  abbrev wire_of : NamedRequest Rdn Cert Key → Text → Text → Text → Text → Wire
  wire_of sr identity ek ak devid = record {
    platform_identity_b64 = identity;
    endorsement_certificate_b64 = encode_certificate sr.request.endorsement_certificate;
    endorsement_key_b64 = ek;
    attestation_key_b64 = ak;
    devid_key_b64 = devid;
    certify_data_b64 = encode_bytes sr.request.certify_data;
    certify_signature_b64 = encode_bytes sr.request.certify_signature;
  }

  abbrev encode_keys :
      NamedRequest Rdn Cert Key
      → Option Text
      → Option Text
      → Option Text
      → Option Text
      → Option (List ℕ)
  encode_keys sr (some identity) (some ek) (some ak) (some devid) =
      some (c.json_marshal (wire_of sr identity ek ak devid))
  encode_keys sr _ _ _ _ = none

  -- MarshalBinary, `none` where an encoder gives an error
  unfoldable pub marshal_binary : NamedRequest Rdn Cert Key → Option (List ℕ)
  unfolding encode_bytes encode_identity encode_certificate encode_key
  marshal_binary sr =
      encode_keys sr (encode_identity sr.platform_identity) (encode_key sr.request.endorsement_key)
        (encode_key sr.request.attestation_key) (encode_key sr.request.devid_key)

  abbrev value_or_all : List ℕ → Option (List ℕ) → List ℕ
  value_or_all bytes none = bytes
  value_or_all bytes (some value) = value

  -- parseCertificateLoose
  unfoldable pub parse_certificate_loose : List ℕ → Option Cert
  parse_certificate_loose bytes = c.parse_certificate (value_or_all bytes (c.first_value bytes))

  abbrev pub base64_bytes : Text → Decoded (List ℕ)
  base64_bytes t = or_refuse bad_base64 (c.base64_decode t)

  abbrev no_rest : Option (List Rdn × List ℕ) → Decoded (List Rdn)
  no_rest none = refused bad_identity
  no_rest (some (rdns, [])) = decoded rdns
  no_rest (some (rdns, b ∷ rest)) = refused trailing_data

  unfoldable pub decode_identity : Text → Decoded (List Rdn)
  decode_identity t =
      if same t [] then decoded [] else do b ← base64_bytes t; no_rest (c.unmarshal_rdns b)

  unfoldable pub decode_certificate : Text → Decoded (Option Cert)
  decode_certificate t =
      if same t []
      then decoded none
      else do b ← base64_bytes t; in_option (or_refuse bad_certificate (parse_certificate_loose b))

  unfoldable pub decode_key : CsrError → Text → Decoded (Option Key)
  decode_key e t =
      if same t []
      then decoded none
      else do b ← base64_bytes t; in_option (or_refuse e (c.decode_public b))

  unfoldable pub decode_bytes : Text → Decoded (List ℕ)
  decode_bytes t = if same t [] then decoded [] else base64_bytes t

  abbrev decode_wire : Wire → Decoded (NamedRequest Rdn Cert Key)
  decode_wire w = do
    identity ← decode_identity w.platform_identity_b64
    certificate ← decode_certificate w.endorsement_certificate_b64
    ek ← decode_key bad_ek w.endorsement_key_b64
    ak ← decode_key bad_ak w.attestation_key_b64
    devid ← decode_key bad_devid w.devid_key_b64
    certify_data ← decode_bytes w.certify_data_b64
    signature ← decode_bytes w.certify_signature_b64
    decoded (record {
      platform_identity = identity;
      request = record {
        endorsement_certificate = certificate;
        endorsement_key = ek;
        attestation_key = ak;
        devid_key = devid;
        certify_data = certify_data;
        certify_signature = signature;
      };
    })

  -- UnmarshalBinary
  unfoldable pub unmarshal_binary : List ℕ → Decoded (NamedRequest Rdn Cert Key)
  unfolding decode_identity decode_certificate decode_key decode_bytes
  unmarshal_binary bytes = or_refuse bad_json (c.json_unmarshal bytes) >>= decode_wire
