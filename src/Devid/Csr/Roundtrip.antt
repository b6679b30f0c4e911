-- ===== src/Devid/Csr/Roundtrip.antt =====
-- What MarshalBinary writes, UnmarshalBinary reads back.
use vtpm_mds.Prelude.{
  ℕ, ◌≡◌, ◌≢◌, ◌∙◌, refl, ap, subst, false, Option, none, some, List, [], ◌∷◌, Text, same, same_ne,
}
use vtpm_mds.Devid.Csr.{
  NamedRequest, Wire, Codec, CsrError, decoded, bad_ek, bad_ak, bad_devid, encode_bytes,
  encode_identity, encode_certificate, encode_key, marshal_binary, decode_identity,
  decode_certificate, decode_key, decode_bytes, unmarshal_binary, parse_certificate_loose,
  encode_keys, wire_of, value_or_all, in_base64, base64_bytes,
}

module _ {Rdn Cert Key : Type 0} (c : Codec Rdn Cert Key) where
  -- What the packages document: each decoder reads what its encoder writes, and none writes nothing.
  pub record IsLawful : Type 0 where
    pub base64_reads : (b : List ℕ) → c.base64_decode (c.base64_encode b) ≡ some b
    pub base64_writes : (b : List ℕ) → b ≢ [] → c.base64_encode b ≢ []
    pub json_reads : (w : Wire) → c.json_unmarshal (c.json_marshal w) ≡ some w
    pub rdns_read :
        (rdns : List Rdn) (b : List ℕ)
        → c.marshal_rdns rdns ≡ some b
        → c.unmarshal_rdns b ≡ some (rdns, [])
    pub rdns_write : (rdns : List Rdn) (b : List ℕ) → c.marshal_rdns rdns ≡ some b → b ≢ []
    pub raw_is_value : (cert : Cert) → c.first_value (c.raw cert) ≡ some (c.raw cert)
    pub raw_reads : (cert : Cert) → c.parse_certificate (c.raw cert) ≡ some cert
    pub raw_writes : (cert : Cert) → c.raw cert ≢ []
    pub key_reads :
        (key : Key) (b : List ℕ) → c.encode_public key ≡ some b → c.decode_public b ≡ some key
    pub key_writes : (key : Key) (b : List ℕ) → c.encode_public key ≡ some b → b ≢ []

  blank_identity : decode_identity c [] ≡ decoded []
  unfolding decode_identity same
  blank_identity = refl

  blank_key : (e : CsrError) → decode_key c e [] ≡ decoded none
  unfolding decode_key same
  blank_key e = refl

  module _ (l : IsLawful) where
    bytes_back : (b : List ℕ) → decode_bytes c (encode_bytes c b) ≡ decoded b
    unfolding decode_bytes encode_bytes same
    bytes_back [] = refl
    bytes_back (b ∷ bytes) = rw (
      same_ne (c.base64_encode (b ∷ bytes)) [] (l.base64_writes (b ∷ bytes) (λ e. cc)),
      l.base64_reads (b ∷ bytes),
    )

    module _ (b : List ℕ) (written : b ≢ []) where
      not_blank : same (c.base64_encode b) [] ≡ false
      not_blank = same_ne (c.base64_encode b) [] (l.base64_writes b written)

      read_back : base64_bytes c (c.base64_encode b) ≡ decoded b
      read_back = rw (l.base64_reads b)

    in_base64-some :
        (o : Option (List ℕ)) (t : Text)
        → in_base64 c o ≡ some t
        → (b : List ℕ) × (o ≡ some b) × (t ≡ c.base64_encode b)
    in_base64-some none t h = cc
    in_base64-some (some b) t h = (b, refl, cc)

    identity_back :
        (rdns : List Rdn) (t : Text)
        → encode_identity c rdns ≡ some t
        → decode_identity c t ≡ decoded rdns
    unfolding encode_identity decode_identity
    identity_back [] t h =
        let blank : [] ≡ t = cc in
        subst (λ (s : Text). decode_identity c s ≡ decoded []) blank blank_identity
    identity_back (r ∷ rdns) t h =
        let (b, e, w) = in_base64-some (c.marshal_rdns (r ∷ rdns)) t h in
        let written = l.rdns_write (r ∷ rdns) b e in
        rw w (rw (not_blank b written, read_back b written, l.rdns_read (r ∷ rdns) b e))

    loose_back : (cert : Cert) → parse_certificate_loose c (c.raw cert) ≡ some cert
    unfolding parse_certificate_loose
    loose_back cert =
        ap (λ o. c.parse_certificate (value_or_all c (c.raw cert) o)) (l.raw_is_value cert)
        ∙ l.raw_reads cert

    certificate_back : (o : Option Cert) → decode_certificate c (encode_certificate c o) ≡ decoded o
    unfolding encode_certificate decode_certificate same
    certificate_back none = refl
    certificate_back (some cert) = rw (
      not_blank (c.raw cert) (l.raw_writes cert),
      read_back (c.raw cert) (l.raw_writes cert),
      loose_back cert,
    )

    key_back :
        (e : CsrError) (o : Option Key) (t : Text)
        → encode_key c o ≡ some t
        → decode_key c e t ≡ decoded o
    unfolding encode_key decode_key
    key_back e none t h =
        let blank : [] ≡ t = cc in
        subst (λ (s : Text). decode_key c e s ≡ decoded none) blank (blank_key e)
    key_back e (some key) t h =
        let (b, k, w) = in_base64-some (c.encode_public key) t h in
        let written = l.key_writes key b k in
        rw w (rw (not_blank b written, read_back b written, l.key_reads key b k))

    encoded :
        (sr : NamedRequest Rdn Cert Key) (bytes : List ℕ) (oi oe oa od : Option Text)
        → encode_keys c sr oi oe oa od ≡ some bytes
        → (i e a d : Text) × (oi ≡ some i)
          × (oe ≡ some e)
          × (oa ≡ some a)
          × (od ≡ some d)
          × (bytes ≡ c.json_marshal (wire_of c sr i e a d))
    encoded sr bytes (some i) (some e) (some a) (some d) h =
        (i, e, a, d, refl, refl, refl, refl, cc)
    encoded sr bytes none _ _ _ h = cc
    encoded sr bytes (some i) none _ _ h = cc
    encoded sr bytes (some i) (some e) none _ h = cc
    encoded sr bytes (some i) (some e) (some a) none h = cc

    -- Where the decoders of the packages read what their encoders write, and no encoder writes
    -- nothing, a signing request that MarshalBinary encodes is what UnmarshalBinary makes of the
    -- bytes.
    pub unmarshal-marshal_binary :
        (sr : NamedRequest Rdn Cert Key) (bytes : List ℕ)
        → marshal_binary c sr ≡ some bytes
        → unmarshal_binary c bytes ≡ decoded sr
    unfolding marshal_binary unmarshal_binary
    unmarshal-marshal_binary sr bytes h =
        let (i, e, a, d, oi, oe, oa, od, w) =
          encoded sr bytes (encode_identity c sr.platform_identity)
            (encode_key c sr.request.endorsement_key) (encode_key c sr.request.attestation_key)
            (encode_key c sr.request.devid_key) h in
        rw w (
          rw (
            l.json_reads (wire_of c sr i e a d),
            identity_back sr.platform_identity i oi,
            certificate_back sr.request.endorsement_certificate,
            key_back bad_ek sr.request.endorsement_key e oe,
            key_back bad_ak sr.request.attestation_key a oa,
            key_back bad_devid sr.request.devid_key d od,
            bytes_back sr.request.certify_data,
            bytes_back sr.request.certify_signature,
          ))
