-- ===== src/Tests/Csr.antt =====
-- A codec that meets what the packages document, and a request that goes through it.
use vtpm_mds.Prelude.{
  ℕ, ◌≡◌, ap, refl, Option, none, some, List, [], ◌∷◌, ◌++◌, length, take, drop, Text,
}
use vtpm_mds.Devid.Csr.{NamedRequest, Wire, Codec, decoded, marshal_binary, unmarshal_binary}
use vtpm_mds.Devid.Csr.Roundtrip.{IsLawful, unmarshal-marshal_binary}

-- A text behind its length.
abbrev framed : Text → List ℕ → List ℕ
framed t rest = length t ∷ t ++ rest

abbrev head : List ℕ → Text
head [] = []
head (n ∷ s) = take n s

abbrev tail : List ℕ → List ℕ
tail [] = []
tail (n ∷ s) = drop n s

take-append : (s t : Text) → take (length s) (s ++ t) ≡ s
take-append [] t = refl
take-append (x ∷ s) t = ap (◌∷◌ x) (take-append s t)

drop-append : (s t : Text) → drop (length s) (s ++ t) ≡ t
drop-append [] t = refl
drop-append (x ∷ s) t = drop-append s t

abbrev pack : Wire → List ℕ
pack w = framed w.platform_identity_b64 (
    framed w.endorsement_certificate_b64 (
      framed w.endorsement_key_b64 (
        framed w.attestation_key_b64 (
          framed w.devid_key_b64 (framed w.certify_data_b64 (framed w.certify_signature_b64 []))))))

abbrev unpack : List ℕ → Wire
unpack s =
    let s1 = tail s in
    let s2 = tail s1 in
    let s3 = tail s2 in
    let s4 = tail s3 in
    let s5 = tail s4 in
    let s6 = tail s5 in
    record {
      platform_identity_b64 = head s;
      endorsement_certificate_b64 = head s1;
      endorsement_key_b64 = head s2;
      attestation_key_b64 = head s3;
      devid_key_b64 = head s4;
      certify_data_b64 = head s5;
      certify_signature_b64 = head s6;
    }

unpack-pack : (w : Wire) → unpack (pack w) ≡ w
unpack-pack w = simp (take-append, drop-append)

abbrev first : List ℕ → Option ℕ
first [] = none
first (n ∷ s) = some n

-- Certificates, keys and names are numbers.
abbrev codec : Codec ℕ ℕ ℕ
codec = record {
  base64_encode = λ b. b;
  base64_decode = λ t. some t;
  json_marshal = pack;
  json_unmarshal = λ s. some (unpack s);
  marshal_rdns = λ rdns. some (48 ∷ rdns);
  unmarshal_rdns = λ s. some (drop 1 s, []);
  first_value = λ s. some s;
  raw = λ cert. cert ∷ [];
  parse_certificate = first;
  encode_public = λ key. some (key ∷ []);
  decode_public = first;
}

some-inj : {s t : List ℕ} → some s ≡ some t → t ≡ s
some-inj h = cc

lawful : IsLawful codec
lawful = record {
  base64_reads = λ b. refl;
  base64_writes = λ b h. h;
  json_reads = λ w. ap some (unpack-pack w);
  rdns_read = λ rdns b h. ap (λ s. some (drop 1 s, [])) (some-inj h);
  rdns_write = λ rdns b h e. cc;
  raw_is_value = λ cert. refl;
  raw_reads = λ cert. refl;
  raw_writes = λ cert e. cc;
  key_reads = λ key b h. ap first (some-inj h);
  key_writes = λ key b h e. cc;
}

abbrev request : NamedRequest ℕ ℕ ℕ
request = record {
  platform_identity = 1 ∷ [];
  request = record {
    endorsement_certificate = some 2;
    endorsement_key = some 3;
    attestation_key = some 4;
    devid_key = none;
    certify_data = 5 ∷ [];
    certify_signature = [];
  };
}

abbrev wire : List ℕ
wire = 2 ∷ 48 ∷ 1 ∷ 1 ∷ 2 ∷ 1 ∷ 3 ∷ 1 ∷ 4 ∷ 0 ∷ 1 ∷ 5 ∷ 0 ∷ []

marshals : marshal_binary codec request ≡ some wire
unfolding marshal_binary
marshals = refl

unmarshal-marshal_binary_example : unmarshal_binary codec wire ≡ decoded request
unmarshal-marshal_binary_example = unmarshal-marshal_binary codec lawful request wire marshals
