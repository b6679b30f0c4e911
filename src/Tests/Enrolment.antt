-- ===== src/Tests/Enrolment.antt =====
-- One guest, one TPM and the enrolment of internal/devid.
use vtpm_mds.Prelude.{
  ℕ, ◌+◌, ◌≡◌, ◌↔◌, ◌==◌, not, refl, true, false, if◌then◌else◌, Option, some, none, [], ◌∷◌, arith,
  leb, Text, codes, same, equal_fold, to_lower, trim_space, has_prefix, contains_rune, is_space,
  drop_spaces,
}
use vtpm_mds.Dict
use vtpm_mds.Dict.{Dict, IsKeyed, keep_values}
use vtpm_mds.Devid.Sessions.{
  SessionStore, new_session_store, new_session, put_session, take_session, purge,
}
use vtpm_mds.Devid.Sessions.Once.{live, take_session_once, put_session_live}
use vtpm_mds.Devid.Files.{file, Dir, listable, absent, unset, read_file, list_dir}
use vtpm_mds.Devid.Pins.{
  ok, read_stored_pin, all_hex, is_hex, is_empty, validate_vmid, create_stored_pin_exclusive,
}
use vtpm_mds.Devid.Pins.Scan.{
  PinConfig, PinCalls, ensure_pin_before_issue, enforce_own_pin, read_cluster_pin,
  pinned_to_another_vm, store_scan, store_loop, skips, cluster_pins_matching, first_existing,
  inventory_loop,
}
use vtpm_mds.Devid.Pins.Tofu.{no_step, stepped, ensure_pin_keeps, first_use}
use vtpm_mds.Devid.Pins.Apart.{IsApart, ensure_pin-IsApart}
use vtpm_mds.Devid.Verify.{KeyProp, SigningRequest, Tpm}
use vtpm_mds.Devid.Enroll.{Caller, Enroller, EnrollState, World}
use vtpm_mds.Devid.Enroll.Http.{StartRequest, FinishRequest, handle_start}

-- A certificate is a number, the EK certificate 7 that of key 1, and the key of an issued certificate
-- is its number.
abbrev request : SigningRequest ℕ ℕ
request = record {
  endorsement_certificate = some 7;
  endorsement_key = some 1;
  attestation_key = some 2;
  devid_key = some 3;
  certify_data = 5 ∷ [];
  certify_signature = 6 ∷ [];
}

abbrev key_prop : ℕ → KeyProp
key_prop k = record { decrypt = false; restricted = not (k == 3); sign = true; fixed_tpm = true }

abbrev tpm : Tpm ℕ ℕ
tpm = record {
  rsa_verifies = λ k bytes sig. true;
  properties = key_prop;
  certifies = λ bytes k. true;
  chain_verifies = λ c. true;
  certificate_key_is = λ c k. true;
  raw = λ c. c ∷ [];
  sha256_hex = λ bytes. codes "ab12";
  name = λ k. some (k ∷ []);
  make_credential = λ ek ak nonce. some (8 ∷ [], 9 ∷ []);
  has_san = λ sr. true;
  sign_template = λ t. some t.public_key;
  decode_header = λ v. some 7;
  unmarshal = λ bytes. some request;
}

abbrev pin_config : PinConfig
pin_config = record {
  uses_store = true;
  cluster_pin_dir = none;
  require_cluster_pin = false;
  inventory_pins = none;
  guests = unset;
  guests_later = unset;
}

abbrev enroller : Enroller
enroller = record { has_ca = true; lifetime = 1000; pins = pin_config }

abbrev calls : PinCalls
calls = record { creates = true; removes = true; recreates = true }

abbrev world : ℕ → World
world now = record {
  now = now;
  random_id = some (codes "5e55");
  random_nonce = 1 ∷ 2 ∷ [];
  pin_calls = calls;
}

abbrev caller : Option Caller
caller = some (record { vmid = codes "101"; ek_sha256 = [] })

abbrev pin_dir : Dir
pin_dir = listable ((codes "102", file (codes "cd34")) ∷ [])

abbrev state0 : EnrollState ℕ ℕ
state0 = record { store = new_session_store (SigningRequest ℕ ℕ) 50; pin_dir = pin_dir }

abbrev start_body : Option StartRequest
start_body = some (record { request = some (1 ∷ []); signature = some (2 ∷ []) })

abbrev finish_body : Option FinishRequest
finish_body = some (record { session_id = codes "5e55"; challenge_response = some (1 ∷ 2 ∷ []) })

abbrev state1 : EnrollState ℕ ℕ
state1 = (handle_start tpm enroller state0 (world 10) caller (codes "x") start_body).0

-- The pins of two guests.
abbrev red_fp : Text
red_fp = codes "ab12"

abbrev pinned : Dir
pinned = (ensure_pin_before_issue pin_config calls absent (codes "101") red_fp).0

absent_blank : (j s : Text) → read_stored_pin absent j ≡ ok s → is_empty s ≡ true
unfolding read_stored_pin read_file
absent_blank j s h = ground (arith, h)

apart0 : IsApart pin_config absent
apart0 j k fp (s, read, holds, vm, exists) other =
    absurd (ground (arith, absent_blank j s read, holds))

red_is_hex : all_hex red_fp ≡ true
unfolding all_hex is_hex
red_is_hex = refl

blue_is_hex : all_hex (codes "cd34") ≡ true
unfolding all_hex is_hex
blue_is_hex = refl

ensure_pin-IsApart_example :
    IsApart pin_config
      (ensure_pin_before_issue pin_config calls pinned (codes "102") (codes "cd34")).0
ensure_pin-IsApart_example =
    ensure_pin-IsApart pin_config calls pinned (codes "102") (codes "cd34") blue_is_hex
      (ensure_pin-IsApart pin_config calls absent (codes "101") red_fp red_is_hex apart0)

blank : read_stored_pin absent (codes "101") ≡ ok []
unfolding read_stored_pin read_file validate_vmid contains_rune has_prefix same
blank = refl

pins_red : (ensure_pin_before_issue pin_config calls absent (codes "101") red_fp).1 ≡ ok tt
unfolding ensure_pin_before_issue read_cluster_pin pinned_to_another_vm store_scan store_loop skips
    cluster_pins_matching first_existing inventory_loop read_stored_pin create_stored_pin_exclusive
    validate_vmid read_file list_dir contains_rune has_prefix same
pins_red = refl

-- The directory after a pin step of another VM.
abbrev later_pinned : Dir
later_pinned = (ensure_pin_before_issue pin_config calls pinned (codes "102") (codes "cd34")).0

other_is_hex : all_hex (codes "cd34") ≡ true
unfolding all_hex
other_is_hex = refl

first_use_example :
    (enforce_own_pin pin_config later_pinned (codes "101") (codes "AB12") ≡ ok tt)
    ↔ (equal_fold red_fp (codes "AB12") ≡ true)
first_use_example =
    first_use pin_config calls absent later_pinned (codes "101") red_fp [] (codes "AB12") refl blank
      red_is_hex refl pins_red
      (stepped no_step pin_config calls (codes "102") (codes "cd34") other_is_hex refl)

holds_red : read_stored_pin pinned (codes "101") ≡ ok red_fp
unfolding ensure_pin_before_issue read_cluster_pin pinned_to_another_vm store_scan store_loop skips
    cluster_pins_matching first_existing inventory_loop read_stored_pin create_stored_pin_exclusive
    validate_vmid read_file list_dir contains_rune has_prefix same to_lower trim_space drop_spaces
    is_space Dict.get
holds_red = refl

ensure_pin_keeps_example :
    read_stored_pin
      (ensure_pin_before_issue pin_config calls pinned (codes "102") (codes "cd34")).0
      (codes "101")
    ≡ ok red_fp
ensure_pin_keeps_example =
    ensure_pin_keeps pin_config calls pinned (codes "102") (codes "cd34") (codes "101") red_fp
      holds_red refl

-- The sessions.
abbrev sessions1 : SessionStore ℕ
sessions1 =
    (put_session (new_session_store ℕ 50) (some (codes "5e55")) (1 ∷ []) 4 (codes "101") red_fp
      10).0

sessions1-IsKeyed : IsKeyed sessions1.sessions
unfolding put_session purge keep_values Dict.put Dict.get
sessions1-IsKeyed = (refl, tt)

take_session_once_example :
    ((take_session sessions1 (codes "5e55") 20).1 ≡ live sessions1 20 (codes "5e55"))
    × (live (take_session sessions1 (codes "5e55") 20).0 30 (codes "5e55")
        ≡ (if same (codes "5e55") (codes "5e55") then none else live sessions1 30 (codes "5e55")))
take_session_once_example =
    take_session_once sessions1 (codes "5e55") (codes "5e55") 20 30 sessions1-IsKeyed (omega arith)

put_session_live_example :
    live
      (put_session sessions1 (some (codes "77aa")) (2 ∷ []) 4 (codes "102") (codes "cd34") 20).0
      65
      (codes "77aa")
    ≡ (if same (codes "77aa") (codes "77aa")
        then if leb 65 (20 + sessions1.ttl)
          then some (new_session (codes "77aa") (2 ∷ []) 4 (codes "102") (codes "cd34") 20)
          else none
        else live sessions1 65 (codes "77aa"))
put_session_live_example =
    put_session_live sessions1 (codes "77aa") (codes "77aa") (2 ∷ []) 4 (codes "102") (codes "cd34")
      20 65 sessions1-IsKeyed (omega arith)
