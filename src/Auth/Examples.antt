-- ===== src/Auth/Examples.antt =====
-- The theorems about credentials at concrete inputs.
use enclave_station.Base.{
  ℕ, zero, suc, ◌+◌, ◌*◌, ◌/◌, ◌≡◌, refl, true, none, some, [], ◌∷◌, ◌++◌, Text, codes, length,
  arith,
}
use enclave_station.Auth.Base32.{base32_encode, base32_decode, decode_loop, base32_value}
use enclave_station.Auth.Base32.RoundTrip.{IsBytes, base32_decode-base32_encode}
use enclave_station.Auth.Totp.{
  zeros, compute_code, verify_code, verify_loop, dynamic_truncate, big_endian, six_wide, decimal,
}
use enclave_station.Auth.Totp.Replay.{FirstMatch, verify_code-FirstMatch}
use enclave_station.Auth.Base64url.{
  base64url_encode, base64url_decode, b64_char_value, char_value, url_char, base64_decode_loop,
  base64_encode_loop, base64_drain,
}
use enclave_station.Auth.Base64url.RoundTrip.{base64url_decode-base64url_encode}
use enclave_station.Auth.Cbor.{
  parse_cose_ec_key, cose_loop, cose_entry, read_int, read_bstr, read_head, read_u8, read_bytes,
  read_additional, read_map_header,
}
use enclave_station.Auth.WebAuthn.{
  parse_attested, parse_auth_data, Libraries, ParsedCredential, origin_ok, before, starts_with,
  verify_client_data, verify_es256, verify_registration, verify_authentication,
}
use enclave_station.Auth.WebAuthn.Layout.{parse_auth_data-layout}
use enclave_station.Auth.WebAuthn.Laws.{verify_authentication-replay}

abbrev blanks : ℕ → Text
blanks zero = []
blanks (suc n) = 0 ∷ blanks n

abbrev sevens : ℕ → Text
sevens zero = []
sevens (suc n) = 7 ∷ sevens n

abbrev word : Text
word = codes "hello"

word-IsBytes : IsBytes word
word-IsBytes = (omega arith, (omega arith, (omega arith, (omega arith, (omega arith, tt)))))

base32_decode-base32_encode_example : base32_decode (base32_encode word) ≡ word
base32_decode-base32_encode_example = base32_decode-base32_encode word word-IsBytes

-- A digest of twenty bytes, all the same.
abbrev digest : Text → Text → Text
digest key message = zeros 20

length-digest : (key message : Text) → length (digest key message) ≡ 20
length-digest key message = refl

verify_code-FirstMatch_example :
    FirstMatch digest
      (codes "MFRGG")
      (codes "123456")
      (some 9)
      (300 / 30)
      1
      0
      (2 * 1 + 1)
      (verify_code digest (codes "MFRGG") (codes "123456") (some 9) 1 300)
verify_code-FirstMatch_example =
    verify_code-FirstMatch digest (codes "MFRGG") (codes "123456") (some 9) 1 300

accepted_at_ten : verify_code digest (codes "AAAA") (codes "464432") (some 9) 1 300 ≡ some 10
unfolding verify_code verify_loop compute_code dynamic_truncate big_endian six_wide decimal
    base32_decode decode_loop base32_value
accepted_at_ten = refl

base64url_decode-base64url_encode_example : base64url_decode (base64url_encode word) ≡ word
base64url_decode-base64url_encode_example = base64url_decode-base64url_encode word word-IsBytes

-- The data of an authenticator with a hash of zeros, the user present, and a count of 5.
abbrev assertion : Text
assertion = blanks 32 ++ 1 ∷ 0 ∷ 0 ∷ 0 ∷ 5 ∷ []

-- A key of which all bytes are 7, its id 1, 2, 3, and a count of 5.
abbrev attestation_data : Text
attestation_data =
    blanks 32
    ++ (65 ∷ 0 ∷ 0 ∷ 0 ∷ 5 ∷ [])
    ++ blanks 16
    ++ (0 ∷ 3 ∷ 1 ∷ 2 ∷ 3 ∷ [])
    ++ (165 ∷ 1 ∷ 2 ∷ 3 ∷ 38 ∷ 32 ∷ 1 ∷ 33 ∷ 88 ∷ 32 ∷ [])
    ++ sevens 32
    ++ (34 ∷ 88 ∷ 32 ∷ [])
    ++ sevens 32

abbrev libraries : Text → Libraries
libraries kind = record {
  parse_client =
      λ t. some (record { kind = kind; challenge = codes "C"; origin = codes "https://a" });
  auth_data_of = λ t. some attestation_data;
  sha256 = λ t. blanks 32;
  ecdsa = λ key signed signature. true;
}

ceremonies : Unit {0}
unfolding verify_authentication verify_registration base64url_decode base64url_encode
    parse_auth_data parse_attested parse_cose_ec_key cose_loop cose_entry read_int read_bstr
    read_head read_u8 read_bytes read_additional read_map_header origin_ok before starts_with
    verify_es256 verify_client_data b64_char_value char_value url_char base64_decode_loop
    base64_encode_loop base64_drain
ceremonies = tt

authenticated :
    verify_authentication
      (libraries (codes "webauthn.get"))
      (base64url_encode assertion)
      (codes "AAAA")
      (codes "AAAA")
      (sevens 64)
      4
      (codes "C")
      (codes "https://a")
      (codes "a")
    ≡ some 5
unfolding ceremonies
authenticated = refl

-- The same data with other client data and another signature, once the count is stored.
verify_authentication-replay_example :
    verify_authentication
      (libraries (codes "webauthn.get"))
      (base64url_encode assertion)
      (codes "BBBB")
      (codes "BBBB")
      (sevens 64)
      5
      (codes "C")
      (codes "https://a")
      (codes "a")
    ≡ none
verify_authentication-replay_example =
    verify_authentication-replay (libraries (codes "webauthn.get")) (base64url_encode assertion)
      (codes "AAAA") (codes "AAAA") (sevens 64) 4 (codes "C") (codes "https://a") (codes "a") 5
      authenticated (omega arith) (codes "BBBB") (codes "BBBB") (sevens 64) (codes "C")
      (codes "https://a") (codes "a")

abbrev credential : ParsedCredential
credential = record { credential_id = codes "AQID"; public_key = sevens 64; sign_count = 5 }

registered :
    verify_registration
      (libraries (codes "webauthn.create"))
      (codes "AAAA")
      (codes "AAAA")
      (codes "C")
      (codes "https://a")
      (codes "a")
    ≡ some credential
unfolding ceremonies
registered = refl

parse_auth_data-layout_example :
    parse_auth_data (blanks 32 ++ (1 ∷ (big_endian 4 5 ++ [])))
    ≡ some (record { rp_id_hash = blanks 32; flags = 1; sign_count = 5; attested = none })
parse_auth_data-layout_example = parse_auth_data-layout (blanks 32) [] 1 5 refl refl (omega arith)
