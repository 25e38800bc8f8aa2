-- ===== src/Auth/WebAuthn.antt =====
-- `parse_auth_data`, `verify_client_data`, `verify_registration` and `verify_authentication` of
-- backend/src/auth/webauthn.cpp. An exception is `none`. The JSON and CBOR of nlohmann and the SHA-256
-- and ECDSA of OpenSSL are parameters.
pub mod Laws
pub mod Layout
use enclave_station.Base.{
  ℕ, zero, suc, ◌+◌, ◌-◌, ◌*◌, ◌/◌, ◌%◌, ◌^◌, Bool, true, false, not, ◌&&◌, ◌||◌, Option, none,
  some, List, [], ◌∷◌, ◌++◌, if◌then◌else◌, ◌==◌, nat_keys, text_keys, ltb, leb, length, take, drop,
  get_or, is_nil, Text, codes,
}
use enclave_station.Auth.Base64url.{base64url_encode, base64url_decode}
use enclave_station.Auth.Cbor.{
  ℤ, pos, negsuc, and_then, CoseKeyData, parse_cose_ec_key, number_from,
}

abbrev pub is_pos : ℤ → ℕ → Bool
is_pos (pos m) n = m == n
is_pos (negsuc m) n = false

abbrev pub is_negsuc : ℤ → ℕ → Bool
is_negsuc (pos m) n = false
is_negsuc (negsuc m) n = m == n

-- The credential of a registration: its id, and the coordinates of its key.
pub record Attested : Type 0 where
  pub credential_id_b64url : Text
  pub public_key_xy : Text

pub record AuthDataParsed : Type 0 where
  pub rp_id_hash : Text
  pub flags : ℕ
  pub sign_count : ℕ
  pub attested : Option Attested

abbrev pub is_es256_p256 : CoseKeyData → Bool
is_es256_p256 key =
    (is_pos key.kty 2 && is_negsuc key.alg 6)
    && (is_pos key.crv 1 && ((length key.x == 32) && (length key.y == 32)))

-- Behind the AT flag: the id's length at 53, the id at 55, and the key to the end.
unfoldable pub parse_attested : Text → Option Attested
parse_attested bytes =
    let id_length = get_or bytes 53 0 * 2 ^ 8 + get_or bytes 54 0 in
    if ltb (length bytes) 55
    then none
    else if ltb (length bytes) (55 + id_length)
    then none
    else and_then (parse_cose_ec_key (drop (55 + id_length) bytes)) λ key.
      if is_es256_p256 key
      then some (record {
        credential_id_b64url = base64url_encode (take id_length (drop 55 bytes));
        public_key_xy = key.x ++ key.y;
      })
      else none

unfoldable pub parse_auth_data : Text → Option AuthDataParsed
unfolding parse_attested
parse_auth_data bytes =
    let flags = get_or bytes 32 0 in
    let parsed : Option Attested → AuthDataParsed = λ a. record {
      rp_id_hash = take 32 bytes;
      flags = flags;
      sign_count = number_from 0 (take 4 (drop 33 bytes));
      attested = a;
    } in
    if ltb (length bytes) 37
    then none
    else if flags / 64 % 2 == 1
    then and_then (parse_attested bytes) (λ a. some (parsed (some a)))
    else some (parsed none)

-- `s.rfind(prefix, 0) == 0`
unfoldable pub starts_with : Text → Text → Bool
starts_with [] s = true
starts_with (k ∷ prefix) [] = false
starts_with (k ∷ prefix) (c ∷ s) = (c == k) && starts_with prefix s

-- What stands before the first occurrence, where there is one.
unfoldable pub before : Text → Text → Option Text
unfolding starts_with
before sub [] = if starts_with sub [] then some [] else none
before sub (c ∷ s) =
    let rest = before sub s in
    if starts_with sub (c ∷ s) then some [] else and_then rest λ r. some (c ∷ r)

abbrev pub is_some : Option Text → Bool
is_some none = false
is_some (some t) = true

abbrev pub same_text : Option Text → Option Text → Bool
same_text none none = true
same_text none (some b) = false
same_text (some a) none = false
same_text (some a) (some b) = a == b

-- The origins are equal, or both local with one scheme.
unfoldable pub origin_ok : Text → Text → Bool
unfolding before
origin_ok origin expected =
    (origin == expected)
    || ((is_some (before (codes "://localhost") origin)
          && is_some (before (codes "://localhost") expected))
        && same_text (before (codes "://") origin) (before (codes "://") expected))

pub record ClientData : Type 0 where
  pub kind : Text
  pub challenge : Text
  pub origin : Text

-- The libraries: the three strings of the client's JSON, the binary `authData` of an attestation
-- object, SHA-256, and the ECDSA test of a key, the data and a signature.
pub record Libraries : Type 0 where
  pub parse_client : Text → Option ClientData
  pub auth_data_of : Text → Option Text
  pub sha256 : Text → Text
  pub ecdsa : Text → Text → Text → Bool

abbrev pub client_ok : Option ClientData → Text → Text → Text → Bool
client_ok none kind challenge origin = false
client_ok (some c) kind challenge origin =
    (c.kind == kind) && ((c.challenge == challenge) && origin_ok c.origin origin)

pub record ParsedCredential : Type 0 where
  pub credential_id : Text
  pub public_key : Text
  pub sign_count : ℕ

abbrev pub credential_of : ℕ → Option Attested → Option ParsedCredential
credential_of count none = none
credential_of count (some a) = some (record {
  credential_id = a.credential_id_b64url;
  public_key = a.public_key_xy;
  sign_count = count;
})

-- The checks that both ceremonies make on the parsed data.
abbrev pub present_at : Text → AuthDataParsed → Bool
present_at hash d = (d.rp_id_hash == hash) && (d.flags % 2 == 1)

module _ (lib : Libraries) where
  open lib use {parse_client, auth_data_of, sha256, ecdsa}

  unfoldable pub verify_client_data : Text → Text → Text → Text → Bool
  unfolding origin_ok
  verify_client_data text kind challenge origin =
      client_ok (parse_client text) kind challenge origin

  unfoldable pub verify_es256 : Text → Text → Text → Bool
  verify_es256 key signed signature = (length key == 64) && ecdsa key signed signature

  unfoldable pub verify_registration :
      (attestation client challenge origin rp_id : Text) → Option ParsedCredential
  unfolding verify_client_data parse_auth_data
  verify_registration attestation client challenge origin rp_id =
      let client_text = base64url_decode client in
      let object = base64url_decode attestation in
      if is_nil client_text
        || not (verify_client_data client_text (codes "webauthn.create") challenge origin)
      then none
      else if is_nil object
      then none
      else and_then (auth_data_of object) λ bytes.
        and_then (parse_auth_data bytes)
          λ d. if present_at (sha256 rp_id) d then credential_of d.sign_count d.attested else none

  unfoldable pub verify_authentication :
      (auth_data client signature key : Text) (stored : ℕ) (challenge origin rp_id : Text)
      → Option ℕ
  unfolding verify_client_data parse_auth_data verify_es256
  verify_authentication auth_data client signature key stored challenge origin rp_id =
      let client_text = base64url_decode client in
      let bytes = base64url_decode auth_data in
      let signed = bytes ++ sha256 client_text in
      let proof = base64url_decode signature in
      if is_nil client_text
        || not (verify_client_data client_text (codes "webauthn.get") challenge origin)
      then none
      else if is_nil bytes
      then none
      else and_then (parse_auth_data bytes) λ d.
        if not (present_at (sha256 rp_id) d)
        then none
        else if (ltb 0 d.sign_count || ltb 0 stored) && leb d.sign_count stored
        then none
        else if is_nil proof || not (verify_es256 key signed proof)
        then none
        else some d.sign_count
