-- ===== src/Auth/WebAuthn/Laws.antt =====
-- The checks of the two ceremonies of backend/src/auth/webauthn.cpp.
use enclave_station.Base.{
  ℕ, ◌%◌, ◌<◌, ◌≡◌, refl, ap, ◌⊎◌, Bool, true, false, not, ◌&&◌, ◌||◌, Option, none, some, ◌++◌,
  if◌then◌else◌, nat_keys, text_keys, ltb, leb, is_nil, Text, codes, arith, text_eqb_iff,
  Option-cases, inl, inr, sym, ◌∙◌,
}
use enclave_station.Auth.Base64url.{base64url_decode}
use enclave_station.Auth.Cbor.{and_then}
use enclave_station.Auth.WebAuthn.{
  Attested, AuthDataParsed, parse_auth_data, origin_ok, ClientData, Libraries, client_ok,
  ParsedCredential, credential_of, present_at, verify_client_data, verify_es256,
  verify_registration, verify_authentication,
}

abbrev or_zero : Option ℕ → ℕ
or_zero none = 0
or_zero (some n) = n

-- A step of a chain that succeeds did so, and the rest on its result.
and_then-some :
    {A B : Type 0} (o : Option A) (f : A → Option B) (b : B)
    → and_then o f ≡ some b
    → (a : A) × (o ≡ some a) × (f a ≡ some b)
and_then-some none f b h = ground (arith, h)
and_then-some (some a) f b h = (a, refl, h)

unless-some :
    {B : Type 0} (c d : Bool) (o : Option B) (b : B)
    → (if c then none else if d then none else o) ≡ some b
    → (c ≡ false) × (d ≡ false) × (o ≡ some b)
unless-some true d o b h = ground (arith, h)
unless-some false true o b h = ground (arith, h)
unless-some false false o b h = (refl, refl, h)

-- The tests on the data of an authentication.
passes :
    (a b c : Bool) (n count : ℕ)
    → (if not a then none else if b then none else if c then none else some n) ≡ some count
    → (a ≡ true) × (b ≡ false) × (c ≡ false) × (n ≡ count)
passes false b c n count h = ground (arith, h)
passes true true c n count h = ground (arith, h)
passes true false true n count h = ground (arith, h)
passes true false false n count h = (refl, refl, refl, ap (λ o. or_zero o) h)

-- The client's data names the ceremony, the challenge and an origin that is allowed.
abbrev pub ClientAgrees : Libraries → Text → Text → Text → Text → Type 0
ClientAgrees lib text kind challenge origin =
    (c : ClientData) × (lib.parse_client text ≡ some c)
    × (c.kind ≡ kind)
    × (c.challenge ≡ challenge)
    × (origin_ok c.origin origin ≡ true)

client_ok-ClientAgrees :
    (lib : Libraries) (text kind challenge origin : Text) (o : Option ClientData)
    → lib.parse_client text ≡ o
    → client_ok o kind challenge origin ≡ true
    → ClientAgrees lib text kind challenge origin
client_ok-ClientAgrees lib text kind challenge origin none e h = ground (arith, h)
client_ok-ClientAgrees lib text kind challenge origin (some c) e h = (
  c,
  e,
  (text_eqb_iff c.kind kind).0 (ground (arith, h)),
  (text_eqb_iff c.challenge challenge).0 (ground (arith, h)),
  ground (arith, h),
)

abbrev count_in : Option AuthDataParsed → ℕ
count_in none = 0
count_in (some d) = d.sign_count

-- The relying party is the right one, and the user was present.
abbrev pub Present : Text → AuthDataParsed → Type 0
Present hash d = (d.rp_id_hash ≡ hash) × (d.flags % 2 ≡ 1)

present_at-Present : (hash : Text) (d : AuthDataParsed) → present_at hash d ≡ true → Present hash d
present_at-Present hash d h = (
  (text_eqb_iff d.rp_id_hash hash).0 (ground (arith, h)),
  (nat_keys.same_iff (d.flags % 2) 1).0 (ground (arith, h)),
)

later_or_zero :
    (n stored count : ℕ)
    → (ltb 0 n || ltb 0 stored) && leb n stored ≡ false
    → n ≡ count
    → (stored < count) ⊎ ((stored ≡ 0) × (count ≡ 0))
later_or_zero n stored count h e = ground (arith, h, e)

-- An authentication that succeeds was for this ceremony, challenge, origin and relying party, with
-- the user present; the stored key verifies the signature over the authenticator's data and the hash of
-- the client's; and the count that is returned is the authenticator's, above the stored one unless both
-- are zero.
pub verify_authentication-some :
    (lib : Libraries) (auth_data client signature key : Text) (stored : ℕ)
    (challenge origin rp_id : Text) (count : ℕ)
    → verify_authentication lib auth_data client signature key stored challenge origin rp_id
      ≡ some count
    → (d : AuthDataParsed) × (parse_auth_data (base64url_decode auth_data) ≡ some d)
      × ClientAgrees lib (base64url_decode client) (codes "webauthn.get") challenge origin
      × Present (lib.sha256 rp_id) d
      × (verify_es256 lib key
            (base64url_decode auth_data ++ lib.sha256 (base64url_decode client))
            (base64url_decode signature)
          ≡ true)
      × (d.sign_count ≡ count)
      × ((stored < count) ⊎ ((stored ≡ 0) × (count ≡ 0)))
unfolding verify_authentication verify_client_data
verify_authentication-some lib auth_data client signature key stored challenge origin rp_id count
      h =
    let bytes = base64url_decode auth_data in
    let text = base64url_decode client in
    let proof = base64url_decode signature in
    let agrees = verify_client_data lib text (codes "webauthn.get") challenge origin in
    let signed = verify_es256 lib key (bytes ++ lib.sha256 text) proof in
    let (refused, empty, h1) = unless-some (is_nil text || not agrees) (is_nil bytes) _ count h in
    let (d, parsed, h2) = and_then-some (parse_auth_data bytes) _ count h1 in
    let (present, stale, unsigned, same) =
      passes (present_at (lib.sha256 rp_id) d)
        ((ltb 0 d.sign_count || ltb 0 stored) && leb d.sign_count stored)
        (is_nil proof || not signed) d.sign_count count h2 in
    (
      d,
      parsed,
      client_ok-ClientAgrees lib text (codes "webauthn.get") challenge origin
          (lib.parse_client text) refl (ground (arith, refused)),
      present_at-Present (lib.sha256 rp_id) d present,
      ground (arith, unsigned),
      same,
      later_or_zero d.sign_count stored count stale same,
    )

above_both : (n m : ℕ) → 0 < n → (n < m) ⊎ ((n ≡ 0) × (m ≡ 0)) → m ≡ n → ⊥
above_both n m p h e = ground (arith, h, p, e)

-- Once an authentication has succeeded with a count that is not zero, and that count is stored, the
-- same authenticator data is refused, for whatever client data, signature, key, challenge and origin.
pub verify_authentication-replay :
    (lib : Libraries) (auth_data client signature key : Text) (stored : ℕ)
    (challenge origin rp_id : Text) (count : ℕ)
    → verify_authentication lib auth_data client signature key stored challenge origin rp_id
      ≡ some count
    → 0 < count
    → (client' signature' key' challenge' origin' rp_id' : Text)
    → verify_authentication lib auth_data client' signature' key' count challenge' origin' rp_id'
      ≡ none
verify_authentication-replay lib auth_data client signature key stored challenge origin rp_id count
      h positive client' signature' key' challenge' origin' rp_id' =
    elim (Option-cases (
      verify_authentication lib auth_data client' signature' key' count challenge' origin'
        rp_id')) [
          | inl refused ↦ refused
          | inr (again, accepted) ↦
              let (d, parsed, _, _, _, counted, _) =
                verify_authentication-some lib auth_data client signature key stored challenge
                  origin rp_id count h in
              let (e, parsed', _, _, _, counted', above) =
                verify_authentication-some lib auth_data client' signature' key' count challenge'
                  origin' rp_id' again accepted in
              absurd (
                above_both count again positive above
                  (sym counted' ∙ ap count_in (sym parsed' ∙ parsed) ∙ counted))
        ]

some-injective : (a b : ParsedCredential) → some a ≡ some b → a ≡ b
some-injective a b h = ap (λ o. elim o [ none ↦ a | some c ↦ c ]) h

-- The tests on the data of a registration.
admitted :
    (a : Bool) (n : ℕ) (o : Option Attested) (cred : ParsedCredential)
    → (if a then credential_of n o else none) ≡ some cred
    → (a ≡ true)
      × ((t : Attested) × (o ≡ some t)
          × (record {
            credential_id = t.credential_id_b64url;
            public_key = t.public_key_xy;
            sign_count = n;
          }
              ≡ cred))
admitted false n o cred h = ground (arith, h)
admitted true n none cred h = ground (arith, h)
admitted true n (some t) cred h = (refl, (t, refl, some-injective _ cred h))

-- A registration that succeeds was for this ceremony, challenge, origin and relying party, with the
-- user present, and the credential that is returned is the one attested in the authenticator's data.
pub verify_registration-some :
    (lib : Libraries) (attestation client challenge origin rp_id : Text) (cred : ParsedCredential)
    → verify_registration lib attestation client challenge origin rp_id ≡ some cred
    → (bytes : Text) × (d : AuthDataParsed) × (t : Attested) × (lib.auth_data_of
          (base64url_decode attestation)
        ≡ some bytes)
      × (parse_auth_data bytes ≡ some d)
      × ClientAgrees lib (base64url_decode client) (codes "webauthn.create") challenge origin
      × Present (lib.sha256 rp_id) d
      × (d.attested ≡ some t)
      × (record {
        credential_id = t.credential_id_b64url;
        public_key = t.public_key_xy;
        sign_count = d.sign_count;
      }
          ≡ cred)
unfolding verify_registration verify_client_data
verify_registration-some lib attestation client challenge origin rp_id cred h =
    let object = base64url_decode attestation in
    let text = base64url_decode client in
    let agrees = verify_client_data lib text (codes "webauthn.create") challenge origin in
    let (refused, empty, h1) = unless-some (is_nil text || not agrees) (is_nil object) _ cred h in
    let (bytes, found, h2) = and_then-some (lib.auth_data_of object) _ cred h1 in
    let (d, parsed, h3) = and_then-some (parse_auth_data bytes) _ cred h2 in
    let (present, (t, attested, same)) =
      admitted (present_at (lib.sha256 rp_id) d) d.sign_count d.attested cred h3 in
    (
      bytes,
      d,
      t,
      found,
      parsed,
      client_ok-ClientAgrees lib text (codes "webauthn.create") challenge origin
          (lib.parse_client text) refl (ground (arith, refused)),
      present_at-Present (lib.sha256 rp_id) d present,
      attested,
      same,
    )
