-- ===== src/Auth/WebAuthn/Layout.antt =====
-- The layout of the authenticator data that `parse_auth_data` of backend/src/auth/webauthn.cpp reads.
use enclave_station.Base.{
  ℕ, zero, suc, ◌/◌, ◌%◌, ◌^◌, ◌<◌, ◌≡◌, refl, ap, false, none, some, [], ◌∷◌, ◌++◌, nat_keys, ltb,
  length, length-append, take, drop, get_or, Text, arith,
}
use enclave_station.Auth.Totp.{big_endian}
use enclave_station.Auth.WebAuthn.{parse_auth_data}

get_or-at : (xs ys : Text) (y d n : ℕ) → length xs ≡ n → get_or (xs ++ y ∷ ys) n d ≡ y
get_or-at [] ys y d zero h = refl
get_or-at [] ys y d (suc n) h = ground (arith, h)
get_or-at (x ∷ xs) ys y d zero h = ground (arith, h)
get_or-at (x ∷ xs) ys y d (suc n) h = get_or-at xs ys y d n (omega (arith, h))

take-at : (xs ys : Text) (n : ℕ) → length xs ≡ n → take n (xs ++ ys) ≡ xs
take-at [] ys zero h = refl
take-at [] ys (suc n) h = ground (arith, h)
take-at (x ∷ xs) ys zero h = ground (arith, h)
take-at (x ∷ xs) ys (suc n) h = ap (◌∷◌ x) (take-at xs ys n (omega (arith, h)))

drop-at : (xs ys : Text) (y n : ℕ) → length xs ≡ n → drop (suc n) (xs ++ y ∷ ys) ≡ ys
drop-at [] ys y zero h = refl
drop-at [] ys y (suc n) h = ground (arith, h)
drop-at (x ∷ xs) ys y zero h = ground (arith, h)
drop-at (x ∷ xs) ys y (suc n) h = drop-at xs ys y n (omega (arith, h))

-- The data of an authenticator that attests no credential, laid out as the relying party's hash, the
-- flags, and the sign count with its high byte first, is parsed to just these, whatever follows.
pub parse_auth_data-layout :
    (hash extra : Text) (flags count : ℕ)
    → length hash ≡ 32
    → flags / 64 % 2 ≡ 0
    → count < 2 ^ 32
    → parse_auth_data (hash ++ (flags ∷ (big_endian 4 count ++ extra)))
      ≡ some (record { rp_id_hash = hash; flags = flags; sign_count = count; attested = none })
unfolding parse_auth_data big_endian
parse_auth_data-layout hash extra flags count h f c =
    let tail = big_endian 4 count ++ extra in
    let long : ltb (length (hash ++ flags ∷ tail)) 37 ≡ false =
      ground (arith, h, length-append hash (flags ∷ tail)) in
    rw
      (
        parse_auth_data,
        get_or-at hash tail flags 0 32 h,
        take-at hash (flags ∷ tail) 32 h,
        drop-at hash tail flags 32 h,
        long,
        f,
      )
      (ap (λ n. some (record { rp_id_hash = hash; flags = flags; sign_count = n; attested = none }))
        (omega (arith, c)))
