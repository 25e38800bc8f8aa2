-- ===== src/Auth/Totp.antt =====
-- The one-time passwords of backend/src/auth/totp.cpp. HMAC-SHA1 is OpenSSL's, a parameter from the key
-- and the message to the digest. Numbers of 64 bits wrap at 2^64. An access outside the digest is
-- `none`. The digits of a code are printed with a fuel of ten rounds, enough for 32 bits.
pub mod Codes
pub mod Replay
pub mod Uri
use enclave_station.Base.{
  ℕ, zero, suc, ◌+◌, ◌-◌, ◌*◌, ◌/◌, ◌%◌, ◌^◌, Bool, true, false, not, ◌&&◌, ◌||◌, Option, none,
  some, List, [], ◌∷◌, ◌++◌, if◌then◌else◌, ◌==◌, text_keys, ltb, leb, length, get_elem?, Text,
}
use enclave_station.Auth.Base32.{base32_decode}

-- `((b0 & 0x7F) << 24 | b1 << 16 | b2 << 8 | b3) % 1000000`
abbrev pub code_of : Option ℕ → Option ℕ → Option ℕ → Option ℕ → Option ℕ
code_of (some a) (some b) (some c) (some d) =
    some ((a % 128 * 2 ^ 24 + b % 256 * 2 ^ 16 + c % 256 * 2 ^ 8 + d % 256) % 1000000)
code_of _ _ _ _ = none

abbrev pub truncate_at : Text → Option ℕ → Option ℕ
truncate_at digest none = none
truncate_at digest (some last) =
    let offset = last % 16 in
    code_of (get_elem? digest offset) (get_elem? digest (offset + 1))
      (get_elem? digest (offset + 2)) (get_elem? digest (offset + 3))

unfoldable pub dynamic_truncate : Text → Option ℕ
dynamic_truncate digest = truncate_at digest (get_elem? digest 19)

-- `n` bytes of the number, the most significant first.
unfoldable pub big_endian : ℕ → ℕ → Text
big_endian zero t = []
big_endian (suc n) t = big_endian n (t / 2 ^ 8) ++ t % 2 ^ 8 ∷ []

unfoldable pub decimal : ℕ → ℕ → Text
decimal zero n = []
decimal (suc fuel) n =
    let above = decimal fuel (n / 10) in
    if ltb n 10 then (b'0' + n) ∷ [] else above ++ (b'0' + n % 10) ∷ []

abbrev pub zeros : ℕ → Text
zeros zero = []
zeros (suc n) = b'0' ∷ zeros n

-- `std::setfill('0') << std::setw(6)`
unfoldable pub six_wide : ℕ → Text
unfolding decimal
six_wide n = let digits = decimal 10 n in zeros (6 - length digits) ++ digits

abbrev pub printed : Option ℕ → Option Text
printed none = none
printed (some n) = some (six_wide n)

abbrev pub is_code : Text → Option Text → Bool
is_code code none = false
is_code code (some c) = c == code

abbrev pub is_consumed : Option ℕ → ℕ → Bool
is_consumed none step = false
is_consumed (some last) step = leb step last

-- `current_step + i` for the k-th value of `i`, in 64 bits.
abbrev pub step_at : ℕ → ℕ → ℕ → ℕ
step_at current window k = (current + k + (2 ^ 64 - window)) % 2 ^ 64

module _ (hmac : Text → Text → Text) where
  unfoldable pub compute_code : Text → ℕ → Option Text
  unfolding dynamic_truncate big_endian six_wide
  compute_code secret step =
      printed (dynamic_truncate (hmac (base32_decode secret) (big_endian 8 step)))

  -- The loop, with `left` rounds from the k-th on.
  unfoldable pub verify_loop : Text → Text → Option ℕ → ℕ → ℕ → ℕ → ℕ → Option ℕ
  unfolding compute_code
  verify_loop secret code last current window zero k = none
  verify_loop secret code last current window (suc left) k =
      let step = step_at current window k in
      let rest = verify_loop secret code last current window left (suc k) in
      if is_consumed last step
      then rest
      else if is_code code (compute_code secret step)
      then some step
      else rest

  -- `verify_code`, at the time `now` in seconds.
  unfoldable pub verify_code : Text → Text → Option ℕ → ℕ → ℕ → Option ℕ
  unfolding verify_loop
  verify_code secret code last window now =
      verify_loop secret code last (now / 30) window (2 * window + 1) 0
