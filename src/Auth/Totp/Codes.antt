-- ===== src/Auth/Totp/Codes.antt =====
-- The digits of a code of backend/src/auth/totp.cpp.
use enclave_station.Base.{
  ℕ, zero, suc, ◌+◌, ◌-◌, ◌*◌, ◌/◌, ◌%◌, ◌≤◌, ◌<◌, ◌≡◌, refl, ap, inl, inr, Option, some, List, [],
  ◌∷◌, ◌++◌, text_keys, ltb, length, length-append, get_elem?, Text, arith, Bool-cases,
}
use enclave_station.Auth.Base32.{base32_decode}
use enclave_station.Auth.Totp.{
  code_of, dynamic_truncate, big_endian, decimal, zeros, six_wide, printed, compute_code,
}

get_elem?-some :
    {A : Type 0} (xs : List A) (i : ℕ) → i < length xs → (x : A) × (get_elem? xs i ≡ some x)
get_elem?-some [] i p = elim p [ ]
get_elem?-some (x ∷ xs) zero p = (x, refl)
get_elem?-some (x ∷ xs) (suc i) p = get_elem?-some xs i (omega (arith, p))

code_of-some :
    (a b c d : ℕ) (o p q r : Option ℕ)
    → o ≡ some a
    → p ≡ some b
    → q ≡ some c
    → r ≡ some d
    → (n : ℕ) × (code_of o p q r ≡ some n) × (n < 1000000)
code_of-some a b c d o p q r h i j k = rw (h, i, j, k) (_, refl, omega arith)

-- The four bytes lie within a digest of twenty bytes, and the code is below a million.
dynamic_truncate-some :
    (digest : Text)
    → length digest ≡ 20
    → (n : ℕ) × (dynamic_truncate digest ≡ some n) × (n < 1000000)
unfolding dynamic_truncate
dynamic_truncate-some digest h =
    let (last, e) = get_elem?-some digest 19 (omega (arith, h)) in
    let (a, ea) = get_elem?-some digest (last % 16) (omega (arith, h)) in
    let (b, eb) = get_elem?-some digest (last % 16 + 1) (omega (arith, h)) in
    let (c, ec) = get_elem?-some digest (last % 16 + 2) (omega (arith, h)) in
    let (d, ed) = get_elem?-some digest (last % 16 + 3) (omega (arith, h)) in
    rw (dynamic_truncate, e) (code_of-some a b c d _ _ _ _ ea eb ec ed)

abbrev pub AreDigits : Text → Type 0
AreDigits [] = Unit {0}
AreDigits (c ∷ s) = (b'0' ≤ c) × (c ≤ b'9') × AreDigits s

append-AreDigits : (s t : Text) → AreDigits s → AreDigits t → AreDigits (s ++ t)
append-AreDigits [] t p q = q
append-AreDigits (c ∷ s) t p q = (p.0, p.1, append-AreDigits s t p.2 q)

zeros-AreDigits : (n : ℕ) → AreDigits (zeros n)
zeros-AreDigits zero = tt
zeros-AreDigits (suc n) = (omega arith, omega arith, zeros-AreDigits n)

decimal-AreDigits : (fuel n : ℕ) → AreDigits (decimal fuel n)
unfolding decimal
decimal-AreDigits zero n = tt
decimal-AreDigits (suc fuel) n = elim (Bool-cases (ltb n 10)) [
  | inl small ↦ rw (decimal, small) (omega arith, ground (arith, small), tt)
  | inr large ↦
      rw (decimal, large)
        (append-AreDigits (decimal fuel (n / 10)) _ (decimal-AreDigits fuel (n / 10))
          (omega arith, omega arith, tt))
]

length-zeros : (n : ℕ) → length (zeros n) ≡ n
length-zeros zero = refl
length-zeros (suc n) = ap suc (length-zeros n)

abbrev pow10 : ℕ → ℕ
pow10 zero = 1
pow10 (suc k) = 10 * pow10 k

tenth : (n bound : ℕ) → n < 10 * bound → n / 10 < bound
tenth n bound p = omega (arith, p)

length-decimal : (fuel k n : ℕ) → n < pow10 (suc k) → length (decimal fuel n) ≤ suc k
unfolding decimal
length-decimal zero k n p = omega arith
length-decimal (suc fuel) zero n p = ground (arith, p)
length-decimal (suc fuel) (suc k) n p = elim (Bool-cases (ltb n 10)) [
  | inl small ↦ rw (decimal, small) (omega arith)
  | inr large ↦
      rw (decimal, large)
        (omega (
          arith,
          length-append (decimal fuel (n / 10)) ((b'0' + n % 10) ∷ []),
          length-decimal fuel k (n / 10) (tenth n (pow10 (suc k)) p),
        ))
]

module _ (n : ℕ) (small : n < 1000000) where
  length-six_wide : length (six_wide n) ≡ 6
  unfolding six_wide
  length-six_wide =
      let digits = decimal 10 n in
      omega (
        arith,
        length-append (zeros (6 - length digits)) digits,
        length-zeros (6 - length digits),
        length-decimal 10 5 n small,
      )

  six_wide-AreDigits : AreDigits (six_wide n)
  unfolding six_wide
  six_wide-AreDigits =
      append-AreDigits (zeros (6 - length (decimal 10 n))) (decimal 10 n)
        (zeros-AreDigits (6 - length (decimal 10 n))) (decimal-AreDigits 10 n)

-- With digests of twenty bytes, as HMAC-SHA1 has, the bytes that a code is made of lie within the
-- digest, and every secret and step have a code, of exactly six decimal digits.
pub compute_code-some :
    (hmac : Text → Text → Text)
    → ((key message : Text) → length (hmac key message) ≡ 20)
    → (secret : Text) (step : ℕ)
    → (c : Text) × (compute_code hmac secret step ≡ some c) × (length c ≡ 6) × AreDigits c
unfolding compute_code
compute_code-some hmac twenty secret step =
    let message = big_endian 8 step in
    let (n, e, small) =
      dynamic_truncate-some (hmac (base32_decode secret) message)
        (twenty (base32_decode secret) message) in
    (six_wide n, ap printed e, length-six_wide n small, six_wide-AreDigits n small)
