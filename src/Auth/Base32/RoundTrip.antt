-- ===== src/Auth/Base32/RoundTrip.antt =====
-- Base32 of backend/src/auth/totp.cpp, encoded and then decoded. The encoder holds back the low 0, 3, 1, 4 or 2 bits
-- of a byte in turn, and the decoder then waits for them with 0, 5, 7, 4 or 6 bits of it.
use enclave_station.Base.{
  all_below, all_below-lt, ℕ, ◌+◌, ◌-◌, ◌*◌, ◌/◌, ◌%◌, ◌^◌, ◌<◌, ◌≡◌, refl, ap, ◌∙◌, Bool, true,
  false, Option, none, some, [], ◌∷◌, nat_keys, leb, get_or, Text, arith, nat_eqb, nat_eqb_iff,
}
use enclave_station.Auth.Base32.{
  base32_alphabet, symbol_at, drain, encode_loop, base32_encode, base32_value, decode_loop,
  base32_decode,
}

abbrev pub IsBytes : Text → Type 0
IsBytes [] = Unit {0}
IsBytes (c ∷ s) = (c < 256) × IsBytes s

abbrev pub is_value : ℕ → Option ℕ → Bool
is_value v none = false
is_value v (some w) = nat_eqb w v

pub is_value-some : (v : ℕ) (o : Option ℕ) → is_value v o ≡ true → o ≡ some v
is_value-some v none h = ground arith
is_value-some v (some w) h = ap some ((nat_eqb_iff w v).0 h)

base32_value-symbols :
    all_below 32 (λ v. is_value v (base32_value (get_or base32_alphabet v 0))) ≡ true
unfolding base32_value
base32_value-symbols = refl

-- The decoder reads back the value of a symbol.
base32_value-symbol : (v : ℕ) → v < 32 → base32_value (get_or base32_alphabet v 0) ≡ some v
base32_value-symbol v p = is_value-some v (base32_value (get_or base32_alphabet v 0)) (
    all_below-lt 32 (λ i. is_value i (base32_value (get_or base32_alphabet i 0))) v
      base32_value-symbols p)

-- The decoder at a symbol of the encoder.
decode_loop-symbol_at :
    (bits buffer e shift : ℕ) (s : Text)
    → decode_loop bits buffer (symbol_at e shift ∷ s) ≡ (
        let buffer' = (buffer * 2 ^ 5 + e / 2 ^ shift % 32) % 2 ^ 32 in
        elim (leb 8 (bits + 5)) [
          | true ↦ (buffer' / 2 ^ (bits + 5 - 8) % 256) ∷ decode_loop (bits + 5 - 8) buffer' s
          | false ↦ decode_loop (bits + 5) buffer' s
        ])
unfolding decode_loop
decode_loop-symbol_at bits buffer e shift s =
    rw (decode_loop, base32_value-symbol (e / 2 ^ shift % 32) (omega arith)) refl

-- The bits of a byte that the decoder has, above those that the encoder has.
abbrev RoundTrips : ℕ → ℕ → Text → Type 0
RoundTrips b d s =
    (e f : ℕ) → decode_loop d f (encode_loop b e s) ≡ (f % 2 ^ d * 2 ^ b + e % 2 ^ b) ∷ s

decode_loop-nil : (bits buffer : ℕ) → decode_loop bits buffer [] ≡ []
unfolding decode_loop
decode_loop-nil bits buffer = refl

-- The buffer of the decoder after a symbol of the encoder.
abbrev with_symbol : ℕ → ℕ → ℕ → ℕ
with_symbol f e shift = (f * 2 ^ 5 + e / 2 ^ shift % 32) % 2 ^ 32

-- The byte that it then puts out.
abbrev byte_of : ℕ → ℕ → ℕ → ℕ → ℕ
byte_of d f e shift = with_symbol f e shift / 2 ^ (d + 5 - 8) % 256

last_symbol :
    (d f e : ℕ) → leb 8 (d + 5) ≡ true → decode_loop d f (symbol_at e 0 ∷ []) ≡ byte_of d f e 0 ∷ []
last_symbol d f e h =
    decode_loop-symbol_at d f e 0 []
    ∙ rw h (ap (◌∷◌ (byte_of d f e 0)) (decode_loop-nil (d + 5 - 8) (with_symbol f e 0)))

pub ap2 : {a b c d : ℕ} {s : Text} → a ≡ b → c ≡ d → a ∷ c ∷ s ≡ b ∷ d ∷ s
ap2 {b = b} {c = c} {s = s} p q = ap (λ x. x ∷ c ∷ s) p ∙ ap (λ x. b ∷ x ∷ s) q

phases :
    (s : Text)
    → IsBytes s
    → ((e f : ℕ) → decode_loop 0 f (encode_loop 0 e s) ≡ s)
      × RoundTrips 3 5 s
      × RoundTrips 1 7 s
      × RoundTrips 4 4 s
      × RoundTrips 2 6 s
unfolding encode_loop drain
phases [] p = (
  λ e f. decode_loop-nil 0 f,
  λ e f. last_symbol 5 f (e * 2 ^ 2 % 2 ^ 32) refl ∙ ap (λ x. x ∷ []) (omega arith),
  λ e f. last_symbol 7 f (e * 2 ^ 4 % 2 ^ 32) refl ∙ ap (λ x. x ∷ []) (omega arith),
  λ e f. last_symbol 4 f (e * 2 ^ 1 % 2 ^ 32) refl ∙ ap (λ x. x ∷ []) (omega arith),
  λ e f. last_symbol 6 f (e * 2 ^ 3 % 2 ^ 32) refl ∙ ap (λ x. x ∷ []) (omega arith),
)
phases (c ∷ s) p =
    let all = phases s p.1 in
    let e' : ℕ → ℕ = λ e. (e * 2 ^ 8 + c) % 2 ^ 32 in
    (
      λ e f.
          decode_loop-symbol_at 0 f (e' e) 3 (encode_loop 3 (e' e) s)
          ∙ all.1 (e' e) (with_symbol f (e' e) 3)
          ∙ ap (λ x. x ∷ s) (omega (arith, p.0)),
      λ e f.
          decode_loop-symbol_at 5 f (e' e) 6 (symbol_at (e' e) 1 ∷ encode_loop 1 (e' e) s)
          ∙ ap (◌∷◌ (byte_of 5 f (e' e) 6)) (
              decode_loop-symbol_at 2 (with_symbol f (e' e) 6) (e' e) 1 (encode_loop 1 (e' e) s)
              ∙ all.2 (e' e) (with_symbol (with_symbol f (e' e) 6) (e' e) 1))
          ∙ ap2 (omega (arith, p.0)) (omega (arith, p.0)),
      λ e f.
          decode_loop-symbol_at 7 f (e' e) 4 (encode_loop 4 (e' e) s)
          ∙ ap (◌∷◌ (byte_of 7 f (e' e) 4)) (all.3 (e' e) (with_symbol f (e' e) 4))
          ∙ ap2 (omega (arith, p.0)) (omega (arith, p.0)),
      λ e f.
          decode_loop-symbol_at 4 f (e' e) 7 (symbol_at (e' e) 2 ∷ encode_loop 2 (e' e) s)
          ∙ ap (◌∷◌ (byte_of 4 f (e' e) 7)) (
              decode_loop-symbol_at 1 (with_symbol f (e' e) 7) (e' e) 2 (encode_loop 2 (e' e) s)
              ∙ all.4 (e' e) (with_symbol (with_symbol f (e' e) 7) (e' e) 2))
          ∙ ap2 (omega (arith, p.0)) (omega (arith, p.0)),
      λ e f.
          decode_loop-symbol_at 6 f (e' e) 5 (symbol_at (e' e) 0 ∷ encode_loop 0 (e' e) s)
          ∙ ap (◌∷◌ (byte_of 6 f (e' e) 5)) (
              decode_loop-symbol_at 3 (with_symbol f (e' e) 5) (e' e) 0 (encode_loop 0 (e' e) s)
              ∙ ap (◌∷◌ (byte_of 3 (with_symbol f (e' e) 5) (e' e) 0))
                  (all.0 (e' e) (with_symbol (with_symbol f (e' e) 5) (e' e) 0)))
          ∙ ap2 (omega (arith, p.0)) (omega (arith, p.0)),
    )

-- The bytes of a secret are what decoding its base32 text gives.
pub base32_decode-base32_encode : (s : Text) → IsBytes s → base32_decode (base32_encode s) ≡ s
unfolding base32_decode base32_encode
base32_decode-base32_encode s p = (phases s p).0 0 0
