-- ===== src/Auth/Base64url/RoundTrip.antt =====
-- Base64url of backend/src/auth/webauthn.cpp, encoded and then decoded. The encoder holds back the low 0, 2 or 4 bits of a
-- byte in turn, and the decoder then waits for them with 0, 6 or 4 bits of it.
use enclave_station.Base.{
  all_below, all_below-lt, ℕ, ◌+◌, ◌-◌, ◌*◌, ◌/◌, ◌%◌, ◌^◌, ◌<◌, ◌≡◌, refl, ap, ◌∙◌, true, false,
  some, [], ◌∷◌, map, nat_keys, leb, get_or, Text, arith,
}
use enclave_station.Auth.Base32.RoundTrip.{IsBytes, is_value, is_value-some, ap2}
use enclave_station.Auth.Base64url.{
  b64_chars, b64_char_value, char_value, char_at, base64_drain, base64_encode_loop,
  base64url_encode, base64_decode_loop, base64url_decode, url_char,
}

char_value-chars :
    all_below 64 (λ v. is_value v (char_value (url_char (get_or b64_chars v 0)))) ≡ true
unfolding char_value b64_char_value url_char
char_value-chars = refl

char_value-url_char : (v : ℕ) → v < 64 → char_value (url_char (get_or b64_chars v 0)) ≡ some v
char_value-url_char v p = is_value-some v (char_value (url_char (get_or b64_chars v 0))) (
    all_below-lt 64 (λ i. is_value i (char_value (url_char (get_or b64_chars i 0)))) v
      char_value-chars p)

-- The decoder's value after a character of the encoder, and the byte that it then puts out.
abbrev with_char : ℕ → ℕ → ℕ → ℕ
with_char f e shift = (f * 2 ^ 6 + e / 2 ^ shift % 64) % 2 ^ 32

abbrev byte_of : ℕ → ℕ → ℕ → ℕ → ℕ
byte_of d f e shift = with_char f e shift / 2 ^ (d + 6 - 8) % 256

decode_loop-char_at :
    (bits val e shift : ℕ) (s : Text)
    → base64_decode_loop bits val (url_char (char_at e shift) ∷ s) ≡ elim (leb 8 (bits + 6)) [
      | true ↦
          byte_of bits val e shift ∷ base64_decode_loop (bits + 6 - 8) (with_char val e shift) s
      | false ↦ base64_decode_loop (bits + 6) (with_char val e shift) s
    ]
unfolding base64_decode_loop
decode_loop-char_at bits val e shift s =
    rw (base64_decode_loop, char_value-url_char (e / 2 ^ shift % 64) (omega arith)) refl

decode_loop-nil : (bits val : ℕ) → base64_decode_loop bits val [] ≡ []
unfolding base64_decode_loop
decode_loop-nil bits val = refl

last_char :
    (d f e : ℕ)
    → leb 8 (d + 6) ≡ true
    → base64_decode_loop d f (url_char (char_at e 0) ∷ []) ≡ byte_of d f e 0 ∷ []
last_char d f e h =
    decode_loop-char_at d f e 0 []
    ∙ rw h (ap (◌∷◌ (byte_of d f e 0)) (decode_loop-nil (d + 6 - 8) (with_char f e 0)))

-- The bits of a byte that the decoder has, above those that the encoder has.
abbrev RoundTrips : ℕ → ℕ → Text → Type 0
RoundTrips b d s =
    (e f : ℕ)
    → base64_decode_loop d f (map url_char (base64_encode_loop b e s))
      ≡ (f % 2 ^ d * 2 ^ b + e % 2 ^ b) ∷ s

phases :
    (s : Text)
    → IsBytes s
    → ((e f : ℕ) → base64_decode_loop 0 f (map url_char (base64_encode_loop 0 e s)) ≡ s)
      × RoundTrips 2 6 s
      × RoundTrips 4 4 s
unfolding base64_encode_loop base64_drain
phases [] p = (
  λ e f. decode_loop-nil 0 f,
  λ e f. last_char 6 f (e * 2 ^ 4 % 2 ^ 32) refl ∙ ap (λ x. x ∷ []) (omega arith),
  λ e f. last_char 4 f (e * 2 ^ 2 % 2 ^ 32) refl ∙ ap (λ x. x ∷ []) (omega arith),
)
phases (c ∷ s) p =
    let all = phases s p.1 in
    let v : ℕ → ℕ = λ e. (e * 2 ^ 8 + c) % 2 ^ 32 in
    let rest : ℕ → ℕ → Text = λ b e. map url_char (base64_encode_loop b (v e) s) in
    (
      λ e f.
          decode_loop-char_at 0 f (v e) 2 (rest 2 e)
          ∙ all.1 (v e) (with_char f (v e) 2)
          ∙ ap (λ x. x ∷ s) (omega (arith, p.0)),
      λ e f.
          decode_loop-char_at 6 f (v e) 4 (rest 4 e)
          ∙ ap (◌∷◌ (byte_of 6 f (v e) 4)) (all.2 (v e) (with_char f (v e) 4))
          ∙ ap2 (omega (arith, p.0)) (omega (arith, p.0)),
      λ e f.
          decode_loop-char_at 4 f (v e) 6 (url_char (char_at (v e) 0) ∷ rest 0 e)
          ∙ ap (◌∷◌ (byte_of 4 f (v e) 6)) (
              decode_loop-char_at 2 (with_char f (v e) 6) (v e) 0 (rest 0 e)
              ∙ ap (◌∷◌ (byte_of 2 (with_char f (v e) 6) (v e) 0))
                  (all.0 (v e) (with_char (with_char f (v e) 6) (v e) 0)))
          ∙ ap2 (omega (arith, p.0)) (omega (arith, p.0)),
    )

-- Bytes that are encoded for a URL are what decoding gives.
pub base64url_decode-base64url_encode :
    (bytes : Text) → IsBytes bytes → base64url_decode (base64url_encode bytes) ≡ bytes
unfolding base64url_decode base64url_encode
base64url_decode-base64url_encode bytes p = (phases bytes p).0 0 0
