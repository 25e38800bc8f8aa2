-- ===== src/Auth/Totp/Uri.antt =====
-- `url_encode` and `build_uri` of backend/src/auth/totp.cpp, and percent-decoding to compare with.
use enclave_station.Base.{
  ℕ, ◌+◌, ◌-◌, ◌*◌, ◌/◌, ◌%◌, ◌<◌, ◌≡◌, refl, ap, ◌∙◌, inl, inr, Bool, true, false, ◌||◌, [], ◌∷◌,
  ◌++◌, if◌then◌else◌, ◌==◌, nat_keys, ltb, leb, Text, codes, arith, Bool-cases,
}
use enclave_station.Chat.Mentions.{is_alnum}
use enclave_station.Auth.Base32.RoundTrip.{IsBytes}

unfoldable pub is_unreserved : ℕ → Bool
unfolding is_alnum
is_unreserved c = is_alnum c || ((c == b'-') || ((c == b'_') || ((c == b'.') || (c == b'~'))))

abbrev pub hex_digit : ℕ → ℕ
hex_digit d = if ltb d 10 then b'0' + d else b'A' + (d - 10)

-- `std::setw(2) << std::uppercase << std::hex` of a byte
unfoldable pub url_encode : Text → Text
unfolding is_unreserved
url_encode [] = []
url_encode (c ∷ s) =
    let rest = url_encode s in
    if is_unreserved c then c ∷ rest else b'%' ∷ hex_digit (c / 16) ∷ hex_digit (c % 16) ∷ rest

unfoldable pub build_uri : Text → Text → Text → Text
unfolding url_encode
build_uri secret username issuer =
    codes "otpauth://totp/"
    ++ (url_encode issuer ++ (b':' ∷ url_encode username))
    ++ codes "?secret="
    ++ secret
    ++ codes "&issuer="
    ++ url_encode issuer
    ++ codes "&algorithm=SHA1&digits=6&period=30"

abbrev hex_value : ℕ → ℕ
hex_value c = if leb c b'9' then c - b'0' else c - b'A' + 10

-- What a reader of the URI does with a component.
abbrev pub percent_decode : Text → Text
percent_decode [] = []
percent_decode (c ∷ []) = c ∷ []
percent_decode (c ∷ d ∷ []) = c ∷ d ∷ []
percent_decode (c ∷ d ∷ e ∷ s) = elim (c == b'%') [
  | true ↦ (hex_value d * 16 + hex_value e) ∷ percent_decode s
  | false ↦ c ∷ percent_decode (d ∷ e ∷ s)
]

hex_value-hex_digit : (d : ℕ) → d < 16 → hex_value (hex_digit d) ≡ d
hex_value-hex_digit d p = ground (arith, p)

percent_decode-plain :
    (c : ℕ) (s : Text) → (c == b'%') ≡ false → percent_decode (c ∷ s) ≡ c ∷ percent_decode s
percent_decode-plain c [] h = refl
percent_decode-plain c (d ∷ []) h = refl
percent_decode-plain c (d ∷ e ∷ s) h = rw (percent_decode, h) refl

is_unreserved-percent : (c : ℕ) → is_unreserved c ≡ true → (c == b'%') ≡ false
unfolding is_unreserved is_alnum
is_unreserved-percent c h = ground (arith, h)

-- A component of the URI, percent-decoded, is the text that was encoded, for any bytes.
pub percent_decode-url_encode : (s : Text) → IsBytes s → percent_decode (url_encode s) ≡ s
unfolding url_encode
percent_decode-url_encode [] p = refl
percent_decode-url_encode (c ∷ s) p = elim (Bool-cases (is_unreserved c)) [
  | inl plain ↦
      rw (url_encode, plain, percent_decode-plain c (url_encode s) (is_unreserved-percent c plain))
        (ap (◌∷◌ c) (percent_decode-url_encode s p.1))
  | inr special ↦
      rw
        (
          url_encode,
          special,
          hex_value-hex_digit (c / 16) (omega (arith, p.0)),
          hex_value-hex_digit (c % 16) (omega arith),
        )
        (ap (λ x. x ∷ percent_decode (url_encode s)) (omega arith)
          ∙ ap (◌∷◌ c) (percent_decode-url_encode s p.1))
]
