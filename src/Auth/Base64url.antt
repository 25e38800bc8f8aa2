-- ===== src/Auth/Base64url.antt =====
-- `base64url_encode` and `base64url_decode` of backend/src/auth/webauthn.cpp. `val` has 32 bits and is
-- kept modulo 2^32. The inner loop of the encoder takes at most as many rounds as there are bits.
pub mod RoundTrip
use enclave_station.Base.{
  ℕ, zero, suc, ◌+◌, ◌-◌, ◌*◌, ◌/◌, ◌%◌, ◌^◌, Bool, true, false, ◌&&◌, ◌||◌, Option, none, some,
  List, [], ◌∷◌, ◌++◌, map, if◌then◌else◌, ◌==◌, nat_keys, ltb, leb, get_or, Text, codes,
}

abbrev pub b64_chars : Text
b64_chars = codes "ABCDEFGHIJKLMNOPQRSTUVWXYZabcdefghijklmnopqrstuvwxyz0123456789+/"

-- `b64_char_value`, where -1 is `none`
unfoldable pub b64_char_value : ℕ → Option ℕ
b64_char_value c =
    if leb b'A' c && leb c b'Z'
    then some (c - b'A')
    else if leb b'a' c && leb c b'z'
    then some (c - b'a' + 26)
    else if leb b'0' c && leb c b'9'
    then some (c - b'0' + 52)
    else if (c == b'+') || (c == b'-')
    then some 62
    else if (c == b'/') || (c == b'_')
    then some 63
    else none

-- What the decoder makes of a character: padding and line ends are skipped like unknown ones.
unfoldable pub char_value : ℕ → Option ℕ
unfolding b64_char_value
char_value c = if (c == b'=') || ((c == 10) || (c == 13)) then none else b64_char_value c

unfoldable pub base64_decode_loop : ℕ → ℕ → Text → Text
unfolding char_value
base64_decode_loop bits val [] = []
base64_decode_loop bits val (c ∷ s) = elim (char_value c) [
  | none ↦ base64_decode_loop bits val s
  | some v ↦
      let val' = (val * 2 ^ 6 + v) % 2 ^ 32 in
      elim (leb 8 (bits + 6)) [
        | true ↦ (val' / 2 ^ (bits + 6 - 8) % 256) ∷ base64_decode_loop (bits + 6 - 8) val' s
        | false ↦ base64_decode_loop (bits + 6) val' s
      ]
]

unfoldable pub base64url_decode : Text → Text
unfolding base64_decode_loop
base64url_decode s = base64_decode_loop 0 0 s

-- `B64_CHARS[(val >> shift) & 0x3F]`
abbrev pub char_at : ℕ → ℕ → ℕ
char_at val shift = get_or b64_chars (val / 2 ^ shift % 64) 0

unfoldable pub base64_drain : ℕ → ℕ → ℕ → Text × ℕ
base64_drain zero bits val = ([], bits)
base64_drain (suc fuel) bits val =
    let (rest, left) = base64_drain fuel (bits - 6) val in
    if leb 6 bits then (char_at val (bits - 6) ∷ rest, left) else ([], bits)

unfoldable pub base64_encode_loop : ℕ → ℕ → Text → Text
unfolding base64_drain
base64_encode_loop bits val [] =
    if ltb 0 bits then char_at (val * 2 ^ (6 - bits) % 2 ^ 32) 0 ∷ [] else []
base64_encode_loop bits val (c ∷ s) =
    let val' = (val * 2 ^ 8 + c) % 2 ^ 32 in
    let (out, left) = base64_drain (bits + 8) (bits + 8) val' in
    out ++ base64_encode_loop left val' s

-- Base64url: - for +, and _ for /.
unfoldable pub url_char : ℕ → ℕ
url_char c = if c == b'+' then b'-' else if c == b'/' then b'_' else c

unfoldable pub base64url_encode : Text → Text
unfolding base64_encode_loop url_char
base64url_encode bytes = map url_char (base64_encode_loop 0 0 bytes)
