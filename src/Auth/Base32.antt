-- ===== src/Auth/Base32.antt =====
-- `base32_encode` and `base32_decode` of backend/src/auth/totp.cpp. `buffer` is an `int` whose bits
-- shift out at the top, so it is kept modulo 2^32; only its low twelve bits are ever read. The inner
-- loop of the encoder takes at most as many rounds as there are bits.
pub mod RoundTrip
use enclave_station.Base.{
  ℕ, zero, suc, ◌+◌, ◌-◌, ◌*◌, ◌/◌, ◌%◌, ◌^◌, Bool, true, false, ◌&&◌, ◌||◌, Option, none, some,
  List, [], ◌∷◌, ◌++◌, if◌then◌else◌, ◌==◌, nat_keys, ltb, leb, get_or, Text, codes,
}

abbrev pub base32_alphabet : Text
base32_alphabet = codes "ABCDEFGHIJKLMNOPQRSTUVWXYZ234567"

-- `BASE32_ALPHABET[(buffer >> shift) & 0x1F]`
abbrev pub symbol_at : ℕ → ℕ → ℕ
symbol_at buffer shift = get_or base32_alphabet (buffer / 2 ^ shift % 32) 0

-- The inner loop: the symbols, and the bits that are left.
unfoldable pub drain : ℕ → ℕ → ℕ → Text × ℕ
drain zero bits buffer = ([], bits)
drain (suc fuel) bits buffer =
    let (rest, left) = drain fuel (bits - 5) buffer in
    if leb 5 bits then (symbol_at buffer (bits - 5) ∷ rest, left) else ([], bits)

unfoldable pub encode_loop : ℕ → ℕ → Text → Text
unfolding drain
encode_loop bits buffer [] =
    if ltb 0 bits then symbol_at (buffer * 2 ^ (5 - bits) % 2 ^ 32) 0 ∷ [] else []
encode_loop bits buffer (c ∷ s) =
    let buffer' = (buffer * 2 ^ 8 + c) % 2 ^ 32 in
    let (out, left) = drain (bits + 8) (bits + 8) buffer' in out ++ encode_loop left buffer' s

unfoldable pub base32_encode : Text → Text
unfolding encode_loop
base32_encode s = encode_loop 0 0 s

-- The value of a symbol; any other character is skipped.
unfoldable pub base32_value : ℕ → Option ℕ
base32_value c =
    if (c == b'=') || (c == b' ')
    then none
    else if leb b'A' c && leb c b'Z'
    then some (c - b'A')
    else if leb b'a' c && leb c b'z'
    then some (c - b'a')
    else if leb b'2' c && leb c b'7'
    then some (c - b'2' + 26)
    else none

unfoldable pub decode_loop : ℕ → ℕ → Text → Text
unfolding base32_value
decode_loop bits buffer [] = []
decode_loop bits buffer (c ∷ s) = elim (base32_value c) [
  | none ↦ decode_loop bits buffer s
  | some v ↦
      let buffer' = (buffer * 2 ^ 5 + v) % 2 ^ 32 in
      elim (leb 8 (bits + 5)) [
        | true ↦ (buffer' / 2 ^ (bits + 5 - 8) % 256) ∷ decode_loop (bits + 5 - 8) buffer' s
        | false ↦ decode_loop (bits + 5) buffer' s
      ]
]

unfoldable pub base32_decode : Text → Text
unfolding decode_loop
base32_decode s = decode_loop 0 0 s
