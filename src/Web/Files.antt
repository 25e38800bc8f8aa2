-- ===== src/Web/Files.antt =====
-- The names and ids of files: backend/src/handlers/file_access_utils.cpp. Sizes are not negative, and
-- the sum of two does not overflow `int64_t`.
pub mod Laws
use enclave_station.Base.{
  ℕ, ◌+◌, Bool, true, false, not, ◌&&◌, ◌||◌, List, [], ◌∷◌, ◌++◌, map, if◌then◌else◌, ◌==◌,
  nat_keys, ltb, leb, filter_if, is_nil, Text, codes,
}

abbrev pub quote : ℕ
quote = 34

abbrev pub carriage_return : ℕ
carriage_return = 13

abbrev pub line_feed : ℕ
line_feed = 10

-- `std::replace` of a double quote by a single one, then `remove_if` of the line ends
unfoldable pub sanitize_for_header : Text → Text
sanitize_for_header name =
    filter_if (λ c. not ((c == carriage_return) || (c == line_feed)))
      (map (λ c. if c == quote then b'\'' else c) name)

unfoldable pub inline_disposition : Text → Text
unfolding sanitize_for_header
inline_disposition name = codes "inline; filename=\"" ++ (sanitize_for_header name ++ (quote ∷ []))

unfoldable pub attachment_disposition : Text → Text
unfolding sanitize_for_header
attachment_disposition name =
    codes "attachment; filename=\"" ++ (sanitize_for_header name ++ (quote ∷ []))

-- `std::isxdigit`
unfoldable pub is_xdigit : ℕ → Bool
is_xdigit c =
    (leb b'0' c && leb c b'9') || ((leb b'A' c && leb c b'F') || (leb b'a' c && leb c b'f'))

abbrev pub all_xdigits : Text → Bool
all_xdigits [] = true
all_xdigits (c ∷ s) = is_xdigit c && all_xdigits s

unfoldable pub is_valid_hex_id : Text → Bool
unfolding is_xdigit
is_valid_hex_id value = not (is_nil value) && all_xdigits value

-- A limit of 0 is no limit.
unfoldable pub exceeds_file_size_limit : ℕ → ℕ → Bool
exceeds_file_size_limit max_size file_size = ltb 0 max_size && ltb max_size file_size

unfoldable pub exceeds_storage_limit : ℕ → ℕ → ℕ → Bool
exceeds_storage_limit limit used incoming = ltb 0 limit && ltb limit (used + incoming)
