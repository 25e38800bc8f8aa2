-- ===== src/Chat/Mentions.antt =====
-- `parse_mentions` of backend/src/ws/ws_handler.cpp and the same loop in `store_mentions` of
-- backend/src/db/database.cpp. A position in the content is the text from there on. The fuel of the
-- loops is the length of the content and one more.
pub mod Laws
use enclave_station.Base.{
  ℕ, zero, suc, ◌≤◌, ◌<◌, ◌≡◌, Bool, true, false, ◌&&◌, ◌||◌, Option, none, some, List, [], ◌∷◌,
  ◌++◌, if◌then◌else◌, ◌==◌, nat_keys, text_keys, leb, Text, codes, length, is_nil, any_if, arith,
}
use enclave_station.Chat.Store.{ChannelMember}

-- `std::isalnum` in the C locale, where no byte above 127 is a letter or a digit.
unfoldable pub is_alnum : ℕ → Bool
is_alnum c =
    (leb b'0' c && leb c b'9') || ((leb b'A' c && leb c b'Z') || (leb b'a' c && leb c b'z'))

unfoldable pub is_name_char : ℕ → Bool
unfolding is_alnum
is_name_char c = is_alnum c || ((c == b'_') || (c == b'-'))

-- `content.find('@', pos)`: what follows the next `@`.
unfoldable pub after_at : Text → Option Text
after_at [] = none
after_at (c ∷ s) = if c == b'@' then some s else after_at s

-- The token at the front, and the rest behind it.
unfoldable pub token_of : Text → Text
token_of [] = []
token_of (c ∷ s) = if is_name_char c then c ∷ token_of s else []

unfoldable pub behind_token : Text → Text
behind_token [] = []
behind_token (c ∷ s) = if is_name_char c then behind_token s else c ∷ s

abbrev pub at_channel : Text
at_channel = codes "@channel"

-- What `parse_mentions` keeps of a token.
unfoldable pub resolve : List ChannelMember → Text → List Text
resolve members token =
    if is_nil token
    then []
    else if token == codes "channel"
    then at_channel ∷ []
    else if any_if (λ m. m.username == token) members
    then token ∷ []
    else []

unfoldable pub parse_loop : ℕ → List ChannelMember → Text → List Text
unfolding resolve
parse_loop zero members content = []
parse_loop (suc fuel) members content = elim (after_at content) [
  | none ↦ []
  | some rest ↦ resolve members (token_of rest) ++ parse_loop fuel members (behind_token rest)
]

unfoldable pub parse_mentions : Text → List ChannelMember → List Text
parse_mentions content members = parse_loop (suc (length content)) members content

abbrev pub keep_token : Text → List Text
keep_token [] = []
keep_token (c ∷ s) = (c ∷ s) ∷ []

-- The first loop of `store_mentions`.
unfoldable pub tokens_loop : ℕ → Text → List Text
tokens_loop zero content = []
tokens_loop (suc fuel) content = elim (after_at content) [
  | none ↦ []
  | some rest ↦ keep_token (token_of rest) ++ tokens_loop fuel (behind_token rest)
]

unfoldable pub mention_tokens : Text → List Text
mention_tokens content = tokens_loop (suc (length content)) content

length-after_at : (s r : Text) → after_at s ≡ some r → length r < length s
unfolding after_at
length-after_at [] r e = ground arith
length-after_at (c ∷ s) r e = ground (arith, length-after_at s r)

length-behind_token : (s : Text) → length (behind_token s) ≤ length s
unfolding behind_token
length-behind_token [] = omega arith
length-behind_token (c ∷ s) = ground (arith, length-behind_token s)
