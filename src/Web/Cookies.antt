-- ===== src/Web/Cookies.antt =====
-- The cookie header: `extract_session_token` and `csrf_ok` of backend/src/handlers/handler_utils.h. Both
-- run one loop, with another key. A position in the header is the text from there on; the fuel of the
-- loop is the length of the header and one more.
pub mod Laws
use enclave_station.Base.{
  ℕ, zero, suc, ◌≡◌, Bool, true, false, not, ◌&&◌, ◌||◌, Option, none, some, List, [], ◌∷◌, ◌++◌,
  if◌then◌else◌, ◌==◌, nat_keys, text_keys, Text, codes, length, is_nil,
}

-- The text behind a prefix, where the text starts with it.
unfoldable pub strip_prefix : Text → Text → Option Text
strip_prefix [] s = some s
strip_prefix (k ∷ key) [] = none
strip_prefix (k ∷ key) (c ∷ s) = if c == k then strip_prefix key s else none

-- Past spaces and semicolons.
unfoldable pub skip_separators : Text → Text
skip_separators [] = []
skip_separators (c ∷ s) = if (c == b' ') || (c == b';') then skip_separators s else c ∷ s

-- The value up to the next semicolon or the end.
unfoldable pub value_of : Text → Text
value_of [] = []
value_of (c ∷ s) = let rest = value_of s in if c == b';' then [] else c ∷ rest

-- `cookie_header.find(';', pos)`
unfoldable pub from_semicolon : Text → Option Text
from_semicolon [] = none
from_semicolon (c ∷ s) = if c == b';' then some (c ∷ s) else from_semicolon s

unfoldable pub cookie_loop : ℕ → Text → Text → Option Text
unfolding strip_prefix skip_separators value_of from_semicolon
cookie_loop zero key header = none
cookie_loop (suc fuel) key [] = none
cookie_loop (suc fuel) key (c ∷ s) =
    let here = skip_separators (c ∷ s) in
    elim (strip_prefix key here) [
      | some v ↦ some (value_of v)
      | none ↦ elim (from_semicolon here) [ none ↦ none | some next ↦ cookie_loop fuel key next ]
    ]

unfoldable pub cookie_value : Text → Text → Option Text
unfolding cookie_loop
cookie_value key header = cookie_loop (suc (length header)) key header

abbrev pub or_empty : Option Text → Text
or_empty none = []
or_empty (some t) = t

-- The headers of a request that the guards read. A header that is missing is "".
pub record HttpRequest : Type 0 where
  pub method : Text
  pub cookie : Text
  pub x_csrf_token : Text

unfoldable pub extract_session_token : HttpRequest → Text
unfolding cookie_value
extract_session_token req = or_empty (cookie_value (codes "session=") req.cookie)

abbrev pub is_token : Text → Option Text → Bool
is_token token none = false
is_token token (some v) = v == token

unfoldable pub csrf_ok : HttpRequest → Bool
unfolding cookie_value
csrf_ok req =
    not (is_nil req.x_csrf_token)
    && is_token req.x_csrf_token (cookie_value (codes "csrf=") req.cookie)

unfoldable pub is_state_changing_method : Text → Bool
is_state_changing_method m =
    ((m == codes "post") || (m == codes "put")) || ((m == codes "delete") || (m == codes "patch"))

unfoldable pub csrf_required_and_failed : HttpRequest → Bool
unfolding extract_session_token csrf_ok
csrf_required_and_failed req = not (is_nil (extract_session_token req)) && not (csrf_ok req)
