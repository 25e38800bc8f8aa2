-- ===== src/Web/Cookies/Laws.antt =====
-- The cookie loop of backend/src/handlers/handler_utils.h on the header that a client writes.
use enclave_station.Base.{
  ℕ, zero, suc, ◌<◌, ◌≡◌, refl, ap, ◌∙◌, inl, inr, false, not, ◌&&◌, ◌||◌, none, some, List, [],
  ◌∷◌, ◌++◌, if◌then◌else◌, ◌==◌, nat_keys, text_keys, Text, codes, length, is_nil, arith, lookup,
  Bool-cases, length-append,
}
use enclave_station.Web.Cookies.{
  strip_prefix, skip_separators, value_of, from_semicolon, cookie_loop, cookie_value, or_empty,
  HttpRequest, extract_session_token, is_token, csrf_ok, csrf_required_and_failed,
}

-- No character is the one given.
abbrev pub HasNo : ℕ → Text → Type 0
HasNo x [] = Unit {0}
HasNo x (c ∷ s) = ((c == x) ≡ false) × HasNo x s

-- A name is not empty, and has no space, semicolon or `=`.
abbrev pub IsCookieName : Text → Type 0
IsCookieName name = (is_nil name ≡ false) × (HasNo b' ' name × (HasNo b';' name × HasNo b'=' name))

abbrev pub AreCookies : List (Text × Text) → Type 0
AreCookies [] = Unit {0}
AreCookies ((name, value) ∷ rest) = IsCookieName name × (HasNo b';' value × AreCookies rest)

-- What a client sends: `name=value`, with `; ` between.
abbrev pub pairs_tail : List (Text × Text) → Text
pairs_tail [] = []
pairs_tail ((name, value) ∷ rest) = codes "; " ++ (name ++ (b'=' ∷ (value ++ pairs_tail rest)))

abbrev pub cookie_header : List (Text × Text) → Text
cookie_header [] = []
cookie_header ((name, value) ∷ rest) = name ++ (b'=' ∷ (value ++ pairs_tail rest))

strip_prefix-name :
    (key name rest : Text)
    → HasNo b'=' key
    → HasNo b'=' name
    → strip_prefix (key ++ b'=' ∷ []) (name ++ b'=' ∷ rest)
      ≡ (if name == key then some rest else none)
unfolding strip_prefix
strip_prefix-name [] [] rest p q = refl
strip_prefix-name [] (c ∷ name) rest p q = rw q.0 refl
strip_prefix-name (k ∷ key) [] rest p q = ground (arith, p.0)
strip_prefix-name (k ∷ key) (c ∷ name) rest p q =
    ground (arith, strip_prefix-name key name rest p.1 q.1)

skip_separators-name :
    (name rest : Text) → IsCookieName name → skip_separators (name ++ rest) ≡ name ++ rest
unfolding skip_separators
skip_separators-name [] rest p = ground arith
skip_separators-name (c ∷ name) rest p = rw (p.1.0.0, p.1.1.0.0) refl

value_of-tail :
    (value : Text) (rest : List (Text × Text))
    → HasNo b';' value
    → value_of (value ++ pairs_tail rest) ≡ value
unfolding value_of
value_of-tail [] [] p = refl
value_of-tail [] ((name, value) ∷ rest) p = refl
value_of-tail (c ∷ value) rest p = rw p.0 (ap (◌∷◌ c) (value_of-tail value rest p.1))

from_semicolon-append :
    (s rest : Text) → HasNo b';' s → from_semicolon (s ++ rest) ≡ from_semicolon rest
unfolding from_semicolon
from_semicolon-append [] rest p = refl
from_semicolon-append (c ∷ s) rest p = rw p.0 (from_semicolon-append s rest p.1)

-- One pair, behind the separators.
cookie_loop-pair :
    (fuel : ℕ) (key name value start : Text) (rest : List (Text × Text))
    → HasNo b'=' key
    → IsCookieName name
    → HasNo b';' value
    → is_nil start ≡ false
    → skip_separators start ≡ name ++ b'=' ∷ (value ++ pairs_tail rest)
    → cookie_loop (suc fuel) (key ++ b'=' ∷ []) start ≡ (
        if name == key then some value else elim (from_semicolon (pairs_tail rest)) [
          | none ↦ none
          | some next ↦ cookie_loop fuel (key ++ b'=' ∷ []) next
        ])
unfolding cookie_loop
cookie_loop-pair fuel key name value [] rest k n v filled e = ground arith
cookie_loop-pair fuel key name value (c ∷ s) rest k n v filled e =
    let stripped = strip_prefix-name key name (value ++ pairs_tail rest) k n.1.1.1 in
    elim (Bool-cases (name == key)) [
      | inl found ↦ rw (cookie_loop, e, stripped, found, value_of-tail value rest v) refl
      | inr other ↦
          rw
            (
              cookie_loop,
              e,
              stripped,
              other,
              e,
              from_semicolon-append name (b'=' ∷ (value ++ pairs_tail rest)) n.1.1.0,
              from_semicolon,
              from_semicolon-append value (pairs_tail rest) v,
            )
            refl
    ]

cookie_loop-tail :
    (fuel : ℕ) (key : Text) (rest : List (Text × Text))
    → HasNo b'=' key
    → AreCookies rest
    → length (pairs_tail rest) < fuel
    → elim (from_semicolon (pairs_tail rest)) [
      | none ↦ none
      | some next ↦ cookie_loop fuel (key ++ b'=' ∷ []) next
    ]
      ≡ lookup key rest
unfolding lookup from_semicolon skip_separators
cookie_loop-tail fuel key [] k a enough = refl
cookie_loop-tail zero key ((name, value) ∷ rest) k a enough = elim enough [ ]
cookie_loop-tail (suc fuel) key ((name, value) ∷ rest) k a enough =
    cookie_loop-pair fuel key name value (pairs_tail ((name, value) ∷ rest)) rest k a.0 a.1.0 refl
      (skip_separators-name name (b'=' ∷ (value ++ pairs_tail rest)) a.0)
    ∙ ap (λ o. if name == key then some value else o)
        (cookie_loop-tail fuel key rest k a.1.1 (
          omega (
            arith,
            enough,
            length-append name (b'=' ∷ (value ++ pairs_tail rest)),
            length-append value (pairs_tail rest),
          )))

filled : (s t : Text) → is_nil s ≡ false → is_nil (s ++ t) ≡ false
filled [] t h = ground arith
filled (c ∷ s) t h = refl

-- The loop finds the first cookie with the name.
pub cookie_value-lookup :
    (key : Text) (cookies : List (Text × Text))
    → HasNo b'=' key
    → AreCookies cookies
    → cookie_value (key ++ b'=' ∷ []) (cookie_header cookies) ≡ lookup key cookies
unfolding cookie_value lookup
cookie_value-lookup key [] k a = refl
cookie_value-lookup key ((name, value) ∷ rest) k a =
    let tail = b'=' ∷ (value ++ pairs_tail rest) in
    cookie_loop-pair (length (name ++ tail)) key name value (name ++ tail) rest k a.0 a.1.0
      (filled name tail a.0.0) (skip_separators-name name tail a.0)
    ∙ ap (λ o. if name == key then some value else o)
        (cookie_loop-tail (length (name ++ tail)) key rest k a.1.1
          (omega (arith, length-append name tail, length-append value (pairs_tail rest))))

session_name : HasNo b'=' (codes "session")
session_name = (refl, (refl, (refl, (refl, (refl, (refl, (refl, tt)))))))

csrf_name : HasNo b'=' (codes "csrf")
csrf_name = (refl, (refl, (refl, (refl, tt))))

-- A session token is extracted as the value of the client's first `session` cookie, and the CSRF test
-- passes just if the header carries a token that is not empty and equals the first `csrf` cookie,
-- whatever other cookies the client sends.
pub cookies_read :
    (req : HttpRequest) (cookies : List (Text × Text))
    → AreCookies cookies
    → req.cookie ≡ cookie_header cookies
    → (extract_session_token req ≡ or_empty (lookup (codes "session") cookies))
      × (csrf_ok req ≡ (
          not (is_nil req.x_csrf_token)
          && is_token req.x_csrf_token (lookup (codes "csrf") cookies)))
unfolding extract_session_token csrf_ok
cookies_read req cookies a e = (
  rw e (ap or_empty (cookie_value-lookup (codes "session") cookies session_name a)),
  rw e (
      ap (λ o. not (is_nil req.x_csrf_token) && is_token req.x_csrf_token o)
        (cookie_value-lookup (codes "csrf") cookies csrf_name a)),
)

-- A request with a session goes through the CSRF wrapper of a route just if it repeats the `csrf`
-- cookie, not empty, in the header.
pub csrf_required_and_failed-exact :
    (req : HttpRequest) (cookies : List (Text × Text))
    → AreCookies cookies
    → req.cookie ≡ cookie_header cookies
    → csrf_required_and_failed req ≡ (
        not (is_nil (or_empty (lookup (codes "session") cookies)))
        && (is_nil req.x_csrf_token
            || not (is_token req.x_csrf_token (lookup (codes "csrf") cookies))))
unfolding csrf_required_and_failed
csrf_required_and_failed-exact req cookies a e =
    ground (arith, (cookies_read req cookies a e).0, (cookies_read req cookies a e).1)
