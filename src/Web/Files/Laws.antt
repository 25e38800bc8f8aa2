-- ===== src/Web/Files/Laws.antt =====
-- The characters of the names and ids of backend/src/handlers/file_access_utils.cpp.
use enclave_station.Base.{
  ℕ, ◌≡◌, refl, ap, inl, inr, Bool, true, false, not, ◌||◌, [], ◌∷◌, ◌++◌, if◌then◌else◌, ◌==◌,
  nat_keys, filter_if, is_nil, Text, codes, arith, Bool-cases,
}
use enclave_station.Web.Cookies.Laws.{HasNo}
use enclave_station.Web.Files.{
  quote, carriage_return, line_feed, sanitize_for_header, inline_disposition,
  attachment_disposition, is_xdigit, all_xdigits, is_valid_hex_id,
}

-- The name has no character that ends a quoted string or a header line.
abbrev pub IsQuotable : Text → Type 0
IsQuotable s = HasNo quote s × HasNo carriage_return s × HasNo line_feed s

abbrev step : ℕ → ℕ
step c = if c == quote then b'\'' else c

abbrev stays : ℕ → Bool
stays c = not ((c == carriage_return) || (c == line_feed))

sanitize_for_header-IsQuotable : (name : Text) → IsQuotable (sanitize_for_header name)
unfolding sanitize_for_header filter_if
sanitize_for_header-IsQuotable [] = (tt, tt, tt)
sanitize_for_header-IsQuotable (c ∷ s) =
    let (q, r, l) = sanitize_for_header-IsQuotable s in
    elim (Bool-cases (stays (step c))) [
      | inr gone ↦ rw (filter_if, gone) (q, r, l)
      | inl kept ↦
          rw (filter_if, kept)
            ((ground arith, q), (ground (arith, kept), r), (ground (arith, kept), l))
    ]

-- A name without a quote, carriage return or line feed goes into the headers as it is.
pub sanitize_for_header-same : (name : Text) → IsQuotable name → sanitize_for_header name ≡ name
unfolding sanitize_for_header filter_if
sanitize_for_header-same [] p = refl
sanitize_for_header-same (c ∷ s) p =
    rw (p.0.0, p.1.0, p.2.0) (ap (◌∷◌ c) (sanitize_for_header-same s (p.0.1, p.1.1, p.2.1)))

-- Whatever the name of a file, the headers that carry it are one quoted string, on one line: the name
-- between their quotes has no quote, carriage return or line feed.
pub disposition_quoted :
    (name : Text)
    → (safe : Text) × (inline_disposition name
        ≡ codes "inline; filename=\"" ++ (safe ++ (quote ∷ [])))
      × (attachment_disposition name ≡ codes "attachment; filename=\"" ++ (safe ++ (quote ∷ [])))
      × IsQuotable safe
unfolding inline_disposition attachment_disposition
disposition_quoted name =
    (sanitize_for_header name, refl, refl, sanitize_for_header-IsQuotable name)

all_xdigits-HasNo : (x : ℕ) (s : Text) → is_xdigit x ≡ false → all_xdigits s ≡ true → HasNo x s
all_xdigits-HasNo x [] e h = tt
all_xdigits-HasNo x (c ∷ s) e h = (
  ground (arith, e, h, ap is_xdigit {x = c} {y = x}),
  all_xdigits-HasNo x s e (ground (arith, h)),
)

-- A valid hex id is not empty, and has no slash, backslash, dot or zero byte.
pub is_valid_hex_id-HasNo :
    (id : Text)
    → is_valid_hex_id id ≡ true
    → (is_nil id ≡ false) × HasNo b'/' id × HasNo b'\\' id × HasNo b'.' id × HasNo 0 id
unfolding is_valid_hex_id is_xdigit
is_valid_hex_id-HasNo id h =
    let digits : all_xdigits id ≡ true = ground (arith, h) in
    (
      ground (arith, h),
      all_xdigits-HasNo b'/' id refl digits,
      all_xdigits-HasNo b'\\' id refl digits,
      all_xdigits-HasNo b'.' id refl digits,
      all_xdigits-HasNo 0 id refl digits,
    )
