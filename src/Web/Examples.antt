-- ===== src/Web/Examples.antt =====
-- The theorems about requests at concrete inputs.
use enclave_station.Base.{
  ◌≡◌, refl, ◌⊎◌, true, false, not, ◌&&◌, List, [], ◌∷◌, if◌then◌else◌, nat_keys, text_keys, Text,
  codes, is_nil, lookup, length,
}
use enclave_station.Chat.Store.{find_user_by_id}
use enclave_station.Chat.Examples.{home}
use enclave_station.Web.Cookies.{HttpRequest, extract_session_token, csrf_ok, or_empty, is_token}
use enclave_station.Web.Cookies.Laws.{AreCookies, cookies_read}
use enclave_station.Web.Guards.{
  Site, validate_session_or_401, validate_admin_or_403, validate_owner_or_403, has_admin_role,
  has_owner_role,
}
use enclave_station.Web.Guards.Laws.{Denied, Granted, guards_deny_or_grant}
use enclave_station.Web.Bodies.{no_upload, fits, receive, join, receive-exact}

abbrev cookies : List (Text × Text)
cookies = (codes "a", codes "1") ∷ (codes "session", codes "S") ∷ (codes "csrf", codes "C") ∷ []

abbrev pub request : HttpRequest
request = record {
  method = codes "post";
  cookie = codes "a=1; session=S; csrf=C";
  x_csrf_token = codes "C";
}

cookies-AreCookies : AreCookies cookies
cookies-AreCookies = (
  (refl, ((refl, tt), ((refl, tt), (refl, tt)))),
  (
    (refl, tt),
    (
      (
        refl,
        (
          (refl, (refl, (refl, (refl, (refl, (refl, (refl, tt))))))),
          (
            (refl, (refl, (refl, (refl, (refl, (refl, (refl, tt))))))),
            (refl, (refl, (refl, (refl, (refl, (refl, (refl, tt))))))),
          ),
        ),
      ),
      (
        (refl, tt),
        (
          (
            refl,
            (
              (refl, (refl, (refl, (refl, tt)))),
              ((refl, (refl, (refl, (refl, tt)))), (refl, (refl, (refl, (refl, tt))))),
            ),
          ),
          ((refl, tt), tt),
        ),
      ),
    ),
  ),
)

cookies_read_example :
    (extract_session_token request ≡ or_empty (lookup (codes "session") cookies))
    × (csrf_ok request ≡ (
        not (is_nil request.x_csrf_token)
        && is_token request.x_csrf_token (lookup (codes "csrf") cookies)))
cookies_read_example = cookies_read request cookies cookies-AreCookies refl

-- A site where user 2, an admin, has a session.
abbrev site : Site
site = record {
  db = home;
  sessions = record { token = codes "S"; user_id = codes "2"; expires_at = 5 } ∷ [];
  banned = [];
  now = 3;
}

guards_deny_or_grant_example :
    let s = validate_session_or_401 site request in
    let a = validate_admin_or_403 site request in
    let o = validate_owner_or_403 site request in
    (Denied s ⊎ Granted site request s)
    × (Denied a ⊎ (Granted site request a × (has_admin_role (find_user_by_id site.db a.0) ≡ true)))
    × (Denied o ⊎ (Granted site request o × (has_owner_role (find_user_by_id site.db o.0) ≡ true)))
guards_deny_or_grant_example = guards_deny_or_grant site request

receive-exact_example :
    let u = receive 4 (codes "abc" ∷ codes "de" ∷ codes "f" ∷ []) no_upload in
    let whole = fits 4 (length (join (codes "abc" ∷ codes "de" ∷ codes "f" ∷ []))) in
    (u.aborted ≡ not whole)
    × (u.refusals ≡ (if whole then 0 else 1))
    × ((u.body ≡ join (codes "abc" ∷ codes "de" ∷ codes "f" ∷ [])) ⊎ (whole ≡ false))
    × (fits 4 (length u.body) ≡ true)
receive-exact_example = receive-exact 4 (codes "abc" ∷ codes "de" ∷ codes "f" ∷ [])
