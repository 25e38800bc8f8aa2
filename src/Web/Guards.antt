-- ===== src/Web/Guards.antt =====
-- The guards of the REST handlers: `validate_session_or_401`, `validate_admin_or_403`,
-- `validate_owner_or_403` and the CSRF wrappers of backend/src/handlers/handler_utils.h, with
-- `validate_session` of backend/src/db/database.cpp. A guard answers the user's id, or "" once it has
-- sent the refusal.
pub mod Laws
use enclave_station.Base.{
  ℕ, Bool, true, false, not, ◌&&◌, ◌||◌, Option, none, some, List, [], ◌∷◌, if◌then◌else◌, ◌==◌,
  text_keys, ltb, Text, codes, find?, any_if, contains,
}
use enclave_station.Chat.Store.{User, Db, find_user_by_id, is_admin}
use enclave_station.Web.Cookies.{
  HttpRequest, extract_session_token, csrf_ok, is_state_changing_method, csrf_required_and_failed,
}

-- A row of `sessions`.
pub record Session : Type 0 where
  pub token : Text
  pub user_id : Text
  pub expires_at : ℕ

-- The tables, with the ids of the users that are banned, and the time.
pub record Site : Type 0 where
  pub db : Db
  pub sessions : List Session
  pub banned : List Text
  pub now : ℕ

-- `WHERE s.token = $1 AND s.expires_at > NOW() AND u.is_banned = false`, joined with `users`
abbrev pub is_live : Site → Text → Session → Bool
is_live site token s =
    ((s.token == token) && ltb site.now s.expires_at)
    && any_if (λ u. (u.id == s.user_id) && not (contains site.banned u.id)) site.db.users

abbrev pub user_of : Option Session → Option Text
user_of none = none
user_of (some s) = some s.user_id

unfoldable pub validate_session : Site → Text → Option Text
validate_session site token = user_of (find? (is_live site token) site.sessions)

pub record Reply : Type 0 where
  pub status : ℕ
  pub body : Text

abbrev pub Guarded : Type 0
Guarded = Text × List Reply

abbrev pub reply : ℕ → Text → Guarded
reply status body = ([], record { status = status; body = body } ∷ [])

abbrev pub unauthorized : Guarded
unauthorized = reply 401 (codes "{\"error\":\"Unauthorized\"}")

abbrev pub csrf_403 : Guarded
csrf_403 = reply 403 (codes "{\"error\":\"CSRF token missing or mismatched\"}")

unfoldable pub validate_session_or_401 : Site → HttpRequest → Guarded
validate_session_or_401 site req = elim (validate_session site (extract_session_token req)) [
  | none ↦ unauthorized
  | some user ↦
      if is_state_changing_method req.method && not (csrf_ok req) then csrf_403 else (user, [])
]

abbrev pub has_admin_role : Option User → Bool
has_admin_role none = false
has_admin_role (some u) = (u.role == codes "admin") || (u.role == codes "owner")

abbrev pub has_owner_role : Option User → Bool
has_owner_role none = false
has_owner_role (some u) = u.role == codes "owner"

unfoldable pub validate_admin_or_403 : Site → HttpRequest → Guarded
validate_admin_or_403 site req = elim (validate_session site (extract_session_token req)) [
  | none ↦ unauthorized
  | some user ↦
      if is_state_changing_method req.method && not (csrf_ok req)
      then csrf_403
      else if not (has_admin_role (find_user_by_id site.db user))
      then reply 403 (codes "{\"error\":\"Admin access required\"}")
      else (user, [])
]

unfoldable pub validate_owner_or_403 : Site → HttpRequest → Guarded
validate_owner_or_403 site req = elim (validate_session site (extract_session_token req)) [
  | none ↦ unauthorized
  | some user ↦
      if is_state_changing_method req.method && not (csrf_ok req)
      then csrf_403
      else if not (has_owner_role (find_user_by_id site.db user))
      then reply 403 (codes "{\"error\":\"Owner access required\"}")
      else (user, [])
]

-- `post_csrf`, `put_csrf` and `del_csrf`, around a handler that answers with replies.
unfoldable pub post_csrf : (HttpRequest → List Reply) → HttpRequest → List Reply
post_csrf handler req = if csrf_required_and_failed req then csrf_403.1 else handler req
