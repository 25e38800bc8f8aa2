-- ===== src/Web/Guards/Laws.antt =====
-- What the guards of backend/src/handlers/handler_utils.h check, and what they send.
use enclave_station.Base.{
  ℕ, ◌≡◌, refl, ap, ◌⊎◌, inl, inr, Bool, true, not, ◌&&◌, ◌||◌, Option, none, some, List, [], ◌∷◌,
  if◌then◌else◌, text_keys, Text, find?, arith, Bool-cases, Option-cases,
}
use enclave_station.Chat.Store.{User, find_user_by_id}
use enclave_station.Web.Cookies.{
  HttpRequest, or_empty, extract_session_token, csrf_ok, is_state_changing_method,
}
use enclave_station.Web.Guards.{
  Session, Site, is_live, validate_session, Guarded, reply, unauthorized, csrf_403,
  validate_session_or_401, has_admin_role, has_owner_role, validate_admin_or_403,
  validate_owner_or_403,
}

-- A session row with the token that has not expired, of a user who exists and is not banned.
abbrev pub IsLive : Site → Text → Text → Type 0
IsLive site token user =
    (s : Session) × (find? (is_live site token) site.sessions ≡ some s)
    × (s.user_id ≡ user)
    × (is_live site token s ≡ true)

some-injective : (s t : Text) → some s ≡ some t → s ≡ t
some-injective s t h = ap or_empty h

find?-passes :
    (test : Session → Bool) (ss : List Session) (s : Session)
    → find? test ss ≡ some s
    → test s ≡ true
unfolding find?
find?-passes test [] s h = ground arith
find?-passes test (x ∷ xs) s h = ground (arith, find?-passes test xs s, ap test {x = x} {y = s})

validate_session-IsLive :
    (site : Site) (token user : Text)
    → validate_session site token ≡ some user
    → IsLive site token user
unfolding validate_session
validate_session-IsLive site token user h =
    elim (Option-cases (find? (is_live site token) site.sessions)) [
      | inl missing ↦ absurd (ground (arith, h, missing))
      | inr (s, found) ↦ (
        s,
        found,
        some-injective s.user_id user (rw found at h),
        find?-passes (is_live site token) site.sessions s found,
      )
    ]

-- One refusal has been sent, and no user is answered.
abbrev pub Denied : Guarded → Type 0
Denied g =
    (g.0 ≡ [])
    × ((status : ℕ) × (body : Text) × ((status ≡ 401) ⊎ (status ≡ 403))
        × (g.1 ≡ record { status = status; body = body } ∷ []))

-- Nothing has been sent, and the user that is answered has a live session; a method that changes
-- state has passed the CSRF test.
abbrev pub Granted : Site → HttpRequest → Guarded → Type 0
Granted site req g =
    (g.1 ≡ [])
    × IsLive site (extract_session_token req) g.0
    × (not (is_state_changing_method req.method) || csrf_ok req ≡ true)

validate_session_or_401-cases :
    (site : Site) (req : HttpRequest)
    → let g = validate_session_or_401 site req in Denied g ⊎ Granted site req g
unfolding validate_session_or_401
validate_session_or_401-cases site req =
    elim (Option-cases (validate_session site (extract_session_token req))) [
      | inl missing ↦ inl (rw (validate_session_or_401, missing) (refl, (401, _, inl refl, refl)))
      | inr (user, found) ↦
          elim (Bool-cases (is_state_changing_method req.method && not (csrf_ok req))) [
            | inl forged ↦
                inl (rw (validate_session_or_401, found, forged) (refl, (403, _, inr refl, refl)))
            | inr safe ↦ inr (
                rw (validate_session_or_401, found, safe)
                  (
                    refl,
                    validate_session-IsLive site (extract_session_token req) user found,
                    ground (arith, safe),
                  ))
          ]
    ]

-- A guard that asks for a role, too.
abbrev role_guard : (Option User → Bool) → Text → Site → HttpRequest → Guarded
role_guard has_role why site req = elim (validate_session site (extract_session_token req)) [
  | none ↦ unauthorized
  | some user ↦
      if is_state_changing_method req.method && not (csrf_ok req)
      then csrf_403
      else if not (has_role (find_user_by_id site.db user))
      then reply 403 why
      else (user, [])
]

role_guard-cases :
    (has_role : Option User → Bool) (why : Text) (site : Site) (req : HttpRequest)
    → let g = role_guard has_role why site req in
      Denied g ⊎ (Granted site req g × (has_role (find_user_by_id site.db g.0) ≡ true))
role_guard-cases has_role why site req =
    elim (Option-cases (validate_session site (extract_session_token req))) [
      | inl missing ↦ inl (rw (role_guard, missing) (refl, (401, _, inl refl, refl)))
      | inr (user, found) ↦
          elim (Bool-cases (is_state_changing_method req.method && not (csrf_ok req))) [
            | inl forged ↦ inl (rw (role_guard, found, forged) (refl, (403, _, inr refl, refl)))
            | inr safe ↦ elim (Bool-cases (has_role (find_user_by_id site.db user))) [
              | inr low ↦ inl (rw (role_guard, found, safe, low) (refl, (403, _, inr refl, refl)))
              | inl ranked ↦ inr (
                  rw (role_guard, found, safe, ranked)
                    (
                      (
                        refl,
                        validate_session-IsLive site (extract_session_token req) user found,
                        ground (arith, safe),
                      ),
                      ranked,
                    ))
            ]
          ]
    ]

-- Each guard of the REST handlers either answers no user and has sent exactly one 401 or 403, or has
-- sent nothing and answers a user with a live session (a row with the token that has not expired, of a
-- user who is not banned), where a method that changes state has passed the CSRF test. The user then
-- has the role admin or owner behind the admin guard, and owner behind the owner guard.
pub guards_deny_or_grant :
    (site : Site) (req : HttpRequest)
    → let s = validate_session_or_401 site req in
      let a = validate_admin_or_403 site req in
      let o = validate_owner_or_403 site req in
      (Denied s ⊎ Granted site req s)
      × (Denied a ⊎ (Granted site req a × (has_admin_role (find_user_by_id site.db a.0) ≡ true)))
      × (Denied o ⊎ (Granted site req o × (has_owner_role (find_user_by_id site.db o.0) ≡ true)))
unfolding validate_admin_or_403 validate_owner_or_403
guards_deny_or_grant site req = (
  validate_session_or_401-cases site req,
  role_guard-cases has_admin_role _ site req,
  role_guard-cases has_owner_role _ site req,
)
