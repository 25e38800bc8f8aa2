-- ===== src/Channels/Handlers.antt =====
-- The routes of backend/src/handlers/channel_handler.cpp that change a channel or its members, each
-- from the point where the session is known.
use enclave_station.Base.{
  Bool, not, ◌&&◌, ◌||◌, Option, none, some, List, [], ◌∷◌, if◌then◌else◌, ◌==◌, nat_keys,
  text_keys, leb, ltb, Text, codes, is_nil,
}
use enclave_station.Chat.Store.{
  Generator, Db, Channel, find_user_by_id, find_channel_by_id, get_member_role,
  get_space_member_role, get_effective_role, is_admin, is_admin_user,
}
use enclave_station.Channels.Tables.{
  is_channel_role, channel_role_rank, add_channel_member, remove_channel_member, update_member_role,
  count_channel_members_with_role, get_channel_members_with_roles,
}
use enclave_station.Channels.Requests.{
  Body, thrown, parsed, value, InviteBody, channel_added, channel_removed, role_changed,
  member_role_changed, WsCall, subscribe, unsubscribe, notify, broadcast, done, failed, silent,
  Outcome, refuse,
}

abbrev pub needs_admin : Db → Outcome
needs_admin db = refuse db 403 (codes "Admin permission required")

abbrev pub failure : Db → Outcome
failure db = record { db = db; answer = failed; calls = [] }

abbrev pub no_channel : Db → Outcome
no_channel db = refuse db 404 (codes "Channel not found")

-- Whether the user may join every channel of the space, or of the server.
unfoldable pub may_join_any : Db → Channel → Text → Bool
may_join_any db ch user =
    (not (is_nil ch.space_id) && is_admin (get_space_member_role db ch.space_id user))
    || is_admin_user (find_user_by_id db user)

abbrev pub joined : Db → Text → Text → Option Db → Outcome
joined db user channel none = record { db = db; answer = silent; calls = [] }
joined db user channel (some db') = record {
  db = db';
  answer = done;
  calls = subscribe user channel ∷ [];
}

-- `POST /api/channels/:id/join`
unfoldable pub join : Db → Text → Text → Outcome
unfolding may_join_any
join db user channel = elim (find_channel_by_id db channel) [
  | none ↦ no_channel db
  | some ch ↦
      let privileged = may_join_any db ch user in
      if ch.is_direct
      then refuse db 400 (codes "Cannot join a DM channel")
      else if not ch.is_public && not privileged
      then refuse db 403 (codes "This is a private channel. You need an invite.")
      else let role = if privileged then codes "admin" else ch.default_role in
        joined db user channel (add_channel_member db channel user role)
]

abbrev pub invite_event : Db → Text → Text → Text → Option Channel → List WsCall
invite_event db channel target role none = []
invite_event db channel target role (some ch) =
    notify target (channel_added ch role (get_channel_members_with_roles db channel)) ∷ []

abbrev pub invited : Db → Text → Text → Text → Option Db → Outcome
invited db channel target role none = failure db
invited db channel target role (some db') = record {
  db = db';
  answer = done;
  calls =
      subscribe target channel
      ∷ invite_event db' channel target role (find_channel_by_id db' channel);
}

abbrev pub default_role_of : Option Channel → Text
default_role_of none = codes "write"
default_role_of (some ch) = ch.default_role

-- The role that an invitation gives.
abbrev pub invited_role : Db → Text → Text → Text
invited_role db channel role =
    if is_nil role then default_role_of (find_channel_by_id db channel) else role

-- `POST /api/channels/:id/members`
unfoldable pub invite_parsed : Db → (role channel : Text) → InviteBody → Outcome
invite_parsed db role channel j =
    let member_role = invited_role db channel (value j.role []) in
    if not (is_channel_role member_role)
    then refuse db 400 (codes "Invalid role. Must be admin, write, or read")
    else if ltb (channel_role_rank role) (channel_role_rank member_role)
    then refuse db 403 (codes "Cannot add a member above your own rank")
    else invited db channel j.user_id member_role
        (add_channel_member db channel j.user_id member_role)

abbrev pub with_body : {A : Type 0} → Db → Body A → (A → Outcome) → Outcome
with_body db (thrown e) handle = refuse db 400 e
with_body db (parsed j) handle = handle j

unfoldable pub invite : Db → Text → Text → Body InviteBody → Outcome
unfolding invite_parsed
invite db user channel body =
    let role = get_effective_role db channel user in
    if not (role == codes "admin")
    then needs_admin db
    else with_body db body (invite_parsed db role channel)

-- `DELETE /api/channels/:id/members/:userId`. The database compares ids as it reads them; the test for
-- the user's own id and the WebSocket calls take the texts of the request.
unfoldable pub kick : Generator → Db → (user channel target : Text) → Outcome
kick gen db user channel target =
    if not (get_effective_role db (gen.cast channel) user == codes "admin")
    then needs_admin db
    else if target == user
    then refuse db 400 (codes "Cannot remove yourself")
    else record {
      db = remove_channel_member db (gen.cast channel) (gen.cast target);
      answer = done;
      calls = unsubscribe target channel ∷ notify target (channel_removed channel) ∷ [];
    }

-- Whether a new role would leave the channel without an admin.
unfoldable pub demotes_last_admin : Db → Text → Text → Text → Bool
demotes_last_admin db channel current_role new_role =
    ((current_role == codes "admin") && not (new_role == codes "admin"))
    && leb (count_channel_members_with_role db channel (codes "admin")) 1

-- `PUT /api/channels/:id/members/:userId`
unfoldable pub set_role_parsed : Db → (user role channel target new_role : Text) → Outcome
unfolding demotes_last_admin
set_role_parsed db user role channel target new_role =
    let current_role = get_member_role db channel target in
    let actor_rank = channel_role_rank role in
    let target_rank = channel_role_rank current_role in
    let new_rank = channel_role_rank new_role in
    if not (is_channel_role new_role)
    then refuse db 400 (codes "Invalid role. Must be admin, write, or read")
    else if ltb actor_rank new_rank
    then refuse db 403 (codes "Cannot promote above your own rank")
    else if (ltb new_rank target_rank && leb actor_rank target_rank) && not (user == target)
    then refuse db 403 (codes "Cannot demote a user of equal or higher rank")
    else if demotes_last_admin db channel current_role new_role
    then refuse db 400 (codes "Cannot demote last admin")
    else record {
      db = update_member_role db channel target new_role;
      answer = done;
      calls =
          notify target (role_changed channel new_role)
          ∷ broadcast channel (member_role_changed channel target new_role)
          ∷ [];
    }

unfoldable pub set_role : Db → Text → Text → Text → Body Text → Outcome
unfolding set_role_parsed
set_role db user channel target body =
    let role = get_effective_role db channel user in
    if not (role == codes "admin")
    then needs_admin db
    else with_body db body (set_role_parsed db user role channel target)
