-- ===== src/Spaces/Handlers.antt =====
-- The routes of backend/src/handlers/space_handler.cpp that take a member out of a space or change a
-- member's role, each from the point where the session is known. The flag `last_owner` of a refusal
-- is not modelled. The database compares ids as it reads them (`cast`), while a test of the handler and
-- the WebSocket calls take the text of the request; where a role is changed, the ids are taken to be
-- written the way that the database writes them.
use enclave_station.Base.{
  ℕ, Bool, false, not, ◌&&◌, ◌||◌, Option, none, some, List, [], ◌∷◌, ◌++◌, map, if◌then◌else◌,
  ◌==◌, nat_keys, text_keys, leb, ltb, Text, codes, filter_if,
}
use enclave_station.Chat.Store.{
  Generator, Db, User, Space, find_user_by_id, get_space_member_role, is_admin, is_admin_user,
}
use enclave_station.Channels.Tables.{find_space_by_id, remove_channel_member}
use enclave_station.Channels.Requests.{Body, thrown, parsed, done}
use enclave_station.Spaces.Tables.{
  space_role_rank, is_space_member, count_space_members_with_role, remove_space_member,
  update_space_member_role, list_user_channels,
}
use enclave_station.Spaces.Requests.{
  SpaceCall, unsubscribe_channel, unsubscribe_space, send_user, broadcast_channel, broadcast_space,
  space_removed, space_role_changed, space_member_role_changed, space_member_left,
  channel_member_left, SpaceOutcome, deny,
}

-- Whether the user manages the members of the space.
unfoldable pub is_space_admin : Db → Text → Text → Bool
is_space_admin db space user =
    is_admin (get_space_member_role db space user) || is_admin_user (find_user_by_id db user)

-- The ids of the user's channels in the space, as texts: the database reads `target`, while the space of
-- a channel is compared with the text `space`.
unfoldable pub space_channel_ids : Generator → Db → (space target : Text) → List Text
unfolding list_user_channels
space_channel_ids gen db space target =
    map (λ ch. ch.id)
      (filter_if (λ ch. ch.space_id == space) (list_user_channels db (gen.cast target)))

-- `DELETE /api/spaces/:id/members/:userId`
unfoldable pub remove_member : Generator → Db → (user space target : Text) → SpaceOutcome
unfolding is_space_admin space_channel_ids
remove_member gen db user space target =
    if not (is_space_admin db (gen.cast space) user)
    then deny db 403 (codes "Admin permission required")
    else record {
      db = remove_space_member db (gen.cast space) (gen.cast target);
      answer = done;
      calls =
          map (unsubscribe_channel target) (space_channel_ids gen db space target)
          ++ unsubscribe_space target space ∷ send_user target (space_removed space) ∷ [];
    }

-- The higher of the rank in the space and the rank on the server.
unfoldable pub actor_space_rank : Text → Option User → ℕ
unfolding space_role_rank
actor_space_rank role none = space_role_rank role
actor_space_rank role (some user) =
    if user.role == codes "owner"
    then space_role_rank (codes "owner")
    else if (user.role == codes "admin")
        && ltb (space_role_rank role) (space_role_rank (codes "admin"))
    then space_role_rank (codes "admin")
    else space_role_rank role

abbrev pub is_space_role : Text → Bool
is_space_role role = (role == codes "owner") || ((role == codes "admin") || (role == codes "user"))

unfoldable pub demotes_last_owner : Db → (space current_role new_role : Text) → Bool
demotes_last_owner db space current_role new_role =
    ((current_role == codes "owner") && not (new_role == codes "owner"))
    && leb (count_space_members_with_role db space (codes "owner")) 1

unfoldable pub change_role_parsed : Db → (user space target new_role : Text) → SpaceOutcome
unfolding actor_space_rank demotes_last_owner
change_role_parsed db user space target new_role =
    let actor_rank =
      actor_space_rank (get_space_member_role db space user) (find_user_by_id db user) in
    let current_role = get_space_member_role db space target in
    let target_rank = space_role_rank current_role in
    let new_rank = space_role_rank new_role in
    if not (is_space_role new_role)
    then deny db 400 (codes "Invalid role")
    else if ltb actor_rank new_rank
    then deny db 403 (codes "Cannot promote above your own rank")
    else if (ltb new_rank target_rank && leb actor_rank target_rank) && not (user == target)
    then deny db 403 (codes "Cannot demote a user of equal or higher rank")
    else if demotes_last_owner db space current_role new_role
    then deny db 400 (codes "Cannot demote last owner")
    else record {
      db = update_space_member_role db space target new_role;
      answer = done;
      calls =
          send_user target (space_role_changed space new_role)
          ∷ broadcast_space space (space_member_role_changed space target new_role)
          ∷ [];
    }

abbrev pub with_role_body : Db → Body Text → (Text → SpaceOutcome) → SpaceOutcome
with_role_body db (thrown e) handle = deny db 400 e
with_role_body db (parsed role) handle = handle role

-- `PUT /api/spaces/:id/members/:userId`
unfoldable pub change_member_role : Db → (user space target : Text) → Body Text → SpaceOutcome
unfolding is_space_admin change_role_parsed
change_member_role db user space target body =
    if not (is_space_admin db space user)
    then deny db 403 (codes "Admin permission required")
    else with_role_body db body (change_role_parsed db user space target)

-- `sp && sp->is_personal`
abbrev pub is_personal_space : Option Space → Bool
is_personal_space none = false
is_personal_space (some sp) = sp.is_personal

-- `sp && !sp->is_archived`
abbrev pub is_live_space : Option Space → Bool
is_live_space none = false
is_live_space (some sp) = not sp.is_archived

unfoldable pub remove_from_channels : Db → Text → List Text → Db
remove_from_channels db user [] = db
remove_from_channels db user (id ∷ ids) =
    remove_from_channels (remove_channel_member db id user) user ids

abbrev pub channel_leaves : Text → List Text → List SpaceCall
channel_leaves user [] = []
channel_leaves user (id ∷ ids) =
    unsubscribe_channel user id
    ∷ broadcast_channel id (channel_member_left id user)
    ∷ channel_leaves user ids

unfoldable pub is_last_owner : Db → Text → Text → Bool
is_last_owner db space user =
    (get_space_member_role db space user == codes "owner")
    && leb (count_space_members_with_role db space (codes "owner")) 1

-- `POST /api/spaces/:id/leave`; `user` is the id in the session's row.
unfoldable pub leave_space : Generator → Db → (user space : Text) → SpaceOutcome
unfolding space_channel_ids remove_from_channels is_last_owner
leave_space gen db user space =
    let id = gen.cast space in
    let left = space_channel_ids gen db space user in
    if is_personal_space (find_space_by_id db id)
    then deny db 400 (codes "Cannot leave your personal space")
    else if not (is_space_member db id user)
    then deny db 400 (codes "Not a member")
    else if is_live_space (find_space_by_id db id) && is_last_owner db id user
    then deny db 400 (codes "You are the last owner. Assign a new owner or archive the space.")
    else record {
      db = remove_space_member (remove_from_channels db user left) id user;
      answer = done;
      calls =
          channel_leaves user left
          ++ unsubscribe_space user space
            ∷ broadcast_space space (space_member_left space user)
            ∷ send_user user (space_removed space)
            ∷ [];
    }

pub data SpaceRequest : Type 0 where
  remove_user : (space target : Text) → SpaceRequest
  change_role : (space target : Text) → Body Text → SpaceRequest
  leave_group : (space : Text) → SpaceRequest

unfoldable pub run_space : Generator → Db → Text → SpaceRequest → SpaceOutcome
run_space gen db user (remove_user space target) = remove_member gen db user space target
run_space gen db user (change_role space target body) = change_member_role db user space target body
run_space gen db user (leave_group space) = leave_space gen db user space
