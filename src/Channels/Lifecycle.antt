-- ===== src/Channels/Lifecycle.antt =====
-- The rest of the routes of backend/src/handlers/channel_handler.cpp: settings, leaving, the archive,
-- and new channels.
use enclave_station.Base.{
  Bool, true, false, not, ◌&&◌, ◌||◌, Option, none, some, List, [], ◌∷◌, ◌++◌, map, if◌then◌else◌,
  ◌==◌, nat_keys, text_keys, leb, Text, codes, is_nil, filter_if,
}
use enclave_station.Chat.Store.{
  Generator, Db, User, Channel, Space, find_user_by_id, find_channel_by_id, get_member_role,
  get_space_member_role, get_effective_role, is_admin_user,
}
use enclave_station.Channels.Tables.{
  is_channel_role, is_channel_member, remove_channel_member, count_channel_members_with_role,
  count_channel_members, get_channel_member_ids, get_channel_members_with_roles, MemberInfo,
  find_space_by_id, archive_channel, unarchive_channel, Settings, update_channel, find_dm_channel,
  NewChannel, create_channel,
}
use enclave_station.Channels.Requests.{
  Body, value, UpdateBody, CreateBody, ChannelEvent, channel_added, direct_added, channel_removed,
  settings_changed, archive_changed, member_left, WsCall, subscribe, unsubscribe, notify, broadcast,
  subscribe_admins, done, updated, created, direct_channel, Outcome, refuse,
}
use enclave_station.Channels.Handlers.{needs_admin, failure, no_channel, with_body}

abbrev pub new_settings : Channel → UpdateBody → Settings
new_settings current j = record {
  name = value j.name current.name;
  description = value j.description current.description;
  is_public = value j.is_public current.is_public;
  default_role = value j.default_role current.default_role;
  default_join = value j.default_join current.default_join;
}

abbrev pub settings_done : Db → Text → Option (Db × Channel) → Outcome
settings_done db channel none = failure db
settings_done db channel (some (db', ch)) = record {
  db = db';
  answer = updated ch;
  calls = broadcast channel (settings_changed ch) ∷ [];
}

-- `PUT /api/channels/:id`
unfoldable pub update : Db → Text → Text → Body UpdateBody → Outcome
update db user channel body =
    if not (get_effective_role db channel user == codes "admin")
    then needs_admin db
    else elim (find_channel_by_id db channel) [
      | none ↦ no_channel db
      | some current ↦
          with_body db body
            λ j. settings_done db channel (update_channel db channel (new_settings current j))
    ]

-- A direct conversation is archived when at most one member remains.
unfoldable pub leave_direct : Db → Text → Text → Outcome
leave_direct db user channel =
    let db' = remove_channel_member db channel user in
    let should_archive = leb (count_channel_members db' channel) 1 in
    record {
      db = if should_archive then archive_channel db' channel else db';
      answer = done;
      calls =
          unsubscribe user channel
            ∷ (if should_archive then broadcast channel (archive_changed channel true) ∷ [] else [])
          ++ broadcast channel (member_left channel user)
            ∷ notify user (archive_changed channel true)
            ∷ [];
    }

unfoldable pub leave_regular : Db → Text → Text → Channel → Outcome
leave_regular db user channel ch =
    if ((get_member_role db channel user == codes "admin") && not ch.is_archived)
      && leb (count_channel_members_with_role db channel (codes "admin")) 1
    then refuse db 400 (codes "You are the last admin. Assign a new admin or archive the channel.")
    else record {
      db = remove_channel_member db channel user;
      answer = done;
      calls =
          unsubscribe user channel
          ∷ broadcast channel (member_left channel user)
          ∷ notify user (channel_removed channel)
          ∷ [];
    }

-- `POST /api/channels/:id/leave`
unfoldable pub leave : Db → Text → Text → Outcome
unfolding leave_direct leave_regular
leave db user channel =
    if not (is_channel_member db channel user)
    then refuse db 400 (codes "Not a member")
    else elim (find_channel_by_id db channel) [
      | none ↦ no_channel db
      | some ch ↦
          if ch.is_direct then leave_direct db user channel else leave_regular db user channel ch
    ]

abbrev pub space_role : Db → Text → Option Channel → Text
space_role db user none = []
space_role db user (some ch) =
    if is_nil ch.space_id then [] else get_space_member_role db ch.space_id user

-- Whether the user may archive the channel.
unfoldable pub may_archive : Db → Text → Text → Bool
may_archive db user channel =
    (get_effective_role db channel user == codes "admin")
    || (is_admin_user (find_user_by_id db user)
        || (space_role db user (find_channel_by_id db channel) == codes "owner"))

abbrev pub archived_to : Db → Text → Bool → Outcome
archived_to db channel on = record {
  db = db;
  answer = done;
  calls = broadcast channel (archive_changed channel on) ∷ [];
}

-- `POST /api/channels/:id/archive`
unfoldable pub archive : Db → Text → Text → Outcome
unfolding may_archive
archive db user channel =
    if not (may_archive db user channel)
    then refuse db 403 (codes "Permission denied")
    else archived_to (archive_channel db channel) channel true

abbrev pub is_archived_space : Option Space → Bool
is_archived_space none = false
is_archived_space (some sp) = sp.is_archived

abbrev pub parent_archived : Db → Option Channel → Bool
parent_archived db none = false
parent_archived db (some ch) =
    not (is_nil ch.space_id) && is_archived_space (find_space_by_id db ch.space_id)

-- `POST /api/channels/:id/unarchive`
unfoldable pub unarchive : Db → Text → Text → Outcome
unfolding may_archive
unarchive db user channel =
    if parent_archived db (find_channel_by_id db channel)
    then refuse db 400 (codes "Cannot unarchive: parent space is archived")
    else if not (may_archive db user channel)
    then refuse db 403 (codes "Permission denied")
    else archived_to (unarchive_channel db channel) channel false

abbrev pub subscriptions : Text → List Text → List WsCall
subscriptions channel = map λ id. subscribe id channel

-- What each member but the creator is told.
unfoldable pub added_notices : Db → Text → Channel → List MemberInfo → List Text → List WsCall
added_notices db user ch members [] = []
added_notices db user ch members (id ∷ ids) =
    let rest = added_notices db user ch members ids in
    if id == user
    then rest
    else notify id (channel_added ch (get_effective_role db ch.id id) members) ∷ rest

abbrev pub creation_done : Db → Text → Option (Db × Channel) → Outcome
creation_done db user none = failure db
creation_done db user (some (db', ch)) =
    let members = get_channel_members_with_roles db' ch.id in
    let ids = get_channel_member_ids db' ch.id in
    record {
      db = db';
      answer = created ch members;
      calls =
          subscriptions ch.id ids
          ++ added_notices db' user ch members ids
          ++ subscribe_admins ch.id ∷ [];
    }

abbrev pub users_of : Db → List Text → List User
users_of db [] = []
users_of db (id ∷ ids) =
    let rest = users_of db ids in elim (find_user_by_id db id) [ none ↦ rest | some u ↦ u ∷ rest ]

unfoldable pub direct_calls : Text → Text → ChannelEvent → List Text → List WsCall
direct_calls user channel event [] = []
direct_calls user channel event (id ∷ ids) =
    let rest = direct_calls user channel event ids in
    if id == user
    then subscribe id channel ∷ rest
    else subscribe id channel ∷ notify id event ∷ rest

abbrev pub direct_done : Db → Text → Option (Db × Channel) → Outcome
direct_done db user none = failure db
direct_done db user (some (db', ch)) =
    let ids = get_channel_member_ids db' ch.id in
    record {
      db = db';
      answer = direct_channel ch;
      calls = direct_calls user ch.id (direct_added ch (users_of db' ids)) ids;
    }

module _ (gen : Generator) where
  abbrev pub creation : Text → CreateBody → NewChannel
  creation user j =
      let default_role = value j.default_role (codes "write") in
      record {
        name = j.name;
        description = value j.description [];
        is_direct = false;
        created_by = user;
        member_ids = user ∷ filter_if (λ id. not (id == user)) (value j.member_ids []);
        is_public = value j.is_public true;
        default_role = if is_channel_role default_role then default_role else codes "write";
      }

  -- `handle_create_channel`
  unfoldable pub handle_create_channel : Db → Text → Body CreateBody → Outcome
  handle_create_channel db user body =
      with_body db body λ j. creation_done db user (create_channel gen db (creation user j))

  abbrev pub direct_creation : Text → Text → NewChannel
  direct_creation user other = record {
    name = [];
    description = [];
    is_direct = true;
    created_by = user;
    member_ids = user ∷ other ∷ [];
    is_public = true;
    default_role = codes "write";
  }

  unfoldable pub create_dm_parsed : Db → Text → Text → Outcome
  create_dm_parsed db user other = elim (find_dm_channel db user other) [
    | some existing ↦ record { db = db; answer = direct_channel existing; calls = [] }
    | none ↦ direct_done db user (create_channel gen db (direct_creation user other))
  ]

  -- `handle_create_dm`
  unfoldable pub handle_create_dm : Db → Text → Body Text → Outcome
  unfolding create_dm_parsed
  handle_create_dm db user body = with_body db body (create_dm_parsed db user)
