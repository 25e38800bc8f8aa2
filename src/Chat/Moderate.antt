-- ===== src/Chat/Moderate.antt =====
-- `handle_edit_message`, `handle_delete_message`, `handle_add_reaction` and
-- `handle_remove_reaction` of backend/src/ws/ws_handler.cpp, and the role ranks of
-- backend/src/handlers/handler_utils.cpp. A job that throws does nothing more: the worker thread logs
-- the exception.
pub mod Laws
use enclave_station.Base.{
  ℕ, Bool, true, false, not, ◌&&◌, ◌||◌, Option, none, some, List, [], ◌∷◌, if◌then◌else◌, ◌==◌,
  text_keys, Text, codes, is_nil, find?,
}
use enclave_station.Chat.Store.{
  Generator, Db, User, Message, Ownership, find_user_by_id, get_effective_role,
  get_message_ownership, edit_message, delete_message, admin_delete_message, add_reaction,
  remove_reaction, is_admin, is_admin_user, has_id,
}
use enclave_station.Chat.Events.{
  Event, error_event, message_edited, message_deleted, reaction_added, reaction_removed, Outgoing,
  to_user, to_channel,
}

unfoldable pub server_role_rank : Text → ℕ
server_role_rank role = if role == codes "owner" then 2 else if role == codes "admin" then 1 else 0

-- What a job leaves: the database, what is sent, and the blobs that are removed from the storage.
pub record Done : Type 0 where
  pub db : Db
  pub sent : List Outgoing
  pub removed : List Text

abbrev pub refuse : Db → Text → Text → Done
refuse db user why = record { db = db; sent = to_user user (error_event why) ∷ []; removed = [] }

abbrev pub edit_done : Db → Option (Db × Message) → Done
edit_done db none = record { db = db; sent = []; removed = [] }
edit_done db (some (db', m)) = record {
  db = db';
  sent = to_channel m.channel_id (message_edited m) ∷ [];
  removed = [];
}

-- `handle_edit_message`
unfoldable pub edit_message_job : Generator → Db → Text → Text → Text → Done
edit_message_job gen db user id content =
    if is_nil content
    then record { db = db; sent = []; removed = [] }
    else edit_done db (edit_message gen db id user content)

-- The end of `handle_delete_message`: the attachment goes with the message.
abbrev pub delete_done : Bool → Db → Option (Db × Message) → Done
delete_done storage db none = record { db = db; sent = []; removed = [] }
delete_done storage db (some (db', m)) = record {
  db = db';
  sent = to_channel m.channel_id (message_deleted m) ∷ [];
  removed = if not (is_nil m.file_id) && storage then m.file_id ∷ [] else [];
}

-- Whether the author of a message is out of the reach of a user with the role.
unfoldable pub is_blocked : Option User → Text → Bool
is_blocked none role = false
is_blocked (some author) role =
    (author.role == codes "owner")
    || ((author.role == codes "admin") && not (role == codes "owner"))

unfoldable pub moderate : Bool → Db → Text → Text → Text → Ownership → Done
unfolding is_blocked
moderate storage db user role id o =
    let effective = get_effective_role db o.channel_id user in
    let refused = refuse db user (codes "You don't have permission to delete this message") in
    if not (effective == codes "admin") && not (effective == codes "owner")
    then refused
    else if is_blocked (find_user_by_id db o.user_id) role
    then refused
    else delete_done storage db (admin_delete_message db id)

-- `handle_delete_message`; `role` is the one that the connection was opened with.
unfoldable pub delete_message_job : Bool → Db → Text → Text → Text → Done
delete_message_job storage db user role id = elim (get_message_ownership db id) [
  | none ↦ refuse db user (codes "Message not found")
  | some o ↦
      if o.user_id == user
      then delete_done storage db (delete_message db id user)
      else moderate storage db user role id o
]

abbrev pub channel_in : Option Message → Text
channel_in none = []
channel_in (some m) = m.channel_id

-- `get_message_channel_id`
unfoldable pub get_message_channel_id : Db → Text → Text
get_message_channel_id db id = channel_in (find? (has_id id) db.messages)

-- `handle_add_reaction` and `handle_remove_reaction`
unfoldable pub add_reaction_job : Db → Text → Text → Text → Text → Done
add_reaction_job db user username id emoji =
    let channel = get_message_channel_id db id in
    record {
      db = add_reaction db id user emoji;
      sent = to_channel channel (reaction_added id channel emoji user username) ∷ [];
      removed = [];
    }

unfoldable pub remove_reaction_job : Db → Text → Text → Text → Text → Done
remove_reaction_job db user username id emoji =
    let channel = get_message_channel_id db id in
    record {
      db = remove_reaction db id user emoji;
      sent = to_channel channel (reaction_removed id channel emoji user username) ∷ [];
      removed = [];
    }
