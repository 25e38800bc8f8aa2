-- ===== src/Chat/Store.antt =====
-- backend/src/db/database.{h,cpp}: the tables that messages need, with their queries as searches of
-- a list of rows and their updates as functions on it. A NULL text is "". The ids and timestamps that
-- PostgreSQL generates are a parameter, indexed by the number of rows inserted so far. A query that
-- fails for want of a connection is not modelled.
pub mod Rows
use enclave_station.Base.{
  ℕ, suc, Bool, true, false, not, ◌&&◌, ◌||◌, Option, none, some, List, [], ◌∷◌, ◌++◌,
  if◌then◌else◌, ◌==◌, text_keys, Text, codes, lookup, is_nil, find?, filter_if, any_if,
}
pub use enclave_station.Chat.Store.Rows.{
  User, Channel, Space, Member, Message, Notification, Mention, Reaction, Db, Generator,
}

abbrev pub is_true : Option Text → Bool
is_true none = false
is_true (some v) = v == codes "true"

unfoldable pub is_server_archived : Db → Bool
is_server_archived db = is_true (lookup (codes "server_archived") db.settings)

unfoldable pub is_server_locked_down : Db → Bool
is_server_locked_down db = is_true (lookup (codes "server_locked_down") db.settings)

unfoldable pub find_user_by_id : Db → Text → Option User
find_user_by_id db id = find? (λ u. u.id == id) db.users

unfoldable pub find_channel_by_id : Db → Text → Option Channel
find_channel_by_id db id = find? (λ c. c.id == id) db.channels

-- The role in the first row, or "".
abbrev pub role_in : Option Member → Text
role_in none = []
role_in (some m) = m.role

abbrev pub row_of : Text → Text → Member → Bool
row_of group user m = (m.group == group) && (m.user_id == user)

unfoldable pub get_member_role : Db → Text → Text → Text
get_member_role db channel user = role_in (find? (row_of channel user) db.channel_members)

unfoldable pub get_space_member_role : Db → Text → Text → Text
get_space_member_role db space user = role_in (find? (row_of space user) db.space_members)

abbrev pub is_admin : Text → Bool
is_admin role = (role == codes "admin") || (role == codes "owner")

abbrev pub is_admin_user : Option User → Bool
is_admin_user none = false
is_admin_user (some u) = is_admin u.role

abbrev pub space_of : Option Channel → Text
space_of none = []
space_of (some c) = c.space_id

unfoldable pub get_effective_role : Db → Text → Text → Text
unfolding get_space_member_role get_member_role find_user_by_id find_channel_by_id
get_effective_role db channel user =
    let space = space_of (find_channel_by_id db channel) in
    if is_admin_user (find_user_by_id db user)
    then codes "admin"
    else if not (is_nil space) && is_admin (get_space_member_role db space user)
    then codes "admin"
    else get_member_role db channel user

-- A member of a channel with the username.
pub record ChannelMember : Type 0 where
  pub user_id : Text
  pub username : Text

-- `JOIN users u ON u.id = cm.user_id`: a row for each user with that id.
abbrev pub with_usernames : Text → List User → List ChannelMember
with_usernames user [] = []
with_usernames user (u ∷ us) =
    let rest = with_usernames user us in
    if u.id == user then record { user_id = user; username = u.username } ∷ rest else rest

abbrev pub join_users : Text → List User → List Member → List ChannelMember
join_users channel us [] = []
join_users channel us (m ∷ ms) =
    let rest = join_users channel us ms in
    if m.group == channel then with_usernames m.user_id us ++ rest else rest

unfoldable pub get_channel_member_usernames : Db → Text → List ChannelMember
get_channel_member_usernames db channel = join_users channel db.users db.channel_members

pub record Ownership : Type 0 where
  pub channel_id : Text
  pub user_id : Text

abbrev pub ownership_in : Option Message → Option Ownership
ownership_in none = none
ownership_in (some m) = some (record { channel_id = m.channel_id; user_id = m.user_id })

abbrev pub has_id : Text → Message → Bool
has_id id m = m.id == id

unfoldable pub get_message_ownership : Db → Text → Option Ownership
get_message_ownership db id = ownership_in (find? (has_id id) db.messages)

module _ (gen : Generator) where
  -- The row that `create_message` inserts.
  abbrev pub new_message_row : Db → Text → Text → Text → Text → Message
  new_message_row db channel user content reply_to = record {
    id = gen.uuid db.serial;
    channel_id = channel;
    user_id = user;
    content = content;
    created_at = gen.now db.serial;
    edited_at = [];
    is_deleted = false;
    file_id = [];
    reply_to_message_id = reply_to;
  }

  -- The foreign keys and the text of a new row.
  unfoldable pub is_storable : Db → Message → Bool
  is_storable db m =
      (any_if (λ c. c.id == m.channel_id) db.channels && any_if (λ u. u.id == m.user_id) db.users)
      && ((is_nil m.reply_to_message_id || any_if (has_id m.reply_to_message_id) db.messages)
          && gen.is_text m.content)

  abbrev pub inserted : Db → Message → Db
  inserted db m = record db { messages = db.messages ++ m ∷ []; serial = suc db.serial }

  -- None for an exception.
  unfoldable pub create_message : Db → Text → Text → Text → Text → Option (Db × Message)
  unfolding is_storable
  create_message db channel user content reply_to =
      let m = new_message_row db channel user content reply_to in
      if is_storable db m then some (inserted db m, m) else none

  -- The foreign key of the user and the text of a new row. The rows of its message, with the channel and
  -- the sender, are there.
  unfoldable pub can_notify : List User → (user content : Text) → Bool
  can_notify users user content = any_if (λ u. u.id == user) users && gen.is_text content

  -- The database with the new row, and its id.
  abbrev pub with_notification : Db → Text → Text → Text → Text → Text → Text → Db × Text
  with_notification db user kind source channel message content =
      let n : Notification = record {
        id = gen.uuid db.serial;
        user_id = user;
        kind = kind;
        source_user_id = source;
        channel_id = channel;
        message_id = message;
        content = content;
      } in
      (record db { notifications = db.notifications ++ n ∷ []; serial = suc db.serial }, n.id)

  unfoldable pub create_notification :
      Db → Text → Text → Text → Text → Text → Text → Option (Db × Text)
  unfolding can_notify
  create_notification db user kind source channel message content =
      if can_notify db.users user content
      then some (with_notification db user kind source channel message content)
      else none

-- `UPDATE messages SET … WHERE … RETURNING …`: the new rows, and the first row that was updated.
unfoldable pub update_where :
    (Message → Bool) → (Message → Message) → List Message → List Message × Option Message
update_where test change [] = ([], none)
update_where test change (m ∷ ms) =
    let (rest, first) = update_where test change ms in
    if test m then (change m ∷ rest, some (change m)) else (m ∷ rest, first)

-- The row, or the exception that the row was not found.
abbrev pub with_messages : Db → List Message × Option Message → Option (Db × Message)
with_messages db (ms, none) = none
with_messages db (ms, some m) = some (record db { messages = ms }, m)

abbrev pub own_live : Text → Text → Message → Bool
own_live id user m = ((m.id == id) && (m.user_id == user)) && not m.is_deleted

abbrev pub own : Text → Text → Message → Bool
own id user m = (m.id == id) && (m.user_id == user)

abbrev pub edited : Text → Text → Message → Message
edited content now m = record m { content = content; edited_at = now }

abbrev pub wiped : Message → Message
wiped m = record m { is_deleted = true; content = [] }

unfoldable pub edit_message : Generator → Db → Text → Text → Text → Option (Db × Message)
unfolding update_where
edit_message gen db id user content =
    with_messages db
      (update_where (own_live id user) (edited content (gen.now db.serial)) db.messages)

unfoldable pub delete_message : Db → Text → Text → Option (Db × Message)
unfolding update_where
delete_message db id user = with_messages db (update_where (own id user) wiped db.messages)

unfoldable pub admin_delete_message : Db → Text → Option (Db × Message)
unfolding update_where
admin_delete_message db id = with_messages db (update_where (has_id id) wiped db.messages)

abbrev pub same_reaction : Reaction → Reaction → Bool
same_reaction a b =
    ((a.message_id == b.message_id) && (a.user_id == b.user_id)) && (a.emoji == b.emoji)

abbrev pub has_reaction : Reaction → List Reaction → Bool
has_reaction r [] = false
has_reaction r (x ∷ xs) = same_reaction x r || has_reaction r xs

-- `ON CONFLICT (message_id, user_id, emoji) DO NOTHING`
unfoldable pub add_reaction : Db → Text → Text → Text → Db
add_reaction db message user emoji =
    let r : Reaction = record { message_id = message; user_id = user; emoji = emoji } in
    if has_reaction r db.reactions then db else record db { reactions = db.reactions ++ r ∷ [] }

unfoldable pub remove_reaction : Db → Text → Text → Text → Db
remove_reaction db message user emoji =
    let r : Reaction = record { message_id = message; user_id = user; emoji = emoji } in
    record db { reactions = filter_if (λ x. not (same_reaction x r)) db.reactions }
