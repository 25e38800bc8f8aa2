-- ===== src/Channels/Tables.antt =====
-- backend/src/db/database.cpp: the queries and updates of channels and of their members. An insertion
-- that a foreign key refuses throws and is none. An id is given as the database reads it: the handlers
-- that also use the text of a request apply `cast`. That a text which is no uuid throws, and that a text
-- fits in its column, is not modelled.
use enclave_station.Base.{
  ℕ, suc, Bool, true, false, not, ◌&&◌, ◌||◌, Option, none, some, List, [], ◌∷◌, ◌++◌, map,
  if◌then◌else◌, ◌==◌, text_keys, nat_keys, Text, codes, find?, filter_if, any_if,
}
use enclave_station.Chat.Store.{Generator, Db, User, Channel, Space, Member, row_of}

-- `role == "admin" || role == "write" || role == "read"`
abbrev pub is_channel_role : Text → Bool
is_channel_role role =
    if role == codes "admin"
    then true
    else (if role == codes "write" then true else role == codes "read")

unfoldable pub channel_role_rank : Text → ℕ
channel_role_rank role = if role == codes "admin" then 2 else if role == codes "write" then 1 else 0

unfoldable pub has_row : Text → Text → List Member → Bool
has_row channel user rows = any_if (row_of channel user) rows

unfoldable pub is_channel_member : Db → Text → Text → Bool
unfolding has_row
is_channel_member db channel user = has_row channel user db.channel_members

-- `INSERT … ON CONFLICT DO NOTHING`, by the primary key.
unfoldable pub insert_member : Text → Text → Text → List Member → List Member
unfolding has_row
insert_member channel user role rows =
    if has_row channel user rows
    then rows
    else rows ++ record { group = channel; user_id = user; role = role } ∷ []

-- The foreign keys of a new row.
abbrev pub has_user : Db → Text → Bool
has_user db user = any_if (λ u. u.id == user) db.users

abbrev pub has_channel : Db → Text → Bool
has_channel db channel = any_if (λ c. c.id == channel) db.channels

unfoldable pub add_channel_member : Db → Text → Text → Text → Option Db
unfolding insert_member has_row
add_channel_member db channel user role =
    if has_row channel user db.channel_members || (has_channel db channel && has_user db user)
    then some (record db { channel_members = insert_member channel user role db.channel_members })
    else none

unfoldable pub remove_channel_member : Db → Text → Text → Db
remove_channel_member db channel user = record db {
  channel_members = filter_if (λ m. not (row_of channel user m)) db.channel_members;
}

abbrev pub with_role : Text → Text → Text → Member → Member
with_role channel user role m = if row_of channel user m then record m { role = role } else m

unfoldable pub update_member_role : Db → Text → Text → Text → Db
update_member_role db channel user role = record db {
  channel_members = map (with_role channel user role) db.channel_members;
}

abbrev pub in_role : Text → Text → Member → Bool
in_role channel role m = (m.group == channel) && (m.role == role)

unfoldable pub count_rows : (Member → Bool) → List Member → ℕ
count_rows test [] = 0
count_rows test (m ∷ ms) = let rest = count_rows test ms in if test m then suc rest else rest

unfoldable pub count_channel_members_with_role : Db → Text → Text → ℕ
unfolding count_rows
count_channel_members_with_role db channel role =
    count_rows (in_role channel role) db.channel_members

abbrev pub in_channel : Text → Member → Bool
in_channel channel m = m.group == channel

unfoldable pub count_channel_members : Db → Text → ℕ
unfolding count_rows
count_channel_members db channel = count_rows (in_channel channel) db.channel_members

unfoldable pub get_channel_member_ids : Db → Text → List Text
get_channel_member_ids db channel =
    map (λ m. m.user_id) (filter_if (in_channel channel) db.channel_members)

-- A row of the list that clients are sent, less the display name and the presence.
pub record MemberInfo : Type 0 where
  pub user_id : Text
  pub username : Text
  pub role : Text

abbrev pub infos_of : Member → List User → List MemberInfo
infos_of m [] = []
infos_of m (u ∷ us) =
    let rest = infos_of m us in
    if u.id == m.user_id
    then record { user_id = u.id; username = u.username; role = m.role } ∷ rest
    else rest

abbrev pub all_infos : Text → List User → List Member → List MemberInfo
all_infos channel us [] = []
all_infos channel us (m ∷ ms) =
    let rest = all_infos channel us ms in if m.group == channel then infos_of m us ++ rest else rest

-- In the order of the rows: the query sorts by role and username.
unfoldable pub get_channel_members_with_roles : Db → Text → List MemberInfo
get_channel_members_with_roles db channel = all_infos channel db.users db.channel_members

unfoldable pub find_space_by_id : Db → Text → Option Space
find_space_by_id db id = find? (λ s. s.id == id) db.spaces

-- `UPDATE channels SET … WHERE id = $1`
unfoldable pub change_channel : Text → (Channel → Channel) → Db → Db
change_channel id change db = record db {
  channels = map (λ c. if c.id == id then change c else c) db.channels;
}

unfoldable pub archive_channel : Db → Text → Db
unfolding change_channel
archive_channel db id = change_channel id (λ c. record c { is_archived = true }) db

unfoldable pub unarchive_channel : Db → Text → Db
unfolding change_channel
unarchive_channel db id = change_channel id (λ c. record c { is_archived = false }) db

-- The fields of `update_channel`.
pub record Settings : Type 0 where
  pub name : Text
  pub description : Text
  pub is_public : Bool
  pub default_role : Text
  pub default_join : Bool

abbrev pub settled : Settings → Channel → Channel
settled new c = record c {
  name = new.name;
  description = new.description;
  is_public = new.is_public;
  default_role = new.default_role;
  default_join = new.default_join;
}

unfoldable pub update_channel : Db → Text → Settings → Option (Db × Channel)
unfolding change_channel
update_channel db id new =
    let db' = change_channel id (settled new) db in
    elim (find? (λ c. c.id == id) db'.channels) [ none ↦ none | some c ↦ some (db', c) ]

-- `WHERE c.is_direct = true AND EXISTS … AND EXISTS … AND (SELECT COUNT(*) …) = CASE …`
abbrev pub is_dm_of : Db → Text → Text → Channel → Bool
is_dm_of db user1 user2 c =
    (c.is_direct && (is_channel_member db c.id user1 && is_channel_member db c.id user2))
    && (count_channel_members db c.id == (if user1 == user2 then 1 else 2))

unfoldable pub find_dm_channel : Db → Text → Text → Option Channel
unfolding is_channel_member has_row count_channel_members count_rows
find_dm_channel db user1 user2 = find? (is_dm_of db user1 user2) db.channels

-- The loop of `create_channel` over the members: the creator of a channel that is not direct is its
-- admin.
unfoldable pub insert_members :
    (is_direct : Bool) (channel created_by default_role : Text)
    → List Text
    → List Member
    → List Member
unfolding insert_member has_row
insert_members is_direct channel created_by default_role [] rows = rows
insert_members is_direct channel created_by default_role (id ∷ ids) rows =
    let role = if not is_direct && (id == created_by) then codes "admin" else default_role in
    insert_members is_direct channel created_by default_role ids
      (insert_member channel id role rows)

abbrev pub all_users : Db → List Text → Bool
all_users db [] = true
all_users db (id ∷ ids) = has_user db id && all_users db ids

-- The arguments of `create_channel`, less the space, which is none.
pub record NewChannel : Type 0 where
  pub name : Text
  pub description : Text
  pub is_direct : Bool
  pub created_by : Text
  pub member_ids : List Text
  pub is_public : Bool
  pub default_role : Text

module _ (gen : Generator) where
  abbrev pub new_channel_row : Db → NewChannel → Channel
  new_channel_row db new = record {
    id = gen.uuid db.serial;
    name = new.name;
    description = new.description;
    is_direct = new.is_direct;
    is_public = new.is_public;
    default_role = new.default_role;
    created_by = new.created_by;
    created_at = gen.now db.serial;
    space_id = [];
    is_archived = false;
    default_join = false;
  }

  -- One transaction: when it throws, nothing is inserted.
  unfoldable pub create_channel : Db → NewChannel → Option (Db × Channel)
  unfolding insert_members insert_member has_row
  create_channel db new =
      let c = new_channel_row db new in
      if has_user db new.created_by && all_users db new.member_ids
      then some (
        record db {
          channels = db.channels ++ c ∷ [];
          channel_members =
              insert_members new.is_direct c.id new.created_by new.default_role new.member_ids
                db.channel_members;
          serial = suc db.serial;
        },
        c,
      )
      else none
