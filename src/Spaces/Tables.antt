-- ===== src/Spaces/Tables.antt =====
-- backend/src/db/database.cpp: the queries and updates of the members of spaces. An
-- id is given as the database reads it.
use enclave_station.Base.{
  ℕ, Bool, not, ◌&&◌, List, [], ◌∷◌, ◌++◌, map, if◌then◌else◌, ◌==◌, text_keys, Text, codes,
  filter_if, any_if,
}
use enclave_station.Chat.Store.{Db, Channel, Member, row_of}
use enclave_station.Channels.Tables.{has_row, with_role, in_role, count_rows}

unfoldable pub space_role_rank : Text → ℕ
space_role_rank role = if role == codes "owner" then 2 else if role == codes "admin" then 1 else 0

unfoldable pub is_space_member : Db → Text → Text → Bool
unfolding has_row
is_space_member db space user = has_row space user db.space_members

unfoldable pub count_space_members_with_role : Db → Text → Text → ℕ
unfolding count_rows
count_space_members_with_role db space role = count_rows (in_role space role) db.space_members

-- `SELECT id FROM channels WHERE space_id = $1`, as a test of an id.
unfoldable pub in_space : Text → List Channel → Text → Bool
in_space space channels id = any_if (λ ch. (ch.id == id) && (ch.space_id == space)) channels

unfoldable pub remove_space_member : Db → Text → Text → Db
unfolding in_space
remove_space_member db space user = record db {
  channel_members =
      filter_if (λ m. not ((m.user_id == user) && in_space space db.channels m.group))
        db.channel_members;
  space_members = filter_if (λ m. not (row_of space user m)) db.space_members;
}

unfoldable pub update_space_member_role : Db → Text → Text → Text → Db
update_space_member_role db space user role = record db {
  space_members = map (with_role space user role) db.space_members;
}

-- `JOIN channel_members cm ON c.id = cm.channel_id WHERE cm.user_id = $1`
abbrev pub with_rows : Channel → Text → List Member → List Channel
with_rows ch user [] = []
with_rows ch user (m ∷ ms) =
    let rest = with_rows ch user ms in if row_of ch.id user m then ch ∷ rest else rest

abbrev pub join_rows : Text → List Member → List Channel → List Channel
join_rows user ms [] = []
join_rows user ms (ch ∷ chs) = with_rows ch user ms ++ join_rows user ms chs

unfoldable pub list_user_channels : Db → Text → List Channel
list_user_channels db user = join_rows user db.channel_members db.channels
