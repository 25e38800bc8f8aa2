-- ===== src/Channels/Steps.antt =====
-- What the requests of backend/src/handlers/channel_handler.cpp may do to the table
-- `channel_members`, as a step relation that does not mention the requests.
pub mod Entries
pub mod Runs
use enclave_station.Base.{
  ℕ, ◌≡◌, refl, ap, sym, subst, ◌∙◌, ◌≤◌, ◌⊎◌, inl, inr, Bool, true, false, not, ◌&&◌, ◌||◌, Option,
  none, some, List, [], ◌∷◌, ◌++◌, map, if◌then◌else◌, ◌==◌, text_keys, nat_keys, leb, ltb,
  text_eqb_iff, Text, codes, find?, filter_if, is_nil, arith, Bool-cases, Option-cases,
}
use enclave_station.Chat.Store.{
  Generator, Db, Channel, Member, User, row_of, find_channel_by_id, get_effective_role,
  get_member_role, get_space_member_role, find_user_by_id, is_admin, is_admin_user, space_of,
}
use enclave_station.Channels.Tables.{
  is_channel_role, channel_role_rank, is_channel_member, insert_member, insert_members, with_role,
  add_channel_member, remove_channel_member, update_member_role, update_channel,
  count_channel_members_with_role, create_channel, NewChannel, archive_channel, unarchive_channel,
  change_channel, has_row, has_user, has_channel, find_dm_channel,
}
use enclave_station.Channels.Requests.{Body, thrown, parsed, value, InviteBody, Outcome}
use enclave_station.Channels.Handlers.{
  may_join_any, join, joined, invite, invited, invite_parsed, invited_role, kick, set_role,
  set_role_parsed, demotes_last_admin,
}
use enclave_station.Channels.Lifecycle.{
  update, settings_done, new_settings, leave, leave_direct, leave_regular, archive, unarchive,
  may_archive, parent_archived, creation, creation_done, handle_create_channel, direct_creation,
  direct_done, create_dm_parsed, handle_create_dm,
}
use enclave_station.Channels.Routes.{
  ChannelCall, join_channel, invite_member, kick_member, set_member_role, update_settings,
  leave_channel, set_archived, set_unarchived, create_regular, create_direct, run,
}

-- The rows without those of a user in a channel.
abbrev pub without : Text → Text → List Member → List Member
without c u rows = filter_if (λ m. not (row_of c u m)) rows

-- Whether the user is an admin of a channel that has no other admin.
unfoldable pub is_last_admin : Db → Text → Text → Bool
is_last_admin db c u =
    (get_member_role db c u == codes "admin")
    && leb (count_channel_members_with_role db c (codes "admin")) 1

module _ (gen : Generator) (db : Db) (actor : Text) where
  pub data MemberStep : List Member → Type 0 where
    stay : MemberStep db.channel_members
    enter :
        (c : Text) (ch : Channel)
        → find_channel_by_id db c ≡ some ch
        → ch.is_direct ≡ false
        → ch.is_public ≡ true
        → MemberStep (insert_member c actor ch.default_role db.channel_members)
    enter_as_admin :
        (c : Text)
        → get_effective_role db c actor ≡ codes "admin"
        → MemberStep (insert_member c actor (codes "admin") db.channel_members)
    add :
        (c target role : Text)
        → get_effective_role db c actor ≡ codes "admin"
        → is_channel_role role ≡ true
        → MemberStep (insert_member c target role db.channel_members)
    -- The admin did not write the own id; the row is that of the user whom the database reads.
    expel :
        (c text : Text)
        → get_effective_role db c actor ≡ codes "admin"
        → (text == actor) ≡ false
        → MemberStep (without c (gen.cast text) db.channel_members)
    assign :
        (c target role : Text)
        → get_effective_role db c actor ≡ codes "admin"
        → is_channel_role role ≡ true
        → demotes_last_admin db c (get_member_role db c target) role ≡ false
        → MemberStep (map (with_role c target role) db.channel_members)
    exit :
        (c : Text) (ch : Channel)
        → find_channel_by_id db c ≡ some ch
        → (ch.is_direct || (ch.is_archived || not (is_last_admin db c actor))) ≡ true
        → MemberStep (without c actor db.channel_members)
    establish :
        (is_direct : Bool) (created_by default_role : Text) (ids : List Text)
        → MemberStep (
            insert_members is_direct
              (gen.uuid db.serial)
              created_by
              default_role
              ids
              db.channel_members)
