-- ===== src/Spaces/Examples.antt =====
-- Requests on the members of a small space, for backend/src/handlers/space_handler.cpp.
use enclave_station.Base.{
  ◌≡◌, ◌≤◌, ◌⊎◌, refl, true, false, not, ◌&&◌, [], ◌∷◌, ◌==◌, text_keys, Text, codes, any_if, find?,
  filter_if, arith,
}
use enclave_station.Chat.Store.{Db, User, Channel, get_space_member_role, find_user_by_id}
use enclave_station.Channels.Tables.{has_row, is_channel_member, count_rows, find_space_by_id}
use enclave_station.Chat.Examples.{generator}
use enclave_station.Channels.Requests.{refused, parsed}
use enclave_station.Channels.Rows.{UniqueRows}
use enclave_station.Spaces.Tables.{
  is_space_member, count_space_members_with_role, in_space, remove_space_member,
}
use enclave_station.Spaces.Handlers.{
  SpaceRequest, remove_user, change_role, run_space, remove_member, leave_space, change_member_role,
  is_space_admin, is_last_owner,
}
use enclave_station.Spaces.Owners.{Ownerless, run_space-Ownerless}
use enclave_station.Spaces.Removal.{drops, remove_member-exact, leave_space-as_removed}
use enclave_station.Spaces.Ranks.{SpaceRoleChange, run_space-RoleChange}

abbrev person : Text → User
person id = record { id = id; username = id; role = codes "user" }

abbrev hall : Channel
hall = record {
  id = codes "h";
  name = codes "hall";
  description = [];
  is_direct = false;
  is_public = true;
  default_role = codes "write";
  created_by = codes "o";
  created_at = [];
  space_id = codes "s";
  is_archived = false;
  default_join = true;
}

-- A space with an owner, an admin and a member, all in its only channel.
abbrev club : Db
club = record {
  settings = [];
  users = person (codes "o") ∷ person (codes "a") ∷ person (codes "m") ∷ [];
  channels = hall ∷ [];
  channel_members =
      record { group = codes "h"; user_id = codes "o"; role = codes "admin" }
      ∷ record { group = codes "h"; user_id = codes "a"; role = codes "write" }
      ∷ record { group = codes "h"; user_id = codes "m"; role = codes "write" }
      ∷ [];
  spaces = record { id = codes "s"; is_archived = false; is_personal = false } ∷ [];
  space_members =
      record { group = codes "s"; user_id = codes "o"; role = codes "owner" }
      ∷ record { group = codes "s"; user_id = codes "a"; role = codes "admin" }
      ∷ record { group = codes "s"; user_id = codes "m"; role = codes "user" }
      ∷ [];
  messages = [];
  notifications = [];
  mentions = [];
  reactions = [];
  serial = 0;
}

club-UniqueRows : UniqueRows club.space_members
unfolding UniqueRows has_row any_if
club-UniqueRows = (refl, (refl, (refl, tt)))

club-owner : 1 ≤ count_space_members_with_role club (codes "s") (codes "owner")
unfolding count_space_members_with_role count_rows
club-owner = ground arith

abbrev coup : SpaceRequest
coup = remove_user (codes "s") (codes "o")

-- The admin removes the only owner, whose role the admin may not lower.
club_without_owner :
    count_space_members_with_role
      (run_space generator club (codes "a") coup).db
      (codes "s")
      (codes "owner")
    ≡ 0
unfolding count_space_members_with_role run_space remove_member get_space_member_role find?
    remove_space_member filter_if
club_without_owner = refl

demotion_refused :
    (run_space generator club
      (codes "a")
      (change_role (codes "s") (codes "o") (parsed (codes "user")))).answer
    ≡ refused 403 (codes "Cannot demote a user of equal or higher rank")
unfolding run_space change_member_role get_space_member_role find? find_user_by_id
demotion_refused = refl

run_space-Ownerless_example :
    (1
      ≤ count_space_members_with_role
          (run_space generator club (codes "a") coup).db
          (codes "s")
          (codes "owner"))
    ⊎ Ownerless generator club (codes "a") (codes "s") coup
run_space-Ownerless_example =
    run_space-Ownerless generator club (codes "a") (codes "s") coup club-UniqueRows club-owner

run_space-RoleChange_example : SpaceRoleChange club (codes "o") (codes "s") (codes "m") (
    get_space_member_role
      (run_space generator club
        (codes "o")
        (change_role (codes "s") (codes "m") (parsed (codes "admin")))).db
      (codes "s")
      (codes "m"))
run_space-RoleChange_example =
    run_space-RoleChange generator club (codes "o")
      (change_role (codes "s") (codes "m") (parsed (codes "admin"))) (codes "s") (codes "m")

remove_member-exact_example :
    (is_space_member
        (remove_member generator club (codes "a") (codes "s") (codes "m")).db
        (codes "s")
        (codes "m")
      ≡ (not ((codes "s" == codes "s") && (codes "m" == codes "m"))
          && is_space_member club (codes "s") (codes "m")))
    × ((is_channel_member
            (remove_member generator club (codes "a") (codes "s") (codes "m")).db
            (codes "h")
            (codes "m")
          ≡ (is_channel_member club (codes "h") (codes "m")
              && not ((codes "m" == codes "m") && in_space (codes "s") club.channels (codes "h"))))
        × (any_if
              (drops (codes "m") (codes "h"))
              (remove_member generator club (codes "a") (codes "s") (codes "m")).calls
            ≡ (in_space (codes "s") club.channels (codes "h")
                && is_channel_member club (codes "h") (codes "m"))))
unfolding is_space_admin get_space_member_role find?
remove_member-exact_example =
    remove_member-exact generator club (codes "a") (codes "s") (codes "m") refl refl refl
      (codes "s") (codes "h") (codes "m")

leave_space-as_removed_example :
    (is_space_member (leave_space generator club (codes "m") (codes "s")).db (codes "s") (codes "m")
      ≡ is_space_member (remove_space_member club (codes "s") (codes "m")) (codes "s") (codes "m"))
    × ((is_channel_member
            (leave_space generator club (codes "m") (codes "s")).db
            (codes "h")
            (codes "m")
          ≡ is_channel_member
              (remove_space_member club (codes "s") (codes "m"))
              (codes "h")
              (codes "m"))
        × (any_if
              (drops (codes "m") (codes "h"))
              (leave_space generator club (codes "m") (codes "s")).calls
            ≡ (in_space (codes "s") club.channels (codes "h")
                && is_channel_member club (codes "h") (codes "m"))))
unfolding find_space_by_id find? is_space_member any_if is_last_owner get_space_member_role
leave_space-as_removed_example =
    leave_space-as_removed generator club (codes "m") (codes "s") refl refl refl refl refl
      (codes "s") (codes "h") (codes "m")
