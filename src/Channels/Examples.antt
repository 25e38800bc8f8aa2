-- ===== src/Channels/Examples.antt =====
-- The theorems about channels at concrete inputs.
use enclave_station.Base.{
  ◌≡◌, ◌≤◌, refl, ◌⊎◌, false, not, ◌&&◌, [], ◌∷◌, ◌++◌, if◌then◌else◌, nat_keys, text_keys, Text,
  codes, lookup, contains, arith, any_if, find?, filter_if,
}
use enclave_station.Chat.Store.{
  Db, User, Channel, get_member_role, find_user_by_id, get_effective_role,
}
use enclave_station.Chat.Examples.{generator, direct}
use enclave_station.Channels.Tables.{
  count_channel_members_with_role, count_rows, has_row, remove_channel_member, channel_role_rank,
}
use enclave_station.Channels.Requests.{
  is_success, parsed, ChannelEvent, perform, direct_channel, failed,
}
use enclave_station.Channels.Handlers.{kick, set_role, set_role_parsed, demotes_last_admin}
use enclave_station.Channels.Lifecycle.{handle_create_dm}
use enclave_station.Channels.Routes.{ChannelCall, kick_member, set_member_role, run}
use enclave_station.Channels.Rows.{UniqueRows}
use enclave_station.Channels.Roles.{RoleChange, run-RoleChange}
use enclave_station.Channels.Admins.{Orphaned, run-Orphaned}
use enclave_station.Channels.Direct.{both_users, already, handle_create_dm-again}
use enclave_station.Channels.Sockets.{kick-silences}
use enclave_station.Channels.Steps.{MemberStep}
use enclave_station.Channels.Steps.Runs.{run-MemberStep}
use enclave_station.Ws.Hub.{channel_topic, broadcast_to_topic, topics_of}
use enclave_station.Ws.Index.{is_owner}
use enclave_station.Ws.Delivery.{sent_to}
use enclave_station.Ws.Examples.{codec, busy, busy-IsConsistent}

abbrev alice : User
alice = record { id = codes "a"; username = codes "alice"; role = codes "user" }

abbrev boss : User
boss = record { id = codes "b"; username = codes "boss"; role = codes "owner" }

abbrev garden : Channel
garden = record direct { id = codes "g"; is_direct = false }

-- Alice is the only admin, and the only member, of a public channel.
abbrev town : Db
town = record {
  settings = [];
  users = alice ∷ boss ∷ [];
  channels = garden ∷ [];
  channel_members = record { group = codes "g"; user_id = codes "a"; role = codes "admin" } ∷ [];
  spaces = [];
  space_members = [];
  messages = [];
  notifications = [];
  mentions = [];
  reactions = [];
  serial = 0;
}

-- The owner of the server removes her, though she could not be demoted.
abbrev removal : ChannelCall
removal = kick_member (codes "g") (codes "a")

town-UniqueRows : UniqueRows town.channel_members
unfolding UniqueRows has_row any_if
town-UniqueRows = (refl, tt)

run-MemberStep_example :
    MemberStep generator town
      (codes "b")
      (run generator town (codes "b") removal).db.channel_members
run-MemberStep_example = run-MemberStep generator town (codes "b") removal

run-RoleChange_example :
    RoleChange generator town
      (codes "b")
      (codes "g")
      (codes "a")
      (get_member_role (run generator town (codes "b") removal).db (codes "g") (codes "a"))
run-RoleChange_example = run-RoleChange generator town (codes "b") removal (codes "g") (codes "a")

town-admins : 1 ≤ count_channel_members_with_role town (codes "g") (codes "admin")
unfolding count_channel_members_with_role count_rows
town-admins = ground arith

run-Orphaned_example :
    (1
      ≤ count_channel_members_with_role
          (run generator town (codes "b") removal).db
          (codes "g")
          (codes "admin"))
    ⊎ Orphaned generator town
        (codes "b")
        (codes "g")
        (run generator town (codes "b") removal).db.channel_members
run-Orphaned_example =
    run-Orphaned generator town (codes "b") (codes "g") removal town-UniqueRows town-admins

-- The channel is left without an admin, and the demotion that does the same is refused.
orphaned_town :
    (count_channel_members_with_role
        (run generator town (codes "b") removal).db
        (codes "g")
        (codes "admin")
      ≡ 0)
    × (is_success
          (run generator town
            (codes "b")
            (set_member_role (codes "g") (codes "a") (parsed (codes "read")))).answer
        ≡ false)
unfolding run kick set_role set_role_parsed get_effective_role find_user_by_id find? filter_if
    remove_channel_member count_channel_members_with_role count_rows channel_role_rank
    get_member_role demotes_last_admin
orphaned_town = (refl, refl)

handle_create_dm-again_example :
    let once = handle_create_dm generator town (codes "a") (parsed (codes "b")) in
    ((once.answer ≡ failed) × (both_users generator town (codes "a") (codes "b") ≡ false))
    ⊎ ((ch : Channel) × (once.answer ≡ direct_channel ch)
        × (handle_create_dm generator once.db (codes "a") (parsed (codes "b"))
            ≡ already generator town (codes "a") (codes "b") once.db ch)
        × (handle_create_dm generator once.db (codes "b") (parsed (codes "a"))
            ≡ already generator town (codes "a") (codes "b") once.db ch))
unfolding any_if count_rows
handle_create_dm-again_example =
    handle_create_dm-again generator town (codes "a") (codes "b") (refl, refl)

abbrev render : ChannelEvent → Text
render e = codes "event"

kick-silences_example :
    let o = kick generator town (codes "b") (codes "g") (codes "a") in
    let after = perform codec render busy o.calls in
    let reached =
      not (is_owner (codes "a") (lookup 1 busy.conns))
      && contains (topics_of busy 1) (channel_topic (codes "g")) in
    (get_member_role o.db (codes "g") (codes "a") ≡ [])
    × (contains (topics_of after 1) (channel_topic (codes "g")) ≡ reached)
    × (sent_to 1 (broadcast_to_topic after (channel_topic (codes "g")) (codes "hi")).out
        ≡ sent_to 1 after.out ++ (if reached then codes "hi" ∷ [] else []))
unfolding kick get_effective_role find_user_by_id find?
kick-silences_example =
    kick-silences codec render generator town (codes "b") (codes "g") (codes "a") busy 1
      (codes "hi") busy-IsConsistent refl refl refl
