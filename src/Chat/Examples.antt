-- ===== src/Chat/Examples.antt =====
-- The theorems about messages at concrete inputs.
use enclave_station.Base.{
  ◌≡◌, refl, ◌⊎◌, true, false, not, ◌&&◌, ◌==◌, none, some, List, [], ◌∷◌, ◌++◌, nat_keys,
  text_keys, Text, codes, is_nil, contains, any_if, lookup, find?,
}
use enclave_station.Chat.Store.{
  is_storable, can_notify, Generator, Db, User, Channel, Member, Message, ChannelMember, Ownership,
  get_effective_role, get_channel_member_usernames, get_member_role, get_space_member_role,
  find_user_by_id, find_channel_by_id, get_message_ownership, is_server_archived, own, wiped,
  has_id, is_admin,
}
use enclave_station.Chat.Mentions.{
  parse_mentions, mention_tokens, parse_loop, after_at, token_of, is_name_char, tokens_loop,
  behind_token,
}
use enclave_station.Chat.Events.{Outgoing}
use enclave_station.Chat.Post.{send_message, stored, notices_of, notices}
use enclave_station.Chat.Post.Outcome.Created.{recipients, all_notifiable}
use enclave_station.Chat.Post.Outcome.{may_post, send_message-direct}
use enclave_station.Chat.Moderate.{delete_message_job}
use enclave_station.Chat.Moderate.Laws.{changed_db, outranked, delete_message_job-guarded}

abbrev pub generator : Generator
generator = record {
  uuid = λ n. codes "id" ++ n ∷ [];
  now = λ n. codes "t" ++ n ∷ [];
  cast = λ id. id;
  is_text = λ t. true;
}

abbrev pub ann : User
ann = record { id = codes "1"; username = codes "ann"; role = codes "user" }

abbrev pub bob : User
bob = record { id = codes "2"; username = codes "bob"; role = codes "admin" }

abbrev pub direct : Channel
direct = record {
  id = codes "d";
  name = [];
  description = [];
  is_direct = true;
  is_public = true;
  default_role = codes "write";
  created_by = codes "1";
  created_at = codes "t";
  space_id = [];
  is_archived = false;
  default_join = false;
}

abbrev member : Text → Text → Member
member user role = record { group = codes "d"; user_id = user; role = role }

abbrev hello : Message
hello = record {
  id = codes "m";
  channel_id = codes "d";
  user_id = codes "1";
  content = codes "hello";
  created_at = codes "t";
  edited_at = [];
  is_deleted = false;
  file_id = [];
  reply_to_message_id = [];
}

-- A direct conversation of two users, with one message.
abbrev pub home : Db
home = record {
  settings = [];
  users = ann ∷ bob ∷ [];
  channels = direct ∷ [];
  channel_members = member (codes "1") (codes "write") ∷ member (codes "2") (codes "write") ∷ [];
  spaces = [];
  space_members = [];
  messages = hello ∷ [];
  notifications = [];
  mentions = [];
  reactions = [];
  serial = 0;
}

abbrev pair : List ChannelMember
pair =
    record { user_id = codes "1"; username = codes "ann" }
    ∷ record { user_id = codes "2"; username = codes "bob" }
    ∷ []

accepted_example : (not (is_nil (codes "hi @bob")) && may_post home (codes "1") (codes "d")) ≡ true
unfolding get_effective_role get_member_role get_space_member_role find_user_by_id
    find_channel_by_id is_server_archived find? lookup
accepted_example = refl

abbrev sent : Db × List Outgoing
sent =
    send_message generator home (codes "1") (codes "ann") (codes "d") (codes "hi @bob") (codes "m")

send_message-direct_example :
    (told : List Text) × (recipients sent.0.notifications ≡ recipients home.notifications ++ told)
    × (contains told (codes "2") ≡ true)
unfolding find_channel_by_id find? get_channel_member_usernames any_if contains is_storable
    all_notifiable notices_of notices parse_mentions parse_loop after_at token_of is_name_char
    stored mention_tokens tokens_loop can_notify behind_token get_message_ownership
send_message-direct_example =
    send_message-direct generator home (codes "1") (codes "ann") (codes "d") (codes "hi @bob")
      (codes "m") (codes "2") accepted_example refl refl refl (refl, (refl, tt)) refl refl

-- An admin deletes the message of a user.
delete_message_job-guarded_example :
    let after = (delete_message_job true home (codes "2") (codes "admin") (codes "m")).db in
    ((get_message_ownership home (codes "m") ≡ none) × (after ≡ home))
    ⊎ ((o : Ownership) × (get_message_ownership home (codes "m") ≡ some o)
        × ((((o.user_id == codes "2") ≡ true)
              × (after ≡ changed_db home (own (codes "m") (codes "2")) wiped))
            ⊎ (((o.user_id == codes "2") ≡ false)
                × ((((is_admin (get_effective_role home o.channel_id (codes "2"))
                          && outranked (find_user_by_id home o.user_id) (codes "admin"))
                        ≡ false)
                      × (after ≡ home))
                    ⊎ ((is_admin (get_effective_role home o.channel_id (codes "2")) ≡ true)
                        × (outranked (find_user_by_id home o.user_id) (codes "admin") ≡ true)
                        × (after ≡ changed_db home (has_id (codes "m")) wiped))))))
delete_message_job-guarded_example =
    delete_message_job-guarded true home (codes "2") (codes "admin") (codes "m")
