-- ===== src/Chat/Post/Outcome.antt =====
-- The outcomes of `handle_send_message` of backend/src/ws/ws_handler.cpp.
pub mod Created
use enclave_station.Base.{
  ◌≡◌, refl, ap, ◌∙◌, ◌⊎◌, Bool, true, false, not, ◌&&◌, Option, none, some, List, [], ◌∷◌, ◌++◌,
  map, if◌then◌else◌, ◌==◌, text_keys, Text, codes, is_nil, arith, contains, contains-nil,
}
use mathlib.Core.List.{append-nil, append_assoc}
use enclave_station.Chat.Store.{
  Generator, Db, User, Message, is_storable, can_notify, create_message, Ownership,
  get_message_ownership, Notification, is_server_archived, find_channel_by_id, get_effective_role,
  create_notification, inserted, new_message_row, get_channel_member_usernames,
}
use enclave_station.Chat.Mentions.{parse_mentions}
use enclave_station.Chat.Events.{error_event, new_message, Outgoing, to_user, to_channel}
use enclave_station.Chat.Post.Notices.{
  targets, member_ids, notices-not_sender, reply_owner-not_sender,
}
use enclave_station.Chat.Post.Coverage.{UniqueNames, notices_direct}
use enclave_station.Chat.Post.{
  Notice, is_direct, reply_owner, notices, is_archived, notify_each, notices_of, stored,
  post_message, send_message, sent_for, preview_of,
}
use enclave_station.Chat.Post.Outcome.Created.{
  stored-notifications, stored-users, stored-members, stored-channel, recipients,
  create_message-accepted, all_notifiable, notify_each-recipients,
}

-- Who may post: the server and the channel are not archived, and the user has a role in the channel
-- that is more than reading.
abbrev pub may_post : Db → Text → Text → Bool
may_post db user channel =
    let role = get_effective_role db channel user in
    (not (is_server_archived db) && not (is_archived (find_channel_by_id db channel)))
    && (not (is_nil role) && not (role == codes "read"))

-- A refusal leaves the database as it was and tells at most the sender.
abbrev pub Refused : Db → Text → Db × List Outgoing → Type 0
Refused db user r =
    (r.0 ≡ db) × ((r.1 ≡ []) ⊎ ((e : Text) × (r.1 ≡ to_user user (error_event e) ∷ [])))

module _ (gen : Generator) (db : Db) (user username channel content reply_to : Text) where
  abbrev pub row : Message
  row = new_message_row gen db channel user content reply_to

  abbrev pub posted : Db × List Outgoing
  posted = post_message gen db user username channel content reply_to

  abbrev pub accepted : Bool
  accepted = not (is_nil content) && may_post db user channel

  -- Whether the database takes the new row, and whether it then takes every notification.
  abbrev pub is_stored : Bool
  is_stored = is_storable gen db row

  abbrev pub all_told : Bool
  all_told =
      all_notifiable gen user username row db.users
        (notices_of gen (stored gen db user row) user row)

  abbrev pub told : Db × Option (List Outgoing)
  told =
      notify_each gen user username row (notices_of gen (stored gen db user row) user row)
        (stored gen db user row) []

  abbrev pub last_event : Outgoing
  last_event =
      to_channel channel
        (new_message row (parse_mentions content (get_channel_member_usernames db channel)))

  posted-stored :
      is_stored ≡ true
      → posted
        ≡ sent_for gen row (parse_mentions content (get_channel_member_usernames db channel)) told
  unfolding post_message
  posted-stored fits =
      rw (post_message, create_message-accepted gen db channel user content reply_to fits) refl

  all_told-stored :
      all_notifiable gen user username row
        (stored gen db user row).users
        (notices_of gen (stored gen db user row) user row)
      ≡ all_told
  all_told-stored =
      ap
        (λ us.
          all_notifiable gen user username row us
            (notices_of gen (stored gen db user row) user row))
        (stored-users gen db user row)

  -- What happens to a message.
  pub data SendOutcome (r : Db × List Outgoing) : Type 0 where
    refused : accepted ≡ false → Refused db user r → SendOutcome r
    not_stored : accepted ≡ true → is_stored ≡ false → r ≡ (db, []) → SendOutcome r
    not_told :
        accepted ≡ true
        → is_stored ≡ true
        → all_told ≡ false
        → r.0.messages ≡ db.messages ++ row ∷ []
        → r.1 ≡ []
        → SendOutcome r
    delivered :
        accepted ≡ true
        → is_stored ≡ true
        → all_told ≡ true
        → r.0.messages ≡ db.messages ++ row ∷ []
        → (out : List Outgoing) × (r.1 ≡ out ++ last_event ∷ [])
        → SendOutcome r

  pub send_message-accepted :
      accepted ≡ true → send_message gen db user username channel content reply_to ≡ posted
  unfolding send_message
  send_message-accepted ok = ground arith

  abbrev owner : Option Ownership
  owner = if is_nil reply_to then none else get_message_ownership (stored gen db user row) reply_to

  notices_of-stored :
      notices_of gen (stored gen db user row) user row
      ≡ notices user channel
          (get_channel_member_usernames db channel)
          (parse_mentions content (get_channel_member_usernames db channel))
          (reply_owner user owner)
          (is_direct (find_channel_by_id db channel))
  unfolding notices_of
  notices_of-stored =
      rw (stored-members gen db user row channel, stored-channel gen db user row channel)
        (ap
          (λ us.
            notices user channel (get_channel_member_usernames db channel)
              (parse_mentions content (get_channel_member_usernames db channel)) us
              (is_direct (find_channel_by_id db channel)))
          (ground arith))

  -- A message that is accepted in a direct conversation, whose members have distinct usernames, is
  -- notified to every member but the sender, if the database takes it and its notifications.
  pub send_message-direct :
      (u : Text)
      → accepted ≡ true
      → is_stored ≡ true
      → all_told ≡ true
      → is_direct (find_channel_by_id db channel) ≡ true
      → UniqueNames (get_channel_member_usernames db channel)
      → (user == u) ≡ false
      → contains (member_ids (get_channel_member_usernames db channel)) u ≡ true
      → (new : List Text) × (recipients
            (send_message gen db user username channel content reply_to).0.notifications
          ≡ recipients db.notifications ++ new)
        × (contains new u ≡ true)
  send_message-direct u ok fits all direct unique ne here =
      let (reached, (events, found)) =
        notify_each-recipients gen user username row
          (notices_of gen (stored gen db user row) user row) (stored gen db user row) []
          (all_told-stored ∙ all) in
      (
        targets (notices_of gen (stored gen db user row) user row),
        ap (λ r. recipients r.0.notifications) (send_message-accepted ok ∙ posted-stored fits)
            ∙ kept_by_sending _ told
            ∙ reached
            ∙ ap (λ l. recipients l ++ targets (notices_of gen (stored gen db user row) user row))
                (stored-notifications gen db user row),
        rw (notices_of-stored, direct) (notices_direct user channel _ _ owner u unique ne here),
      )
    where
      kept_by_sending :
          (mentioned : List Text) (t : Db × Option (List Outgoing))
          → recipients (sent_for gen row mentioned t).0.notifications ≡ recipients t.0.notifications
      kept_by_sending mentioned (d, none) = refl
      kept_by_sending mentioned (d, some events) = refl
