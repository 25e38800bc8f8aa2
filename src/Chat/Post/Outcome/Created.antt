-- ===== src/Chat/Post/Outcome/Created.antt =====
-- The rows that `handle_send_message` of backend/src/ws/ws_handler.cpp creates, and what it does when the
-- database refuses one.
use enclave_station.Base.{
  ◌≡◌, refl, sym, ap, ◌∙◌, inl, inr, Bool, true, false, ◌&&◌, none, some, List, [], ◌∷◌, ◌++◌, map,
  text_keys, Text, arith, Bool-cases,
}
use mathlib.Core.List.{append-nil, append_assoc}
use enclave_station.Chat.Store.{
  find_channel_by_id, get_channel_member_usernames, Generator, Db, User, Message, is_storable,
  can_notify, create_message, Notification, create_notification, with_notification, inserted,
  new_message_row,
}
use enclave_station.Chat.Events.{Outgoing}
use enclave_station.Chat.Post.Notices.{targets}
use enclave_station.Chat.Post.{stored, Notice, notify_each, preview_of}

-- The users that have been notified, oldest notification first.
abbrev pub recipients : List Notification → List Text
recipients = map λ n. n.user_id

pub recipients-append :
    (xs ys : List Notification) → recipients (xs ++ ys) ≡ recipients xs ++ recipients ys
recipients-append [] ys = refl
recipients-append (x ∷ xs) ys = ap (◌∷◌ x.user_id) (recipients-append xs ys)

module _ (gen : Generator) (db : Db) where
  pub create_message-accepted :
      (channel user content reply_to : Text)
      → (let row = new_message_row gen db channel user content reply_to in
          is_storable gen db row ≡ true
          → create_message gen db channel user content reply_to ≡ some (inserted gen db row, row))
  unfolding create_message
  create_message-accepted channel user content reply_to fits = rw fits refl

  pub create_message-refused :
      (channel user content reply_to : Text)
      → is_storable gen db (new_message_row gen db channel user content reply_to) ≡ false
      → create_message gen db channel user content reply_to ≡ none
  unfolding create_message
  create_message-refused channel user content reply_to fails = rw fails refl

  create_notification-accepted :
      (user kind source channel message content : Text)
      → can_notify gen db.users user content ≡ true
      → create_notification gen db user kind source channel message content
        ≡ some (with_notification gen db user kind source channel message content)
  unfolding create_notification
  create_notification-accepted user kind source channel message content fits = rw fits refl

  create_notification-refused :
      (user kind source channel message content : Text)
      → can_notify gen db.users user content ≡ false
      → create_notification gen db user kind source channel message content ≡ none
  unfolding create_notification
  create_notification-refused user kind source channel message content fails = rw fails refl

module _ (gen : Generator) (sender username : Text) (msg : Message) where
  -- Whether no notification of the list throws.
  unfoldable pub all_notifiable : List User → List Notice → Bool
  all_notifiable users [] = true
  all_notifiable users (n ∷ ns) =
      can_notify gen users n.target (preview_of msg.content) && all_notifiable users ns

  pub notify_each-messages :
      (ns : List Notice) (db : Db) (out : List Outgoing)
      → (notify_each gen sender username msg ns db out).0.messages ≡ db.messages
  unfolding notify_each
  notify_each-messages [] db out = refl
  notify_each-messages (n ∷ ns) db out =
      elim (Bool-cases (can_notify gen db.users n.target (preview_of msg.content))) [
        | inl fits ↦
            rw
              (
                notify_each,
                create_notification-accepted gen db n.target n.kind sender msg.channel_id msg.id
                    (preview_of msg.content) fits,
              )
              (notify_each-messages ns _ _)
        | inr fails ↦
            rw
              (
                notify_each,
                create_notification-refused gen db n.target n.kind sender msg.channel_id msg.id
                    (preview_of msg.content) fails,
              )
              refl
      ]

  -- If none throws, all are created, and the events are there to be sent.
  pub notify_each-recipients :
      (ns : List Notice) (db : Db) (out : List Outgoing)
      → all_notifiable db.users ns ≡ true
      → (recipients (notify_each gen sender username msg ns db out).0.notifications
          ≡ recipients db.notifications ++ targets ns)
        × ((events : List Outgoing) × ((notify_each gen sender username msg ns db out).1
              ≡ some events))
  unfolding notify_each all_notifiable
  notify_each-recipients [] db out all =
      (sym (append-nil (recipients db.notifications)), (out, refl))
  notify_each-recipients (n ∷ ns) db out all =
      elim (Bool-cases (can_notify gen db.users n.target (preview_of msg.content))) [
        | inl fits ↦
            rw
              (
                notify_each,
                create_notification-accepted gen db n.target n.kind sender msg.channel_id msg.id
                    (preview_of msg.content) fits,
              )
              (let (told, events) = notify_each-recipients ns _ _ (ground (arith, all)) in
                (
                  told
                      ∙ ap (λ l. l ++ targets ns) (recipients-append db.notifications _)
                      ∙ append_assoc (recipients db.notifications) _ (targets ns),
                  events,
                ))
        | inr fails ↦ absurd (ground (arith, all, fails))
      ]

  -- If one throws, nothing is sent.
  pub notify_each-thrown :
      (ns : List Notice) (db : Db) (out : List Outgoing)
      → all_notifiable db.users ns ≡ false
      → (notify_each gen sender username msg ns db out).1 ≡ none
  unfolding notify_each all_notifiable
  notify_each-thrown [] db out some_throws = absurd (ground (arith, some_throws))
  notify_each-thrown (n ∷ ns) db out some_throws =
      elim (Bool-cases (can_notify gen db.users n.target (preview_of msg.content))) [
        | inl fits ↦
            rw
              (
                notify_each,
                create_notification-accepted gen db n.target n.kind sender msg.channel_id msg.id
                    (preview_of msg.content) fits,
              )
              (notify_each-thrown ns _ _ (ground (arith, some_throws, fits)))
        | inr fails ↦
            rw
              (
                notify_each,
                create_notification-refused gen db n.target n.kind sender msg.channel_id msg.id
                    (preview_of msg.content) fails,
              )
              refl
      ]

module _ (gen : Generator) (db : Db) (user : Text) (msg : Message) where
  -- Storing a message adds a row, and touches neither notifications nor members.
  pub stored-messages : (stored gen db user msg).messages ≡ db.messages ++ msg ∷ []
  unfolding stored
  stored-messages = ground arith

  pub stored-notifications : (stored gen db user msg).notifications ≡ db.notifications
  unfolding stored
  stored-notifications = ground arith

  pub stored-users : (stored gen db user msg).users ≡ db.users
  unfolding stored
  stored-users = ground arith

  pub stored-members :
      (channel : Text)
      → get_channel_member_usernames (stored gen db user msg) channel
        ≡ get_channel_member_usernames db channel
  unfolding stored get_channel_member_usernames
  stored-members channel = ground arith

  pub stored-channel :
      (channel : Text)
      → find_channel_by_id (stored gen db user msg) channel ≡ find_channel_by_id db channel
  unfolding stored find_channel_by_id
  stored-channel channel = ground arith
