-- ===== src/Chat/Post.antt =====
-- `handle_send_message` of backend/src/ws/ws_handler.cpp: the checks, the message, and who is told of
-- it. The loops of the source create each notification as they meet it; here they first list the
-- notices, and `notify_each` creates them in that order.
pub mod Outcome
pub mod Notices
pub mod Coverage
use enclave_station.Base.{
  ℕ, Bool, true, false, not, ◌&&◌, ◌||◌, Option, none, some, List, [], ◌∷◌, ◌++◌, map,
  if◌then◌else◌, ◌==◌, nat_keys, text_keys, ltb, Text, codes, length, take, is_nil, any_if,
  contains,
}
use enclave_station.Chat.Store.{
  Generator, Db, Channel, Message, ChannelMember, Ownership, Mention, Notification,
  is_server_archived, find_channel_by_id, get_effective_role, create_message, inserted,
  create_notification, get_channel_member_usernames, get_message_ownership,
}
use enclave_station.Chat.Mentions.{parse_mentions, mention_tokens, at_channel}
use enclave_station.Chat.Events.{
  Event, error_event, new_notification, new_message, Outgoing, to_user, to_channel,
}

-- `store_mentions`, with the rows of the table as the key of `ON CONFLICT DO NOTHING`.
abbrev pub same_mention : Mention → Mention → Bool
same_mention a b = (a.message_id == b.message_id) && (a.mentioned_user_id == b.mentioned_user_id)

abbrev pub has_mention : Mention → List Mention → Bool
has_mention m [] = false
has_mention m (x ∷ xs) = same_mention x m || has_mention m xs

abbrev pub add_mention : Text → Text → Bool → Text → List Mention → List Mention
add_mention message channel whole user rows =
    let m : Mention = record {
      message_id = message;
      channel_id = channel;
      mentioned_user_id = user;
      is_channel_mention = whole;
    } in
    if has_mention m rows then rows else rows ++ m ∷ []

-- The first member with the username who is not the sender.
unfoldable pub first_named : Text → Text → List ChannelMember → Option ChannelMember
first_named sender name [] = none
first_named sender name (m ∷ ms) =
    if (m.username == name) && not (m.user_id == sender) then some m else first_named sender name ms

abbrev pub id_of : Option ChannelMember → List Text
id_of none = []
id_of (some m) = m.user_id ∷ []

-- The ids of all members but the sender.
unfoldable pub others : Text → List ChannelMember → List Text
others sender [] = []
others sender (m ∷ ms) =
    let rest = others sender ms in if m.user_id == sender then rest else m.user_id ∷ rest

-- The members that the tokens name one by one: `@channel` is passed over.
unfoldable pub named_targets : Text → List ChannelMember → List Text → List Text
named_targets sender members [] = []
named_targets sender members (t ∷ ts) =
    let rest = named_targets sender members ts in
    if t == codes "channel" then rest else id_of (first_named sender t members) ++ rest

unfoldable pub add_mentions : Text → Text → Bool → List Text → List Mention → List Mention
add_mentions message channel whole [] rows = rows
add_mentions message channel whole (u ∷ us) rows =
    add_mentions message channel whole us (add_mention message channel whole u rows)

unfoldable pub store_mentions : Db → Text → Text → Text → List ChannelMember → Text → Db
unfolding add_mentions named_targets others first_named
store_mentions db message channel content members sender =
    let tokens = mention_tokens content in
    let named =
      add_mentions message channel false (named_targets sender members tokens) db.mentions in
    let all = add_mentions message channel true (others sender members) named in
    if is_nil tokens
    then db
    else record db { mentions = if contains tokens (codes "channel") then all else named }

-- A notification that is to be created, with the channel name that its event carries.
pub record Notice : Type 0 where
  pub target : Text
  pub kind : Text
  pub channel_name : Text

abbrev pub notice_to : Text → Text → Text → Notice
notice_to kind channel_name user = record {
  target = user;
  kind = kind;
  channel_name = channel_name;
}

-- The loop over the mentions.
unfoldable pub mention_notices : Text → Text → List ChannelMember → List Text → List Notice
unfolding others first_named
mention_notices sender channel members [] = []
mention_notices sender channel members (t ∷ ts) =
    let rest = mention_notices sender channel members ts in
    if t == at_channel
    then map (notice_to (codes "mention") channel) (others sender members) ++ rest
    else map (notice_to (codes "mention") []) (id_of (first_named sender t members)) ++ rest

-- Whether a mention by name reaches the user, as the reply notification checks it.
unfoldable pub named_in : Text → List ChannelMember → List Text → Bool
named_in user members [] = false
named_in user members (t ∷ ts) =
    any_if (λ m. (m.username == t) && (m.user_id == user)) members || named_in user members ts

abbrev pub reply_owner : Text → Option Ownership → List Text
reply_owner sender none = []
reply_owner sender (some o) = if o.user_id == sender then [] else o.user_id ∷ []

abbrev pub reply_to_owner : List ChannelMember → List Text → List Text → List Notice
reply_to_owner members mentioned [] = []
reply_to_owner members mentioned (u ∷ us) =
    if named_in u members mentioned then [] else notice_to (codes "reply") [] u ∷ []

-- The ids that the DM notifications leave out for a mention.
unfoldable pub ids_named : Text → Text → List ChannelMember → List Text
ids_named sender name [] = []
ids_named sender name (m ∷ ms) =
    let rest = ids_named sender name ms in
    if (m.username == name) && not (m.user_id == sender) then m.user_id ∷ rest else rest

unfoldable pub told_by_mention : Text → List ChannelMember → List Text → List Text
unfolding others ids_named
told_by_mention sender members [] = []
told_by_mention sender members (t ∷ ts) =
    let rest = told_by_mention sender members ts in
    if t == at_channel then others sender members ++ rest else ids_named sender t members ++ rest

unfoldable pub notices_except : List Text → List Text → List Notice
notices_except told [] = []
notices_except told (u ∷ us) =
    let rest = notices_except told us in
    if contains told u then rest else notice_to (codes "direct_message") [] u ∷ rest

abbrev pub is_direct : Option Channel → Bool
is_direct none = false
is_direct (some c) = c.is_direct

-- All notices of a message, in the order in which they are created. `owner` is the owner of the
-- message that is replied to, unless that is the sender.
unfoldable pub notices :
    Text → Text → List ChannelMember → List Text → List Text → Bool → List Notice
unfolding mention_notices named_in told_by_mention notices_except
notices sender channel members mentioned owner direct =
    let told = told_by_mention sender members mentioned ++ owner in
    mention_notices sender channel members mentioned
    ++ (reply_to_owner members mentioned owner
        ++ (if direct then notices_except told (others sender members) else []))

abbrev pub preview_of : Text → Text
preview_of content = if ltb 200 (length content) then take 200 content ++ codes "..." else content

abbrev pub is_archived : Option Channel → Bool
is_archived none = false
is_archived (some c) = c.is_archived

module _ (gen : Generator) where
  -- Creates the notifications and lists their events, up to the one that throws.
  unfoldable pub notify_each :
      Text → Text → Message → List Notice → Db → List Outgoing → Db × Option (List Outgoing)
  unfolding create_notification
  notify_each sender username msg [] db out = (db, some out)
  notify_each sender username msg (n ∷ ns) db out =
      let preview = preview_of msg.content in
      let row : Text → Notification = λ nid. record {
        id = nid;
        user_id = n.target;
        kind = n.kind;
        source_user_id = sender;
        channel_id = msg.channel_id;
        message_id = msg.id;
        content = preview;
      } in
      elim (create_notification gen db n.target n.kind sender msg.channel_id msg.id preview) [
        | none ↦ (db, none)
        | some (db', nid) ↦ notify_each sender username msg ns db' (
            out
            ++ to_user n.target (new_notification (row nid) username n.channel_name msg.created_at)
              ∷ [])
      ]

  -- The notices of a message that was stored, read from the database as it is then.
  unfoldable pub notices_of : Db → Text → Message → List Notice
  notices_of db sender msg =
      let members = get_channel_member_usernames db msg.channel_id in
      let owner =
        if is_nil msg.reply_to_message_id
        then []
        else reply_owner sender (get_message_ownership db msg.reply_to_message_id) in
      notices sender msg.channel_id members (parse_mentions msg.content members) owner
        (is_direct (find_channel_by_id db msg.channel_id))

  -- The database once the message and its mentions are stored.
  unfoldable pub stored : Db → Text → Message → Db
  unfolding store_mentions
  stored db user msg =
      let db1 = inserted gen db msg in
      let members = get_channel_member_usernames db1 msg.channel_id in
      if is_nil (parse_mentions msg.content members)
      then db1
      else store_mentions db1 msg.id msg.channel_id msg.content members user

  -- The deferred part, which a job that throws never reaches.
  abbrev pub sent_for : Message → List Text → Db × Option (List Outgoing) → Db × List Outgoing
  sent_for msg mentioned (db, none) = (db, [])
  sent_for msg mentioned (db, some out) =
      (db, out ++ to_channel msg.channel_id (new_message msg mentioned) ∷ [])

  -- From `create_message` on.
  unfoldable pub post_message : Db → Text → Text → Text → Text → Text → Db × List Outgoing
  unfolding create_message notify_each stored
  post_message db user username channel content reply_to =
      elim (create_message gen db channel user content reply_to) [
        | none ↦ (db, [])
        | some (db1, msg) ↦
            let mentioned = parse_mentions content (get_channel_member_usernames db channel) in
            let db2 = stored db user msg in
            sent_for msg mentioned (notify_each user username msg (notices_of db2 user msg) db2 [])
      ]

  -- The job of `handle_send_message`, behind the test for an empty text.
  unfoldable pub send_message : Db → Text → Text → Text → Text → Text → Db × List Outgoing
  send_message db user username channel content reply_to =
      let role = get_effective_role db channel user in
      let refuse : Text → Db × List Outgoing = λ e. (db, to_user user (error_event e) ∷ []) in
      if is_nil content
      then (db, [])
      else if is_server_archived db
      then refuse (codes "Server is archived. No new content can be created.")
      else if is_archived (find_channel_by_id db channel)
      then refuse (codes "This channel is archived")
      else if is_nil role
      then refuse (codes "Not a member of this channel")
      else if role == codes "read"
      then refuse (codes "You don't have permission to send messages in this channel")
      else post_message db user username channel content reply_to
