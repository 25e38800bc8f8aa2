-- ===== src/Channels/Requests.antt =====
-- The request bodies, replies and WebSocket calls of backend/src/handlers/channel_handler.cpp. The
-- JSON library reads the bodies: a request carries what it read, or the text of its exception. PostgreSQL reads a
-- uuid in upper case, in braces or without hyphens as well: where a handler compares or sends the text of
-- an id, as in removing a member, the database's reading of it is `cast`; elsewhere an id is taken to be
-- written the way that the database writes it.
use enclave_station.Base.{ℕ, Bool, true, false, Option, none, some, List, [], ◌∷◌, Text}
use enclave_station.Chat.Store.{Db, User, Channel}
use enclave_station.Channels.Tables.{MemberInfo}
use enclave_station.Ws.Hub.{Hub, broadcast_to_topic, channel_topic, send_to_user}
use enclave_station.Ws.Control.{
  Codec, subscribe_user_to_channel, unsubscribe_user_from_channel, subscribe_admins_to_channel,
}

pub data Body (A : Type 0) : Type 0 where
  thrown : Text → Body A
  parsed : A → Body A

-- `j.value(key, default)`
abbrev pub value {ℓ} : {A : Type ℓ} → Option A → A → A
value none d = d
value (some a) d = a

pub record InviteBody : Type 0 where
  pub user_id : Text
  pub role : Option Text

pub record UpdateBody : Type 0 where
  pub name : Option Text
  pub description : Option Text
  pub is_public : Option Bool
  pub default_role : Option Text
  pub default_join : Option Bool

pub record CreateBody : Type 0 where
  pub name : Text
  pub description : Option Text
  pub is_public : Option Bool
  pub default_role : Option Text
  pub member_ids : Option (List Text)

-- The events that clients are sent.
pub data ChannelEvent : Type 0 where
  channel_added : Channel → (my_role : Text) → List MemberInfo → ChannelEvent
  direct_added : Channel → List User → ChannelEvent
  channel_removed : (channel : Text) → ChannelEvent
  role_changed : (channel role : Text) → ChannelEvent
  member_role_changed : (channel user role : Text) → ChannelEvent
  settings_changed : Channel → ChannelEvent
  archive_changed : (channel : Text) → Bool → ChannelEvent
  member_left : (channel user : Text) → ChannelEvent

-- The calls of the WebSocket handler in the deferred part of a handler.
pub data WsCall : Type 0 where
  subscribe : (user channel : Text) → WsCall
  unsubscribe : (user channel : Text) → WsCall
  notify : (user : Text) → ChannelEvent → WsCall
  broadcast : (channel : Text) → ChannelEvent → WsCall
  subscribe_admins : (channel : Text) → WsCall

-- The reply. `refused` has the status and the text under "error"; `failed` is a 400 with the text of
-- an exception of the database; `silent` is no reply, where a job throws outside every `try` and the
-- worker thread logs the exception.
pub data Answer : Type 0 where
  refused : ℕ → Text → Answer
  done : Answer
  updated : Channel → Answer
  created : Channel → List MemberInfo → Answer
  direct_channel : Channel → Answer
  failed : Answer
  silent : Answer

abbrev pub is_success : Answer → Bool
is_success (refused status why) = false
is_success failed = false
is_success silent = false
is_success done = true
is_success (updated ch) = true
is_success (created ch members) = true
is_success (direct_channel ch) = true

pub record Outcome : Type 0 where
  pub db : Db
  pub answer : Answer
  pub calls : List WsCall

abbrev pub refuse : Db → ℕ → Text → Outcome
refuse db status why = record { db = db; answer = refused status why; calls = [] }

module _ (json : Codec) (render : ChannelEvent → Text) where
  unfoldable pub perform_call : Hub → WsCall → Hub
  perform_call h (subscribe u c) = subscribe_user_to_channel json h u c
  perform_call h (unsubscribe u c) = unsubscribe_user_from_channel json h u c
  perform_call h (notify u e) = send_to_user h u (render e)
  perform_call h (broadcast c e) = broadcast_to_topic h (channel_topic c) (render e)
  perform_call h (subscribe_admins c) = subscribe_admins_to_channel json h c

  -- The deferred part of a handler, on the event loop.
  unfoldable pub perform : Hub → List WsCall → Hub
  unfolding perform_call
  perform h [] = h
  perform h (c ∷ cs) = perform (perform_call h c) cs
