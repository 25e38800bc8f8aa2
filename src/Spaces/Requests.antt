-- ===== src/Spaces/Requests.antt =====
-- The replies and WebSocket calls of backend/src/handlers/space_handler.cpp for the members of a space.
use enclave_station.Base.{ℕ, List, [], Text}
use enclave_station.Chat.Store.{Db}
use enclave_station.Channels.Requests.{Answer, refused}

-- The events that clients are sent.
pub data SpaceEvent : Type 0 where
  space_removed : (space : Text) → SpaceEvent
  space_role_changed : (space role : Text) → SpaceEvent
  space_member_role_changed : (space user role : Text) → SpaceEvent
  space_member_left : (space user : Text) → SpaceEvent
  channel_member_left : (channel user : Text) → SpaceEvent

-- The calls of the WebSocket handler in the deferred part of a handler.
pub data SpaceCall : Type 0 where
  unsubscribe_channel : (user channel : Text) → SpaceCall
  unsubscribe_space : (user space : Text) → SpaceCall
  send_user : (user : Text) → SpaceEvent → SpaceCall
  broadcast_channel : (channel : Text) → SpaceEvent → SpaceCall
  broadcast_space : (space : Text) → SpaceEvent → SpaceCall

pub record SpaceOutcome : Type 0 where
  pub db : Db
  pub answer : Answer
  pub calls : List SpaceCall

abbrev pub deny : Db → ℕ → Text → SpaceOutcome
deny db status why = record { db = db; answer = refused status why; calls = [] }
