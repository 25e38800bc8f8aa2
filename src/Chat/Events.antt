-- ===== src/Chat/Events.antt =====
-- What the message handlers send. The JSON texts of the events are built by the JSON library, so
-- `render`, from an event to its text, is a parameter of the delivery.
use enclave_station.Base.{List, [], ◌∷◌, Text}
use enclave_station.Chat.Store.{Message, Notification}
use enclave_station.Ws.Hub.{Hub, broadcast_to_topic, channel_topic, send_to_user}

pub data Event : Type 0 where
  error_event : Text → Event
  new_notification : Notification → (source_username channel_name created_at : Text) → Event
  new_message : Message → (mentions : List Text) → Event
  message_edited : Message → Event
  message_deleted : Message → Event
  reaction_added : (message channel emoji user username : Text) → Event
  reaction_removed : (message channel emoji user username : Text) → Event

pub data Outgoing : Type 0 where
  to_user : Text → Event → Outgoing
  to_channel : Text → Event → Outgoing

-- The deferred part of a handler, on the event loop.
module _ (render : Event → Text) where
  unfoldable pub deliver : Hub → List Outgoing → Hub
  deliver h [] = h
  deliver h (to_user u e ∷ rest) = deliver (send_to_user h u (render e)) rest
  deliver h (to_channel c e ∷ rest) =
      deliver (broadcast_to_topic h (channel_topic c) (render e)) rest
