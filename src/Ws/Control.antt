-- ===== src/Ws/Control.antt =====
-- backend/src/ws/ws_handler.cpp: the control plane, by which the instances of a deployment apply a
-- subscription change or a disconnect to the sockets that each of them holds. The JSON library is a
-- parameter: `dump` prints a command, and `parse` reads the four fields with "" for a missing one.
use enclave_station.Base.{Option, none, some, [], if◌then◌else◌, ◌==◌, text_keys, Text, codes}
use enclave_station.Ws.Hub.{Hub, redis_publish, local_fan_out, channel_topic, space_topic}
use enclave_station.Ws.Sessions.{
  local_subscribe_user, local_unsubscribe_user, local_subscribe_admins, local_disconnect_user,
  local_disconnect_non_admins,
}

pub record Command : Type 0 where
  pub action : Text
  pub user_id : Text
  pub topic : Text
  pub message : Text

pub record Codec : Type 0 where
  pub dump : Command → Text
  pub parse : Text → Option Command

abbrev pub ctrl : Text
ctrl = codes "ctrl"

abbrev pub subscribe_command : Text → Text → Command
subscribe_command u t = record { action = codes "subscribe"; user_id = u; topic = t; message = [] }

abbrev pub unsubscribe_command : Text → Text → Command
unsubscribe_command u t = record {
  action = codes "unsubscribe";
  user_id = u;
  topic = t;
  message = [];
}

abbrev pub subscribe_admins_command : Text → Command
subscribe_admins_command t = record {
  action = codes "subscribe_admins";
  user_id = [];
  topic = t;
  message = [];
}

abbrev pub disconnect_user_command : Text → Command
disconnect_user_command u = record {
  action = codes "disconnect_user";
  user_id = u;
  topic = [];
  message = [];
}

abbrev pub disconnect_non_admins_command : Text → Command
disconnect_non_admins_command m = record {
  action = codes "disconnect_non_admins";
  user_id = [];
  topic = [];
  message = m;
}

-- The dispatch of `handle_control_message` on a command that was parsed.
unfoldable pub apply_command : Hub → Command → Hub
apply_command h c =
    if c.action == codes "subscribe"
    then local_subscribe_user h c.user_id c.topic
    else if c.action == codes "unsubscribe"
    then local_unsubscribe_user h c.user_id c.topic
    else if c.action == codes "subscribe_admins"
    then local_subscribe_admins h c.topic
    else if c.action == codes "disconnect_user"
    then local_disconnect_user h c.user_id
    else if c.action == codes "disconnect_non_admins"
    then local_disconnect_non_admins h c.message
    else h

module _ (json : Codec) where
  open json use {dump, parse}

  unfoldable pub publish_control : Hub → Command → Hub
  publish_control h c = redis_publish h ctrl (dump c)

  unfoldable pub handle_control_message : Hub → Text → Hub
  unfolding apply_command
  handle_control_message h payload = elim (parse payload) [ none ↦ h | some c ↦ apply_command h c ]

  unfoldable pub on_redis_message : Hub → Text → Text → Hub
  unfolding handle_control_message
  on_redis_message h topic payload =
      if topic == ctrl then handle_control_message h payload else local_fan_out h topic payload

  unfoldable pub disconnect_user : Hub → Text → Hub
  unfolding publish_control
  disconnect_user h u = publish_control (local_disconnect_user h u) (disconnect_user_command u)

  unfoldable pub subscribe_user_to : Hub → Text → Text → Hub
  unfolding publish_control
  subscribe_user_to h u topic =
      publish_control (local_subscribe_user h u topic) (subscribe_command u topic)

  unfoldable pub subscribe_user_to_channel : Hub → Text → Text → Hub
  unfolding subscribe_user_to
  subscribe_user_to_channel h u channel = subscribe_user_to h u (channel_topic channel)

  unfoldable pub subscribe_user_to_space : Hub → Text → Text → Hub
  unfolding subscribe_user_to
  subscribe_user_to_space h u space = subscribe_user_to h u (space_topic space)

  unfoldable pub unsubscribe_user_from : Hub → Text → Text → Hub
  unfolding publish_control
  unsubscribe_user_from h u topic =
      publish_control (local_unsubscribe_user h u topic) (unsubscribe_command u topic)

  unfoldable pub unsubscribe_user_from_channel : Hub → Text → Text → Hub
  unfolding unsubscribe_user_from
  unsubscribe_user_from_channel h u channel = unsubscribe_user_from h u (channel_topic channel)

  unfoldable pub unsubscribe_user_from_space : Hub → Text → Text → Hub
  unfolding unsubscribe_user_from
  unsubscribe_user_from_space h u space = unsubscribe_user_from h u (space_topic space)

  unfoldable pub subscribe_admins_to : Hub → Text → Hub
  unfolding publish_control
  subscribe_admins_to h topic =
      publish_control (local_subscribe_admins h topic) (subscribe_admins_command topic)

  unfoldable pub subscribe_admins_to_channel : Hub → Text → Hub
  unfolding subscribe_admins_to
  subscribe_admins_to_channel h channel = subscribe_admins_to h (channel_topic channel)

  unfoldable pub subscribe_admins_to_space : Hub → Text → Hub
  unfolding subscribe_admins_to
  subscribe_admins_to_space h space = subscribe_admins_to h (space_topic space)

  unfoldable pub disconnect_non_admins : Hub → Text → Hub
  unfolding publish_control
  disconnect_non_admins h message =
      publish_control (local_disconnect_non_admins h message)
        (disconnect_non_admins_command message)
