-- ===== src/Ws/Cluster.antt =====
-- Several instances: what one publishes on the control topic, and what another makes of it. The JSON
-- library reads back what it printed (`reads`).
pub mod Commands
use mathlib.Core.List.{append-nil}
use enclave_station.Base.{
  ℕ, ◌≡◌, refl, ◌∙◌, Bool, true, ◌&&◌, ◌||◌, not, Option, none, some, List, [], ◌∷◌, ◌++◌, Text,
  if◌then◌else◌, ◌==◌, nat_keys, text_keys, text_eqb_iff, lookup, contains, arith,
}
use enclave_station.Ws.Hub.{
  UserData, Hub, topics_of, sockets_of, local_subscribe, local_unsubscribe, set_offline,
  local_unsubscribe_all, channel_topic,
}
use enclave_station.Ws.Sessions.{
  subscribe_each, unsubscribe_each, local_subscribe_user, local_unsubscribe_user,
  local_disconnect_user, on_close, close_socket, close_each, local_disconnect_non_admins,
  is_admin_socket,
}
use enclave_station.Ws.Control.{
  Command, Codec, ctrl, subscribe_command, unsubscribe_command, disconnect_user_command,
  disconnect_non_admins_command, apply_command, handle_control_message, on_redis_message,
  publish_control, subscribe_user_to_channel, unsubscribe_user_from_channel, disconnect_user,
}
use enclave_station.Ws.Index.{IsConsistent, is_owner}
use enclave_station.Ws.Reach.Loops.{
  local_subscribe_user-IsConsistent, local_unsubscribe_user-IsConsistent,
}
use enclave_station.Ws.Delivery.{
  sent_to, published, published-append, published-redis_publish, sent_to-local_fan_out,
}
use enclave_station.Ws.Membership.{
  local_subscribe_user-exact, local_unsubscribe_user-exact, local_disconnect_user-exact,
  local_disconnect_non_admins-exact,
}
use enclave_station.Ws.Cluster.Commands.{
  user_of, out-subscribe_each, redis-subscribe_each, out-unsubscribe_each, redis-unsubscribe_each,
  apply_command-subscribe, apply_command-unsubscribe, apply_command-disconnect_user,
  apply_command-disconnect_non_admins, owner_and_topic, not_owner_and_topic, published-on_close,
  redis-on_close, published-close_each, redis-close_each,
}

module _ (json : Codec) (reads : (k : Command) → json.parse (json.dump k) ≡ some k) where
  -- A control message that an instance published is applied by the instance that receives it.
  on_redis_message-dump :
      (h : Hub) (k : Command) → on_redis_message json h ctrl (json.dump k) ≡ apply_command h k
  unfolding on_redis_message handle_control_message
  on_redis_message-dump h k = rw (reads k, handle_control_message) refl

  -- The received frames of a topic that is not the control topic.
  sent_to-on_redis_message :
      (h : Hub) (ch payload : Text) (r : ℕ)
      → IsConsistent h
      → sent_to r (on_redis_message json h (channel_topic ch) payload).out
        ≡ sent_to r h.out
          ++ (if contains (topics_of h r) (channel_topic ch) then payload ∷ [] else [])
  unfolding on_redis_message
  sent_to-on_redis_message h ch payload r c = sent_to-local_fan_out h c (channel_topic ch) payload r

  -- A user who joins a channel on one instance, with Redis enabled, gets the channel's messages on
  -- every other instance `b`: the first publishes one control message, and once `b` has received it,
  -- a message of the channel that reaches `b` through Redis goes once to each of the user's sockets
  -- there and to each socket that was subscribed before, and to no other.
  pub joined_elsewhere :
      (a b : Hub) (u ch payload : Text) (r : ℕ)
      → a.redis_enabled ≡ true
      → IsConsistent b
      → let message : Text = json.dump (subscribe_command u (channel_topic ch)) in
        let b' : Hub = on_redis_message json b ctrl message in
        (published (subscribe_user_to_channel json a u ch).out
          ≡ published a.out ++ (ctrl, message) ∷ [])
        × (sent_to r (on_redis_message json b' (channel_topic ch) payload).out
            ≡ sent_to r b.out
              ++ (if is_owner u (lookup r b.conns) || contains (topics_of b r) (channel_topic ch)
                  then payload ∷ []
                  else []))
  unfolding subscribe_user_to_channel publish_control local_subscribe_user
  joined_elsewhere a b u ch payload r on c =
      let t : Text = channel_topic ch in
      let g : Hub = subscribe_each a (sockets_of a u) t in
      (
        rw
            (
              published-redis_publish g ctrl (json.dump (subscribe_command u t)),
              redis-subscribe_each a (sockets_of a u) t,
              out-subscribe_each a (sockets_of a u) t,
              on,
            )
            refl,
        rw
            (
              on_redis_message-dump b (subscribe_command u t),
              apply_command-subscribe b u t,
              sent_to-on_redis_message (subscribe_each b (sockets_of b u) t) ch payload r
                  (local_subscribe_user-IsConsistent b c u t),
              out-subscribe_each b (sockets_of b u) t,
              local_subscribe_user-exact b u t r t c,
              owner_and_topic (is_owner u (lookup r b.conns)) (contains (topics_of b r) t) t,
            )
            refl,
      )

  -- A user who leaves a channel on one instance, with Redis enabled, stops getting its messages on
  -- every other instance `b`: once `b` has received the control message, a message of the channel
  -- that reaches `b` through Redis goes once to each subscribed socket that is not the user's.
  pub left_elsewhere :
      (a b : Hub) (u ch payload : Text) (r : ℕ)
      → a.redis_enabled ≡ true
      → IsConsistent b
      → let message : Text = json.dump (unsubscribe_command u (channel_topic ch)) in
        let b' : Hub = on_redis_message json b ctrl message in
        (published (unsubscribe_user_from_channel json a u ch).out
          ≡ published a.out ++ (ctrl, message) ∷ [])
        × (sent_to r (on_redis_message json b' (channel_topic ch) payload).out
            ≡ sent_to r b.out
              ++ (if not (is_owner u (lookup r b.conns))
                    && contains (topics_of b r) (channel_topic ch)
                  then payload ∷ []
                  else []))
  unfolding unsubscribe_user_from_channel publish_control local_unsubscribe_user
  left_elsewhere a b u ch payload r on c =
      let t : Text = channel_topic ch in
      let g : Hub = unsubscribe_each a (sockets_of a u) t in
      (
        rw
            (
              published-redis_publish g ctrl (json.dump (unsubscribe_command u t)),
              redis-unsubscribe_each a (sockets_of a u) t,
              out-unsubscribe_each a (sockets_of a u) t,
              on,
            )
            refl,
        rw
            (
              on_redis_message-dump b (unsubscribe_command u t),
              apply_command-unsubscribe b u t,
              sent_to-on_redis_message (unsubscribe_each b (sockets_of b u) t) ch payload r
                  (local_unsubscribe_user-IsConsistent b c u t),
              out-unsubscribe_each b (sockets_of b u) t,
              local_unsubscribe_user-exact b u t r t c,
              not_owner_and_topic (is_owner u (lookup r b.conns)) (contains (topics_of b r) t) t,
            )
            refl,
      )

  -- Disconnecting a user on one instance, with Redis enabled, closes exactly the user's sockets on
  -- every other instance `b`, once `b` has received the one control message that is published.
  pub disconnected_elsewhere :
      (a b : Hub) (u : Text) (r : ℕ)
      → a.redis_enabled ≡ true
      → IsConsistent b
      → let message : Text = json.dump (disconnect_user_command u) in
        (published (disconnect_user json a u).out ≡ published a.out ++ (ctrl, message) ∷ [])
        × (lookup r (on_redis_message json b ctrl message).conns
            ≡ (if is_owner u (lookup r b.conns) then none else lookup r b.conns))
  unfolding disconnect_user publish_control local_disconnect_user
  disconnected_elsewhere a b u r on c =
      let g : Hub = close_each a (sockets_of a u) in
      (
        rw
            (
              published-redis_publish g ctrl (json.dump (disconnect_user_command u)),
              redis-close_each a (sockets_of a u),
              published-close_each a (sockets_of a u),
              on,
            )
            refl,
        rw (on_redis_message-dump b (disconnect_user_command u), apply_command-disconnect_user b u)
            (local_disconnect_user-exact b u r c),
      )

  -- A lockdown on one instance closes, on another instance that receives its control message,
  -- exactly the sockets whose role is neither admin nor owner.
  locked_down_elsewhere :
      (b : Hub) (m : Text) (r : ℕ)
      → IsConsistent b
      → lookup r (on_redis_message json b ctrl (json.dump (disconnect_non_admins_command m))).conns
        ≡ (if is_admin_socket b r then lookup r b.conns else none)
  locked_down_elsewhere b m r c =
      rw
        (
          on_redis_message-dump b (disconnect_non_admins_command m),
          apply_command-disconnect_non_admins b m,
        )
        (local_disconnect_non_admins-exact b m r c)
