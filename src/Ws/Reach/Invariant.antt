-- ===== src/Ws/Reach/Invariant.antt =====
-- The invariant of the indexes along the histories of a hub.
use enclave_station.Base.{
  ℕ, Bool, true, false, Text, inl, inr, ◌==◌, nat_keys, text_keys, lookup, map, if_both, sym, ◌∙◌,
  arith, Option-cases,
}
use enclave_station.Ws.Hub.{
  Hub, send, redis_publish, empty_hub, wiki_topic, user_topic, send_to_user, subscribers,
}
use enclave_station.Ws.Control.{
  Codec, Command, apply_command, handle_control_message, on_redis_message, publish_control, ctrl,
  disconnect_user, subscribe_user_to_channel, subscribe_user_to_space,
  unsubscribe_user_from_channel, unsubscribe_user_from_space, subscribe_admins_to_channel,
  subscribe_admins_to_space, disconnect_non_admins,
}
use enclave_station.Ws.Relay.{
  except, fan_out_except, handle_typing, mark_read_done, handle_wiki_relay, wiki_join_done,
  wiki_leave,
}
use enclave_station.Ws.Index.{
  IsConsistent, emit-IsConsistent, local_unsubscribe-IsConsistent, nil_contains,
}
use enclave_station.Ws.Index.Closing.{on_open-IsConsistent, on_close-IsConsistent}
use enclave_station.Ws.Reach.Loops.{
  local_fan_out-IsConsistent, redis_publish-IsConsistent, broadcast_to_topic-IsConsistent,
  on_welcome-IsConsistent, local_subscribe_user-IsConsistent, local_unsubscribe_user-IsConsistent,
  local_subscribe_admins-IsConsistent, local_disconnect_user-IsConsistent, close_all-IsConsistent,
  local_disconnect_non_admins-IsConsistent,
}
use enclave_station.Ws.Reach.{
  Step, Reach, here, next, opened, welcomed, closed, shut_down, broadcast, redis_message,
  user_disconnected, joined_channel, joined_space, left_channel, left_space, admins_joined_channel,
  admins_joined_space, locked_down, typed, read_marked, wiki_relayed, wiki_joined, wiki_left,
}

empty_hub-IsConsistent : (redis : Bool) → IsConsistent (empty_hub redis)
unfolding lookup
empty_hub-IsConsistent redis = record {
  linked = λ t s. nil_contains s ∙ sym (nil_contains t);
  owned = λ u s. nil_contains s;
  topics_full = λ k h. ground arith;
  users_full = λ k h. ground arith;
  topics_distinct = λ k. tt;
  users_distinct = λ k. tt;
  users_unique = tt;
}

module _ (h : Hub) (c : IsConsistent h) where
  fan_out_except-IsConsistent :
      (skip : ℕ → Bool) (t msg : Text) → IsConsistent (fan_out_except h skip t msg)
  unfolding fan_out_except
  fan_out_except-IsConsistent skip t msg =
      emit-IsConsistent h (map (λ s. send s msg) (except skip (subscribers h t))) c

  relayed-IsConsistent :
      (skip : ℕ → Bool) (t msg : Text)
      → IsConsistent (redis_publish (fan_out_except h skip t msg) t msg)
  relayed-IsConsistent skip t msg =
      redis_publish-IsConsistent (fan_out_except h skip t msg) t msg
        (fan_out_except-IsConsistent skip t msg)

  handle_wiki_relay-IsConsistent :
      (s : ℕ) (page msg : Text) → IsConsistent (handle_wiki_relay h s page msg)
  unfolding handle_wiki_relay
  handle_wiki_relay-IsConsistent s page msg =
      if_both IsConsistent _ h
        (redis_publish (fan_out_except h (λ r. r == s) (wiki_topic page) msg) (wiki_topic page) msg)
        c (relayed-IsConsistent (λ r. r == s) (wiki_topic page) msg)

  wiki_join_done-IsConsistent :
      (u page : Text) (allowed : Bool) (refusal : Text)
      → IsConsistent (wiki_join_done h u page allowed refusal)
  unfolding wiki_join_done send_to_user
  wiki_join_done-IsConsistent u page true refusal =
      local_subscribe_user-IsConsistent h c u (wiki_topic page)
  wiki_join_done-IsConsistent u page false refusal =
      broadcast_to_topic-IsConsistent h (user_topic u) refusal c

  apply_command-IsConsistent : (k : Command) → IsConsistent (apply_command h k)
  unfolding apply_command
  apply_command-IsConsistent k =
      if_both IsConsistent _ _ _ (local_subscribe_user-IsConsistent h c k.user_id k.topic) (
        if_both IsConsistent _ _ _ (local_unsubscribe_user-IsConsistent h c k.user_id k.topic) (
          if_both IsConsistent _ _ _ (local_subscribe_admins-IsConsistent h c k.topic) (
            if_both IsConsistent _ _ _ (local_disconnect_user-IsConsistent h c k.user_id) (
              if_both IsConsistent _ _ _ (local_disconnect_non_admins-IsConsistent h c k.message)
                c))))

module _ (json : Codec) (h : Hub) (c : IsConsistent h) where
  handle_control_message-IsConsistent :
      (payload : Text) → IsConsistent (handle_control_message json h payload)
  unfolding handle_control_message
  handle_control_message-IsConsistent payload = elim (Option-cases (json.parse payload)) [
    | inl bad ↦ rw (bad, handle_control_message) c
    | inr (k, good) ↦ rw (good, handle_control_message) (apply_command-IsConsistent h c k)
  ]

  on_redis_message-IsConsistent :
      (t payload : Text) → IsConsistent (on_redis_message json h t payload)
  unfolding on_redis_message
  on_redis_message-IsConsistent t payload =
      if_both IsConsistent (t == ctrl) _ _ (handle_control_message-IsConsistent payload)
        (local_fan_out-IsConsistent h t payload c)

  publish_control-IsConsistent : (k : Command) → IsConsistent (publish_control json h k)
  unfolding publish_control
  publish_control-IsConsistent k = redis_publish-IsConsistent h ctrl (json.dump k) c

operations : Unit {0}
unfolding disconnect_user subscribe_user_to_channel subscribe_user_to_space
    unsubscribe_user_from_channel unsubscribe_user_from_space subscribe_admins_to_channel
    subscribe_admins_to_space disconnect_non_admins handle_typing mark_read_done wiki_leave
operations = tt

pub Step-IsConsistent : (json : Codec) {h g : Hub} → Step json h g → IsConsistent h → IsConsistent g
unfolding operations
Step-IsConsistent json {h} (opened s d fresh) c = on_open-IsConsistent h s d fresh c
Step-IsConsistent json {h} (welcomed u w) c = on_welcome-IsConsistent h u w c
Step-IsConsistent json {h} (closed s) c = on_close-IsConsistent h s c
Step-IsConsistent json {h} shut_down c = close_all-IsConsistent h c
Step-IsConsistent json {h} (broadcast t payload) c = broadcast_to_topic-IsConsistent h t payload c
Step-IsConsistent json {h} (redis_message t payload) c =
    on_redis_message-IsConsistent json h c t payload
Step-IsConsistent json {h} (user_disconnected u) c =
    publish_control-IsConsistent json _ (local_disconnect_user-IsConsistent h c u) _
Step-IsConsistent json {h} (joined_channel u ch) c =
    publish_control-IsConsistent json _ (local_subscribe_user-IsConsistent h c u _) _
Step-IsConsistent json {h} (joined_space u sp) c =
    publish_control-IsConsistent json _ (local_subscribe_user-IsConsistent h c u _) _
Step-IsConsistent json {h} (left_channel u ch) c =
    publish_control-IsConsistent json _ (local_unsubscribe_user-IsConsistent h c u _) _
Step-IsConsistent json {h} (left_space u sp) c =
    publish_control-IsConsistent json _ (local_unsubscribe_user-IsConsistent h c u _) _
Step-IsConsistent json {h} (admins_joined_channel ch) c =
    publish_control-IsConsistent json _ (local_subscribe_admins-IsConsistent h c _) _
Step-IsConsistent json {h} (admins_joined_space sp) c =
    publish_control-IsConsistent json _ (local_subscribe_admins-IsConsistent h c _) _
Step-IsConsistent json {h} (locked_down message) c =
    publish_control-IsConsistent json _ (local_disconnect_non_admins-IsConsistent h c message) _
Step-IsConsistent json {h} (typed s ch msg) c = relayed-IsConsistent h c _ _ msg
Step-IsConsistent json {h} (read_marked u ch msg) c = relayed-IsConsistent h c _ _ msg
Step-IsConsistent json {h} (wiki_relayed s page msg) c =
    handle_wiki_relay-IsConsistent h c s page msg
Step-IsConsistent json {h} (wiki_joined u page allowed refusal) c =
    wiki_join_done-IsConsistent h c u page allowed refusal
Step-IsConsistent json {h} (wiki_left s page) c = local_unsubscribe-IsConsistent h s _ c

-- In every state that an instance reaches from its start, by any sequence of openings, closings,
-- subscription changes, broadcasts, control messages and relays, the topic index and the
-- connections' reverse index agree, a user's sockets are exactly the live sockets opened as that
-- user, and no set is empty or holds a socket twice.
pub Reach-IsConsistent :
    (json : Codec) (redis : Bool) {h : Hub} → Reach json (empty_hub redis) h → IsConsistent h
Reach-IsConsistent json redis here = empty_hub-IsConsistent redis
Reach-IsConsistent json redis (next r s) =
    Step-IsConsistent json s (Reach-IsConsistent json redis r)
