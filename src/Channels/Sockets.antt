-- ===== src/Channels/Sockets.antt =====
-- The deferred parts of backend/src/handlers/channel_handler.cpp on the hub of
-- backend/src/ws/ws_handler.cpp.
use enclave_station.Base.{
  ℕ, ◌≡◌, ap, ◌∙◌, inl, inr, Bool, true, not, ◌&&◌, List, [], ◌∷◌, ◌++◌, if◌then◌else◌, ◌==◌,
  text_keys, nat_keys, text_eqb_iff, Text, codes, lookup, contains, arith, Bool-cases,
}
use enclave_station.Chat.Store.{Generator, Db, get_effective_role, get_member_role}
use enclave_station.Channels.Tables.{remove_channel_member}
use enclave_station.Channels.Requests.{
  ChannelEvent, channel_removed, WsCall, subscribe, unsubscribe, notify, subscribe_admins, perform,
  perform_call, is_success,
}
use enclave_station.Channels.Handlers.{kick}
use enclave_station.Channels.Rows.{role_of, role_of-remove}
use enclave_station.Ws.Hub.{
  Hub, topics_of, topics_in, broadcast_to_topic, local_fan_out, redis_publish, channel_topic,
  send_to_user, user_topic,
}
use enclave_station.Ws.Sessions.{local_unsubscribe_user}
use enclave_station.Ws.Control.{
  Codec, publish_control, unsubscribe_user_from_channel, unsubscribe_user_from, unsubscribe_command,
  ctrl,
}
use enclave_station.Ws.Index.{IsConsistent, is_owner}
use enclave_station.Ws.Reach.{Step, joined_channel, left_channel, admins_joined_channel}
use enclave_station.Ws.Reach.Invariant.{Step-IsConsistent}
use enclave_station.Ws.Membership.{local_unsubscribe_user-exact}
use enclave_station.Ws.Delivery.{sent_to, broadcast_to_topic-exact}

module _ (json : Codec) (render : ChannelEvent → Text) where
  -- Every call is one of the hub's own steps.
  perform_call-IsConsistent :
      (h : Hub) (call : WsCall) → IsConsistent h → IsConsistent (perform_call json render h call)
  unfolding perform_call send_to_user
  perform_call-IsConsistent h (subscribe u c) = Step-IsConsistent json (joined_channel u c)
  perform_call-IsConsistent h (unsubscribe u c) = Step-IsConsistent json (left_channel u c)
  perform_call-IsConsistent h (notify u e) =
      Step-IsConsistent json (Step.broadcast (user_topic u) (render e))
  perform_call-IsConsistent h (WsCall.broadcast c e) =
      Step-IsConsistent json (Step.broadcast (channel_topic c) (render e))
  perform_call-IsConsistent h (subscribe_admins c) =
      Step-IsConsistent json (admins_joined_channel c)

  pub perform-IsConsistent :
      (h : Hub) (calls : List WsCall) → IsConsistent h → IsConsistent (perform json render h calls)
  unfolding perform
  perform-IsConsistent h [] c = c
  perform-IsConsistent h (call ∷ calls) c =
      perform-IsConsistent (perform_call json render h call) calls
        (perform_call-IsConsistent h call c)

conns-redis_publish : (h : Hub) (t payload : Text) → (redis_publish h t payload).conns ≡ h.conns
unfolding redis_publish
conns-redis_publish h t payload = ground arith

conns-broadcast_to_topic :
    (h : Hub) (t payload : Text) → (broadcast_to_topic h t payload).conns ≡ h.conns
unfolding broadcast_to_topic local_fan_out
conns-broadcast_to_topic h t payload = conns-redis_publish (local_fan_out h t payload) t payload

-- What follows the change of the subscriptions leaves them.
topics-kicked :
    (json : Codec) (render : ChannelEvent → Text) (h : Hub) (u c : Text) (e : ChannelEvent) (s : ℕ)
    (t : Text)
    → IsConsistent h
    → contains (topics_of (perform json render h (unsubscribe u c ∷ notify u e ∷ [])) s) t ≡ (
        not (is_owner u (lookup s h.conns) && (channel_topic c == t)) && contains (topics_of h s) t)
unfolding perform perform_call send_to_user unsubscribe_user_from_channel unsubscribe_user_from
    publish_control
topics-kicked json render h u c e s t ok =
    let left = local_unsubscribe_user h u (channel_topic c) in
    let told = unsubscribe_user_from_channel json h u c in
    ap (λ conns. contains (topics_in (lookup s conns)) t)
      (conns-broadcast_to_topic told (user_topic u) (render e)
        ∙ conns-redis_publish left ctrl (json.dump (unsubscribe_command u (channel_topic c))))
    ∙ local_unsubscribe_user-exact h u (channel_topic c) s t ok

module _ (json : Codec) (render : ChannelEvent → Text) where
  no_role : (db : Db) (c u : Text) → get_member_role (remove_channel_member db c u) c u ≡ []
  unfolding get_member_role remove_channel_member role_of
  no_role db c u =
      ground (arith, role_of-remove c u db.channel_members c u, text_eqb_iff c c, text_eqb_iff u u)

  silenced :
      (db : Db) (c target : Text) (h : Hub) (s : ℕ) (payload : Text)
      → IsConsistent h
      → let calls = unsubscribe target c ∷ notify target (channel_removed c) ∷ [] in
        let after = perform json render h calls in
        let reached =
          not (is_owner target (lookup s h.conns)) && contains (topics_of h s) (channel_topic c) in
        (get_member_role (remove_channel_member db c target) c target ≡ [])
        × (contains (topics_of after s) (channel_topic c) ≡ reached)
        × (sent_to s (broadcast_to_topic after (channel_topic c) payload).out
            ≡ sent_to s after.out ++ (if reached then payload ∷ [] else []))
  silenced db c target h s payload ok =
      let calls = unsubscribe target c ∷ notify target (channel_removed c) ∷ [] in
      let after = perform json render h calls in
      let subscribed =
        topics-kicked json render h target c (channel_removed c) s (channel_topic c) ok in
      let kept : Bool =
        not (is_owner target (lookup s h.conns)) && contains (topics_of h s) (channel_topic c) in
      let reached : contains (topics_of after s) (channel_topic c) ≡ kept =
        ground (arith, subscribed, text_eqb_iff (channel_topic c) (channel_topic c)) in
      (
        no_role db c target,
        reached,
        (broadcast_to_topic-exact after (perform-IsConsistent json render h calls ok)
              (channel_topic c) payload s).0
            ∙ ap (λ b. sent_to s after.out ++ (if b then payload ∷ [] else [])) reached,
      )

  -- If the request writes the ids of the channel and of the member the way that the database does: a
  -- member who is removed has no role in the channel any more, and once the calls of the request are
  -- made, the sockets of that user are no longer subscribed to it, while every other subscription
  -- stands: whatever is then sent to the channel goes to the other subscribers, and not to the user.
  pub kick-silences :
      (gen : Generator) (db : Db) (user c target : Text) (h : Hub) (s : ℕ) (payload : Text)
      → IsConsistent h
      → gen.cast c ≡ c
      → gen.cast target ≡ target
      → is_success (kick gen db user c target).answer ≡ true
      → let after = perform json render h (kick gen db user c target).calls in
        let reached =
          not (is_owner target (lookup s h.conns)) && contains (topics_of h s) (channel_topic c) in
        (get_member_role (kick gen db user c target).db c target ≡ [])
        × (contains (topics_of after s) (channel_topic c) ≡ reached)
        × (sent_to s (broadcast_to_topic after (channel_topic c) payload).out
            ≡ sent_to s after.out ++ (if reached then payload ∷ [] else []))
  unfolding kick remove_channel_member
  kick-silences gen db user c target h s payload ok own_c own_target success =
      elim (Bool-cases (get_effective_role db c user == codes "admin")) [
        | inr denied ↦ ground (arith, rw (own_c, denied) at success)
        | inl admin ↦ elim (Bool-cases (target == user)) [
          | inl self ↦ ground (arith, rw (own_c, own_target, admin, self) at success)
          | inr other ↦ rw (own_c, own_target, admin, other) (silenced db c target h s payload ok)
        ]
      ]
