-- ===== src/Ws/Reach/Loops.antt =====
-- The invariant through the operations that loop over sockets or topics.
use enclave_station.Base.{
  ℕ, ◌≡◌, ◌∙◌, inl, inr, true, List, [], ◌∷◌, Text, if◌then◌else◌, nat_keys, text_keys, nat_eqb_iff,
  text_eqb_iff, lookup, contains, members, UniqueKeys, arith, Bool-cases, if_both, Option-cases,
  contains-append,
}
use enclave_station.Ws.Hub.{
  Hub, Effect, sockets_of, local_subscribe, local_unsubscribe, emit, send, local_fan_out,
  redis_publish, broadcast_to_topic, presence, publish,
}
use enclave_station.Ws.Sessions.{
  Welcome, subscribe_topics, member_topics, admin_topics, welcome_socket, welcome_each, on_welcome,
  local_disconnect_user, every_socket, close_all, subscribe_each, unsubscribe_each,
  local_subscribe_user, local_unsubscribe_user, is_admin_socket, subscribe_admins_among,
  local_subscribe_admins, non_admins, local_disconnect_non_admins,
}
use enclave_station.Ws.Index.{
  IsConsistent, is_live, is_live-local_subscribe, local_subscribe-IsConsistent,
  local_unsubscribe-IsConsistent, emit-IsConsistent, nil_contains, sockets_of-is_live,
}
use enclave_station.Ws.Index.Closing.{close_each-IsConsistent}

-- Every socket of the list is alive.
abbrev pub AllLive : Hub → List ℕ → Type 0
AllLive h [] = Unit
AllLive h (s ∷ ss) = (is_live h s ≡ true) × AllLive h ss

pub AllLive-of_contains :
    (h : Hub) (ss : List ℕ) → ((s : ℕ) → contains ss s ≡ true → is_live h s ≡ true) → AllLive h ss
unfolding contains
AllLive-of_contains h [] all = tt
AllLive-of_contains h (s ∷ ss) all = (
  all s (ground (arith, nat_eqb_iff s s)),
  AllLive-of_contains h ss (λ r has. all r (ground arith)),
)

pub AllLive-local_subscribe :
    (h : Hub) (s : ℕ) (t : Text) (ss : List ℕ) → AllLive h ss → AllLive (local_subscribe h s t) ss
AllLive-local_subscribe h s t [] live = tt
AllLive-local_subscribe h s t (r ∷ ss) live =
    (is_live-local_subscribe h s r t ∙ live.0, AllLive-local_subscribe h s t ss live.1)

pub sockets_of-AllLive : (h : Hub) (u : Text) → IsConsistent h → AllLive h (sockets_of h u)
sockets_of-AllLive h u c =
    AllLive-of_contains h (sockets_of h u) (λ s has. sockets_of-is_live h u s c has)

-- A socket that the loop over all users meets belongs to one of them.
pub every_socket-member :
    (m : List (Text × List ℕ)) (s : ℕ)
    → UniqueKeys m
    → contains (every_socket m) s ≡ true
    → (u : Text) × (contains (members u m) s ≡ true)
unfolding every_socket lookup
every_socket-member [] s q has = ground (arith, nil_contains {0} s)
every_socket-member ((u, ss) ∷ m) s q has = elim (Bool-cases (contains ss s)) [
  | inl hit ↦ (u, ground (arith, text_eqb_iff u u))
  | inr miss ↦
      let (v, there) =
        every_socket-member m s q.1 (ground (arith, contains-append ss (every_socket m) s)) in
      (v, ground (arith, text_eqb_iff u v, q.0, nil_contains s))
]

pub every_socket-AllLive : (h : Hub) → IsConsistent h → AllLive h (every_socket h.user_sockets)
every_socket-AllLive h c = AllLive-of_contains h (every_socket h.user_sockets) λ s has.
    let (u, there) = every_socket-member h.user_sockets s c.users_unique has in
    sockets_of-is_live h u s c there

pub local_fan_out-IsConsistent :
    (h : Hub) (t payload : Text) → IsConsistent h → IsConsistent (local_fan_out h t payload)
unfolding local_fan_out
local_fan_out-IsConsistent h t payload c = emit-IsConsistent h _ c

pub redis_publish-IsConsistent :
    (h : Hub) (t payload : Text) → IsConsistent h → IsConsistent (redis_publish h t payload)
unfolding redis_publish
redis_publish-IsConsistent h t payload c =
    if_both IsConsistent h.redis_enabled (emit h (publish t payload ∷ [])) h
      (emit-IsConsistent h (publish t payload ∷ []) c) c

pub broadcast_to_topic-IsConsistent :
    (h : Hub) (t payload : Text) → IsConsistent h → IsConsistent (broadcast_to_topic h t payload)
unfolding broadcast_to_topic
broadcast_to_topic-IsConsistent h t payload c =
    redis_publish-IsConsistent (local_fan_out h t payload) t payload
      (local_fan_out-IsConsistent h t payload c)

-- A hub in which the invariant holds and a list of sockets is alive.
abbrev pub Holds : Hub → List ℕ → Type 0
Holds h ss = IsConsistent h × AllLive h ss

subscribe_topics-Holds :
    (h : Hub) (s : ℕ) (ts : List Text) (ss : List ℕ)
    → is_live h s ≡ true
    → Holds h ss
    → Holds (subscribe_topics h s ts) ss × (is_live (subscribe_topics h s ts) s ≡ true)
unfolding subscribe_topics
subscribe_topics-Holds h s [] ss live (c, all) = ((c, all), live)
subscribe_topics-Holds h s (t ∷ ts) ss live (c, all) =
    subscribe_topics-Holds (local_subscribe h s t) s ts ss (is_live-local_subscribe h s s t ∙ live)
      (local_subscribe-IsConsistent h s t live c, AllLive-local_subscribe h s t ss all)

AllLive-emit : (h : Hub) (es : List Effect) (ss : List ℕ) → AllLive h ss → AllLive (emit h es) ss
AllLive-emit h es [] live = tt
AllLive-emit h es (s ∷ ss) live = (live.0, AllLive-emit h es ss live.1)

welcome_socket-Holds :
    (h : Hub) (s : ℕ) (w : Welcome) (ss : List ℕ)
    → is_live h s ≡ true
    → Holds h ss
    → Holds (welcome_socket h s w) ss
unfolding welcome_socket
welcome_socket-Holds h s w ss live p =
    let (q, live') = subscribe_topics-Holds h s (member_topics w) ss live p in
    let g : Hub = subscribe_topics h s (member_topics w) in
    let (r, _) = subscribe_topics-Holds g s (admin_topics w) ss live' q in
    let k : Hub = if w.is_admin then subscribe_topics g s (admin_topics w) else g in
    let both : Holds k ss =
      if_both (λ x. Holds x ss) w.is_admin (subscribe_topics g s (admin_topics w)) g r q in
    let greetings : List Effect = send s w.counts ∷ send s w.notifications ∷ [] in
    (emit-IsConsistent k greetings both.0, AllLive-emit k greetings ss both.1)

welcome_each-IsConsistent :
    (h : Hub) (ss : List ℕ) (w : Welcome) → Holds h ss → IsConsistent (welcome_each h ss w)
unfolding welcome_each
welcome_each-IsConsistent h [] w p = p.0
welcome_each-IsConsistent h (s ∷ ss) w (c, (live, all)) =
    welcome_each-IsConsistent (welcome_socket h s w) ss w
      (welcome_socket-Holds h s w ss live (c, all))

pub on_welcome-IsConsistent :
    (h : Hub) (u : Text) (w : Welcome) → IsConsistent h → IsConsistent (on_welcome h u w)
unfolding on_welcome
on_welcome-IsConsistent h u w c = elim (Option-cases (lookup u h.user_sockets)) [
  | inl gone ↦ rw (gone, on_welcome) c
  | inr (ss, found) ↦
      rw (found, on_welcome)
        (broadcast_to_topic-IsConsistent (welcome_each h ss w) presence w.online
          (welcome_each-IsConsistent h ss w (c, rw found at (sockets_of-AllLive h u c))))
]

pub subscribe_each-IsConsistent :
    (h : Hub) (ss : List ℕ) (t : Text) → Holds h ss → IsConsistent (subscribe_each h ss t)
unfolding subscribe_each
subscribe_each-IsConsistent h [] t p = p.0
subscribe_each-IsConsistent h (s ∷ ss) t (c, (live, all)) =
    subscribe_each-IsConsistent (local_subscribe h s t) ss t
      (local_subscribe-IsConsistent h s t live c, AllLive-local_subscribe h s t ss all)

unsubscribe_each-IsConsistent :
    (h : Hub) (ss : List ℕ) (t : Text) → IsConsistent h → IsConsistent (unsubscribe_each h ss t)
unfolding unsubscribe_each
unsubscribe_each-IsConsistent h [] t c = c
unsubscribe_each-IsConsistent h (s ∷ ss) t c =
    unsubscribe_each-IsConsistent (local_unsubscribe h s t) ss t
      (local_unsubscribe-IsConsistent h s t c)

subscribe_admins_among-IsConsistent :
    (h : Hub) (ss : List ℕ) (t : Text) → Holds h ss → IsConsistent (subscribe_admins_among h ss t)
unfolding subscribe_admins_among
subscribe_admins_among-IsConsistent h [] t p = p.0
subscribe_admins_among-IsConsistent h (s ∷ ss) t (c, (live, all)) =
    subscribe_admins_among-IsConsistent (if is_admin_socket h s then local_subscribe h s t else h)
      ss t
      (if_both (λ x. Holds x ss) (is_admin_socket h s) (local_subscribe h s t) h
        (local_subscribe-IsConsistent h s t live c, AllLive-local_subscribe h s t ss all) (c, all))

module _ (h : Hub) (c : IsConsistent h) where
  pub local_subscribe_user-IsConsistent : (u t : Text) → IsConsistent (local_subscribe_user h u t)
  unfolding local_subscribe_user
  local_subscribe_user-IsConsistent u t =
      subscribe_each-IsConsistent h (sockets_of h u) t (c, sockets_of-AllLive h u c)

  pub local_unsubscribe_user-IsConsistent :
      (u t : Text) → IsConsistent (local_unsubscribe_user h u t)
  unfolding local_unsubscribe_user
  local_unsubscribe_user-IsConsistent u t = unsubscribe_each-IsConsistent h (sockets_of h u) t c

  pub local_subscribe_admins-IsConsistent : (t : Text) → IsConsistent (local_subscribe_admins h t)
  unfolding local_subscribe_admins
  local_subscribe_admins-IsConsistent t =
      subscribe_admins_among-IsConsistent h (every_socket h.user_sockets) t
        (c, every_socket-AllLive h c)

  pub local_disconnect_user-IsConsistent : (u : Text) → IsConsistent (local_disconnect_user h u)
  unfolding local_disconnect_user
  local_disconnect_user-IsConsistent u = close_each-IsConsistent h (sockets_of h u) c

  pub close_all-IsConsistent : IsConsistent (close_all h)
  unfolding close_all
  close_all-IsConsistent = close_each-IsConsistent h (every_socket h.user_sockets) c

  pub local_disconnect_non_admins-IsConsistent :
      (message : Text) → IsConsistent (local_disconnect_non_admins h message)
  unfolding local_disconnect_non_admins
  local_disconnect_non_admins-IsConsistent [] =
      close_each-IsConsistent h (non_admins h (every_socket h.user_sockets)) c
  local_disconnect_non_admins-IsConsistent (x ∷ m) =
      close_each-IsConsistent (emit h _) (non_admins h (every_socket h.user_sockets))
        (emit-IsConsistent h _ c)
