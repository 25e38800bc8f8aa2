-- ===== src/Ws/Membership.antt =====
-- What a subscription change, a disconnect and a lockdown do to each socket.
use mathlib.Core.List.{append-nil}
use enclave_station.Base.{
  is_nil, ap, members, elements, members-drop_member, contains-append, ℕ, ◌≡◌, refl, ◌∙◌, true,
  ◌&&◌, ◌||◌, not, Option, none, some, inl, inr, List, [], ◌∷◌, ◌++◌, Text, if◌then◌else◌, ◌==◌,
  nat_keys, text_keys, nat_eqb_iff, text_eqb_iff, lookup, insert, remove, contains, arith,
  Bool-cases, Option-cases, lookup-erase, contains-insert, contains-remove,
}
use enclave_station.Ws.Hub.{
  UserData, Hub, Effect, send, publish, set_offline, emit, topics_of, sockets_of, set_topics,
  local_subscribe, local_unsubscribe, local_unsubscribe_all,
}
use enclave_station.Ws.Sessions.{
  close_socket, on_close, close_each, local_disconnect_user, subscribe_each, unsubscribe_each,
  local_subscribe_user, local_unsubscribe_user, is_admin_socket, every_socket, non_admins,
  local_disconnect_non_admins, was_last,
}
use enclave_station.Ws.Index.{
  IsConsistent, is_owner, is_some, is_live, lookup-set_topics, nil_contains,
  is_live-local_subscribe,
}
use enclave_station.Ws.Reach.Loops.{every_socket-member}

contains-topics-local_subscribe :
    (h : Hub) (s : ℕ) (t : Text) (r : ℕ) (t' : Text)
    → contains (topics_of (local_subscribe h s t) r) t'
      ≡ ((((s == r) && is_live h r) && (t == t')) || contains (topics_of h r) t')
unfolding local_subscribe
contains-topics-local_subscribe h s t r t' = ground (
  arith,
  nat_eqb_iff s r,
  lookup-set_topics s r (insert (topics_of h s) t) h.conns,
  contains-insert (topics_of h s) t t',
  nil_contains t',
)

contains-topics-subscribe_each :
    (h : Hub) (ss : List ℕ) (t : Text) (r : ℕ) (t' : Text)
    → contains (topics_of (subscribe_each h ss t) r) t'
      ≡ (((contains ss r && is_live h r) && (t == t')) || contains (topics_of h r) t')
unfolding subscribe_each contains
contains-topics-subscribe_each h [] t r t' = refl
contains-topics-subscribe_each h (s ∷ ss) t r t' = ground (
  arith,
  contains-topics-subscribe_each (local_subscribe h s t) ss t r t',
  contains-topics-local_subscribe h s t r t',
  is_live-local_subscribe h s r t,
)

is_owner-is_live : (u : Text) (o : Option UserData) → (is_owner u o && is_some o) ≡ is_owner u o
is_owner-is_live u none = refl
is_owner-is_live u (some d) = ground arith

-- After `local_subscribe_user` a socket is subscribed to what it was before, and to the topic if it
-- is one of the user's.
pub local_subscribe_user-exact :
    (h : Hub) (u t : Text) (r : ℕ) (t' : Text)
    → IsConsistent h
    → contains (topics_of (local_subscribe_user h u t) r) t'
      ≡ ((is_owner u (lookup r h.conns) && (t == t')) || contains (topics_of h r) t')
unfolding local_subscribe_user
local_subscribe_user-exact h u t r t' c =
    rw
      (
        contains-topics-subscribe_each h (sockets_of h u) t r t',
        c.owned u r,
        is_owner-is_live u (lookup r h.conns),
      )
      refl

contains-topics-local_unsubscribe :
    (h : Hub) (s : ℕ) (t : Text) (r : ℕ) (t' : Text)
    → contains (topics_of (local_unsubscribe h s t) r) t'
      ≡ (not ((s == r) && (t == t')) && contains (topics_of h r) t')
unfolding local_unsubscribe
contains-topics-local_unsubscribe h s t r t' = ground (
  arith,
  nat_eqb_iff s r,
  lookup-set_topics s r (remove (topics_of h s) t) h.conns,
  contains-remove (topics_of h s) t t',
  nil_contains t',
)

contains-topics-unsubscribe_each :
    (h : Hub) (ss : List ℕ) (t : Text) (r : ℕ) (t' : Text)
    → contains (topics_of (unsubscribe_each h ss t) r) t'
      ≡ (not (contains ss r && (t == t')) && contains (topics_of h r) t')
unfolding unsubscribe_each contains
contains-topics-unsubscribe_each h [] t r t' = refl
contains-topics-unsubscribe_each h (s ∷ ss) t r t' = ground (
  arith,
  contains-topics-unsubscribe_each (local_unsubscribe h s t) ss t r t',
  contains-topics-local_unsubscribe h s t r t',
)

-- After `local_unsubscribe_user` no socket of the user is subscribed to the topic, and every other
-- subscription stands.
pub local_unsubscribe_user-exact :
    (h : Hub) (u t : Text) (r : ℕ) (t' : Text)
    → IsConsistent h
    → contains (topics_of (local_unsubscribe_user h u t) r) t'
      ≡ (not (is_owner u (lookup r h.conns) && (t == t')) && contains (topics_of h r) t')
unfolding local_unsubscribe_user
local_unsubscribe_user-exact h u t r t' c =
    rw (contains-topics-unsubscribe_each h (sockets_of h u) t r t', c.owned u r) refl

lookup-on_close :
    (h : Hub) (s r : ℕ)
    → lookup r (on_close h s).conns ≡ (if s == r then none else lookup r h.conns)
unfolding on_close close_socket local_unsubscribe_all
lookup-on_close h s r = ground (
  arith,
  nat_eqb_iff s r,
  lookup-erase s r (set_topics s [] h.conns),
  lookup-set_topics s r [] h.conns,
)

pub lookup-close_each :
    (h : Hub) (ss : List ℕ) (r : ℕ)
    → lookup r (close_each h ss).conns ≡ (if contains ss r then none else lookup r h.conns)
unfolding close_each contains
lookup-close_each h [] r = refl
lookup-close_each h (s ∷ ss) r =
    ground (arith, lookup-close_each (on_close h s) ss r, lookup-on_close h s r)

-- Disconnecting a user closes exactly the user's sockets. Every other socket keeps its data, its
-- subscriptions included.
pub local_disconnect_user-exact :
    (h : Hub) (u : Text) (r : ℕ)
    → IsConsistent h
    → lookup r (local_disconnect_user h u).conns
      ≡ (if is_owner u (lookup r h.conns) then none else lookup r h.conns)
unfolding local_disconnect_user
local_disconnect_user-exact h u r c = rw (lookup-close_each h (sockets_of h u) r, c.owned u r) refl

-- The loop over all users meets every socket that some user has.
contains-every_socket :
    (m : List (Text × List ℕ)) (u : Text) (s : ℕ)
    → contains (members u m) s ≡ true
    → contains (every_socket m) s ≡ true
unfolding every_socket lookup
contains-every_socket [] u s has = ground (arith, nil_contains s)
contains-every_socket ((v, ss) ∷ m) u s has =
    ground (arith, contains-append ss (every_socket m) s, contains-every_socket m u s)

every_socket-is_live :
    (h : Hub) (s : ℕ) → IsConsistent h → contains (every_socket h.user_sockets) s ≡ is_live h s
every_socket-is_live h s c = elim (Option-cases (lookup s h.conns)) [
  | inl gone ↦ elim (Bool-cases (contains (every_socket h.user_sockets) s)) [
    | inl has ↦
        let (u, there) = every_socket-member h.user_sockets s c.users_unique has in
        ground (arith, c.owned u s)
    | inr out ↦ ground arith
  ]
  | inr (d, found) ↦ ground (
    arith,
    c.owned d.user_id s,
    text_eqb_iff d.user_id d.user_id,
    contains-every_socket h.user_sockets d.user_id s,
  )
]

contains-non_admins :
    (h : Hub) (ss : List ℕ) (s : ℕ)
    → contains (non_admins h ss) s ≡ (not (is_admin_socket h s) && contains ss s)
unfolding contains non_admins
contains-non_admins h [] s = ground arith
contains-non_admins h (r ∷ ss) s = elim (Bool-cases (r == s)) [
  | inl same ↦
      ground (arith, contains-non_admins h ss s, ap (is_admin_socket h) ((nat_eqb_iff r s).0 same))
  | inr other ↦ ground (arith, contains-non_admins h ss s)
]

dropped_lem :
    (h : Hub) (r : ℕ)
    → IsConsistent h
    → (if contains (non_admins h (every_socket h.user_sockets)) r then none else lookup r h.conns)
      ≡ (if is_admin_socket h r then lookup r h.conns else none)
dropped_lem h r c =
    ground
      (arith, contains-non_admins h (every_socket h.user_sockets) r, every_socket-is_live h r c)

-- A lockdown closes exactly the sockets whose role is neither admin nor owner, whether or not they
-- are sent a message first. The sockets of admins and owners keep their data.
pub local_disconnect_non_admins-exact :
    (h : Hub) (message : Text) (r : ℕ)
    → IsConsistent h
    → lookup r (local_disconnect_non_admins h message).conns
      ≡ (if is_admin_socket h r then lookup r h.conns else none)
unfolding local_disconnect_non_admins
local_disconnect_non_admins-exact h [] r c =
    lookup-close_each h (non_admins h (every_socket h.user_sockets)) r ∙ dropped_lem h r c
local_disconnect_non_admins-exact h (x ∷ m) r c =
    lookup-close_each (emit h _) (non_admins h (every_socket h.user_sockets)) r ∙ dropped_lem h r c

-- The users that were marked offline, oldest first.
abbrev pub offlined : List Effect → List Text
offlined [] = []
offlined (send r payload ∷ es) = offlined es
offlined (publish t payload ∷ es) = offlined es
offlined (set_offline u ∷ es) = u ∷ offlined es

offlined-append : (es fs : List Effect) → offlined (es ++ fs) ≡ offlined es ++ offlined fs
offlined-append [] fs = refl
offlined-append (send r payload ∷ es) fs = offlined-append es fs
offlined-append (publish t payload ∷ es) fs = offlined-append es fs
offlined-append (set_offline u ∷ es) fs = ap (◌∷◌ u) (offlined-append es fs)

was_last_lem :
    (s : ℕ) (o : Option (List ℕ))
    → contains (elements o) s ≡ true
    → was_last s o ≡ is_nil (remove (elements o) s)
was_last_lem s none has = ground (arith, nil_contains s)
was_last_lem s (some ss) has = refl

-- When a live socket closes, its user is marked offline exactly if no socket of that user is left.
pub on_close-offlined :
    (h : Hub) (s : ℕ) (d : UserData)
    → IsConsistent h
    → lookup s h.conns ≡ some d
    → offlined (on_close h s).out
      ≡ offlined h.out
        ++ (if is_nil (sockets_of (on_close h s) d.user_id) then d.user_id ∷ [] else [])
unfolding on_close close_socket local_unsubscribe_all
on_close-offlined h s d c alive = ground (
  arith,
  c.owned d.user_id s,
  text_eqb_iff d.user_id d.user_id,
  was_last_lem s (lookup d.user_id h.user_sockets),
  members-drop_member d.user_id d.user_id s h.user_sockets,
  offlined-append h.out (set_offline d.user_id ∷ []),
  append-nil (offlined h.out),
)
