-- ===== src/Ws/Sessions.antt =====
-- backend/src/ws/ws_handler.cpp: sockets that open and close, and the operations on all sockets of
-- a user or of the admins. `ws->close()` runs the close handler before it returns, and the socket's
-- memory goes with it, so that a closed socket leaves `conns`.
use enclave_station.Base.{
  is_nil, ℕ, Bool, false, Option, none, some, List, [], ◌∷◌, ◌++◌, map, if◌then◌else◌, nat_keys,
  text_keys, Text, lookup, insert_at, erase, remove, add_member, drop_member,
}
use enclave_station.Ws.Hub.{
  UserData, Hub, send, set_offline, sockets_of, local_subscribe, local_unsubscribe,
  local_unsubscribe_all, emit, broadcast_to_topic, channel_topic, space_topic, user_topic, presence,
  is_admin_role,
}

-- The synchronous part of the `.open` handler.
unfoldable pub on_open : Hub → ℕ → UserData → Hub
on_open h s d =
    let g : Hub = record h {
      conns = insert_at s (record d { subscribed_topics = [] }) h.conns;
      user_sockets = add_member d.user_id s h.user_sockets;
    } in
    local_subscribe (local_subscribe g s presence) s (user_topic d.user_id)

-- `for (t : ts) local_subscribe(s, t)`
unfoldable pub subscribe_topics : Hub → ℕ → List Text → Hub
subscribe_topics h s [] = h
subscribe_topics h s (t ∷ ts) = subscribe_topics (local_subscribe h s t) s ts

-- What the database job of the `.open` handler found, with its three messages built.
pub record Welcome : Type 0 where
  pub channels : List Text
  pub spaces : List Text
  pub is_admin : Bool
  pub all_channels : List Text
  pub all_spaces : List Text
  pub counts : Text
  pub notifications : Text
  pub online : Text

abbrev pub member_topics : Welcome → List Text
member_topics w = map channel_topic w.channels ++ map space_topic w.spaces

abbrev pub admin_topics : Welcome → List Text
admin_topics w = map channel_topic w.all_channels ++ map space_topic w.all_spaces

unfoldable pub welcome_socket : Hub → ℕ → Welcome → Hub
welcome_socket h s w =
    let g : Hub = subscribe_topics h s (member_topics w) in
    let k : Hub = if w.is_admin then subscribe_topics g s (admin_topics w) else g in
    emit k (send s w.counts ∷ send s w.notifications ∷ [])

unfoldable pub welcome_each : Hub → List ℕ → Welcome → Hub
welcome_each h [] w = h
welcome_each h (s ∷ ss) w = welcome_each (welcome_socket h s w) ss w

-- The deferred part of the `.open` handler: every socket of the user is subscribed and greeted.
unfoldable pub on_welcome : Hub → Text → Welcome → Hub
unfolding broadcast_to_topic
on_welcome h u w = elim (lookup u h.user_sockets) [
  | none ↦ h
  | some ss ↦ broadcast_to_topic (welcome_each h ss w) presence w.online
]

-- Whether erasing `s` leaves the user without a socket.
abbrev pub was_last : ℕ → Option (List ℕ) → Bool
was_last s none = false
was_last s (some ss) = is_nil (remove ss s)

-- The `.close` handler, on a socket with data `d`; then the socket's memory is reclaimed.
unfoldable pub close_socket : Hub → ℕ → UserData → Hub
unfolding local_unsubscribe_all
close_socket h s d =
    let g : Hub = local_unsubscribe_all h s in
    let last : Bool = was_last s (lookup d.user_id g.user_sockets) in
    record g {
      user_sockets = drop_member d.user_id s g.user_sockets;
      conns = erase s g.conns;
      out = if last then g.out ++ set_offline d.user_id ∷ [] else g.out;
    }

unfoldable pub on_close : Hub → ℕ → Hub
unfolding close_socket
on_close h s = elim (lookup s h.conns) [ none ↦ h | some d ↦ close_socket h s d ]

unfoldable pub close_each : Hub → List ℕ → Hub
close_each h [] = h
close_each h (s ∷ ss) = close_each (on_close h s) ss

unfoldable pub local_disconnect_user : Hub → Text → Hub
unfolding close_each
local_disconnect_user h u = close_each h (sockets_of h u)

-- The nested loop over `user_sockets_`.
unfoldable pub every_socket : List (Text × List ℕ) → List ℕ
every_socket [] = []
every_socket ((u, ss) ∷ m) = ss ++ every_socket m

unfoldable pub close_all : Hub → Hub
unfolding close_each every_socket
close_all h = close_each h (every_socket h.user_sockets)

unfoldable pub subscribe_each : Hub → List ℕ → Text → Hub
subscribe_each h [] t = h
subscribe_each h (s ∷ ss) t = subscribe_each (local_subscribe h s t) ss t

unfoldable pub unsubscribe_each : Hub → List ℕ → Text → Hub
unsubscribe_each h [] t = h
unsubscribe_each h (s ∷ ss) t = unsubscribe_each (local_unsubscribe h s t) ss t

unfoldable pub local_subscribe_user : Hub → Text → Text → Hub
unfolding subscribe_each
local_subscribe_user h u t = subscribe_each h (sockets_of h u) t

unfoldable pub local_unsubscribe_user : Hub → Text → Text → Hub
unfolding unsubscribe_each
local_unsubscribe_user h u t = unsubscribe_each h (sockets_of h u) t

abbrev pub is_admin_data : Option UserData → Bool
is_admin_data none = false
is_admin_data (some d) = is_admin_role d.role

abbrev pub is_admin_socket : Hub → ℕ → Bool
is_admin_socket h s = is_admin_data (lookup s h.conns)

unfoldable pub subscribe_admins_among : Hub → List ℕ → Text → Hub
subscribe_admins_among h [] t = h
subscribe_admins_among h (s ∷ ss) t =
    subscribe_admins_among (if is_admin_socket h s then local_subscribe h s t else h) ss t

unfoldable pub local_subscribe_admins : Hub → Text → Hub
unfolding subscribe_admins_among every_socket
local_subscribe_admins h t = subscribe_admins_among h (every_socket h.user_sockets) t

-- The sockets that `local_disconnect_non_admins` collects.
unfoldable pub non_admins : Hub → List ℕ → List ℕ
non_admins h [] = []
non_admins h (s ∷ ss) = let rest = non_admins h ss in if is_admin_socket h s then rest else s ∷ rest

unfoldable pub local_disconnect_non_admins : Hub → Text → Hub
unfolding close_each every_socket non_admins
local_disconnect_non_admins h message =
    let dropped = non_admins h (every_socket h.user_sockets) in
    let g : Hub = if is_nil message then h else emit h (map (λ s. send s message) dropped) in
    close_each g dropped
