-- ===== src/Ws/Cluster/Commands.antt =====
-- The commands of the control topic of backend/src/ws/ws_handler.cpp, and what its loops over sockets
-- leave as it was.
use mathlib.Core.List.{append-nil}
use enclave_station.Base.{
  ℕ, ◌≡◌, refl, ◌∙◌, Bool, ◌&&◌, ◌||◌, not, Option, none, some, List, [], ◌∷◌, Text, ◌==◌, nat_keys,
  text_keys, text_eqb_iff, lookup, arith,
}
use enclave_station.Ws.Hub.{
  UserData, Hub, sockets_of, local_subscribe, local_unsubscribe, set_offline, local_unsubscribe_all,
}
use enclave_station.Ws.Sessions.{
  subscribe_each, unsubscribe_each, local_subscribe_user, local_unsubscribe_user,
  local_disconnect_user, on_close, close_socket, close_each, local_disconnect_non_admins,
}
use enclave_station.Ws.Control.{
  subscribe_command, unsubscribe_command, disconnect_user_command, disconnect_non_admins_command,
  apply_command,
}
use enclave_station.Ws.Delivery.{published, published-append}

abbrev pub user_of : Option UserData → Text
user_of none = []
user_of (some d) = d.user_id

-- A loop of subscriptions sends nothing and leaves Redis as it was.
pub out-subscribe_each : (h : Hub) (ss : List ℕ) (t : Text) → (subscribe_each h ss t).out ≡ h.out
unfolding subscribe_each local_subscribe
out-subscribe_each h [] t = refl
out-subscribe_each h (s ∷ ss) t = out-subscribe_each (local_subscribe h s t) ss t

pub redis-subscribe_each :
    (h : Hub) (ss : List ℕ) (t : Text) → (subscribe_each h ss t).redis_enabled ≡ h.redis_enabled
unfolding subscribe_each local_subscribe
redis-subscribe_each h [] t = refl
redis-subscribe_each h (s ∷ ss) t = redis-subscribe_each (local_subscribe h s t) ss t

pub out-unsubscribe_each :
    (h : Hub) (ss : List ℕ) (t : Text) → (unsubscribe_each h ss t).out ≡ h.out
unfolding unsubscribe_each local_unsubscribe
out-unsubscribe_each h [] t = refl
out-unsubscribe_each h (s ∷ ss) t = out-unsubscribe_each (local_unsubscribe h s t) ss t

pub redis-unsubscribe_each :
    (h : Hub) (ss : List ℕ) (t : Text) → (unsubscribe_each h ss t).redis_enabled ≡ h.redis_enabled
unfolding unsubscribe_each local_unsubscribe
redis-unsubscribe_each h [] t = refl
redis-unsubscribe_each h (s ∷ ss) t = redis-unsubscribe_each (local_unsubscribe h s t) ss t

pub apply_command-subscribe :
    (h : Hub) (u t : Text)
    → apply_command h (subscribe_command u t) ≡ subscribe_each h (sockets_of h u) t
unfolding apply_command local_subscribe_user
apply_command-subscribe h u t = refl

pub apply_command-unsubscribe :
    (h : Hub) (u t : Text)
    → apply_command h (unsubscribe_command u t) ≡ unsubscribe_each h (sockets_of h u) t
unfolding apply_command local_unsubscribe_user
apply_command-unsubscribe h u t = refl

pub apply_command-disconnect_user :
    (h : Hub) (u : Text) → apply_command h (disconnect_user_command u) ≡ local_disconnect_user h u
unfolding apply_command
apply_command-disconnect_user h u = refl

pub apply_command-disconnect_non_admins :
    (h : Hub) (m : Text)
    → apply_command h (disconnect_non_admins_command m) ≡ local_disconnect_non_admins h m
unfolding apply_command
apply_command-disconnect_non_admins h m = refl

-- Two unequal booleans tests joined: the user's sockets first, then those subscribed before.
pub owner_and_topic : (o b : Bool) (t : Text) → ((o && (t == t)) || b) ≡ (o || b)
owner_and_topic o b t = ground (arith, text_eqb_iff t t)

pub not_owner_and_topic : (o b : Bool) (t : Text) → (not (o && (t == t)) && b) ≡ (not o && b)
not_owner_and_topic o b t = ground (arith, text_eqb_iff t t)

-- Closing sockets publishes nothing and leaves Redis as it was.
pub published-on_close : (h : Hub) (s : ℕ) → published (on_close h s).out ≡ published h.out
unfolding on_close close_socket local_unsubscribe_all
published-on_close h s = ground (
  arith,
  published-append h.out (set_offline (user_of (lookup s h.conns)) ∷ []),
  append-nil (published h.out),
)

pub redis-on_close : (h : Hub) (s : ℕ) → (on_close h s).redis_enabled ≡ h.redis_enabled
unfolding on_close close_socket local_unsubscribe_all
redis-on_close h s = ground arith

pub published-close_each :
    (h : Hub) (ss : List ℕ) → published (close_each h ss).out ≡ published h.out
unfolding close_each
published-close_each h [] = refl
published-close_each h (s ∷ ss) = published-close_each (on_close h s) ss ∙ published-on_close h s

pub redis-close_each : (h : Hub) (ss : List ℕ) → (close_each h ss).redis_enabled ≡ h.redis_enabled
unfolding close_each
redis-close_each h [] = refl
redis-close_each h (s ∷ ss) = redis-close_each (on_close h s) ss ∙ redis-on_close h s
