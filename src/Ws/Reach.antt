-- ===== src/Ws/Reach.antt =====
-- The steps of a hub of backend/src/ws/ws_handler.cpp, and its histories.
pub mod Loops
pub mod Invariant
use enclave_station.Base.{ℕ, ◌≡◌, Bool, none, true, Text, List, nat_keys, text_keys, lookup}
use enclave_station.Ws.Hub.{UserData, Hub, broadcast_to_topic, empty_hub}
use enclave_station.Ws.Sessions.{Welcome, on_open, on_welcome, on_close, close_all}
use enclave_station.Ws.Control.{
  Codec, on_redis_message, disconnect_user, subscribe_user_to_channel, subscribe_user_to_space,
  unsubscribe_user_from_channel, unsubscribe_user_from_space, subscribe_admins_to_channel,
  subscribe_admins_to_space, disconnect_non_admins,
}
use enclave_station.Ws.Relay.{
  handle_typing, mark_read_done, handle_wiki_relay, wiki_join_done, wiki_leave,
}

module _ (json : Codec) where
  -- What can happen to an instance. A socket that opens is a new allocation, so no live socket has
  -- its address.
  pub data Step (h : Hub) : Hub → Type 0 where
    opened : (s : ℕ) (d : UserData) → lookup s h.conns ≡ none → Step h (on_open h s d)
    welcomed : (u : Text) (w : Welcome) → Step h (on_welcome h u w)
    closed : (s : ℕ) → Step h (on_close h s)
    shut_down : Step h (close_all h)
    broadcast : (t payload : Text) → Step h (broadcast_to_topic h t payload)
    redis_message : (t payload : Text) → Step h (on_redis_message json h t payload)
    user_disconnected : (u : Text) → Step h (disconnect_user json h u)
    joined_channel : (u ch : Text) → Step h (subscribe_user_to_channel json h u ch)
    joined_space : (u sp : Text) → Step h (subscribe_user_to_space json h u sp)
    left_channel : (u ch : Text) → Step h (unsubscribe_user_from_channel json h u ch)
    left_space : (u sp : Text) → Step h (unsubscribe_user_from_space json h u sp)
    admins_joined_channel : (ch : Text) → Step h (subscribe_admins_to_channel json h ch)
    admins_joined_space : (sp : Text) → Step h (subscribe_admins_to_space json h sp)
    locked_down : (message : Text) → Step h (disconnect_non_admins json h message)
    typed : (s : ℕ) (ch msg : Text) → Step h (handle_typing h s ch msg)
    read_marked : (u ch msg : Text) → Step h (mark_read_done h u ch msg)
    wiki_relayed : (s : ℕ) (page msg : Text) → Step h (handle_wiki_relay h s page msg)
    wiki_joined :
        (u page : Text) (allowed : Bool) (refusal : Text)
        → Step h (wiki_join_done h u page allowed refusal)
    wiki_left : (s : ℕ) (page : Text) → Step h (wiki_leave h s page)

  pub data Reach (h : Hub) : Hub → Type 0 where
    here : Reach h h
    next : {g k : Hub} → Reach h g → Step g k → Reach h k
