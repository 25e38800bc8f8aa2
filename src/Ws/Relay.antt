-- ===== src/Ws/Relay.antt =====
-- backend/src/ws/ws_handler.cpp: the messages that are passed on with their sender left out, and
-- joining a wiki page. The JSON texts are built by the JSON library and are arguments here.
use enclave_station.Base.{
  ℕ, Bool, not, List, [], ◌∷◌, map, if◌then◌else◌, ◌==◌, nat_keys, text_keys, Text, contains,
}
use enclave_station.Ws.Hub.{
  Hub, send, topics_of, sockets_of, subscribers, local_unsubscribe, emit, redis_publish,
  channel_topic, wiki_topic, send_to_user,
}
use enclave_station.Ws.Sessions.{local_subscribe_user}

-- The subscribers for whom `skip` does not hold.
unfoldable pub except : (ℕ → Bool) → List ℕ → List ℕ
except skip [] = []
except skip (s ∷ ss) = let rest = except skip ss in if skip s then rest else s ∷ rest

unfoldable pub fan_out_except : Hub → (ℕ → Bool) → Text → Text → Hub
unfolding except
fan_out_except h skip t payload = emit h (map (λ s. send s payload) (except skip (subscribers h t)))

unfoldable pub handle_typing : Hub → ℕ → Text → Text → Hub
unfolding fan_out_except
handle_typing h ws channel msg =
    let t = channel_topic channel in redis_publish (fan_out_except h (λ s. s == ws) t msg) t msg

-- The deferred part of `handle_mark_read`: no socket of the reader gets the receipt.
unfoldable pub mark_read_done : Hub → Text → Text → Text → Hub
unfolding fan_out_except
mark_read_done h u channel msg =
    let t = channel_topic channel in
    redis_publish (fan_out_except h (contains (sockets_of h u)) t msg) t msg

-- `handle_wiki_relay`: only a socket that joined the page may pass an edit on.
unfoldable pub handle_wiki_relay : Hub → ℕ → Text → Text → Hub
unfolding fan_out_except
handle_wiki_relay h ws page msg =
    let t = wiki_topic page in
    if not (contains (topics_of h ws) t)
    then h
    else redis_publish (fan_out_except h (λ s. s == ws) t msg) t msg

-- The deferred part of `handle_wiki_join`, with the answer of `can_access_wiki_page`.
unfoldable pub wiki_join_done : Hub → Text → Text → Bool → Text → Hub
unfolding send_to_user local_subscribe_user
wiki_join_done h u page allowed refusal =
    if not allowed then send_to_user h u refusal else local_subscribe_user h u (wiki_topic page)

-- The `wiki_leave` branch of `handle_message`.
unfoldable pub wiki_leave : Hub → ℕ → Text → Hub
wiki_leave h ws page = local_unsubscribe h ws (wiki_topic page)
