-- ===== src/Ws/Examples.antt =====
-- The theorems of the WebSocket layer at concrete inputs, and runs of its operations.
use enclave_station.Base.{
  Bool, ℕ, ◌≡◌, refl, true, ◌||◌, ◌&&◌, not, Option, none, some, [], ◌∷◌, ◌++◌, Text, codes,
  if◌then◌else◌, length, take, drop, take-length, drop-length, nat_keys, text_keys, lookup,
  contains, insert, remove, insert_at, erase, add_member, drop_member,
}
use enclave_station.Ws.Hub.{
  UserData, Hub, empty_hub, topics_of, channel_topic, wiki_topic, presence, local_subscribe,
  local_unsubscribe_all, set_topics, drop_everywhere, broadcast_to_topic, is_admin_role,
}
use enclave_station.Ws.Sessions.{on_open, on_close}
use enclave_station.Ws.Control.{
  Command, Codec, ctrl, subscribe_command, disconnect_user_command, on_redis_message,
  subscribe_user_to_channel, disconnect_user,
}
use enclave_station.Ws.Relay.{handle_wiki_relay}
use enclave_station.Ws.Index.{IsConsistent, is_owner}
use enclave_station.Ws.Reach.{Reach, here, next, opened}
use enclave_station.Ws.Reach.Invariant.{Reach-IsConsistent}
use enclave_station.Ws.Delivery.{
  sent_to, published, broadcast_to_topic-exact, handle_wiki_relay-exact,
}
use enclave_station.Ws.Cluster.{joined_elsewhere, disconnected_elsewhere}

-- A codec that reads back what it prints: each field behind its length.
abbrev dump_field : Text → Text
dump_field t = length t ∷ t

abbrev field_of : Text → Text
field_of [] = []
field_of (n ∷ t) = take n t

abbrev after_field : Text → Text
after_field [] = []
after_field (n ∷ t) = drop n t

abbrev dump_command : Command → Text
dump_command k =
    dump_field k.action
    ++ (dump_field k.user_id ++ (dump_field k.topic ++ (dump_field k.message ++ [])))

abbrev parse_command : Text → Option Command
parse_command t =
    let u = after_field t in
    let v = after_field u in
    let w = after_field v in
    some (record {
      action = field_of t;
      user_id = field_of u;
      topic = field_of v;
      message = field_of w;
    })

abbrev pub codec : Codec
codec = record { dump = dump_command; parse = parse_command }

parse_command-dump_command : (k : Command) → parse_command (dump_command k) ≡ some k
parse_command-dump_command k = simp (take-length, drop-length)

abbrev alice : UserData
alice = record {
  user_id = codes "a";
  username = codes "alice";
  role = codes "user";
  rl_tokens = 0;
  rl_last_refill = 0;
  subscribed_topics = [];
}

abbrev boss : UserData
boss = record alice { user_id = codes "b"; username = codes "boss"; role = codes "owner" }

abbrev started : Hub
started = empty_hub true

-- Sockets 1 and 2 of alice and socket 3 of the owner are open.
abbrev opened_once : Hub
opened_once = on_open started 1 alice

abbrev opened_twice : Hub
opened_twice = on_open opened_once 2 alice

abbrev pub busy : Hub
busy = on_open opened_twice 3 boss

operations : Unit {0}
unfolding on_open local_subscribe set_topics lookup insert_at add_member insert contains remove
    on_close local_unsubscribe_all drop_everywhere drop_member erase is_admin_role
operations = tt

busy-Reach : Reach codec started busy
unfolding operations
busy-Reach =
    next (next (next here (opened 1 alice refl)) (opened 2 alice refl)) (opened 3 boss refl)

pub busy-IsConsistent : IsConsistent busy
busy-IsConsistent = Reach-IsConsistent codec true busy-Reach

Reach-IsConsistent_example : IsConsistent busy
Reach-IsConsistent_example = Reach-IsConsistent codec true busy-Reach

broadcast_to_topic-exact_example :
    (sent_to 1 (broadcast_to_topic busy presence (codes "hi")).out
      ≡ sent_to 1 busy.out
        ++ (if contains (topics_of busy 1) presence then codes "hi" ∷ [] else []))
    × (published (broadcast_to_topic busy presence (codes "hi")).out
        ≡ published busy.out ++ (if busy.redis_enabled then (presence, codes "hi") ∷ [] else []))
broadcast_to_topic-exact_example =
    broadcast_to_topic-exact busy busy-IsConsistent presence (codes "hi") 1

-- Both sockets of alice and the owner's get the notice.
presence_reaches_all :
    (contains (topics_of busy 1) presence ≡ true)
    × (contains (topics_of busy 2) presence ≡ true)
    × (contains (topics_of busy 3) presence ≡ true)
unfolding operations
presence_reaches_all = (refl, refl, refl)

handle_wiki_relay-exact_example :
    let joined : ℕ → Bool = λ r. contains (topics_of busy r) (wiki_topic (codes "p")) in
    (sent_to 3 (handle_wiki_relay busy 1 (codes "p") (codes "e")).out
      ≡ sent_to 3 busy.out
        ++ (if joined 1 && (not (nat_keys.same 3 1) && joined 3) then codes "e" ∷ [] else []))
    × (published (handle_wiki_relay busy 1 (codes "p") (codes "e")).out
        ≡ published busy.out
          ++ (if joined 1 && busy.redis_enabled
              then (wiki_topic (codes "p"), codes "e") ∷ []
              else []))
handle_wiki_relay-exact_example =
    handle_wiki_relay-exact busy busy-IsConsistent 1 (codes "p") (codes "e") 3

joined_elsewhere_example :
    let message : Text = dump_command (subscribe_command (codes "a") (channel_topic (codes "c"))) in
    let b' : Hub = on_redis_message codec busy ctrl message in
    (published (subscribe_user_to_channel codec started (codes "a") (codes "c")).out
      ≡ published started.out ++ (ctrl, message) ∷ [])
    × (sent_to 1 (on_redis_message codec b' (channel_topic (codes "c")) (codes "hi")).out
        ≡ sent_to 1 busy.out
          ++ (if is_owner (codes "a") (lookup 1 busy.conns)
                || contains (topics_of busy 1) (channel_topic (codes "c"))
              then codes "hi" ∷ []
              else []))
joined_elsewhere_example =
    joined_elsewhere codec parse_command-dump_command started busy (codes "a") (codes "c")
      (codes "hi") 1 refl busy-IsConsistent

disconnected_elsewhere_example :
    let message : Text = dump_command (disconnect_user_command (codes "a")) in
    (published (disconnect_user codec started (codes "a")).out
      ≡ published started.out ++ (ctrl, message) ∷ [])
    × (lookup 1 (on_redis_message codec busy ctrl message).conns
        ≡ (if is_owner (codes "a") (lookup 1 busy.conns) then none else lookup 1 busy.conns))
disconnected_elsewhere_example =
    disconnected_elsewhere codec parse_command-dump_command started busy (codes "a") 1 refl
      busy-IsConsistent
