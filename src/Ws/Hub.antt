-- ===== src/Ws/Hub.antt =====
-- backend/src/ws/ws_handler.{h,cpp}: the state of one server instance's `WsHandler` and the
-- primitives that keep the topic index and the reverse index of each connection. A socket pointer
-- is a number, `conns` holds the `WsUserData` of the sockets that are alive, and `out` records what
-- the instance did to the outside, oldest first. uWS's own topic registration is not modelled.
use enclave_station.Base.{
  ℕ, ◌^◌, Bool, ◌||◌, Option, none, some, List, [], ◌∷◌, ◌++◌, map, if◌then◌else◌, ◌==◌, nat_keys,
  text_keys, Text, codes, lookup, insert_at, insert, remove, members, add_member, drop_member,
}

-- One token of the rate limiter is 10^9 units, so that a nanosecond refills 10 units exactly.
abbrev pub token : ℕ
token = 10 ^ 9

pub record UserData : Type 0 where
  pub user_id : Text
  pub username : Text
  pub role : Text
  pub rl_tokens : ℕ
  pub rl_last_refill : ℕ
  pub subscribed_topics : List Text

-- A frame to a socket, a PUBLISH to Redis, or the database job that marks a user offline.
pub data Effect : Type 0 where
  send : ℕ → Text → Effect
  publish : Text → Text → Effect
  set_offline : Text → Effect

pub record Hub : Type 0 where
  pub user_sockets : List (Text × List ℕ)
  pub topic_subscribers : List (Text × List ℕ)
  pub conns : List (ℕ × UserData)
  pub redis_enabled : Bool
  pub out : List Effect

abbrev pub empty_hub : Bool → Hub
empty_hub redis = record {
  user_sockets = [];
  topic_subscribers = [];
  conns = [];
  redis_enabled = redis;
  out = [];
}

abbrev pub topics_in : Option UserData → List Text
topics_in none = []
topics_in (some d) = d.subscribed_topics

-- `subscribed_topics` of a socket.
abbrev pub topics_of : Hub → ℕ → List Text
topics_of h s = topics_in (lookup s h.conns)

abbrev pub sockets_of : Hub → Text → List ℕ
sockets_of h u = members u h.user_sockets

abbrev pub subscribers : Hub → Text → List ℕ
subscribers h t = members t h.topic_subscribers

-- `socket->getUserData()->subscribed_topics = ts`
unfoldable pub set_topics : ℕ → List Text → List (ℕ × UserData) → List (ℕ × UserData)
set_topics s ts conns = elim (lookup s conns) [
  | none ↦ conns
  | some d ↦ insert_at s (record d { subscribed_topics = ts }) conns
]

unfoldable pub local_subscribe : Hub → ℕ → Text → Hub
local_subscribe h s t = record h {
  topic_subscribers = add_member t s h.topic_subscribers;
  conns = set_topics s (insert (topics_of h s) t) h.conns;
}

unfoldable pub local_unsubscribe : Hub → ℕ → Text → Hub
local_unsubscribe h s t = record h {
  topic_subscribers = drop_member t s h.topic_subscribers;
  conns = set_topics s (remove (topics_of h s) t) h.conns;
}

-- The loop of `local_unsubscribe_all`.
unfoldable pub drop_everywhere : List Text → ℕ → List (Text × List ℕ) → List (Text × List ℕ)
drop_everywhere [] s m = m
drop_everywhere (t ∷ ts) s m = drop_everywhere ts s (drop_member t s m)

unfoldable pub local_unsubscribe_all : Hub → ℕ → Hub
local_unsubscribe_all h s = record h {
  topic_subscribers = drop_everywhere (topics_of h s) s h.topic_subscribers;
  conns = set_topics s [] h.conns;
}

abbrev pub emit : Hub → List Effect → Hub
emit h es = record h { out = h.out ++ es }

-- `local_fan_out`
unfoldable pub local_fan_out : Hub → Text → Text → Hub
local_fan_out h t payload = emit h (map (λ s. send s payload) (subscribers h t))

-- `redis_pubsub_ && redis_pubsub_->is_enabled()` guards every PUBLISH.
unfoldable pub redis_publish : Hub → Text → Text → Hub
redis_publish h t payload = if h.redis_enabled then emit h (publish t payload ∷ []) else h

unfoldable pub broadcast_to_topic : Hub → Text → Text → Hub
unfolding local_fan_out redis_publish
broadcast_to_topic h t payload = redis_publish (local_fan_out h t payload) t payload

-- The topics of a channel, a space, a user and a wiki page.
abbrev pub channel_topic : Text → Text
channel_topic id = codes "channel:" ++ id

abbrev pub space_topic : Text → Text
space_topic id = codes "space:" ++ id

abbrev pub user_topic : Text → Text
user_topic id = codes "user:" ++ id

abbrev pub wiki_topic : Text → Text
wiki_topic id = codes "wiki:" ++ id

abbrev pub presence : Text
presence = codes "presence"

-- `role == "admin" || role == "owner"`
unfoldable pub is_admin_role : Text → Bool
is_admin_role role = role == codes "admin" || role == codes "owner"

-- `send_to_user`
unfoldable pub send_to_user : Hub → Text → Text → Hub
unfolding broadcast_to_topic
send_to_user h u msg = broadcast_to_topic h (user_topic u) msg
