-- ===== src/Ws/Delivery.antt =====
-- What the fan-outs of a hub send to each socket, and what they publish.
use enclave_station.Base.{
  ℕ, ◌≡◌, refl, ap, ◌∙◌, Bool, false, ◌&&◌, not, inl, inr, List, [], ◌∷◌, ◌++◌, map, Text,
  if◌then◌else◌, ◌==◌, nat_keys, text_keys, nat_eqb_iff, contains, Distinct, arith, Bool-cases,
}
use mathlib.Core.List.{append-nil}
use enclave_station.Ws.Hub.{
  Hub, Effect, send, publish, set_offline, topics_of, sockets_of, subscribers, local_fan_out,
  redis_publish, broadcast_to_topic, channel_topic, wiki_topic,
}
use enclave_station.Ws.Relay.{
  except, fan_out_except, handle_typing, mark_read_done, handle_wiki_relay,
}
use enclave_station.Ws.Index.{IsConsistent}

-- The frames that went to one socket, oldest first.
abbrev pub sent_to : ℕ → List Effect → List Text
sent_to s [] = []
sent_to s (send r payload ∷ es) = if r == s then payload ∷ sent_to s es else sent_to s es
sent_to s (publish t payload ∷ es) = sent_to s es
sent_to s (set_offline u ∷ es) = sent_to s es

-- What was published to Redis, oldest first.
abbrev pub published : List Effect → List (Text × Text)
published [] = []
published (send r payload ∷ es) = published es
published (publish t payload ∷ es) = (t, payload) ∷ published es
published (set_offline u ∷ es) = published es

pub sent_to-append :
    (s : ℕ) (es fs : List Effect) → sent_to s (es ++ fs) ≡ sent_to s es ++ sent_to s fs
sent_to-append s [] fs = refl
sent_to-append s (send r payload ∷ es) fs = ground (arith, sent_to-append s es fs)
sent_to-append s (publish t payload ∷ es) fs = sent_to-append s es fs
sent_to-append s (set_offline u ∷ es) fs = sent_to-append s es fs

pub published-append : (es fs : List Effect) → published (es ++ fs) ≡ published es ++ published fs
published-append [] fs = refl
published-append (send r payload ∷ es) fs = published-append es fs
published-append (publish t payload ∷ es) fs = ap (◌∷◌ (t, payload)) (published-append es fs)
published-append (set_offline u ∷ es) fs = published-append es fs

published-map_send : (payload : Text) (ss : List ℕ) → published (map (λ r. send r payload) ss) ≡ []
published-map_send payload [] = refl
published-map_send payload (s ∷ ss) = published-map_send payload ss

sent_to-map_none :
    (s : ℕ) (payload : Text) (ss : List ℕ)
    → contains ss s ≡ false
    → sent_to s (map (λ r. send r payload) ss) ≡ []
unfolding contains
sent_to-map_none s payload [] h = refl
sent_to-map_none s payload (r ∷ ss) h = ground (arith, sent_to-map_none s payload ss)

-- A loop over distinct sockets sends one frame to each of them.
sent_to-map_send :
    (s : ℕ) (payload : Text) (ss : List ℕ)
    → Distinct ss
    → sent_to s (map (λ r. send r payload) ss) ≡ (if contains ss s then payload ∷ [] else [])
unfolding contains
sent_to-map_send s payload [] d = refl
sent_to-map_send s payload (r ∷ ss) d =
    ground
      (arith, nat_eqb_iff r s, sent_to-map_none s payload ss, sent_to-map_send s payload ss d.1)

pub contains-except :
    (skip : ℕ → Bool) (ss : List ℕ) (s : ℕ)
    → contains (except skip ss) s ≡ (not (skip s) && contains ss s)
unfolding contains except
contains-except skip [] s = ground arith
contains-except skip (r ∷ ss) s = elim (Bool-cases (r == s)) [
  | inl same ↦ ground (arith, contains-except skip ss s, ap skip ((nat_eqb_iff r s).0 same))
  | inr other ↦ ground (arith, contains-except skip ss s)
]

except-Distinct : (skip : ℕ → Bool) (ss : List ℕ) → Distinct ss → Distinct (except skip ss)
unfolding except
except-Distinct skip [] d = d
except-Distinct skip (r ∷ ss) d =
    ground (arith, except-Distinct skip ss d.1, contains-except skip ss r)

pub sent_to-redis_publish :
    (h : Hub) (t payload : Text) (s : ℕ)
    → sent_to s (redis_publish h t payload).out ≡ sent_to s h.out
unfolding redis_publish
sent_to-redis_publish h t payload s =
    ground (arith, sent_to-append s h.out (publish t payload ∷ []), append-nil (sent_to s h.out))

pub published-redis_publish :
    (h : Hub) (t payload : Text)
    → published (redis_publish h t payload).out
      ≡ published h.out ++ (if h.redis_enabled then (t, payload) ∷ [] else [])
unfolding redis_publish
published-redis_publish h t payload =
    ground (arith, published-append h.out (publish t payload ∷ []), append-nil (published h.out))

module _ (h : Hub) (c : IsConsistent h) where
  pub sent_to-local_fan_out :
      (t payload : Text) (s : ℕ)
      → sent_to s (local_fan_out h t payload).out
        ≡ sent_to s h.out ++ (if contains (topics_of h s) t then payload ∷ [] else [])
  unfolding local_fan_out
  sent_to-local_fan_out t payload s =
      rw
        (
          sent_to-append s h.out (map (λ r. send r payload) (subscribers h t)),
          sent_to-map_send s payload (subscribers h t) (c.topics_distinct t),
          c.linked t s,
        )
        refl

  published-local_fan_out :
      (t payload : Text) → published (local_fan_out h t payload).out ≡ published h.out
  unfolding local_fan_out
  published-local_fan_out t payload =
      rw
        (
          published-append h.out (map (λ r. send r payload) (subscribers h t)),
          published-map_send payload (subscribers h t),
        )
        (append-nil (published h.out))

  -- A broadcast sends the payload once to each socket that is subscribed to the topic and nothing to
  -- any other, and it publishes the payload once if Redis is enabled and not at all if it is not.
  pub broadcast_to_topic-exact :
      (t payload : Text) (s : ℕ)
      → (sent_to s (broadcast_to_topic h t payload).out
          ≡ sent_to s h.out ++ (if contains (topics_of h s) t then payload ∷ [] else []))
        × (published (broadcast_to_topic h t payload).out
            ≡ published h.out ++ (if h.redis_enabled then (t, payload) ∷ [] else []))
  unfolding broadcast_to_topic local_fan_out
  broadcast_to_topic-exact t payload s = (
    sent_to-redis_publish (local_fan_out h t payload) t payload s
        ∙ sent_to-local_fan_out t payload s,
    rw
        (
          published-redis_publish (local_fan_out h t payload) t payload,
          published-local_fan_out t payload,
        )
        refl,
  )

  -- The fan-out that skips some subscribers.
  sent_to-fan_out_except :
      (skip : ℕ → Bool) (t payload : Text) (s : ℕ)
      → sent_to s (redis_publish (fan_out_except h skip t payload) t payload).out
        ≡ sent_to s h.out
          ++ (if not (skip s) && contains (topics_of h s) t then payload ∷ [] else [])
  unfolding fan_out_except
  sent_to-fan_out_except skip t payload s =
      let chosen = except skip (subscribers h t) in
      rw
        (
          sent_to-redis_publish (fan_out_except h skip t payload) t payload s,
          sent_to-append s h.out (map (λ r. send r payload) chosen),
          sent_to-map_send s payload chosen
              (except-Distinct skip (subscribers h t) (c.topics_distinct t)),
          contains-except skip (subscribers h t) s,
          c.linked t s,
        )
        refl

  published-fan_out_except :
      (skip : ℕ → Bool) (t payload : Text)
      → published (redis_publish (fan_out_except h skip t payload) t payload).out
        ≡ published h.out ++ (if h.redis_enabled then (t, payload) ∷ [] else [])
  unfolding fan_out_except
  published-fan_out_except skip t payload =
      let frames : List Effect = map (λ r. send r payload) (except skip (subscribers h t)) in
      rw
        (
          published-redis_publish (fan_out_except h skip t payload) t payload,
          published-append h.out frames,
          published-map_send payload (except skip (subscribers h t)),
          append-nil (published h.out),
        )
        refl

  -- A typing notice goes once to each socket that is subscribed to the channel, but not to the one
  -- that it came from.
  pub handle_typing-exact :
      (ws : ℕ) (channel msg : Text) (s : ℕ)
      → sent_to s (handle_typing h ws channel msg).out
        ≡ sent_to s h.out
          ++ (if not (s == ws) && contains (topics_of h s) (channel_topic channel)
              then msg ∷ []
              else [])
  unfolding handle_typing
  handle_typing-exact ws channel msg s =
      sent_to-fan_out_except (λ r. r == ws) (channel_topic channel) msg s

  -- A read receipt goes once to each socket that is subscribed to the channel and is not one of the
  -- reader's own sockets.
  pub mark_read_done-exact :
      (u channel msg : Text) (s : ℕ)
      → sent_to s (mark_read_done h u channel msg).out
        ≡ sent_to s h.out
          ++ (if not (contains (sockets_of h u) s)
                && contains (topics_of h s) (channel_topic channel)
              then msg ∷ []
              else [])
  unfolding mark_read_done
  mark_read_done-exact u channel msg s =
      sent_to-fan_out_except (contains (sockets_of h u)) (channel_topic channel) msg s

  -- A wiki edit from a socket that has not joined the page sends nothing and publishes nothing. From
  -- one that has, it goes once to each other socket that has joined the page, and is published once
  -- if Redis is enabled.
  pub handle_wiki_relay-exact :
      (ws : ℕ) (page msg : Text) (s : ℕ)
      → let joined : ℕ → Bool = λ r. contains (topics_of h r) (wiki_topic page) in
        (sent_to s (handle_wiki_relay h ws page msg).out
          ≡ sent_to s h.out ++ (if joined ws && (not (s == ws) && joined s) then msg ∷ [] else []))
        × (published (handle_wiki_relay h ws page msg).out
            ≡ published h.out
              ++ (if joined ws && h.redis_enabled then (wiki_topic page, msg) ∷ [] else []))
  unfolding handle_wiki_relay
  handle_wiki_relay-exact ws page msg s =
      let t : Text = wiki_topic page in
      ground (
        arith,
        sent_to-fan_out_except (λ r. r == ws) t msg s,
        published-fan_out_except (λ r. r == ws) t msg,
        append-nil (sent_to s h.out),
        append-nil (published h.out),
      )
