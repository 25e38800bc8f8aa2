-- ===== src/Ws/Index/Closing.antt =====
-- The invariant of a hub when a socket opens and when it closes.
use enclave_station.Base.{
  ℕ, ◌≡◌, refl, ◌∙◌, true, ◌&&◌, not, none, some, List, [], ◌∷◌, inl, inr, ◌==◌, nat_keys,
  text_keys, nat_eqb_iff, text_eqb_iff, Text, lookup, insert_at, contains, members, add_member,
  drop_member, NoEmpty, AllDistinct, arith, Option-cases, lookup-insert_at, lookup-erase,
  contains-insert, contains-remove, members-drop_member, members-add_member, add_member-NoEmpty,
  drop_member-NoEmpty, add_member-AllDistinct, drop_member-AllDistinct, add_member-UniqueKeys,
  drop_member-UniqueKeys,
}
use enclave_station.Ws.Hub.{
  UserData, Hub, topics_of, sockets_of, subscribers, set_topics, drop_everywhere, local_subscribe,
  presence, user_topic,
}
use enclave_station.Ws.Sessions.{on_open, close_socket, on_close, close_each}
use enclave_station.Ws.Index.{
  IsConsistent, is_owner, is_live, lookup-set_topics, nil_contains, is_live-local_subscribe,
  local_subscribe-IsConsistent,
}

-- A socket that is dropped from the topics `ts` is a member of no topic among them.
contains-drop_everywhere :
    (ts : List Text) (s : ℕ) (m : List (Text × List ℕ)) (t : Text) (r : ℕ)
    → contains (members t (drop_everywhere ts s m)) r
      ≡ (not (contains ts t && (s == r)) && contains (members t m) r)
unfolding drop_everywhere contains
contains-drop_everywhere [] s m t r = refl
contains-drop_everywhere (t' ∷ ts) s m t r = ground (
  arith,
  contains-drop_everywhere ts s (drop_member t' s m) t r,
  members-drop_member t' t s m,
  contains-remove (members t' m) s r,
  text_eqb_iff t' t,
)

drop_everywhere-NoEmpty :
    (ts : List Text) (s : ℕ) (m : List (Text × List ℕ))
    → NoEmpty m
    → NoEmpty (drop_everywhere ts s m)
unfolding drop_everywhere
drop_everywhere-NoEmpty [] s m f = f
drop_everywhere-NoEmpty (t ∷ ts) s m f =
    drop_everywhere-NoEmpty ts s (drop_member t s m) (drop_member-NoEmpty t s m f)

drop_everywhere-AllDistinct :
    (ts : List Text) (s : ℕ) (m : List (Text × List ℕ))
    → AllDistinct m
    → AllDistinct (drop_everywhere ts s m)
unfolding drop_everywhere
drop_everywhere-AllDistinct [] s m f = f
drop_everywhere-AllDistinct (t ∷ ts) s m f =
    drop_everywhere-AllDistinct ts s (drop_member t s m) (drop_member-AllDistinct t s m f)

module _ (h : Hub) (s : ℕ) (d : UserData) (alive : lookup s h.conns ≡ some d)
    (c : IsConsistent h) where
  close_socket-linked :
      (t : Text) (r : ℕ)
      → contains (subscribers (close_socket h s d) t) r
        ≡ contains (topics_of (close_socket h s d) r) t
  unfolding close_socket
  close_socket-linked t r = ground (
    arith,
    contains-drop_everywhere (topics_of h s) s h.topic_subscribers t r,
    nat_eqb_iff s r,
    c.linked t r,
    lookup-erase s r (set_topics s [] h.conns),
    lookup-set_topics s r [] h.conns,
    nil_contains t,
  )

  close_socket-owned :
      (u : Text) (r : ℕ)
      → contains (sockets_of (close_socket h s d) u) r
        ≡ is_owner u (lookup r (close_socket h s d).conns)
  unfolding close_socket
  close_socket-owned u r = ground (
    arith,
    nat_eqb_iff s r,
    text_eqb_iff d.user_id u,
    c.owned u r,
    members-drop_member d.user_id u s h.user_sockets,
    contains-remove (sockets_of h d.user_id) s r,
    lookup-erase s r (set_topics s [] h.conns),
    lookup-set_topics s r [] h.conns,
  )

  close_socket-IsConsistent : IsConsistent (close_socket h s d)
  unfolding close_socket
  close_socket-IsConsistent = record {
    linked = close_socket-linked;
    owned = close_socket-owned;
    topics_full = drop_everywhere-NoEmpty (topics_of h s) s h.topic_subscribers c.topics_full;
    users_full = drop_member-NoEmpty d.user_id s h.user_sockets c.users_full;
    topics_distinct =
        drop_everywhere-AllDistinct (topics_of h s) s h.topic_subscribers c.topics_distinct;
    users_distinct = drop_member-AllDistinct d.user_id s h.user_sockets c.users_distinct;
    users_unique = drop_member-UniqueKeys d.user_id s h.user_sockets c.users_unique;
  }

pub on_close-IsConsistent : (h : Hub) (s : ℕ) → IsConsistent h → IsConsistent (on_close h s)
unfolding on_close
on_close-IsConsistent h s c = elim (Option-cases (lookup s h.conns)) [
  | inl gone ↦ rw (gone, on_close) c
  | inr (d, found) ↦ rw (found, on_close) (close_socket-IsConsistent h s d found c)
]

pub close_each-IsConsistent :
    (h : Hub) (ss : List ℕ) → IsConsistent h → IsConsistent (close_each h ss)
unfolding close_each
close_each-IsConsistent h [] c = c
close_each-IsConsistent h (s ∷ ss) c =
    close_each-IsConsistent (on_close h s) ss (on_close-IsConsistent h s c)

module _ (h : Hub) (s : ℕ) (d : UserData) (fresh : lookup s h.conns ≡ none)
    (c : IsConsistent h) where
  -- The hub between the registration of a new socket and its first subscription.
  abbrev registered : Hub
  registered = record h {
    conns = insert_at s (record d { subscribed_topics = [] }) h.conns;
    user_sockets = add_member d.user_id s h.user_sockets;
  }

  registered-linked :
      (t : Text) (r : ℕ)
      → contains (subscribers registered t) r ≡ contains (topics_of registered r) t
  registered-linked t r = ground (
    arith,
    c.linked t r,
    nat_eqb_iff s r,
    nil_contains t,
    lookup-insert_at s r (record d { subscribed_topics = [] }) h.conns,
  )

  registered-owned :
      (u : Text) (r : ℕ)
      → contains (sockets_of registered u) r ≡ is_owner u (lookup r registered.conns)
  registered-owned u r = ground (
    arith,
    c.owned u r,
    nat_eqb_iff s r,
    text_eqb_iff d.user_id u,
    members-add_member d.user_id u s h.user_sockets,
    contains-insert (sockets_of h d.user_id) s r,
    lookup-insert_at s r (record d { subscribed_topics = [] }) h.conns,
  )

  registered-IsConsistent : IsConsistent registered
  registered-IsConsistent = record {
    linked = registered-linked;
    owned = registered-owned;
    topics_full = c.topics_full;
    users_full = add_member-NoEmpty d.user_id s h.user_sockets c.users_full;
    topics_distinct = c.topics_distinct;
    users_distinct = add_member-AllDistinct d.user_id s h.user_sockets c.users_distinct;
    users_unique = add_member-UniqueKeys d.user_id s h.user_sockets c.users_unique;
  }

  registered-is_live : is_live registered s ≡ true
  registered-is_live =
      ground
        (arith, nat_eqb_iff s s, lookup-insert_at s s (record d { subscribed_topics = [] }) h.conns)

  pub on_open-IsConsistent : IsConsistent (on_open h s d)
  unfolding on_open
  on_open-IsConsistent =
      local_subscribe-IsConsistent (local_subscribe registered s presence) s (user_topic d.user_id)
        (is_live-local_subscribe registered s s presence ∙ registered-is_live)
        (local_subscribe-IsConsistent registered s presence registered-is_live
          registered-IsConsistent)
