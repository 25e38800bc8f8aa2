-- ===== src/Ws/Index.antt =====
-- The invariant of a hub: the two directions of each index agree, and no set is empty or repeats.
pub mod Closing
use enclave_station.Base.{
  ℕ, ◌≡◌, refl, sym, ◌∙◌, Bool, true, false, ◌&&◌, ◌||◌, not, Option, none, some, List, [], ◌∷◌,
  inl, inr, if◌then◌else◌, ◌==◌, Key, nat_keys, text_keys, nat_eqb_iff, text_eqb_iff, Text, lookup,
  insert_at, insert, remove, contains, members, add_member, drop_member, NoEmpty, AllDistinct,
  UniqueKeys, arith, Option-cases, lookup-insert_at, contains-insert, contains-remove,
  members-add_member, members-drop_member, add_member-NoEmpty, drop_member-NoEmpty,
  add_member-AllDistinct, drop_member-AllDistinct,
}
use enclave_station.Ws.Hub.{
  Effect, emit, UserData, Hub, topics_in, topics_of, sockets_of, subscribers, set_topics,
  local_subscribe, local_unsubscribe,
}

abbrev pub is_owner : Text → Option UserData → Bool
is_owner u none = false
is_owner u (some d) = d.user_id == u

abbrev pub is_some {ℓ} : {A : Type ℓ} → Option A → Bool
is_some none = false
is_some (some a) = true

abbrev pub is_live : Hub → ℕ → Bool
is_live h s = is_some (lookup s h.conns)

pub record IsConsistent (h : Hub) : Type 0 where
  pub linked : (t : Text) (s : ℕ) → contains (subscribers h t) s ≡ contains (topics_of h s) t
  pub owned : (u : Text) (s : ℕ) → contains (sockets_of h u) s ≡ is_owner u (lookup s h.conns)
  pub topics_full : NoEmpty h.topic_subscribers
  pub users_full : NoEmpty h.user_sockets
  pub topics_distinct : AllDistinct h.topic_subscribers
  pub users_distinct : AllDistinct h.user_sockets
  pub users_unique : UniqueKeys h.user_sockets

abbrev pub retopic : List Text → Option UserData → Option UserData
retopic ts none = none
retopic ts (some d) = some (record d { subscribed_topics = ts })

pub lookup-set_topics :
    (s r : ℕ) (ts : List Text) (conns : List (ℕ × UserData))
    → lookup r (set_topics s ts conns)
      ≡ (if s == r then retopic ts (lookup r conns) else lookup r conns)
unfolding set_topics
lookup-set_topics s r ts conns = elim (Option-cases (lookup s conns)) [
  | inl gone ↦ ground (arith, nat_eqb_iff s r)
  | inr (d, found) ↦
      ground
        (arith, nat_eqb_iff s r, lookup-insert_at s r (record d { subscribed_topics = ts }) conns)
]

local_subscribe-linked :
    (h : Hub) (s : ℕ) (t : Text)
    → is_live h s ≡ true
    → ((t' : Text) (r : ℕ) → contains (subscribers h t') r ≡ contains (topics_of h r) t')
    → (t' : Text) (r : ℕ)
    → contains (subscribers (local_subscribe h s t) t') r
      ≡ contains (topics_of (local_subscribe h s t) r) t'
unfolding local_subscribe
local_subscribe-linked h s t live linked t' r = ground (
  arith,
  linked t' r,
  nat_eqb_iff s r,
  text_eqb_iff t t',
  members-add_member t t' s h.topic_subscribers,
  contains-insert (subscribers h t) s r,
  contains-insert (topics_of h s) t t',
  lookup-set_topics s r (insert (topics_of h s) t) h.conns,
)

pub nil_contains {ℓ} : {A : Type ℓ} ⦃e : Key A⦄ (a : A) → contains [] a ≡ false
unfolding contains
nil_contains a = refl

local_unsubscribe-linked :
    (h : Hub) (s : ℕ) (t : Text)
    → ((t' : Text) (r : ℕ) → contains (subscribers h t') r ≡ contains (topics_of h r) t')
    → (t' : Text) (r : ℕ)
    → contains (subscribers (local_unsubscribe h s t) t') r
      ≡ contains (topics_of (local_unsubscribe h s t) r) t'
unfolding local_unsubscribe
local_unsubscribe-linked h s t linked t' r = ground (
  arith,
  linked t' r,
  nat_eqb_iff s r,
  text_eqb_iff t t',
  members-drop_member t t' s h.topic_subscribers,
  contains-remove (subscribers h t) s r,
  contains-remove (topics_of h s) t t',
  lookup-set_topics s r (remove (topics_of h s) t) h.conns,
  nil_contains t',
)

-- Setting a socket's topics changes no owner.
pub is_owner-set_topics :
    (u : Text) (s r : ℕ) (ts : List Text) (conns : List (ℕ × UserData))
    → is_owner u (lookup r (set_topics s ts conns)) ≡ is_owner u (lookup r conns)
is_owner-set_topics u s r ts conns = ground (arith, lookup-set_topics s r ts conns)

pub local_subscribe-IsConsistent :
    (h : Hub) (s : ℕ) (t : Text)
    → is_live h s ≡ true
    → IsConsistent h
    → IsConsistent (local_subscribe h s t)
unfolding local_subscribe
local_subscribe-IsConsistent h s t live c = record {
  linked = local_subscribe-linked h s t live c.linked;
  owned = λ u r. c.owned u r ∙ sym (is_owner-set_topics u s r _ h.conns);
  topics_full = add_member-NoEmpty t s h.topic_subscribers c.topics_full;
  users_full = c.users_full;
  topics_distinct = add_member-AllDistinct t s h.topic_subscribers c.topics_distinct;
  users_distinct = c.users_distinct;
  users_unique = c.users_unique;
}

pub local_unsubscribe-IsConsistent :
    (h : Hub) (s : ℕ) (t : Text) → IsConsistent h → IsConsistent (local_unsubscribe h s t)
unfolding local_unsubscribe
local_unsubscribe-IsConsistent h s t c = record {
  linked = local_unsubscribe-linked h s t c.linked;
  owned = λ u r. c.owned u r ∙ sym (is_owner-set_topics u s r _ h.conns);
  topics_full = drop_member-NoEmpty t s h.topic_subscribers c.topics_full;
  users_full = c.users_full;
  topics_distinct = drop_member-AllDistinct t s h.topic_subscribers c.topics_distinct;
  users_distinct = c.users_distinct;
  users_unique = c.users_unique;
}

-- Subscribing keeps who is alive and who is an admin.
pub is_live-local_subscribe :
    (h : Hub) (s r : ℕ) (t : Text) → is_live (local_subscribe h s t) r ≡ is_live h r
unfolding local_subscribe
is_live-local_subscribe h s r t =
    ground (arith, lookup-set_topics s r (insert (topics_of h s) t) h.conns)

pub is_live-local_unsubscribe :
    (h : Hub) (s r : ℕ) (t : Text) → is_live (local_unsubscribe h s t) r ≡ is_live h r
unfolding local_unsubscribe
is_live-local_unsubscribe h s r t =
    ground (arith, lookup-set_topics s r (remove (topics_of h s) t) h.conns)

-- A socket that some user has is alive.
pub sockets_of-is_live :
    (h : Hub) (u : Text) (s : ℕ)
    → IsConsistent h
    → contains (sockets_of h u) s ≡ true
    → is_live h s ≡ true
sockets_of-is_live h u s c has = ground (arith, c.owned u s)

pub emit-IsConsistent : (h : Hub) (es : List Effect) → IsConsistent h → IsConsistent (emit h es)
emit-IsConsistent h es c = record {
  linked = c.linked;
  owned = c.owned;
  topics_full = c.topics_full;
  users_full = c.users_full;
  topics_distinct = c.topics_distinct;
  users_distinct = c.users_distinct;
  users_unique = c.users_unique;
}
