-- ===== src/Chat/Post/Coverage.antt =====
-- The notices of a direct message and of a reply, of `handle_send_message` in
-- backend/src/ws/ws_handler.cpp.
use enclave_station.Base.{
  ℕ, suc, ◌≡◌, ap, inl, inr, Bool, true, false, not, ◌&&◌, ◌||◌, Option, none, some, List, [], ◌∷◌,
  ◌++◌, map, if◌then◌else◌, ◌==◌, text_keys, text_eqb_iff, Text, codes, arith, contains,
  contains-nil, contains-append, any_if, Bool-cases,
}
use enclave_station.Chat.Store.{ChannelMember, Ownership}
use enclave_station.Chat.Mentions.{at_channel}
use enclave_station.Chat.Post.{
  notice_to, first_named, id_of, others, mention_notices, named_in, reply_owner, reply_to_owner,
  ids_named, told_by_mention, notices_except, notices,
}
use enclave_station.Chat.Post.Notices.{
  targets, targets-append, targets-map-notice_to, member_ids, contains-others,
}

-- No two members have one username.
abbrev pub UniqueNames : List ChannelMember → Type 0
UniqueNames [] = Unit {0}
UniqueNames (m ∷ ms) = (any_if (λ x. x.username == m.username) ms ≡ false) × UniqueNames ms

abbrev is_named : Text → Text → ChannelMember → Bool
is_named name user m = (m.username == name) && (m.user_id == user)

any_if-is_named :
    (name user : Text) (ms : List ChannelMember)
    → any_if (is_named name user) ms ≡ true
    → any_if (λ x. x.username == name) ms ≡ true
unfolding any_if
any_if-is_named name user [] h = h
any_if-is_named name user (m ∷ ms) h = ground (arith, any_if-is_named name user ms)

-- Where usernames are unique, the first member with a name is the only one.
first_named-is_named :
    (sender name user : Text) (ms : List ChannelMember)
    → UniqueNames ms
    → (sender == user) ≡ false
    → any_if (is_named name user) ms ≡ true
    → contains (id_of (first_named sender name ms)) user ≡ true
unfolding first_named any_if contains
first_named-is_named sender name user [] u ne h = ground arith
first_named-is_named sender name user (m ∷ ms) u ne h = ground (
  arith,
  first_named-is_named sender name user ms u.1 ne,
  any_if-is_named name user ms,
  text_eqb_iff m.username name,
  text_eqb_iff m.user_id user,
  text_eqb_iff m.user_id sender,
  text_eqb_iff sender user,
)

ids_named-is_named :
    (sender name user : Text) (ms : List ChannelMember)
    → contains (ids_named sender name ms) user ≡ true
    → any_if (is_named name user) ms ≡ true
unfolding ids_named any_if contains
ids_named-is_named sender name user [] h = h
ids_named-is_named sender name user (m ∷ ms) h =
    ground (arith, ids_named-is_named sender name user ms, text_eqb_iff m.user_id user)

-- One round of the loop over the mentions.
contains-mention_notices :
    (sender channel : Text) (ms : List ChannelMember) (t : Text) (ts : List Text) (u : Text)
    → contains (targets (mention_notices sender channel ms (t ∷ ts))) u ≡ (
        (if t == at_channel
          then contains (others sender ms) u
          else contains (id_of (first_named sender t ms)) u)
        || contains (targets (mention_notices sender channel ms ts)) u)
unfolding mention_notices
contains-mention_notices sender channel ms t ts u =
    let rest = mention_notices sender channel ms ts in
    ground (
      arith,
      targets-append (map (notice_to (codes "mention") channel) (others sender ms)) rest,
      targets-append (map (notice_to (codes "mention") []) (id_of (first_named sender t ms))) rest,
      targets-map-notice_to (codes "mention") channel (others sender ms),
      targets-map-notice_to (codes "mention") [] (id_of (first_named sender t ms)),
      contains-append (others sender ms) (targets rest) u,
      contains-append (id_of (first_named sender t ms)) (targets rest) u,
    )

module _ (sender channel : Text) (ms : List ChannelMember) (unique : UniqueNames ms) (u : Text)
    (ne : (sender == u) ≡ false) where
  told_by_mention-notices :
      (mentioned : List Text)
      → contains (told_by_mention sender ms mentioned) u ≡ true
      → contains (targets (mention_notices sender channel ms mentioned)) u ≡ true
  unfolding told_by_mention
  told_by_mention-notices [] h = ground (arith, contains-nil u)
  told_by_mention-notices (t ∷ ts) h = rw (contains-mention_notices sender channel ms t ts u) (
      ground (
        arith,
        told_by_mention-notices ts,
        contains-append (others sender ms) (told_by_mention sender ms ts) u,
        contains-append (ids_named sender t ms) (told_by_mention sender ms ts) u,
        ids_named-is_named sender t u ms,
        first_named-is_named sender t u ms unique ne,
      ))

  named_in-notices :
      (mentioned : List Text)
      → contains (member_ids ms) u ≡ true
      → named_in u ms mentioned ≡ true
      → contains (targets (mention_notices sender channel ms mentioned)) u ≡ true
  unfolding named_in
  named_in-notices [] here h = ground arith
  named_in-notices (t ∷ ts) here h = rw (contains-mention_notices sender channel ms t ts u) (
      ground (
        arith,
        named_in-notices ts here,
        contains-others sender ms u,
        first_named-is_named sender t u ms unique ne,
      ))

contains-notices_except :
    (told us : List Text) (u : Text)
    → contains (targets (notices_except told us)) u ≡ (not (contains told u) && contains us u)
unfolding notices_except contains
contains-notices_except told [] u = ground arith
contains-notices_except told (v ∷ us) u = elim (Bool-cases (v == u)) [
  | inl same ↦
      ground
        (arith, contains-notices_except told us u, ap (contains told) ((text_eqb_iff v u).0 same))
  | inr other ↦ ground (arith, contains-notices_except told us u)
]

-- The owner of the message that is replied to is told by the reply, or by a mention before.
reply_owner-told :
    (sender channel : Text) (ms : List ChannelMember) (mentioned : List Text) (o : Option Ownership)
    (u : Text)
    → UniqueNames ms
    → (sender == u) ≡ false
    → contains (member_ids ms) u ≡ true
    → contains (reply_owner sender o) u ≡ true
    → (contains (targets (mention_notices sender channel ms mentioned)) u
        || contains (targets (reply_to_owner ms mentioned (reply_owner sender o))) u)
      ≡ true
unfolding contains
reply_owner-told sender channel ms mentioned none u unique ne here h = ground arith
reply_owner-told sender channel ms mentioned (some o) u unique ne here h = ground (
  arith,
  text_eqb_iff o.user_id u,
  ap (λ v. named_in v ms mentioned) {x = o.user_id} {y = u},
  named_in-notices sender channel ms unique u ne mentioned here,
)

-- In a direct conversation every member but the sender has a notice.
pub notices_direct :
    (sender channel : Text) (ms : List ChannelMember) (mentioned : List Text) (o : Option Ownership)
    (u : Text)
    → UniqueNames ms
    → (sender == u) ≡ false
    → contains (member_ids ms) u ≡ true
    → contains (targets (notices sender channel ms mentioned (reply_owner sender o) true)) u ≡ true
unfolding notices
notices_direct sender channel ms mentioned o u unique ne here =
    let owner = reply_owner sender o in
    let told = told_by_mention sender ms mentioned ++ owner in
    let a = mention_notices sender channel ms mentioned in
    let b = reply_to_owner ms mentioned owner in
    let d = notices_except told (others sender ms) in
    ground (
      arith,
      targets-append a (b ++ d),
      targets-append b d,
      contains-append (targets a) (targets (b ++ d)) u,
      contains-append (targets b) (targets d) u,
      contains-append (told_by_mention sender ms mentioned) owner u,
      contains-notices_except told (others sender ms) u,
      contains-others sender ms u,
      told_by_mention-notices sender channel ms unique u ne mentioned,
      reply_owner-told sender channel ms mentioned o u unique ne here,
    )

abbrev pub count : Text → List Text → ℕ
count u [] = 0
count u (v ∷ vs) = if v == u then suc (count u vs) else count u vs
