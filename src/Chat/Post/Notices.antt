-- ===== src/Chat/Post/Notices.antt =====
-- Who is told of a message by `handle_send_message` of backend/src/ws/ws_handler.cpp.
use enclave_station.Base.{
  ◌≡◌, refl, ap, Bool, false, not, ◌&&◌, Option, none, some, List, [], ◌∷◌, ◌++◌, map,
  if◌then◌else◌, ◌==◌, text_keys, text_eqb_iff, Text, codes, arith, contains, contains-append,
}
use enclave_station.Chat.Store.{ChannelMember, Ownership}
use enclave_station.Chat.Post.{
  Notice, notice_to, first_named, id_of, others, mention_notices, reply_owner, reply_to_owner,
  told_by_mention, notices_except, notices,
}

abbrev pub targets : List Notice → List Text
targets = map λ n. n.target

pub targets-append : (xs ys : List Notice) → targets (xs ++ ys) ≡ targets xs ++ targets ys
targets-append [] ys = refl
targets-append (x ∷ xs) ys = ap (◌∷◌ x.target) (targets-append xs ys)

pub targets-map-notice_to :
    (kind name : Text) (us : List Text) → targets (map (notice_to kind name) us) ≡ us
targets-map-notice_to kind name [] = refl
targets-map-notice_to kind name (u ∷ us) = ap (◌∷◌ u) (targets-map-notice_to kind name us)

-- The ids of the members, in a conversation without the sender.
abbrev pub member_ids : List ChannelMember → List Text
member_ids = map λ m. m.user_id

pub contains-others :
    (sender : Text) (ms : List ChannelMember) (u : Text)
    → contains (others sender ms) u ≡ (not (sender == u) && contains (member_ids ms) u)
unfolding others contains
contains-others sender [] u = ground arith
contains-others sender (m ∷ ms) u = ground (
  arith,
  contains-others sender ms u,
  text_eqb_iff m.user_id sender,
  text_eqb_iff sender u,
  text_eqb_iff m.user_id u,
)

first_named-not_sender :
    (sender name : Text) (ms : List ChannelMember)
    → contains (id_of (first_named sender name ms)) sender ≡ false
unfolding first_named contains
first_named-not_sender sender name [] = refl
first_named-not_sender sender name (m ∷ ms) = ground (arith, first_named-not_sender sender name ms)

mention_notices-not_sender :
    (sender channel : Text) (ms : List ChannelMember) (mentioned : List Text)
    → contains (targets (mention_notices sender channel ms mentioned)) sender ≡ false
unfolding mention_notices contains
mention_notices-not_sender sender channel ms [] = refl
mention_notices-not_sender sender channel ms (t ∷ ts) = ground (
  arith,
  mention_notices-not_sender sender channel ms ts,
  targets-append (map (notice_to (codes "mention") channel) (others sender ms))
      (mention_notices sender channel ms ts),
  targets-append (map (notice_to (codes "mention") []) (id_of (first_named sender t ms)))
      (mention_notices sender channel ms ts),
  targets-map-notice_to (codes "mention") channel (others sender ms),
  targets-map-notice_to (codes "mention") [] (id_of (first_named sender t ms)),
  contains-append (others sender ms) (targets (mention_notices sender channel ms ts)) sender,
  contains-append (id_of (first_named sender t ms)) (targets (mention_notices sender channel ms ts))
      sender,
  contains-others sender ms sender,
  first_named-not_sender sender t ms,
  text_eqb_iff sender sender,
)

notices_except-not_sender :
    (told us : List Text) (sender : Text)
    → contains us sender ≡ false
    → contains (targets (notices_except told us)) sender ≡ false
unfolding notices_except contains
notices_except-not_sender told [] sender h = refl
notices_except-not_sender told (u ∷ us) sender h =
    ground (arith, notices_except-not_sender told us sender)

reply_to_owner-not_sender :
    (ms : List ChannelMember) (mentioned owner : List Text) (sender : Text)
    → contains owner sender ≡ false
    → contains (targets (reply_to_owner ms mentioned owner)) sender ≡ false
unfolding contains
reply_to_owner-not_sender ms mentioned [] sender h = refl
reply_to_owner-not_sender ms mentioned (u ∷ us) sender h = ground arith

pub reply_owner-not_sender :
    (sender : Text) (o : Option Ownership) → contains (reply_owner sender o) sender ≡ false
unfolding contains
reply_owner-not_sender sender none = refl
reply_owner-not_sender sender (some o) = ground arith

-- No notice is for the sender.
pub notices-not_sender :
    (sender channel : Text) (ms : List ChannelMember) (mentioned owner : List Text) (direct : Bool)
    → contains owner sender ≡ false
    → contains (targets (notices sender channel ms mentioned owner direct)) sender ≡ false
unfolding notices
notices-not_sender sender channel ms mentioned owner direct h =
    let told = told_by_mention sender ms mentioned ++ owner in
    let a = mention_notices sender channel ms mentioned in
    let b = reply_to_owner ms mentioned owner in
    let d = notices_except told (others sender ms) in
    ground (
      arith,
      targets-append a (b ++ (if direct then d else [])),
      targets-append b (if direct then d else []),
      contains-append (targets a) (targets (b ++ (if direct then d else []))) sender,
      contains-append (targets b) (targets (if direct then d else [])) sender,
      mention_notices-not_sender sender channel ms mentioned,
      reply_to_owner-not_sender ms mentioned owner sender,
      notices_except-not_sender told (others sender ms) sender,
      contains-others sender ms sender,
      text_eqb_iff sender sender,
    )
