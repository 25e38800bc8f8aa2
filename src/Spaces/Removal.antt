-- ===== src/Spaces/Removal.antt =====
-- Members that leave a space or are removed from it, in backend/src/handlers/space_handler.cpp and
-- backend/src/db/database.cpp: the rows and the subscriptions they lose.
use enclave_station.Base.{
  ◌≡◌, refl, sym, ap, subst, ◌∙◌, inl, inr, Bool, true, false, not, ◌&&◌, ◌||◌, List, [], ◌∷◌, ◌++◌,
  map, ◌==◌, text_keys, text_eqb_iff, Text, filter_if, any_if, arith, Bool-cases,
}
use enclave_station.Chat.Store.{Generator, Db, Channel, Member, row_of}
use enclave_station.Channels.Tables.{
  has_row, is_channel_member, remove_channel_member, find_space_by_id,
}
use enclave_station.Channels.Rows.{has_row-remove}
use enclave_station.Spaces.Tables.{
  is_space_member, in_space, remove_space_member, with_rows, join_rows, list_user_channels,
}
use enclave_station.Spaces.Requests.{
  SpaceCall, unsubscribe_channel, unsubscribe_space, send_user, broadcast_channel, broadcast_space,
}
use enclave_station.Spaces.Handlers.{
  is_space_admin, space_channel_ids, remove_member, remove_from_channels, channel_leaves,
  is_last_owner, is_live_space, is_personal_space, leave_space,
}

-- Whether the call takes the user's sockets out of the channel.
abbrev pub drops : Text → Text → SpaceCall → Bool
drops u c (unsubscribe_channel u' c') = (u' == u) && (c' == c)
drops u c (unsubscribe_space u' s) = false
drops u c (send_user u' e) = false
drops u c (broadcast_channel c' e) = false
drops u c (broadcast_space s e) = false

-- The rows of `channel_members` after a removal: those of other users, and those in channels of
-- other spaces.
has_row-remove_space_member :
    (db : Db) (space target : Text) (rows : List Member) (c u : Text)
    → has_row c u
        (filter_if (λ m. not ((m.user_id == target) && in_space space db.channels m.group)) rows)
      ≡ (has_row c u rows && not ((target == u) && in_space space db.channels c))
unfolding has_row any_if filter_if
has_row-remove_space_member db space target [] c u = ground arith
has_row-remove_space_member db space target (m ∷ rows) c u = elim (Bool-cases (row_of c u m)) [
  | inl hit ↦
      let p = (text_eqb_iff m.group c).0 (ground (arith, hit)) in
      ground (
        arith,
        hit,
        ap (in_space space db.channels) p,
        has_row-remove_space_member db space target rows c u,
        text_eqb_iff m.user_id u,
        text_eqb_iff m.user_id target,
        text_eqb_iff target u,
      )
  | inr miss ↦ ground (arith, miss, has_row-remove_space_member db space target rows c u)
]

any_if-append :
    {A : Type 0} (test : A → Bool) (xs ys : List A)
    → any_if test (xs ++ ys) ≡ (any_if test xs || any_if test ys)
unfolding any_if
any_if-append test [] ys = refl
any_if-append test (x ∷ xs) ys = ground (arith, any_if-append test xs ys)

-- The user's rows in a channel give the channel as often.
with_rows-any :
    (test : Channel → Bool) (ch : Channel) (u : Text) (rows : List Member)
    → any_if test (with_rows ch u rows) ≡ (test ch && has_row ch.id u rows)
unfolding any_if has_row
with_rows-any test ch u [] = ground arith
with_rows-any test ch u (m ∷ rows) = ground (arith, with_rows-any test ch u rows)

-- Of the user's channels in a space, the list has every one in which the user has a row.
join_rows-any :
    (space u c : Text) (rows : List Member) (channels : List Channel)
    → any_if (λ ch. (ch.id == c) && (ch.space_id == space)) (join_rows u rows channels)
      ≡ (in_space space channels c && has_row c u rows)
unfolding in_space any_if
join_rows-any space u c rows [] = refl
join_rows-any space u c rows (ch ∷ chs) = elim (Bool-cases (ch.id == c)) [
  | inl same ↦ ground (
    arith,
    same,
    ap (λ x. has_row x u rows) ((text_eqb_iff ch.id c).0 same),
    any_if-append (λ x. (x.id == c) && (x.space_id == space)) (with_rows ch u rows)
        (join_rows u rows chs),
    with_rows-any (λ x. (x.id == c) && (x.space_id == space)) ch u rows,
    join_rows-any space u c rows chs,
  )
  | inr other ↦ ground (
    arith,
    other,
    any_if-append (λ x. (x.id == c) && (x.space_id == space)) (with_rows ch u rows)
        (join_rows u rows chs),
    with_rows-any (λ x. (x.id == c) && (x.space_id == space)) ch u rows,
    join_rows-any space u c rows chs,
  )
]

-- The channels that are left in a loop over those of a space.
abbrev ids_in : Text → List Channel → List Text
ids_in space chs = map (λ ch. ch.id) (filter_if (λ ch. ch.space_id == space) chs)

ids_in-any :
    (space c : Text) (chs : List Channel)
    → any_if (λ id. id == c) (ids_in space chs)
      ≡ any_if (λ ch. (ch.id == c) && (ch.space_id == space)) chs
unfolding any_if filter_if
ids_in-any space c [] = refl
ids_in-any space c (ch ∷ chs) = elim (Bool-cases (ch.space_id == space)) [
  | inl here ↦ rw here ground (arith, ids_in-any space c chs)
  | inr away ↦ rw away ground (arith, ids_in-any space c chs)
]

-- The ids of a user's channels in a space, given as a text: those of the space in which the user has a row.
space_channel_ids-any :
    (gen : Generator) (db : Db) (space u c : Text)
    → any_if (λ id. id == c) (space_channel_ids gen db space u)
      ≡ (in_space space db.channels c && is_channel_member db c (gen.cast u))
unfolding space_channel_ids list_user_channels is_channel_member
space_channel_ids-any gen db space u c =
    ids_in-any space c (join_rows (gen.cast u) db.channel_members db.channels)
    ∙ join_rows-any space (gen.cast u) c db.channel_members db.channels

drops-unsubscribe_channel :
    (u c : Text) (ids : List Text) (more : List SpaceCall)
    → any_if (drops u c) more ≡ false
    → any_if (drops u c) (map (unsubscribe_channel u) ids ++ more) ≡ any_if (λ id. id == c) ids
unfolding any_if
drops-unsubscribe_channel u c [] more none_more = none_more
drops-unsubscribe_channel u c (id ∷ ids) more none_more =
    ground (arith, drops-unsubscribe_channel u c ids more none_more, text_eqb_iff u u)

-- The same for any texts, where those of the request name the rows that the database reads from them.
remove_member-rows :
    (gen : Generator) (db : Db) (actor space target : Text)
    → is_space_admin db (gen.cast space) actor ≡ true
    → (s c u : Text)
    → (is_space_member (remove_member gen db actor space target).db s u
        ≡ (not ((gen.cast space == s) && (gen.cast target == u)) && is_space_member db s u))
      × ((is_channel_member (remove_member gen db actor space target).db c u ≡ (
            is_channel_member db c u
            && not ((gen.cast target == u) && in_space (gen.cast space) db.channels c)))
          × (any_if (drops target c) (remove_member gen db actor space target).calls
              ≡ (in_space space db.channels c && is_channel_member db c (gen.cast target))))
unfolding remove_member remove_space_member is_space_member is_channel_member any_if
remove_member-rows gen db actor space target admin s c u = rw admin (
  has_row-remove (gen.cast space) (gen.cast target) db.space_members s u,
  (
    has_row-remove_space_member db (gen.cast space) (gen.cast target) db.channel_members c u,
    drops-unsubscribe_channel target c (space_channel_ids gen db space target) _ refl
        ∙ space_channel_ids-any gen db space target c,
  ),
)

-- When an admin of the space, or of the server, removes a user from a space, and the request writes
-- both ids the way that the database does, the rows that are gone
-- are the user's row in the space and the user's rows in the space's channels, and no others; and the
-- user's sockets are taken out of a channel if and only if the user lost a row in it.
pub remove_member-exact :
    (gen : Generator) (db : Db) (actor space target : Text)
    → gen.cast space ≡ space
    → gen.cast target ≡ target
    → is_space_admin db space actor ≡ true
    → (s c u : Text)
    → (is_space_member (remove_member gen db actor space target).db s u
        ≡ (not ((space == s) && (target == u)) && is_space_member db s u))
      × ((is_channel_member (remove_member gen db actor space target).db c u
            ≡ (is_channel_member db c u && not ((target == u) && in_space space db.channels c)))
          × (any_if (drops target c) (remove_member gen db actor space target).calls
              ≡ (in_space space db.channels c && is_channel_member db c target)))
remove_member-exact gen db actor space target own_space own_target admin s c u =
    let admin' = subst (λ x. is_space_admin db x actor ≡ true) (sym own_space) admin in
    let rows = remove_member-rows gen db actor space target admin' s c u in
    rw (own_space, own_target) at rows

-- Leaving channels leaves the members of spaces as they were.
pub space_members-remove_from_channels :
    (db : Db) (user : Text) (ids : List Text)
    → (remove_from_channels db user ids).space_members ≡ db.space_members
unfolding remove_from_channels remove_channel_member
space_members-remove_from_channels db user [] = refl
space_members-remove_from_channels db user (id ∷ ids) =
    space_members-remove_from_channels (remove_channel_member db id user) user ids

channels-remove_from_channels :
    (db : Db) (user : Text) (ids : List Text)
    → (remove_from_channels db user ids).channels ≡ db.channels
unfolding remove_from_channels remove_channel_member
channels-remove_from_channels db user [] = refl
channels-remove_from_channels db user (id ∷ ids) =
    channels-remove_from_channels (remove_channel_member db id user) user ids

has_row-remove_from_channels :
    (db : Db) (user : Text) (ids : List Text) (c u : Text)
    → has_row c u (remove_from_channels db user ids).channel_members
      ≡ (has_row c u db.channel_members && not ((user == u) && any_if (λ id. id == c) ids))
unfolding remove_from_channels remove_channel_member any_if
has_row-remove_from_channels db user [] c u = ground arith
has_row-remove_from_channels db user (id ∷ ids) c u = ground (
  arith,
  has_row-remove_from_channels (remove_channel_member db id user) user ids c u,
  has_row-remove id user db.channel_members c u,
)

drops-channel_leaves :
    (u c : Text) (ids : List Text) (more : List SpaceCall)
    → any_if (drops u c) more ≡ false
    → any_if (drops u c) (channel_leaves u ids ++ more) ≡ any_if (λ id. id == c) ids
unfolding any_if
drops-channel_leaves u c [] more none_more = none_more
drops-channel_leaves u c (id ∷ ids) more none_more =
    ground (arith, drops-channel_leaves u c ids more none_more, text_eqb_iff u u)

-- Leaving the channels first makes no difference to what the removal from the space leaves.
is_channel_member-left :
    (gen : Generator) (db : Db) (user space c u : Text)
    → gen.cast user ≡ user
    → is_channel_member
        (remove_space_member
          (remove_from_channels db user (space_channel_ids gen db space user))
          space
          user)
        c
        u
      ≡ is_channel_member (remove_space_member db space user) c u
unfolding is_channel_member remove_space_member
is_channel_member-left gen db user space c u own_user =
    let ids = space_channel_ids gen db space user in
    let left = remove_from_channels db user ids in
    ground (
      arith,
      has_row-remove_space_member left space user left.channel_members c u,
      has_row-remove_space_member db space user db.channel_members c u,
      has_row-remove_from_channels db user ids c u,
      ap (λ chs. in_space space chs c) (channels-remove_from_channels db user ids),
      space_channel_ids-any gen db space user c,
      ap (λ t. has_row c t db.channel_members) own_user,
      text_eqb_iff user u,
    )

-- A user who may leave a space, which is a member of a space that is not personal and not the last
-- owner of one that is not archived, and who writes its id the way that the database does, loses by
-- leaving exactly the rows, in the space and in its channels, that being removed would take; and the
-- user's sockets are taken out of a channel if and only if the user lost a row in it.
pub leave_space-as_removed :
    (gen : Generator) (db : Db) (user space : Text)
    → gen.cast user ≡ user
    → gen.cast space ≡ space
    → is_personal_space (find_space_by_id db space) ≡ false
    → is_space_member db space user ≡ true
    → (is_live_space (find_space_by_id db space) && is_last_owner db space user) ≡ false
    → (s c u : Text)
    → (is_space_member (leave_space gen db user space).db s u
        ≡ is_space_member (remove_space_member db space user) s u)
      × ((is_channel_member (leave_space gen db user space).db c u
            ≡ is_channel_member (remove_space_member db space user) c u)
          × (any_if (drops user c) (leave_space gen db user space).calls
              ≡ (in_space space db.channels c && is_channel_member db c user)))
unfolding leave_space remove_space_member is_space_member is_channel_member any_if
leave_space-as_removed gen db user space own_user own_space shared member free s c u =
    let ids = space_channel_ids gen db space user in
    rw (own_space, shared, member, free)
      (
        ap (λ rows. has_row s u (filter_if (λ m. not (row_of space user m)) rows))
            (space_members-remove_from_channels db user ids),
        (
          is_channel_member-left gen db user space c u own_user,
          drops-channel_leaves user c ids _ refl
              ∙ space_channel_ids-any gen db space user c
              ∙ ap (λ t. in_space space db.channels c && has_row c t db.channel_members) own_user,
        ),
      )
