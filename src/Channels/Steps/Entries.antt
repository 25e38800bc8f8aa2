-- ===== src/Channels/Steps/Entries.antt =====
-- Joining and inviting, as steps of the table `channel_members`.
use enclave_station.Base.{
  ◌≡◌, inl, inr, true, not, ◌&&◌, ◌||◌, some, [], if◌then◌else◌, ◌==◌, text_keys, nat_keys, ltb,
  text_eqb_iff, Text, codes, arith, Bool-cases, Option-cases,
}
use enclave_station.Chat.Store.{
  Generator, Db, Channel, find_channel_by_id, get_effective_role, get_space_member_role,
  find_user_by_id,
}
use enclave_station.Channels.Tables.{
  is_channel_role, channel_role_rank, insert_member, add_channel_member, has_row, has_user,
  has_channel,
}
use enclave_station.Channels.Requests.{Body, thrown, parsed, value, InviteBody, Outcome}
use enclave_station.Channels.Handlers.{
  may_join_any, join, joined, invite, invited, invite_parsed, invited_role, with_body, needs_admin,
}
use enclave_station.Channels.Steps.{MemberStep, stay, enter, enter_as_admin, add}

module _ (gen : Generator) (db : Db) (actor : Text) where
  abbrev pub Stepped : Outcome → Type 0
  Stepped o = MemberStep gen db actor o.db.channel_members

  pub with_body-Stepped :
      {A : Type 0} (body : Body A) (handle : A → Outcome)
      → ((j : A) → Stepped (handle j))
      → Stepped (with_body db body handle)
  with_body-Stepped (thrown e) handle h = stay
  with_body-Stepped (parsed j) handle h = h j

  -- The first guard of the routes that need the effective role admin.
  pub guard-Stepped :
      (c : Text) (o : Outcome)
      → (get_effective_role db c actor ≡ codes "admin" → Stepped o)
      → Stepped (if not (get_effective_role db c actor == codes "admin") then needs_admin db else o)
  guard-Stepped c o h = elim (Bool-cases (get_effective_role db c actor == codes "admin")) [
    | inr denied ↦ rw denied stay
    | inl ok ↦ rw ok (h ((text_eqb_iff (get_effective_role db c actor) (codes "admin")).0 ok))
  ]

  may_join_any-effective :
      (c : Text) (ch : Channel)
      → find_channel_by_id db c ≡ some ch
      → may_join_any db ch actor ≡ true
      → get_effective_role db c actor ≡ codes "admin"
  unfolding may_join_any get_effective_role find_channel_by_id get_space_member_role find_user_by_id
  may_join_any-effective c ch found h = rw found (ground (arith, h))

  -- A row that is added, or the exception.
  joined-Stepped :
      (c r : Text)
      → MemberStep gen db actor (insert_member c actor r db.channel_members)
      → Stepped (joined db actor c (add_channel_member db c actor r))
  unfolding add_channel_member
  joined-Stepped c r step =
      elim (Bool-cases
        (has_row c actor db.channel_members || (has_channel db c && has_user db actor))) [
          | inl ok ↦ rw ok step
          | inr bad ↦ rw bad stay
        ]

  invited-Stepped :
      (c target r : Text)
      → MemberStep gen db actor (insert_member c target r db.channel_members)
      → Stepped (invited db c target r (add_channel_member db c target r))
  unfolding add_channel_member
  invited-Stepped c target r step =
      elim (Bool-cases
        (has_row c target db.channel_members || (has_channel db c && has_user db target))) [
          | inl ok ↦ rw ok step
          | inr bad ↦ rw bad stay
        ]

  pub join-Stepped : (c : Text) → Stepped (join db actor c)
  unfolding join
  join-Stepped c = elim (Option-cases (find_channel_by_id db c)) [
    | inl gone ↦ rw (join, gone) stay
    | inr (ch, found) ↦ elim (Bool-cases ch.is_direct) [
      | inl direct ↦ rw (join, found, direct) stay
      | inr regular ↦ elim (Bool-cases (may_join_any db ch actor)) [
        | inl privileged ↦
            rw (join, found, regular, privileged)
              (elim (Bool-cases ch.is_public) [
                | inl open_to_all ↦ rw open_to_all (
                    joined-Stepped c (codes "admin")
                      (enter_as_admin c (may_join_any-effective c ch found privileged)))
                | inr closed ↦ rw closed (
                    joined-Stepped c (codes "admin")
                      (enter_as_admin c (may_join_any-effective c ch found privileged)))
              ])
        | inr ordinary ↦ elim (Bool-cases ch.is_public) [
          | inl open_to_all ↦
              rw (join, found, regular, ordinary, open_to_all)
                (joined-Stepped c ch.default_role (enter c ch found regular open_to_all))
          | inr closed ↦ rw (join, found, regular, ordinary, closed) stay
        ]
      ]
    ]
  ]

  invite_parsed-Stepped :
      (c : Text) (j : InviteBody)
      → get_effective_role db c actor ≡ codes "admin"
      → Stepped (invite_parsed db (get_effective_role db c actor) c j)
  unfolding invite_parsed
  invite_parsed-Stepped c j admin =
      let r = invited_role db c (value j.role []) in
      elim (Bool-cases (is_channel_role r)) [
        | inr bad ↦ rw (invite_parsed, bad) stay
        | inl valid ↦
            elim (Bool-cases
              (ltb (channel_role_rank (get_effective_role db c actor)) (channel_role_rank r))) [
                | inl high ↦ rw (invite_parsed, valid, high) stay
                | inr low ↦
                    rw (invite_parsed, valid, low)
                      (invited-Stepped c j.user_id r (add c j.user_id r admin valid))
              ]
      ]

  pub invite-Stepped : (c : Text) (body : Body InviteBody) → Stepped (invite db actor c body)
  unfolding invite
  invite-Stepped c body =
      guard-Stepped c (with_body db body (invite_parsed db (get_effective_role db c actor) c))
        λ admin.
          with_body-Stepped body (invite_parsed db (get_effective_role db c actor) c)
            λ j. invite_parsed-Stepped c j admin
