-- ===== src/Channels/Admins.antt =====
-- The admins of a channel, under the requests of backend/src/handlers/channel_handler.cpp.
use enclave_station.Base.{
  ℕ, ◌≡◌, ◌≤◌, refl, sym, ap, ◌∙◌, subst, ◌⊎◌, inl, inr, true, false, not, ◌&&◌, ◌||◌, some, List,
  map, ◌==◌, text_keys, text_eqb_iff, leb, Text, codes, arith, Bool-cases,
}
use enclave_station.Chat.Store.{
  Generator, Db, Channel, Member, find_channel_by_id, get_effective_role, get_member_role,
}
use enclave_station.Channels.Tables.{with_role, count_channel_members_with_role}
use enclave_station.Channels.Handlers.{demotes_last_admin}
use enclave_station.Channels.Rows.{role_of, UniqueRows, role_of-remove}
use enclave_station.Channels.Routes.{ChannelCall, run}
use enclave_station.Channels.Steps.{
  without, is_last_admin, MemberStep, stay, enter, enter_as_admin, add, expel, assign, exit,
  establish,
}
use enclave_station.Channels.Steps.Runs.{run-MemberStep}
use enclave_station.Channels.Holders.{
  holders, holders-insert_member, holders-insert_members, role_of-holders, holders-without,
  holders-elsewhere, holders-update-elsewhere, holders-update,
}

abbrev admins : Text → List Member → ℕ
admins c rows = holders (codes "admin") c rows

module _ (gen : Generator) (db : Db) (actor : Text) (c : Text) where
  abbrev role_here : Text → Text
  role_here u = role_of db.channel_members c u

  -- An admin of the channel takes away the row of another member: the admin's own row stays.
  expel-keeps :
      (c' target : Text)
      → (target == actor) ≡ false
      → (role_here actor == codes "admin") ≡ true
      → 1 ≤ admins c (without c' target db.channel_members)
  expel-keeps c' target other admin =
      role_of-holders (codes "admin") c actor (without c' target db.channel_members) refl
        (ground (arith, role_of-remove c' target db.channel_members c actor, admin, other))

  assign-keeps :
      (c' target r : Text)
      → UniqueRows db.channel_members
      → 1 ≤ admins c db.channel_members
      → demotes_last_admin db c' (get_member_role db c' target) r ≡ false
      → 1 ≤ admins c (map (with_role c' target r) db.channel_members)
  unfolding demotes_last_admin count_channel_members_with_role get_member_role role_of
  assign-keeps c' target r q some_admin kept = elim (Bool-cases (c' == c)) [
    | inr other ↦
        ground
          (arith, holders-update-elsewhere (codes "admin") c c' target r db.channel_members other)
    | inl same ↦
        let p = (text_eqb_iff c' c).0 same in
        ground (
          arith,
          subst
              (λ x.
                (((role_of db.channel_members x target == codes "admin")
                    && not (r == codes "admin"))
                  && leb (admins x db.channel_members) 1)
                ≡ false)
              p kept,
          holders-update (codes "admin") c target r db.channel_members q,
          ap (λ x. admins c (map (with_role x target r) db.channel_members)) p,
        )
  ]

  exit-keeps :
      (c' : Text)
      → UniqueRows db.channel_members
      → 1 ≤ admins c db.channel_members
      → is_last_admin db c' actor ≡ false
      → 1 ≤ admins c (without c' actor db.channel_members)
  unfolding is_last_admin count_channel_members_with_role get_member_role role_of
  exit-keeps c' q some_admin kept = elim (Bool-cases (c' == c)) [
    | inr other ↦
        ground (arith, holders-elsewhere (codes "admin") c c' actor db.channel_members other)
    | inl same ↦
        let p = (text_eqb_iff c' c).0 same in
        ground (
          arith,
          subst
              (λ x.
                ((role_of db.channel_members x actor == codes "admin")
                  && leb (admins x db.channel_members) 1)
                ≡ false)
              p kept,
          holders-without (codes "admin") c actor db.channel_members refl q,
          ap (λ x. admins c (without x actor db.channel_members)) p,
        )
  ]

  -- What can leave a channel that has an admin without one.
  pub data Orphaned (rows : List Member) : Type 0 where
    by_outsider :
        (target : Text)
        → rows ≡ without c target db.channel_members
        → get_effective_role db c actor ≡ codes "admin"
        → (get_member_role db c actor == codes "admin") ≡ false
        → Orphaned rows
    by_alias :
        (text : Text)
        → gen.cast text ≡ actor
        → (text == actor) ≡ false
        → get_effective_role db c actor ≡ codes "admin"
        → rows ≡ without c actor db.channel_members
        → Orphaned rows
    by_exit :
        (ch : Channel)
        → find_channel_by_id db c ≡ some ch
        → (ch.is_direct || ch.is_archived) ≡ true
        → rows ≡ without c actor db.channel_members
        → Orphaned rows

  outsider_role :
      (role_here actor == codes "admin") ≡ false
      → (get_member_role db c actor == codes "admin") ≡ false
  unfolding role_of get_member_role
  outsider_role h = h

  -- A member of the channel is removed by an admin: of the channel, who is another user; of the space
  -- or the server; or of the channel, who wrote the own id in another way.
  expelled-Orphaned :
      {rows : List Member} (text : Text)
      → (text == actor) ≡ false
      → get_effective_role db c actor ≡ codes "admin"
      → rows ≡ without c (gen.cast text) db.channel_members
      → (1 ≤ admins c rows) ⊎ Orphaned rows
  expelled-Orphaned text other admin e = elim (Bool-cases (role_here actor == codes "admin")) [
    | inr outsider ↦ inr (by_outsider (gen.cast text) e admin (outsider_role outsider))
    | inl member ↦ elim (Bool-cases (gen.cast text == actor)) [
      | inr another ↦
          inl (subst (λ r. 1 ≤ admins c r) (sym e) (expel-keeps c (gen.cast text) another member))
      | inl self ↦
          let p = (text_eqb_iff (gen.cast text) actor).0 self in
          inr (by_alias text p other admin (e ∙ ap (λ x. without c x db.channel_members) p))
    ]
  ]

  step-Orphaned :
      {rows : List Member}
      → UniqueRows db.channel_members
      → 1 ≤ admins c db.channel_members
      → MemberStep gen db actor rows
      → (1 ≤ admins c rows) ⊎ Orphaned rows
  step-Orphaned q n stay = inl n
  step-Orphaned q n (enter c' ch _ _ _) = inl (
      ground (
        arith,
        holders-insert_member (codes "admin") c c' actor ch.default_role db.channel_members,
      ))
  step-Orphaned q n (enter_as_admin c' _) = inl (
      ground (
        arith,
        holders-insert_member (codes "admin") c c' actor (codes "admin") db.channel_members,
      ))
  step-Orphaned q n (add c' target r _ _) =
      inl (ground (arith, holders-insert_member (codes "admin") c c' target r db.channel_members))
  step-Orphaned q n (expel c' text admin other) =
      let target = gen.cast text in
      elim (Bool-cases (c' == c)) [
        | inr away ↦
            inl (
              ground (arith, holders-elsewhere (codes "admin") c c' target db.channel_members away))
        | inl same ↦
            expelled-Orphaned text other
              (subst (λ x. get_effective_role db x actor ≡ codes "admin")
                ((text_eqb_iff c' c).0 same) admin)
              (ap (λ x. without x target db.channel_members) ((text_eqb_iff c' c).0 same))
      ]
  step-Orphaned q n (assign c' target r _ _ kept) = inl (assign-keeps c' target r q n kept)
  step-Orphaned q n (exit c' ch here free) = elim (Bool-cases (c' == c)) [
    | inr away ↦
        inl (ground (arith, holders-elsewhere (codes "admin") c c' actor db.channel_members away))
    | inl same ↦ elim (Bool-cases (is_last_admin db c' actor)) [
      | inr another ↦ inl (exit-keeps c' q n another)
      | inl last ↦
          let p = (text_eqb_iff c' c).0 same in
          inr (
            by_exit ch (subst (λ x. find_channel_by_id db x ≡ some ch) p here)
              (ground (arith, free, last)) (ap (λ x. without x actor db.channel_members) p))
    ]
  ]
  step-Orphaned q n (establish direct by r ids) = inl (
      ground (
        arith,
        holders-insert_members (codes "admin") c direct (gen.uuid db.serial) by r ids
            db.channel_members,
      ))

  -- A channel with an admin still has one after every request, if no user has two rows in a channel,
  -- unless the request takes away a row of the channel and nothing else: a user whose own row is
  -- not an admin's, but who is an admin by the space or the server, removes a member; an admin removes
  -- the own row by writing the own id in another way than the database does; or the last admin leaves a
  -- direct or an archived channel.
  pub run-Orphaned :
      (call : ChannelCall)
      → UniqueRows db.channel_members
      → 1 ≤ count_channel_members_with_role db c (codes "admin")
      → (1 ≤ count_channel_members_with_role (run gen db actor call).db c (codes "admin"))
        ⊎ Orphaned (run gen db actor call).db.channel_members
  unfolding count_channel_members_with_role
  run-Orphaned call q n = step-Orphaned q n (run-MemberStep gen db actor call)
