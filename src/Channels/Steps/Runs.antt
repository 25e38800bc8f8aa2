-- ===== src/Channels/Steps/Runs.antt =====
-- Every request, as a step of the table `channel_members`.
use enclave_station.Base.{
  ◌≡◌, refl, sym, subst, inl, inr, Bool, true, false, not, ◌&&◌, ◌||◌, some, map, if◌then◌else◌,
  ◌==◌, text_keys, nat_keys, leb, ltb, text_eqb_iff, Text, codes, find?, arith, Bool-cases,
  Option-cases,
}
use enclave_station.Chat.Store.{
  Generator, Db, Channel, find_channel_by_id, get_effective_role, get_member_role,
}
use enclave_station.Channels.Tables.{
  is_channel_role, channel_role_rank, is_channel_member, Settings, settled, count_channel_members,
  remove_channel_member, update_member_role, update_channel, count_channel_members_with_role,
  create_channel, NewChannel, archive_channel, unarchive_channel, change_channel, has_user,
  all_users, find_dm_channel,
}
use enclave_station.Channels.Requests.{Body, UpdateBody, Outcome}
use enclave_station.Channels.Handlers.{
  kick, set_role, with_body, no_channel, set_role_parsed, demotes_last_admin,
}
use enclave_station.Channels.Lifecycle.{
  update, settings_done, new_settings, leave, leave_direct, leave_regular, archive, unarchive,
  may_archive, parent_archived, creation, creation_done, handle_create_channel, direct_creation,
  direct_done, create_dm_parsed, handle_create_dm,
}
use enclave_station.Channels.Routes.{
  ChannelCall, join_channel, invite_member, kick_member, set_member_role, update_settings,
  leave_channel, set_archived, set_unarchived, create_regular, create_direct, run,
}
use enclave_station.Channels.Steps.{is_last_admin, MemberStep, stay, expel, assign, exit, establish}
use enclave_station.Channels.Steps.Entries.{
  Stepped, with_body-Stepped, guard-Stepped, join-Stepped, invite-Stepped,
}

module _ (gen : Generator) (db : Db) (actor : Text) where
  kick-Stepped : (c target : Text) → Stepped gen db actor (kick gen db actor c target)
  unfolding kick remove_channel_member
  kick-Stepped c target =
      elim (Bool-cases (get_effective_role db (gen.cast c) actor == codes "admin")) [
        | inr denied ↦ rw denied stay
        | inl ok ↦ elim (Bool-cases (target == actor)) [
          | inl self ↦ rw (ok, self) stay
          | inr other ↦
              rw (ok, other)
                (expel (gen.cast c) target
                  ((text_eqb_iff (get_effective_role db (gen.cast c) actor) (codes "admin")).0 ok)
                  other)
        ]
      ]

  set_role_parsed-Stepped :
      (c target r : Text)
      → get_effective_role db c actor ≡ codes "admin"
      → Stepped gen db actor (set_role_parsed db actor (get_effective_role db c actor) c target r)
  unfolding set_role_parsed update_member_role
  set_role_parsed-Stepped c target r admin = elim (Bool-cases (is_channel_role r)) [
    | inr bad ↦ rw bad stay
    | inl valid ↦
        rw valid
          (elim (Bool-cases
            (ltb (channel_role_rank (get_effective_role db c actor)) (channel_role_rank r))) [
              | inl high ↦ rw high stay
              | inr low ↦ rw low (elim (Bool-cases (forbidden r)) [
                | inl barred ↦ rw barred stay
                | inr free ↦
                    rw free
                      (elim (Bool-cases (demotes_last_admin db c (get_member_role db c target) r)) [
                        | inl last ↦ rw last stay
                        | inr kept ↦ rw kept (assign c target r admin valid kept)
                      ])
              ])
            ])
  ]
    where
      forbidden : Text → Bool
      forbidden r =
          (ltb (channel_role_rank r) (channel_role_rank (get_member_role db c target))
            && leb (channel_role_rank (get_effective_role db c actor))
                (channel_role_rank (get_member_role db c target)))
          && not (actor == target)

  set_role-Stepped :
      (c target : Text) (body : Body Text) → Stepped gen db actor (set_role db actor c target body)
  unfolding set_role
  set_role-Stepped c target body =
      let handle = set_role_parsed db actor (get_effective_role db c actor) c target in
      guard-Stepped gen db actor c (with_body db body handle) λ admin.
        with_body-Stepped gen db actor body handle λ r. set_role_parsed-Stepped c target r admin

  -- The columns of a channel are no concern of the table.
  settings_done-Stepped :
      (c : Text) (new : Settings)
      → Stepped gen db actor (settings_done db c (update_channel db c new))
  unfolding update_channel change_channel
  settings_done-Stepped c new =
      elim (Option-cases
        (find? (λ x. x.id == c) (map (λ x. if x.id == c then settled new x else x) db.channels))) [
          | inl gone ↦ rw (settings_done, update_channel, gone) stay
          | inr (ch, here) ↦ rw (settings_done, update_channel, here) stay
        ]

  update-Stepped :
      (c : Text) (body : Body UpdateBody) → Stepped gen db actor (update db actor c body)
  unfolding update
  update-Stepped c body = elim (Option-cases (find_channel_by_id db c)) [
    | inl gone ↦ rw gone (guard-Stepped gen db actor c (no_channel db) (λ admin. stay))
    | inr (ch, here) ↦
        let handle : UpdateBody → Outcome =
          λ j. settings_done db c (update_channel db c (new_settings ch j)) in
        rw here (
          guard-Stepped gen db actor c (with_body db body handle) λ admin.
            with_body-Stepped gen db actor body handle
              λ j. settings_done-Stepped c (new_settings ch j))
  ]

  archive_if-rows :
      (b : Bool) (d : Db) (c : Text)
      → (if b then archive_channel d c else d).channel_members ≡ d.channel_members
  unfolding archive_channel change_channel
  archive_if-rows true d c = refl
  archive_if-rows false d c = refl

  exit-remove :
      (c : Text) (ch : Channel)
      → find_channel_by_id db c ≡ some ch
      → (ch.is_direct || (ch.is_archived || not (is_last_admin db c actor))) ≡ true
      → MemberStep gen db actor (remove_channel_member db c actor).channel_members
  unfolding remove_channel_member
  exit-remove c ch here free = exit c ch here free

  leave_direct-Stepped :
      (c : Text) (ch : Channel)
      → find_channel_by_id db c ≡ some ch
      → ch.is_direct ≡ true
      → Stepped gen db actor (leave_direct db actor c)
  unfolding leave_direct
  leave_direct-Stepped c ch here direct =
      let after = remove_channel_member db c actor in
      subst (MemberStep gen db actor)
        (sym (archive_if-rows (leb (count_channel_members after c) 1) after c))
        (exit-remove c ch here (rw direct refl))

  leave_regular-Stepped :
      (c : Text) (ch : Channel)
      → find_channel_by_id db c ≡ some ch
      → Stepped gen db actor (leave_regular db actor c ch)
  unfolding leave_regular remove_channel_member is_last_admin
  leave_regular-Stepped c ch here =
      elim (Bool-cases (
        ((get_member_role db c actor == codes "admin") && not ch.is_archived)
        && leb (count_channel_members_with_role db c (codes "admin")) 1)) [
          | inl last ↦ rw last stay
          | inr free ↦ rw free (exit c ch here (ground (arith, free)))
        ]

  leave-Stepped : (c : Text) → Stepped gen db actor (leave db actor c)
  unfolding leave
  leave-Stepped c = elim (Bool-cases (is_channel_member db c actor)) [
    | inr out ↦ rw out stay
    | inl member ↦ rw member (elim (Option-cases (find_channel_by_id db c)) [
      | inl gone ↦ rw gone stay
      | inr (ch, here) ↦ rw here (elim (Bool-cases ch.is_direct) [
        | inl direct ↦ rw direct (leave_direct-Stepped c ch here direct)
        | inr regular ↦ rw regular (leave_regular-Stepped c ch here)
      ])
    ])
  ]

  archive-Stepped : (c : Text) → Stepped gen db actor (archive db actor c)
  unfolding archive archive_channel change_channel
  archive-Stepped c = elim (Bool-cases (may_archive db actor c)) [
    | inl ok ↦ rw ok stay
    | inr denied ↦ rw denied stay
  ]

  unarchive-Stepped : (c : Text) → Stepped gen db actor (unarchive db actor c)
  unfolding unarchive unarchive_channel change_channel
  unarchive-Stepped c = elim (Bool-cases (parent_archived db (find_channel_by_id db c))) [
    | inl shut ↦ rw shut stay
    | inr open_space ↦ rw open_space (elim (Bool-cases (may_archive db actor c)) [
      | inl ok ↦ rw ok stay
      | inr denied ↦ rw denied stay
    ])
  ]

  creation_done-Stepped :
      (new : NewChannel) → Stepped gen db actor (creation_done db actor (create_channel gen db new))
  unfolding create_channel
  creation_done-Stepped new =
      elim (Bool-cases (has_user db new.created_by && all_users db new.member_ids)) [
        | inl ok ↦ rw ok (establish new.is_direct new.created_by new.default_role new.member_ids)
        | inr bad ↦ rw bad stay
      ]

  direct_done-Stepped :
      (new : NewChannel) → Stepped gen db actor (direct_done db actor (create_channel gen db new))
  unfolding create_channel
  direct_done-Stepped new =
      elim (Bool-cases (has_user db new.created_by && all_users db new.member_ids)) [
        | inl ok ↦ rw ok (establish new.is_direct new.created_by new.default_role new.member_ids)
        | inr bad ↦ rw bad stay
      ]

  create_dm_parsed-Stepped :
      (other : Text) → Stepped gen db actor (create_dm_parsed gen db actor other)
  unfolding create_dm_parsed
  create_dm_parsed-Stepped other = elim (Option-cases (find_dm_channel db actor other)) [
    | inl new ↦ rw (create_dm_parsed, new) (direct_done-Stepped (direct_creation gen actor other))
    | inr (ch, old) ↦ rw (create_dm_parsed, old) stay
  ]

  -- Every request changes the rows of `channel_members` by a step that its user may take, whatever the
  -- body says and whether or not the request is refused.
  pub run-MemberStep :
      (call : ChannelCall) → MemberStep gen db actor (run gen db actor call).db.channel_members
  unfolding run handle_create_channel handle_create_dm
  run-MemberStep (join_channel c) = join-Stepped gen db actor c
  run-MemberStep (invite_member c body) = invite-Stepped gen db actor c body
  run-MemberStep (kick_member c target) = kick-Stepped c target
  run-MemberStep (set_member_role c target body) = set_role-Stepped c target body
  run-MemberStep (update_settings c body) = update-Stepped c body
  run-MemberStep (leave_channel c) = leave-Stepped c
  run-MemberStep (set_archived c) = archive-Stepped c
  run-MemberStep (set_unarchived c) = unarchive-Stepped c
  run-MemberStep (create_regular body) =
      with_body-Stepped gen db actor body
        (λ j. creation_done db actor (create_channel gen db (creation gen actor j)))
        (λ j. creation_done-Stepped (creation gen actor j))
  run-MemberStep (create_direct body) =
      with_body-Stepped gen db actor body (create_dm_parsed gen db actor) create_dm_parsed-Stepped
