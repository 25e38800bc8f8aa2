-- ===== src/Channels/Roles.antt =====
-- Whose role a request of backend/src/handlers/channel_handler.cpp can change, and the primary key of
-- the table `channel_members`.
use enclave_station.Base.{
  ◌≡◌, refl, sym, subst, ◌∙◌, inl, inr, Bool, true, false, not, ◌&&◌, some, List, [], ◌∷◌, map,
  if◌then◌else◌, ◌==◌, text_keys, text_eqb_iff, Text, codes, arith, Bool-cases,
}
use enclave_station.Chat.Store.{
  Generator, Db, Channel, Member, find_channel_by_id, get_effective_role, get_member_role,
}
use enclave_station.Channels.Tables.{has_row, insert_member, insert_members, with_role}
use enclave_station.Channels.Rows.{
  role_of, UniqueRows, role_of-insert_member, role_of-remove, role_of-update,
  insert_member-UniqueRows, insert_members-UniqueRows, remove-UniqueRows, update-UniqueRows,
}
use enclave_station.Channels.Routes.{ChannelCall, run}
use enclave_station.Channels.Steps.{
  without, MemberStep, stay, enter, enter_as_admin, add, expel, assign, exit, establish,
}
use enclave_station.Channels.Steps.Runs.{run-MemberStep}

module _ (gen : Generator) (db : Db) (actor : Text) where
  step-UniqueRows :
      {rows : List Member}
      → UniqueRows db.channel_members
      → MemberStep gen db actor rows
      → UniqueRows rows
  step-UniqueRows q stay = q
  step-UniqueRows q (enter c ch _ _ _) = insert_member-UniqueRows c actor ch.default_role _ q
  step-UniqueRows q (enter_as_admin c _) = insert_member-UniqueRows c actor _ _ q
  step-UniqueRows q (add c target r _ _) = insert_member-UniqueRows c target r _ q
  step-UniqueRows q (expel c text _ _) = remove-UniqueRows c (gen.cast text) _ q
  step-UniqueRows q (assign c target r _ _ _) = update-UniqueRows c target r _ q
  step-UniqueRows q (exit c ch _ _) = remove-UniqueRows c actor _ q
  step-UniqueRows q (establish direct by r ids) =
      insert_members-UniqueRows direct (gen.uuid db.serial) by r ids _ q

  pub run-UniqueRows :
      (call : ChannelCall)
      → UniqueRows db.channel_members
      → UniqueRows (run gen db actor call).db.channel_members
  run-UniqueRows call q = step-UniqueRows q (run-MemberStep gen db actor call)

  -- How a user's role in a channel may come to be `after`.
  pub data RoleChange (c u after : Text) : Type 0 where
    unchanged : after ≡ get_member_role db c u → RoleChange c u after
    by_admin : get_effective_role db c actor ≡ codes "admin" → RoleChange c u after
    own_exit : u ≡ actor → after ≡ [] → RoleChange c u after
    own_entry :
        (ch : Channel)
        → find_channel_by_id db c ≡ some ch
        → ch.is_direct ≡ false
        → ch.is_public ≡ true
        → u ≡ actor
        → has_row c u db.channel_members ≡ false
        → after ≡ ch.default_role
        → RoleChange c u after
    in_new_channel : c ≡ gen.uuid db.serial → RoleChange c u after

  get_member_role-role_of : (c u : Text) → role_of db.channel_members c u ≡ get_member_role db c u
  unfolding role_of get_member_role
  get_member_role-role_of c u = refl

  elsewhere :
      (rows : List Member) (c u : Text)
      → role_of rows c u ≡ role_of db.channel_members c u
      → RoleChange c u (role_of rows c u)
  elsewhere rows c u same = unchanged (same ∙ get_member_role-role_of c u)

  role_of-insert_members :
      (direct : Bool) (new by r : Text) (ids : List Text) (rows : List Member) (c u : Text)
      → (new == c) ≡ false
      → role_of (insert_members direct new by r ids rows) c u ≡ role_of rows c u
  unfolding insert_members
  role_of-insert_members direct new by r [] rows c u other = refl
  role_of-insert_members direct new by r (id ∷ ids) rows c u other =
      role_of-insert_members direct new by r ids _ c u other
      ∙ role_of-insert_member new id _ rows c u
      ∙ rw other (if_false (not (has_row c u rows)) _ _)
    where
      if_false : (b : Bool) (x y : Text) → (if b && false then x else y) ≡ y
      if_false true x y = refl
      if_false false x y = refl

  -- The rows of one channel are changed by an admin of it.
  by_admin-RoleChange :
      (c : Text) (rows : List Member)
      → get_effective_role db c actor ≡ codes "admin"
      → ((c' u : Text) → (c == c') ≡ false → role_of rows c' u ≡ role_of db.channel_members c' u)
      → (c' u : Text) → RoleChange c' u (role_of rows c' u)
  by_admin-RoleChange c rows admin same c' u = elim (Bool-cases (c == c')) [
    | inl here ↦ by_admin (
        subst (λ x. get_effective_role db x actor ≡ codes "admin") ((text_eqb_iff c c').0 here)
          admin)
    | inr other ↦ elsewhere rows c' u (same c' u other)
  ]

  step-RoleChange :
      {rows : List Member}
      → MemberStep gen db actor rows
      → (c u : Text) → RoleChange c u (role_of rows c u)
  step-RoleChange stay c' u = elsewhere db.channel_members c' u refl
  step-RoleChange (enter c ch here regular open_to_all) c' u =
      elim (Bool-cases (not (has_row c' u db.channel_members) && ((c == c') && (actor == u)))) [
        | inl new ↦
            own_entry ch
              (subst (λ x. find_channel_by_id db x ≡ some ch)
                ((text_eqb_iff c c').0 (ground (arith, new))) here)
              regular open_to_all (sym ((text_eqb_iff actor u).0 (ground (arith, new))))
              (ground (arith, new))
              (role_of-insert_member c actor ch.default_role db.channel_members c' u ∙ rw new refl)
        | inr old ↦
            elsewhere (insert_member c actor ch.default_role db.channel_members) c' u
              (role_of-insert_member c actor ch.default_role db.channel_members c' u ∙ rw old refl)
      ]
  step-RoleChange (enter_as_admin c admin) c' u =
      by_admin-RoleChange c (insert_member c actor (codes "admin") db.channel_members) admin
        (λ c'' v other.
          ground (arith, role_of-insert_member c actor (codes "admin") db.channel_members c'' v))
        c' u
  step-RoleChange (add c target r admin _) c' u =
      by_admin-RoleChange c (insert_member c target r db.channel_members) admin
        (λ c'' v other. ground (arith, role_of-insert_member c target r db.channel_members c'' v))
        c' u
  step-RoleChange (expel c text admin _) c' u =
      by_admin-RoleChange c (without c (gen.cast text) db.channel_members) admin
        (λ c'' v other. ground (arith, role_of-remove c (gen.cast text) db.channel_members c'' v))
        c' u
  step-RoleChange (assign c target r admin _ _) c' u =
      by_admin-RoleChange c (map (with_role c target r) db.channel_members) admin
        (λ c'' v other. ground (arith, role_of-update c target r db.channel_members c'' v)) c' u
  step-RoleChange (exit c ch _ _) c' u = elim (Bool-cases ((c == c') && (actor == u))) [
    | inl self ↦
        own_exit (sym ((text_eqb_iff actor u).0 (ground (arith, self))))
          (role_of-remove c actor db.channel_members c' u ∙ rw self refl)
    | inr other ↦
        elsewhere (without c actor db.channel_members) c' u
          (role_of-remove c actor db.channel_members c' u ∙ rw other refl)
  ]
  step-RoleChange (establish direct by r ids) c' u = elim (Bool-cases (gen.uuid db.serial == c')) [
    | inl new ↦ in_new_channel (sym ((text_eqb_iff (gen.uuid db.serial) c').0 new))
    | inr other ↦
        elsewhere (insert_members direct (gen.uuid db.serial) by r ids db.channel_members) c' u (
          role_of-insert_members direct (gen.uuid db.serial) by r ids db.channel_members c' u other)
  ]

  -- Whatever the request, a user's role in a channel stays as it was, unless the user of the request
  -- has the effective role admin in it; or is that user, who leaves and is left without a role, or who
  -- had no row in a public channel that is not direct and has now its default role; or the channel is
  -- the one that the request creates.
  pub run-RoleChange :
      (call : ChannelCall) (c u : Text)
      → RoleChange c u (get_member_role (run gen db actor call).db c u)
  unfolding get_member_role role_of
  run-RoleChange call c u = step-RoleChange (run-MemberStep gen db actor call) c u

-- The database after requests of several users, one after the other.
unfoldable pub run_all : Generator → Db → List (Text × ChannelCall) → Db
run_all gen db [] = db
run_all gen db ((actor, call) ∷ rest) = run_all gen (run gen db actor call).db rest

-- After any sequence of requests of any users, no user has two rows in a channel, if none had before.
pub run_all-UniqueRows :
    (gen : Generator) (db : Db) (calls : List (Text × ChannelCall))
    → UniqueRows db.channel_members
    → UniqueRows (run_all gen db calls).channel_members
unfolding run_all
run_all-UniqueRows gen db [] q = q
run_all-UniqueRows gen db ((actor, call) ∷ rest) q =
    run_all-UniqueRows gen (run gen db actor call).db rest (run-UniqueRows gen db actor call q)
