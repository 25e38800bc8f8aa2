-- ===== src/Spaces/Ranks.antt =====
-- Who changes whose role in a space, and to what, under the requests of
-- backend/src/handlers/space_handler.cpp.
use enclave_station.Base.{
  ℕ, ◌≡◌, ◌≤◌, sym, subst, true, not, ◌&&◌, ◌||◌, [], map, ◌==◌, text_keys, text_eqb_iff, leb, ltb,
  Text, filter_if, arith, if_cases,
}
use enclave_station.Chat.Store.{Generator, Db, row_of, get_space_member_role, find_user_by_id}
use enclave_station.Channels.Tables.{has_row, with_role, find_space_by_id}
use enclave_station.Channels.Requests.{Body, thrown, parsed}
use enclave_station.Channels.Rows.{role_of, role_of-remove, role_of-update}
use enclave_station.Spaces.Tables.{
  space_role_rank, is_space_member, remove_space_member, update_space_member_role,
}
use enclave_station.Spaces.Requests.{SpaceOutcome}
use enclave_station.Spaces.Removal.{space_members-remove_from_channels}
use enclave_station.Spaces.Handlers.{
  is_space_admin, space_channel_ids, remove_member, actor_space_rank, is_space_role,
  demotes_last_owner, change_role_parsed, change_member_role, is_personal_space, is_live_space,
  is_last_owner, leave_space, SpaceRequest, remove_user, change_role, leave_group, run_space,
}

-- The rank with which the user acts in the space.
abbrev pub rank_in : Db → (space user : Text) → ℕ
rank_in db s user = actor_space_rank (get_space_member_role db s user) (find_user_by_id db user)

module _ (db : Db) (actor s u : Text) where
  abbrev pub old_rank : ℕ
  old_rank = space_role_rank (get_space_member_role db s u)

  -- The role that a user has in a space after a request.
  pub data SpaceRoleChange : Text → Type 0 where
    kept : SpaceRoleChange (get_space_member_role db s u)
    changed :
        (r : Text)
        → is_space_admin db s actor ≡ true
        → is_space_role r ≡ true
        → space_role_rank r ≤ rank_in db s actor
        → (leb old_rank (space_role_rank r) || (ltb old_rank (rank_in db s actor) || (actor == u)))
          ≡ true
        → SpaceRoleChange r
    removed : is_space_admin db s actor ≡ true → SpaceRoleChange []
    left : actor ≡ u → SpaceRoleChange []

  abbrev Ranked : SpaceOutcome → Type 0
  Ranked o = SpaceRoleChange (get_space_member_role o.db s u)

  without-role :
      (s' target : Text)
      → (s' ≡ s → target ≡ u → SpaceRoleChange [])
      → SpaceRoleChange (role_of (filter_if (λ m. not (row_of s' target m)) db.space_members) s u)
  unfolding role_of get_space_member_role
  without-role s' target gone =
      subst SpaceRoleChange (sym (role_of-remove s' target db.space_members s u)) (
        if_cases SpaceRoleChange ((s' == s) && (target == u)) [] (role_of db.space_members s u)
          (λ same.
            gone ((text_eqb_iff s' s).0 (ground (arith, same)))
              ((text_eqb_iff target u).0 (ground (arith, same))))
          (λ other. kept))

  update-role :
      (s' target r : Text)
      → (s' ≡ s → target ≡ u → SpaceRoleChange r)
      → SpaceRoleChange (role_of (map (with_role s' target r) db.space_members) s u)
  unfolding role_of get_space_member_role
  update-role s' target r here =
      let row = has_row s u db.space_members in
      subst SpaceRoleChange (sym (role_of-update s' target r db.space_members s u)) (
        if_cases SpaceRoleChange (row && ((s' == s) && (target == u))) r
          (role_of db.space_members s u)
          (λ same.
            here ((text_eqb_iff s' s).0 (ground (arith, same)))
              ((text_eqb_iff target u).0 (ground (arith, same))))
          (λ other. kept))

  remove_member-Ranked :
      (gen : Generator) (s' target : Text) → Ranked (remove_member gen db actor s' target)
  unfolding remove_member remove_space_member get_space_member_role role_of
  remove_member-Ranked gen s' target =
      if_cases Ranked (not (is_space_admin db (gen.cast s') actor)) _ _ (λ h. kept)
        λ h.
          without-role (gen.cast s') (gen.cast target)
            λ p here. removed (subst (λ x. is_space_admin db x actor ≡ true) p (ground (arith, h)))

  change_role_parsed-Ranked :
      (s' target r : Text)
      → is_space_admin db s' actor ≡ true
      → Ranked (change_role_parsed db actor s' target r)
  unfolding change_role_parsed update_space_member_role get_space_member_role role_of
  change_role_parsed-Ranked s' target r admin =
      let new = space_role_rank r in
      let old : Text → Text → ℕ = λ s t. space_role_rank (get_space_member_role db s t) in
      if_cases Ranked (not (is_space_role r)) _ _ (λ h. kept)
        λ valid.
          if_cases Ranked (ltb (rank_in db s' actor) new) _ _ (λ h. kept)
            λ reach.
              if_cases Ranked
                ((ltb new (old s' target) && leb (rank_in db s' actor) (old s' target))
                  && not (actor == target))
                _ _ (λ h. kept)
                λ outranked.
                  if_cases Ranked (demotes_last_owner db s' (get_space_member_role db s' target) r)
                    _ _ (λ h. kept)
                    λ h. update-role s' target r λ p here.
                      changed r (subst (λ x. is_space_admin db x actor ≡ true) p admin)
                        (ground (arith, valid))
                        (subst (λ x. space_role_rank r ≤ rank_in db x actor) p
                          (ground (arith, reach)))
                        (subst
                          (λ x.
                            (leb (old x u) new
                              || (ltb (old x u) (rank_in db x actor) || (actor == u)))
                            ≡ true)
                          p
                          (subst
                            (λ t.
                              (leb (old s' t) new
                                || (ltb (old s' t) (rank_in db s' actor) || (actor == t)))
                              ≡ true)
                            here (ground (arith, outranked))))

  change_member_role-Ranked :
      (s' target : Text) (body : Body Text) → Ranked (change_member_role db actor s' target body)
  unfolding change_member_role
  change_member_role-Ranked s' target (thrown e) =
      if_cases Ranked (not (is_space_admin db s' actor)) _ _ (λ h. kept) (λ h. kept)
  change_member_role-Ranked s' target (parsed r) =
      if_cases Ranked (not (is_space_admin db s' actor)) _ _ (λ h. kept)
        (λ h. change_role_parsed-Ranked s' target r (ground (arith, h)))

  leave_space-Ranked : (gen : Generator) (s' : Text) → Ranked (leave_space gen db actor s')
  unfolding leave_space remove_space_member get_space_member_role role_of
  leave_space-Ranked gen s' =
      if_cases Ranked (is_personal_space (find_space_by_id db (gen.cast s'))) _ _ (λ h. kept)
        λ h.
          if_cases Ranked (not (is_space_member db (gen.cast s') actor)) _ _ (λ h. kept)
            λ h.
              if_cases Ranked
                (is_live_space (find_space_by_id db (gen.cast s'))
                  && is_last_owner db (gen.cast s') actor)
                _ _ (λ h. kept)
                λ h.
                  subst
                    (λ rows.
                      SpaceRoleChange
                        (role_of (filter_if (λ m. not (row_of (gen.cast s') actor m)) rows) s u))
                    (sym (
                      space_members-remove_from_channels db actor
                        (space_channel_ids gen db s' actor)))
                    (without-role (gen.cast s') actor λ p here. left here)

-- A request to remove a member, to change a role or to leave changes the role of a user in a space
-- only so: a space or server admin takes it away; the user leaves; or an admin gives a valid role of
-- no higher rank than the admin's own, and gives a lower one than before only to a user of lower rank
-- than the admin's own or to the admin's self.
pub run_space-RoleChange :
    (gen : Generator) (db : Db) (actor : Text) (call : SpaceRequest) (s u : Text)
    → SpaceRoleChange db actor s u (get_space_member_role (run_space gen db actor call).db s u)
unfolding run_space
run_space-RoleChange gen db actor (remove_user s' target) s u =
    remove_member-Ranked db actor s u gen s' target
run_space-RoleChange gen db actor (change_role s' target body) s u =
    change_member_role-Ranked db actor s u s' target body
run_space-RoleChange gen db actor (leave_group s') s u = leave_space-Ranked db actor s u gen s'
