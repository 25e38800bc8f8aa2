-- ===== src/Spaces/Owners.antt =====
-- The owners of a space, under the requests of backend/src/handlers/space_handler.cpp.
use enclave_station.Base.{
  ℕ, ◌≡◌, ◌≤◌, refl, sym, subst, ◌⊎◌, inl, inr, true, false, not, ◌&&◌, List, map, ◌==◌, text_keys,
  text_eqb_iff, leb, ltb, Text, codes, arith, Bool-cases, if_cases,
}
use enclave_station.Chat.Store.{Generator, Db, Member, get_space_member_role}
use enclave_station.Channels.Tables.{with_role, find_space_by_id}
use enclave_station.Channels.Requests.{Body, thrown, parsed}
use enclave_station.Channels.Rows.{role_of, UniqueRows}
use enclave_station.Channels.Steps.{without}
use enclave_station.Channels.Holders.{
  holders, holders-without, holders-elsewhere, holders-update-elsewhere, holders-update,
}
use enclave_station.Spaces.Tables.{
  space_role_rank, is_space_member, count_space_members_with_role, remove_space_member,
  update_space_member_role,
}
use enclave_station.Spaces.Requests.{SpaceOutcome}
use enclave_station.Spaces.Removal.{space_members-remove_from_channels}
use enclave_station.Spaces.Handlers.{
  is_space_admin, space_channel_ids, remove_member, is_space_role, demotes_last_owner,
  change_role_parsed, change_member_role, is_personal_space, is_live_space, is_last_owner,
  leave_space, SpaceRequest, remove_user, change_role, leave_group, run_space,
}

abbrev owners : Text → List Member → ℕ
owners s rows = holders (codes "owner") s rows

abbrev HasOwner : Text → SpaceOutcome → Type 0
HasOwner s o = 1 ≤ owners s o.db.space_members

module _ (gen : Generator) (db : Db) (actor s : Text) where
  -- What can leave a space that has an owner without one.
  pub data Ownerless (call : SpaceRequest) : Type 0 where
    by_removal :
        (space target : Text)
        → gen.cast space ≡ s
        → call ≡ remove_user space target
        → is_space_admin db s actor ≡ true
        → is_last_owner db s (gen.cast target) ≡ true
        → Ownerless call
    by_exit :
        (space : Text)
        → gen.cast space ≡ s
        → call ≡ leave_group space
        → is_live_space (find_space_by_id db s) ≡ false
        → is_last_owner db s actor ≡ true
        → Ownerless call

  module _ (q : UniqueRows db.space_members) (some_owner : 1 ≤ owners s db.space_members) where
    -- Without a user's rows, an owner is left if the user was not the last.
    removal-keeps :
        (target : Text)
        → is_last_owner db s target ≡ false
        → 1 ≤ owners s (without s target db.space_members)
    unfolding is_last_owner count_space_members_with_role get_space_member_role role_of
    removal-keeps target kept =
        ground (
          arith,
          kept,
          some_owner,
          holders-without (codes "owner") s target db.space_members refl q,
        )

    update-keeps :
        (target r : Text)
        → demotes_last_owner db s (get_space_member_role db s target) r ≡ false
        → 1 ≤ owners s (map (with_role s target r) db.space_members)
    unfolding demotes_last_owner count_space_members_with_role get_space_member_role role_of
    update-keeps target r kept =
        ground
          (arith, kept, some_owner, holders-update (codes "owner") s target r db.space_members q)

    -- Taking a user out of any space leaves the space with an owner, unless it is the last one.
    removed_or_last :
        (s' target : Text)
        → (1 ≤ owners s (without s' target db.space_members))
          ⊎ ((s' ≡ s) × (is_last_owner db s target ≡ true))
    removed_or_last s' target = elim (Bool-cases (s' == s)) [
      | inr other ↦ inl (
          ground (
            arith,
            some_owner,
            holders-elsewhere (codes "owner") s s' target db.space_members other,
          ))
      | inl same ↦
          let p = (text_eqb_iff s' s).0 same in
          elim (Bool-cases (is_last_owner db s target)) [
            | inl last ↦ inr (p, last)
            | inr another ↦ inl (
                subst (λ x. 1 ≤ owners s (without x target db.space_members)) (sym p)
                  (removal-keeps target another))
          ]
    ]

    update-owners :
        (s' target r : Text)
        → demotes_last_owner db s' (get_space_member_role db s' target) r ≡ false
        → 1 ≤ owners s (map (with_role s' target r) db.space_members)
    update-owners s' target r kept = elim (Bool-cases (s' == s)) [
      | inr other ↦ ground (
        arith,
        some_owner,
        holders-update-elsewhere (codes "owner") s s' target r db.space_members other,
      )
      | inl same ↦
          let p = (text_eqb_iff s' s).0 same in
          subst (λ x. 1 ≤ owners s (map (with_role x target r) db.space_members)) (sym p)
            (update-keeps target r (
              subst (λ x. demotes_last_owner db x (get_space_member_role db x target) r ≡ false) p
                kept))
    ]

    remove_member-owners :
        (s' target : Text)
        → (1 ≤ owners s (remove_member gen db actor s' target).db.space_members)
          ⊎ Ownerless (remove_user s' target)
    unfolding remove_member remove_space_member
    remove_member-owners s' target =
        if_cases (λ (o : SpaceOutcome). HasOwner s o ⊎ Ownerless (remove_user s' target))
          (not (is_space_admin db (gen.cast s') actor)) _ _ (λ refused. inl some_owner)
          (λ admitted. elim (removed_or_last (gen.cast s') (gen.cast target)) [
            | inl kept ↦ inl kept
            | inr (p, last) ↦ inr (
                by_removal s' target p refl
                  (subst (λ x. is_space_admin db x actor ≡ true) p (ground (arith, admitted))) last)
          ])

    change_role_parsed-owners :
        (s' target r : Text)
        → 1 ≤ owners s (change_role_parsed db actor s' target r).db.space_members
    unfolding change_role_parsed update_space_member_role
    change_role_parsed-owners s' target r =
        if_cases (HasOwner s) (not (is_space_role r)) _ _ (λ h. some_owner)
          λ h.
            if_cases (HasOwner s) (ltb _ (space_role_rank r)) _ _ (λ h. some_owner)
              λ h.
                if_cases (HasOwner s)
                  ((ltb (space_role_rank r) _ && leb _ _) && not (actor == target)) _ _
                  (λ h. some_owner)
                  λ h.
                    if_cases (HasOwner s)
                      (demotes_last_owner db s' (get_space_member_role db s' target) r) _ _
                      (λ h. some_owner) λ h. update-owners s' target r h

    change_member_role-owners :
        (s' target : Text) (body : Body Text)
        → 1 ≤ owners s (change_member_role db actor s' target body).db.space_members
    unfolding change_member_role
    change_member_role-owners s' target (thrown e) =
        if_cases (HasOwner s) (not (is_space_admin db s' actor)) _ _ (λ h. some_owner)
          (λ h. some_owner)
    change_member_role-owners s' target (parsed r) =
        if_cases (HasOwner s) (not (is_space_admin db s' actor)) _ _ (λ h. some_owner)
          (λ h. change_role_parsed-owners s' target r)

    leave_space-owners :
        (s' : Text) → HasOwner s (leave_space gen db actor s') ⊎ Ownerless (leave_group s')
    unfolding leave_space remove_space_member
    leave_space-owners s' =
        let Kept = (λ (o : SpaceOutcome). HasOwner s o ⊎ Ownerless (leave_group s')) in
        if_cases Kept (is_personal_space (find_space_by_id db (gen.cast s'))) _ _
          (λ h. inl some_owner)
          λ h.
            if_cases Kept (not (is_space_member db (gen.cast s') actor)) _ _ (λ h. inl some_owner)
              λ h.
                if_cases Kept
                  (is_live_space (find_space_by_id db (gen.cast s'))
                    && is_last_owner db (gen.cast s') actor)
                  _ _ (λ h. inl some_owner)
                  λ free. elim (removed_or_last (gen.cast s') actor) [
                    | inl kept ↦ inl (
                        subst (λ rows. 1 ≤ owners s (without (gen.cast s') actor rows))
                          (sym (
                            space_members-remove_from_channels db actor
                              (space_channel_ids gen db s' actor)))
                          kept)
                    | inr (p, last) ↦ inr (
                        by_exit s' p refl
                          (ground (
                            arith,
                            last,
                            subst
                                (λ x.
                                  (is_live_space (find_space_by_id db x)
                                    && is_last_owner db x actor)
                                  ≡ false)
                                p free,
                          ))
                          last)
                  ]

    run_space-owners :
        (call : SpaceRequest) → HasOwner s (run_space gen db actor call) ⊎ Ownerless call
    unfolding run_space
    run_space-owners (remove_user s' target) = remove_member-owners s' target
    run_space-owners (change_role s' target body) = inl (change_member_role-owners s' target body)
    run_space-owners (leave_group s') = leave_space-owners s'

-- A space with an owner still has one after a request to remove a member, to change a role or to
-- leave, if no user has two rows in a space, unless the last owner is removed by an admin of the
-- space or of the server, or leaves a space that is archived or missing.
pub run_space-Ownerless :
    (gen : Generator) (db : Db) (actor s : Text) (call : SpaceRequest)
    → UniqueRows db.space_members
    → 1 ≤ count_space_members_with_role db s (codes "owner")
    → (1 ≤ count_space_members_with_role (run_space gen db actor call).db s (codes "owner"))
      ⊎ Ownerless gen db actor s call
unfolding count_space_members_with_role
run_space-Ownerless gen db actor s call q some_owner =
    run_space-owners gen db actor s q some_owner call
