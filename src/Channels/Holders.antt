-- ===== src/Channels/Holders.antt =====
-- How the number of a channel's admins, or of a group's members with a role, changes with the updates of `channel_members` in
-- backend/src/db/database.cpp.
use enclave_station.Base.{
  ℕ, ◌≡◌, ◌≤◌, ◌+◌, refl, inl, inr, Bool, true, false, not, ◌&&◌, List, [], ◌∷◌, ◌++◌, map,
  if◌then◌else◌, ◌==◌, text_keys, text_eqb_iff, Text, codes, find?, filter_if, any_if, arith,
  Bool-cases,
}
use enclave_station.Chat.Store.{Member, row_of}
use enclave_station.Channels.Tables.{
  has_row, insert_member, insert_members, with_role, in_role, count_rows,
}
use enclave_station.Channels.Rows.{role_of, UniqueRows}
use enclave_station.Channels.Steps.{without}

-- The rows of a group with the role `k`.
abbrev pub holders : Text → Text → List Member → ℕ
holders k c rows = count_rows (in_role c k) rows

pub holders-append :
    (k c : Text) (rows more : List Member)
    → holders k c (rows ++ more) ≡ holders k c rows + holders k c more
unfolding count_rows
holders-append k c [] more = ground arith
holders-append k c (m ∷ rows) more = ground (arith, holders-append k c rows more)

pub holders-insert_member :
    (k c c' u r : Text) (rows : List Member)
    → holders k c rows ≤ holders k c (insert_member c' u r rows)
unfolding insert_member
holders-insert_member k c c' u r rows =
    ground (arith, holders-append k c rows (record { group = c'; user_id = u; role = r } ∷ []))

pub holders-insert_members :
    (k c : Text) (direct : Bool) (new by r : Text) (ids : List Text) (rows : List Member)
    → holders k c rows ≤ holders k c (insert_members direct new by r ids rows)
unfolding insert_members
holders-insert_members k c direct new by r [] rows = ground arith
holders-insert_members k c direct new by r (id ∷ ids) rows =
    let role = if not direct && (id == by) then codes "admin" else r in
    ground (
      arith,
      holders-insert_members k c direct new by r ids (insert_member new id role rows),
      holders-insert_member k c new id role rows,
    )

-- A user with a role is counted under it.
pub role_of-holders :
    (k c u : Text) (rows : List Member)
    → ([] == k) ≡ false
    → (role_of rows c u == k) ≡ true
    → 1 ≤ holders k c rows
unfolding role_of count_rows find?
role_of-holders k c u [] role h = ground (arith, role, h)
role_of-holders k c u (m ∷ rows) role h =
    ground (arith, text_eqb_iff m.role k, role_of-holders k c u rows role, h)

-- What leaves the count: the user's own row, if it has the role.
pub holders-absent :
    (k c c' u : Text) (rows : List Member)
    → has_row c' u rows ≡ false
    → holders k c (without c' u rows) ≡ holders k c rows
unfolding has_row any_if count_rows filter_if
holders-absent k c c' u [] h = refl
holders-absent k c c' u (m ∷ rows) h = ground (arith, holders-absent k c c' u rows)

pub holders-without :
    (k c u : Text) (rows : List Member)
    → ([] == k) ≡ false
    → UniqueRows rows
    → holders k c rows ≡ holders k c (without c u rows) + (if role_of rows c u == k then 1 else 0)
unfolding UniqueRows role_of count_rows filter_if find?
holders-without k c u [] role q = ground (arith, role)
holders-without k c u (m ∷ rows) role q = elim (Bool-cases (row_of c u m)) [
  | inl hit ↦ ground (
    arith,
    hit,
    role,
    text_eqb_iff m.role k,
    text_eqb_iff m.group c,
    text_eqb_iff m.user_id u,
    holders-absent k c c u rows,
    q.0,
  )
  | inr miss ↦ ground (arith, miss, holders-without k c u rows role q.1)
]

pub holders-elsewhere :
    (k c c' u : Text) (rows : List Member)
    → (c' == c) ≡ false
    → holders k c (without c' u rows) ≡ holders k c rows
unfolding count_rows filter_if
holders-elsewhere k c c' u [] other = refl
holders-elsewhere k c c' u (m ∷ rows) other = ground (
  arith,
  holders-elsewhere k c c' u rows other,
  text_eqb_iff m.group c,
  text_eqb_iff m.group c',
  text_eqb_iff c' c,
)

pub holders-update-elsewhere :
    (k c c' u r : Text) (rows : List Member)
    → (c' == c) ≡ false
    → holders k c (map (with_role c' u r) rows) ≡ holders k c rows
unfolding count_rows
holders-update-elsewhere k c c' u r [] other = refl
holders-update-elsewhere k c c' u r (m ∷ rows) other = ground (
  arith,
  holders-update-elsewhere k c c' u r rows other,
  text_eqb_iff m.group c,
  text_eqb_iff m.group c',
  text_eqb_iff c' c,
)

pub holders-update-absent :
    (k c c' u r : Text) (rows : List Member)
    → has_row c' u rows ≡ false
    → holders k c (map (with_role c' u r) rows) ≡ holders k c rows
unfolding has_row any_if count_rows
holders-update-absent k c c' u r [] h = refl
holders-update-absent k c c' u r (m ∷ rows) h =
    ground (arith, holders-update-absent k c c' u r rows)

-- A new role lowers the count only for a user who had the counted one, and not if it is the counted one.
pub holders-update :
    (k c u r : Text) (rows : List Member)
    → UniqueRows rows
    → holders k c rows
      ≤ holders k c (map (with_role c u r) rows)
        + (if (role_of rows c u == k) && not (r == k) then 1 else 0)
unfolding UniqueRows role_of count_rows find?
holders-update k c u r [] q = ground arith
holders-update k c u r (m ∷ rows) q = elim (Bool-cases (row_of c u m)) [
  | inl hit ↦ ground (
    arith,
    hit,
    text_eqb_iff m.role k,
    text_eqb_iff r k,
    text_eqb_iff m.group c,
    text_eqb_iff m.user_id u,
    holders-update-absent k c c u r rows,
    q.0,
  )
  | inr miss ↦ ground (arith, miss, holders-update k c u r rows q.1)
]
