-- ===== src/Channels/Rows.antt =====
-- Insertion, deletion and update of the rows of `channel_members`, as the rows and the roles that a
-- query finds afterwards.
use enclave_station.Base.{
  ◌≡◌, refl, inl, inr, Bool, false, not, ◌&&◌, ◌||◌, none, List, [], ◌∷◌, ◌++◌, map, if◌then◌else◌,
  ◌==◌, text_keys, text_eqb_iff, Text, find?, filter_if, any_if, arith, Bool-cases,
}
use enclave_station.Chat.Store.{Member, row_of, role_in}
use enclave_station.Channels.Tables.{has_row, insert_member, insert_members, with_role}

unfoldable pub role_of : List Member → Text → Text → Text
role_of rows c u = role_in (find? (row_of c u) rows)

pub has_row-append :
    (rows more : List Member) (c u : Text)
    → has_row c u (rows ++ more) ≡ (has_row c u rows || has_row c u more)
unfolding has_row any_if
has_row-append [] more c u = refl
has_row-append (m ∷ rows) more c u = ground (arith, has_row-append rows more c u)

pub find-missing :
    (rows : List Member) (c u : Text) → has_row c u rows ≡ false → find? (row_of c u) rows ≡ none
unfolding has_row any_if find?
find-missing [] c u h = refl
find-missing (m ∷ rows) c u h = ground (arith, find-missing rows c u)

role_of-append :
    (rows : List Member) (m : Member) (c u : Text)
    → role_of (rows ++ m ∷ []) c u
      ≡ (if has_row c u rows then role_of rows c u else if row_of c u m then m.role else [])
unfolding role_of has_row any_if find?
role_of-append [] m c u = ground arith
role_of-append (x ∷ rows) m c u = ground (arith, role_of-append rows m c u)

pub has_row-insert_member :
    (c u r : Text) (rows : List Member) (c' u' : Text)
    → has_row c' u' (insert_member c u r rows) ≡ (((c == c') && (u == u')) || has_row c' u' rows)
unfolding insert_member has_row any_if
has_row-insert_member c u r rows c' u' = ground (
  arith,
  has_row-append rows (record { group = c; user_id = u; role = r } ∷ []) c' u',
  text_eqb_iff c c',
  text_eqb_iff u u',
)

-- A row that is inserted changes the role of its user only where there was no row.
pub role_of-insert_member :
    (c u r : Text) (rows : List Member) (c' u' : Text)
    → role_of (insert_member c u r rows) c' u'
      ≡ (if not (has_row c' u' rows) && ((c == c') && (u == u')) then r else role_of rows c' u')
unfolding insert_member role_of
role_of-insert_member c u r rows c' u' = ground (
  arith,
  role_of-append rows (record { group = c; user_id = u; role = r }) c' u',
  text_eqb_iff c c',
  text_eqb_iff u u',
  find-missing rows c' u',
)

pub role_of-remove :
    (c u : Text) (rows : List Member) (c' u' : Text)
    → role_of (filter_if (λ m. not (row_of c u m)) rows) c' u'
      ≡ (if (c == c') && (u == u') then [] else role_of rows c' u')
unfolding role_of find? filter_if
role_of-remove c u [] c' u' = ground arith
role_of-remove c u (m ∷ rows) c' u' = ground (
  arith,
  role_of-remove c u rows c' u',
  text_eqb_iff m.group c,
  text_eqb_iff m.user_id u,
  text_eqb_iff c c',
  text_eqb_iff u u',
)

pub has_row-remove :
    (c u : Text) (rows : List Member) (c' u' : Text)
    → has_row c' u' (filter_if (λ m. not (row_of c u m)) rows)
      ≡ (not ((c == c') && (u == u')) && has_row c' u' rows)
unfolding has_row any_if filter_if
has_row-remove c u [] c' u' = ground arith
has_row-remove c u (m ∷ rows) c' u' = ground (
  arith,
  has_row-remove c u rows c' u',
  text_eqb_iff m.group c,
  text_eqb_iff m.user_id u,
  text_eqb_iff m.group c',
  text_eqb_iff m.user_id u',
  text_eqb_iff c c',
  text_eqb_iff u u',
)

row_of-with_role :
    (c u r : Text) (m : Member) (c' u' : Text) → row_of c' u' (with_role c u r m) ≡ row_of c' u' m
row_of-with_role c u r m c' u' = elim (Bool-cases (row_of c u m)) [
  | inl hit ↦ rw hit refl
  | inr miss ↦ rw miss refl
]

pub has_row-update :
    (c u r : Text) (rows : List Member) (c' u' : Text)
    → has_row c' u' (map (with_role c u r) rows) ≡ has_row c' u' rows
unfolding has_row any_if
has_row-update c u r [] c' u' = refl
has_row-update c u r (m ∷ rows) c' u' =
    ground (arith, has_row-update c u r rows c' u', row_of-with_role c u r m c' u')

pub role_of-update :
    (c u r : Text) (rows : List Member) (c' u' : Text)
    → role_of (map (with_role c u r) rows) c' u'
      ≡ (if has_row c' u' rows && ((c == c') && (u == u')) then r else role_of rows c' u')
unfolding role_of has_row any_if find?
role_of-update c u r [] c' u' = ground arith
role_of-update c u r (m ∷ rows) c' u' = ground (
  arith,
  role_of-update c u r rows c' u',
  row_of-with_role c u r m c' u',
  text_eqb_iff m.group c,
  text_eqb_iff m.user_id u,
  text_eqb_iff m.group c',
  text_eqb_iff m.user_id u',
  text_eqb_iff c c',
  text_eqb_iff u u',
)

-- The primary key: no user has two rows in a channel.
unfoldable pub UniqueRows : List Member → Type 0
UniqueRows [] = Unit
UniqueRows (m ∷ rows) = (has_row m.group m.user_id rows ≡ false) × UniqueRows rows

append-UniqueRows :
    (rows : List Member) (m : Member)
    → UniqueRows rows
    → has_row m.group m.user_id rows ≡ false
    → UniqueRows (rows ++ m ∷ [])
unfolding UniqueRows has_row any_if
append-UniqueRows [] m q h = (refl, tt)
append-UniqueRows (x ∷ rows) m q h = (
  ground (
    arith,
    has_row-append rows (m ∷ []) x.group x.user_id,
    q.0,
    text_eqb_iff x.group m.group,
    text_eqb_iff m.group x.group,
    text_eqb_iff x.user_id m.user_id,
    text_eqb_iff m.user_id x.user_id,
  ),
  append-UniqueRows rows m q.1 (ground arith),
)

pub insert_member-UniqueRows :
    (c u r : Text) (rows : List Member) → UniqueRows rows → UniqueRows (insert_member c u r rows)
unfolding insert_member
insert_member-UniqueRows c u r rows q = elim (Bool-cases (has_row c u rows)) [
  | inl there ↦ rw there q
  | inr absent ↦
      rw absent (append-UniqueRows rows (record { group = c; user_id = u; role = r }) q absent)
]

pub remove-UniqueRows :
    (c u : Text) (rows : List Member)
    → UniqueRows rows
    → UniqueRows (filter_if (λ m. not (row_of c u m)) rows)
unfolding UniqueRows filter_if
remove-UniqueRows c u [] q = q
remove-UniqueRows c u (m ∷ rows) q = elim (Bool-cases (row_of c u m)) [
  | inl hit ↦ rw hit (remove-UniqueRows c u rows q.1)
  | inr miss ↦ rw miss (
    ground (arith, has_row-remove c u rows m.group m.user_id, q.0),
    remove-UniqueRows c u rows q.1,
  )
]

with_role-group : (c u r : Text) (m : Member) → (with_role c u r m).group ≡ m.group
with_role-group c u r m = elim (Bool-cases (row_of c u m)) [
  | inl hit ↦ rw hit refl
  | inr miss ↦ rw miss refl
]

with_role-user_id : (c u r : Text) (m : Member) → (with_role c u r m).user_id ≡ m.user_id
with_role-user_id c u r m = elim (Bool-cases (row_of c u m)) [
  | inl hit ↦ rw hit refl
  | inr miss ↦ rw miss refl
]

pub update-UniqueRows :
    (c u r : Text) (rows : List Member) → UniqueRows rows → UniqueRows (map (with_role c u r) rows)
unfolding UniqueRows
update-UniqueRows c u r [] q = q
update-UniqueRows c u r (m ∷ rows) q = (
  rw
      (
        with_role-group c u r m,
        with_role-user_id c u r m,
        has_row-update c u r rows m.group m.user_id,
      )
      q.0,
  update-UniqueRows c u r rows q.1,
)

pub insert_members-UniqueRows :
    (direct : Bool) (c by r : Text) (ids : List Text) (rows : List Member)
    → UniqueRows rows
    → UniqueRows (insert_members direct c by r ids rows)
unfolding insert_members
insert_members-UniqueRows direct c by r [] rows q = q
insert_members-UniqueRows direct c by r (id ∷ ids) rows q =
    insert_members-UniqueRows direct c by r ids _ (insert_member-UniqueRows c id _ rows q)
