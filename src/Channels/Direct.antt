-- ===== src/Channels/Direct.antt =====
-- `find_dm_channel` and `handle_create_dm`: the direct channel of two users.
use enclave_station.Base.{
  suc, ◌≡◌, ◌+◌, refl, ap, sym, ◌∙◌, ◌⊎◌, inl, inr, Bool, true, false, not, ◌&&◌, none, some, List,
  [], ◌∷◌, ◌++◌, if◌then◌else◌, ◌==◌, text_keys, nat_keys, text_eqb_iff, Text, codes, find?, any_if,
  arith, Bool-cases, Option-cases,
}
use enclave_station.Chat.Store.{Generator, Db, Channel, Member}
use enclave_station.Channels.Tables.{
  has_row, has_user, is_channel_member, count_rows, in_channel, count_channel_members,
  insert_member, insert_members, find_dm_channel, create_channel, new_channel_row,
}
use enclave_station.Channels.Requests.{parsed, direct_channel, failed, Outcome}
use enclave_station.Channels.Lifecycle.{direct_creation, create_dm_parsed, handle_create_dm}
use enclave_station.Channels.Rows.{has_row-insert_member}

-- The test of the query, over the rows alone.
abbrev dm_test : List Member → Text → Text → Channel → Bool
dm_test rows me you c =
    (c.is_direct && (has_row c.id me rows && has_row c.id you rows))
    && (count_rows (in_channel c.id) rows == (if me == you then 1 else 2))

find_dm-test :
    (db : Db) (me you : Text)
    → find_dm_channel db me you ≡ find? (dm_test db.channel_members me you) db.channels
unfolding find_dm_channel is_channel_member count_channel_members
find_dm-test db me you = refl

same_test :
    (f g : Channel → Bool) (cs : List Channel)
    → ((c : Channel) → f c ≡ g c)
    → find? f cs ≡ find? g cs
unfolding find?
same_test f g [] h = refl
same_test f g (c ∷ cs) h = ground (arith, h c, same_test f g cs h)

dm_test_comm :
    (rows : List Member) (me you : Text) (c : Channel)
    → dm_test rows me you c ≡ dm_test rows you me c
dm_test_comm rows me you c = ground (arith, text_eqb_iff me you, text_eqb_iff you me)

-- The query does not mind which user asks.
find_dm_channel_comm :
    (db : Db) (me you : Text) → find_dm_channel db me you ≡ find_dm_channel db you me
find_dm_channel_comm db me you =
    find_dm-test db me you
    ∙ same_test (dm_test db.channel_members me you) (dm_test db.channel_members you me) db.channels
        (dm_test_comm db.channel_members me you)
    ∙ sym (find_dm-test db you me)

count-append :
    (test : Member → Bool) (rows more : List Member)
    → count_rows test (rows ++ more) ≡ count_rows test rows + count_rows test more
unfolding count_rows
count-append test [] more = ground arith
count-append test (m ∷ rows) more = ground (arith, count-append test rows more)

-- The rows of the other channels are as before.
count-insert_member :
    (c u r : Text) (rows : List Member) (c' : Text)
    → count_rows (in_channel c') (insert_member c u r rows)
      ≡ count_rows (in_channel c') rows + (if not (has_row c u rows) && (c == c') then 1 else 0)
unfolding insert_member count_rows
count-insert_member c u r rows c' =
    ground
      (arith, count-append (in_channel c') rows (record { group = c; user_id = u; role = r } ∷ []))

-- The two rows that `create_channel` inserts.
abbrev pair_rows : Text → Text → Text → List Member → List Member
pair_rows c me you rows =
    insert_member c you (codes "write") (insert_member c me (codes "write") rows)

dm_test-elsewhere :
    (rows : List Member) (new me you : Text) (c : Channel)
    → (new == c.id) ≡ false
    → dm_test (pair_rows new me you rows) me you c ≡ dm_test rows me you c
dm_test-elsewhere rows new me you c other = ground (
  arith,
  has_row-insert_member new you (codes "write") (insert_member new me (codes "write") rows) c.id me,
  has_row-insert_member new me (codes "write") rows c.id me,
  has_row-insert_member new you (codes "write") (insert_member new me (codes "write") rows) c.id
      you,
  has_row-insert_member new me (codes "write") rows c.id you,
  count-insert_member new you (codes "write") (insert_member new me (codes "write") rows) c.id,
  count-insert_member new me (codes "write") rows c.id,
)

absent-rows :
    (rows : List Member) (c u : Text)
    → count_rows (in_channel c) rows ≡ 0
    → has_row c u rows ≡ false
unfolding count_rows has_row any_if
absent-rows [] c u h = refl
absent-rows (m ∷ rows) c u h = ground (arith, absent-rows rows c u)

dm_test-new :
    (rows : List Member) (me you : Text) (c : Channel)
    → c.is_direct ≡ true
    → count_rows (in_channel c.id) rows ≡ 0
    → dm_test (pair_rows c.id me you rows) me you c ≡ true
dm_test-new rows me you c direct unused = ground (
  arith,
  has_row-insert_member c.id you (codes "write") (insert_member c.id me (codes "write") rows) c.id
      me,
  has_row-insert_member c.id me (codes "write") rows c.id me,
  has_row-insert_member c.id you (codes "write") (insert_member c.id me (codes "write") rows) c.id
      you,
  has_row-insert_member c.id me (codes "write") rows c.id you,
  count-insert_member c.id you (codes "write") (insert_member c.id me (codes "write") rows) c.id,
  count-insert_member c.id me (codes "write") rows c.id,
  absent-rows rows c.id me,
  absent-rows rows c.id you,
  text_eqb_iff me you,
  text_eqb_iff c.id c.id,
  text_eqb_iff me me,
  text_eqb_iff you you,
  text_eqb_iff you me,
)

-- The columns of a channel that the id is not among leave every answer of the query.
dms_elsewhere :
    (rows : List Member) (new me you : Text) (cs : List Channel)
    → any_if (λ c. c.id == new) cs ≡ false
    → find? (dm_test rows me you) cs ≡ none
    → (last : Channel) → dm_test (pair_rows new me you rows) me you last ≡ true
    → find? (dm_test (pair_rows new me you rows) me you) (cs ++ last ∷ []) ≡ some last
unfolding find? any_if
dms_elsewhere rows new me you [] fresh h last ok = rw ok refl
dms_elsewhere rows new me you (c ∷ cs) fresh h last ok = ground (
  arith,
  dm_test-elsewhere rows new me you c,
  dms_elsewhere rows new me you cs,
  dms_elsewhere rows new me you cs (ground (arith, fresh)) (ground (arith, h)) last ok,
  text_eqb_iff c.id new,
  text_eqb_iff new c.id,
)

module _ (gen : Generator) (db : Db) (me you : Text) where
  -- The next id that the database generates is in no row.
  abbrev pub Unused : Type 0
  Unused =
      (any_if (λ c. c.id == gen.uuid db.serial) db.channels ≡ false)
      × (count_rows (in_channel (gen.uuid db.serial)) db.channel_members ≡ 0)

  -- Both users exist.
  abbrev pub both_users : Bool
  both_users = has_user db me && (has_user db me && (has_user db you && true))

  -- The answer to a request that finds the channel.
  abbrev pub already : Db → Channel → Outcome
  already after ch = record { db = after; answer = direct_channel ch; calls = [] }

  again :
      (after : Db) (ch : Channel)
      → find_dm_channel after me you ≡ some ch
      → (handle_create_dm gen after me (parsed you) ≡ already after ch)
        × (handle_create_dm gen after you (parsed me) ≡ already after ch)
  unfolding handle_create_dm create_dm_parsed
  again after ch there = (
    rw (create_dm_parsed, there) refl,
    rw (create_dm_parsed, find_dm_channel_comm after you me, there) refl,
  )

  new_row : Channel
  new_row = new_channel_row gen db (direct_creation gen me you)

  -- What the first request leaves behind, when it creates the channel.
  created_db : Db
  created_db = record db {
    channels = db.channels ++ new_row ∷ [];
    channel_members = pair_rows (gen.uuid db.serial) me you db.channel_members;
    serial = suc db.serial;
  }

  found_new :
      Unused → find_dm_channel db me you ≡ none → find_dm_channel created_db me you ≡ some new_row
  unfolding created_db new_row
  found_new unused new =
      find_dm-test created_db me you
      ∙ dms_elsewhere db.channel_members (gen.uuid db.serial) me you db.channels unused.0
          (sym (find_dm-test db me you) ∙ new) new_row
          (dm_test-new db.channel_members me you new_row refl unused.1)

  first : Outcome
  first = handle_create_dm gen db me (parsed you)

  -- The first request, when there is a channel, when a user is missing, and when it creates one.
  first-old : (ch : Channel) → find_dm_channel db me you ≡ some ch → first ≡ already db ch
  unfolding first handle_create_dm create_dm_parsed
  first-old ch there = rw (create_dm_parsed, there) refl

  first-missing : find_dm_channel db me you ≡ none → both_users ≡ false → first.answer ≡ failed
  unfolding first handle_create_dm create_dm_parsed create_channel
  first-missing new missing = rw (create_dm_parsed, new, create_channel, missing) refl

  first-new :
      find_dm_channel db me you ≡ none
      → both_users ≡ true
      → (first.answer ≡ direct_channel new_row) × (first.db ≡ created_db)
  unfolding first handle_create_dm create_dm_parsed create_channel insert_members created_db new_row
  first-new new known = (
    rw (create_dm_parsed, new, create_channel, known) refl,
    rw (create_dm_parsed, new, create_channel, known) refl,
  )

  -- Two users get one direct channel: unless one of them does not exist, in which case the request
  -- fails, the channel that a request answers is the one that the next request of either user for
  -- the other answers, with no change of the database and no further call. The condition is that the
  -- next id of the database is in no row.
  pub handle_create_dm-again :
      Unused
      → let once = handle_create_dm gen db me (parsed you) in
        ((once.answer ≡ failed) × (both_users ≡ false))
        ⊎ ((ch : Channel) × (once.answer ≡ direct_channel ch)
            × (handle_create_dm gen once.db me (parsed you) ≡ already once.db ch)
            × (handle_create_dm gen once.db you (parsed me) ≡ already once.db ch))
  unfolding first
  handle_create_dm-again unused = elim (Option-cases (find_dm_channel db me you)) [
    | inr (old, there) ↦
        let e = first-old old there in
        let found = again first.db old (ap (λ o. find_dm_channel o.db me you) e ∙ there) in
        inr (old, ap (λ o. o.answer) e, found.0, found.1)
    | inl new ↦ elim (Bool-cases both_users) [
      | inr missing ↦ inl (first-missing new missing, missing)
      | inl known ↦
          let (answered, e) = first-new new known in
          let found =
            again first.db new_row (ap (λ d. find_dm_channel d me you) e ∙ found_new unused new) in
          inr (new_row, answered, found.0, found.1)
    ]
  ]
