-- ===== src/Chat/Moderate/Laws.antt =====
-- Who can change or delete which message: the jobs of backend/src/ws/ws_handler.cpp.
use enclave_station.Base.{
  ◌≡◌, refl, sym, ap, ◌∙◌, ◌⊎◌, inl, inr, Bool, true, false, not, ◌&&◌, ◌||◌, Option, none, some,
  List, [], ◌∷◌, map, if◌then◌else◌, ◌==◌, text_keys, text_eqb_iff, nat_eqb, ltb, Text, codes,
  is_nil, find?, arith, Bool-cases, Option-cases,
}
use enclave_station.Chat.Store.{
  Generator, Db, User, Message, Ownership, find_user_by_id, get_effective_role,
  get_message_ownership, edit_message, delete_message, admin_delete_message, update_where,
  with_messages, own, own_live, edited, wiped, has_id, is_admin,
}
use enclave_station.Chat.Moderate.{
  server_role_rank, edit_done, edit_message_job, delete_done, is_blocked, moderate,
  delete_message_job,
}

-- The rows that pass a test are changed, and the others stay.
abbrev pub change_where : (Message → Bool) → (Message → Message) → List Message → List Message
change_where test change = map λ m. if test m then change m else m

update_where-rows :
    (test : Message → Bool) (change : Message → Message) (ms : List Message)
    → (update_where test change ms).0 ≡ change_where test change ms
unfolding update_where
update_where-rows test change [] = refl
update_where-rows test change (m ∷ ms) = ground (arith, update_where-rows test change ms)

update_where-first :
    (test : Message → Bool) (change : Message → Message) (ms : List Message) (m : Message)
    → find? test ms ≡ some m
    → (update_where test change ms).1 ≡ some (change m)
unfolding update_where find?
update_where-first test change [] m h = ground arith
update_where-first test change (x ∷ ms) m h =
    ground (arith, update_where-first test change ms m, ap change {x = x} {y = m})

-- The author of a message is out of reach just if the author has a rank and the user's is no higher.
pub is_blocked-server_role_rank :
    (author : User) (role : Text)
    → is_blocked (some author) role ≡ (
        not (nat_eqb (server_role_rank author.role) 0)
        && not (ltb (server_role_rank author.role) (server_role_rank role)))
unfolding is_blocked server_role_rank
is_blocked-server_role_rank author role = ground (
  arith,
  text_eqb_iff author.role (codes "owner"),
  text_eqb_iff author.role (codes "admin"),
  text_eqb_iff role (codes "owner"),
  text_eqb_iff role (codes "admin"),
)

-- An update that finds no row changes none.
update_where-none :
    (test : Message → Bool) (change : Message → Message) (ms : List Message)
    → (update_where test change ms).1 ≡ none
    → change_where test change ms ≡ ms
unfolding update_where
update_where-none test change [] h = refl
update_where-none test change (m ∷ ms) h = ground (arith, update_where-none test change ms)

-- The database behind an update, whether it found a row or threw.
abbrev db_after : Db → Option (Db × Message) → Db
db_after db none = db
db_after db (some r) = r.0

abbrev pub changed_db : Db → (Message → Bool) → (Message → Message) → Db
changed_db db test change = record db { messages = change_where test change db.messages }

with_messages-db :
    (db : Db) (test : Message → Bool) (change : Message → Message)
    (us : List Message × Option Message)
    → us.0 ≡ change_where test change db.messages
    → (us.1 ≡ none → change_where test change db.messages ≡ db.messages)
    → db_after db (with_messages db us) ≡ changed_db db test change
with_messages-db db test change (ms, none) h k = ap (λ x. record db { messages = x }) (sym (k refl))
with_messages-db db test change (ms, some m) h k = ap (λ x. record db { messages = x }) h

update-db :
    (db : Db) (test : Message → Bool) (change : Message → Message)
    → db_after db (with_messages db (update_where test change db.messages))
      ≡ changed_db db test change
update-db db test change =
    with_messages-db db test change (update_where test change db.messages)
      (update_where-rows test change db.messages) (update_where-none test change db.messages)

edit_done-db : (db : Db) (r : Option (Db × Message)) → (edit_done db r).db ≡ db_after db r
edit_done-db db none = refl
edit_done-db db (some (db', m)) = refl

delete_done-db :
    (storage : Bool) (db : Db) (r : Option (Db × Message))
    → (delete_done storage db r).db ≡ db_after db r
delete_done-db storage db none = refl
delete_done-db storage db (some (db', m)) = refl

change_where-never :
    (test : Message → Bool) (change : Message → Message) (ms : List Message)
    → ((m : Message) → test m ≡ false)
    → change_where test change ms ≡ ms
change_where-never test change [] h = refl
change_where-never test change (m ∷ ms) h = ground (arith, h m, change_where-never test change ms h)

-- An edit changes the text and the edit time of the rows with the message's id that the user wrote and
-- that are not deleted, and nothing else in the database; an edit to the empty text changes nothing.
pub edit_message_job-exact :
    (gen : Generator) (db : Db) (user id content : Text)
    → (edit_message_job gen db user id content).db ≡ record db {
      messages =
          change_where
            (λ m. not (is_nil content) && own_live id user m)
            (edited content (gen.now db.serial))
            db.messages;
    }
unfolding edit_message_job edit_message
edit_message_job-exact gen db user id [] =
    ap (λ x. record db { messages = x })
      (sym
        (change_where-never (λ m. false) (edited [] (gen.now db.serial)) db.messages (λ m. refl)))
edit_message_job-exact gen db user id (c ∷ s) =
    edit_done-db db (edit_message gen db id user (c ∷ s))
    ∙ update-db db (own_live id user) (edited (c ∷ s) (gen.now db.serial))

-- Whether the author of a message is a user without a rank, or with one below the role's.
abbrev pub outranked : Option User → Text → Bool
outranked none role = true
outranked (some author) role =
    nat_eqb (server_role_rank author.role) 0
    || ltb (server_role_rank author.role) (server_role_rank role)

is_blocked-outranked :
    (author : Option User) (role : Text) → is_blocked author role ≡ not (outranked author role)
unfolding is_blocked
is_blocked-outranked none role = refl
is_blocked-outranked (some author) role = ground (arith, is_blocked-server_role_rank author role)

admin_delete-db :
    (storage : Bool) (db : Db) (id : Text)
    → (delete_done storage db (admin_delete_message db id)).db ≡ changed_db db (has_id id) wiped
unfolding admin_delete_message
admin_delete-db storage db id =
    delete_done-db storage db (admin_delete_message db id) ∙ update-db db (has_id id) wiped

moderate-cases :
    (storage : Bool) (db : Db) (user role id : Text) (o : Ownership)
    → let effective = get_effective_role db o.channel_id user in
      (((is_admin effective && outranked (find_user_by_id db o.user_id) role) ≡ false)
        × ((moderate storage db user role id o).db ≡ db))
      ⊎ ((is_admin effective ≡ true)
          × (outranked (find_user_by_id db o.user_id) role ≡ true)
          × ((moderate storage db user role id o).db ≡ changed_db db (has_id id) wiped))
unfolding moderate admin_delete_message
moderate-cases storage db user role id o =
    let effective = get_effective_role db o.channel_id user in
    elim (Bool-cases (is_admin effective)) [
      | inr denied ↦ inl (ground (arith, denied), ground arith)
      | inl allowed ↦ elim (Bool-cases (outranked (find_user_by_id db o.user_id) role)) [
        | inr high ↦ inl (
          ground (arith, high),
          ground (arith, is_blocked-outranked (find_user_by_id db o.user_id) role),
        )
        | inl low ↦ inr (
          allowed,
          low,
          ground (
            arith,
            is_blocked-outranked (find_user_by_id db o.user_id) role,
            admin_delete-db storage db id,
          ),
        )
      ]
    ]

-- What a deletion does to the database: nothing if there is no such message. If the user wrote the
-- message, the rows with its id that the user wrote are marked as deleted and their text is gone. If
-- another user wrote it, the same happens to the rows with its id, provided that the user's effective
-- role in its channel is admin or owner and its author has no rank on the server, or one below that of
-- the role of the connection; and otherwise nothing.
pub delete_message_job-guarded :
    (storage : Bool) (db : Db) (user role id : Text)
    → let after = (delete_message_job storage db user role id).db in
      ((get_message_ownership db id ≡ none) × (after ≡ db))
      ⊎ ((o : Ownership) × (get_message_ownership db id ≡ some o)
          × ((((o.user_id == user) ≡ true) × (after ≡ changed_db db (own id user) wiped))
              ⊎ (((o.user_id == user) ≡ false)
                  × ((((is_admin (get_effective_role db o.channel_id user)
                            && outranked (find_user_by_id db o.user_id) role)
                          ≡ false)
                        × (after ≡ db))
                      ⊎ ((is_admin (get_effective_role db o.channel_id user) ≡ true)
                          × (outranked (find_user_by_id db o.user_id) role ≡ true)
                          × (after ≡ changed_db db (has_id id) wiped))))))
unfolding delete_message_job delete_message
delete_message_job-guarded storage db user role id =
    elim (Option-cases (get_message_ownership db id)) [
      | inl missing ↦ inl (missing, rw (delete_message_job, missing) refl)
      | inr (o, found) ↦ elim (Bool-cases (o.user_id == user)) [
        | inl mine ↦ inr (
          o,
          found,
          inl (
            mine,
            rw (delete_message_job, found, mine)
                (delete_done-db storage db (delete_message db id user)
                  ∙ update-db db (own id user) wiped),
          ),
        )
        | inr other ↦ inr (
          o,
          found,
          inr (
            other,
            rw (delete_message_job, found, other) (moderate-cases storage db user role id o),
          ),
        )
      ]
    ]
