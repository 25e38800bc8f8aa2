-- ===== src/Uploads/Examples.antt =====
-- A file system in memory, and the theorem about uploads with it.
use mathlib.Core.Option.{some-injective}
use enclave_station.Base.{
  ℕ, ◌≡◌, refl, ap, subst, ◌∙◌, ◌⊎◌, inr, true, false, Option, none, some, List, [], ◌∷◌, take,
  length, if◌then◌else◌, ◌==◌, nat_keys, text_keys, text_eqb_iff, Text, codes, is_nil, lookup,
  insert_at, erase, any_if, filter_if, find?, contains, lookup-insert_at, arith,
}
use enclave_station.Uploads.LocalFs.{Disk, Written, open_failed, io_error, wrote, splice, local_fs}
use enclave_station.Uploads.Manager.{
  World, UploadSessionRow, get_upload_session, assemble, is_complete, create_session,
  store_chunk_err,
}
use enclave_station.Uploads.Manager.Rows.{Recorded, store_chunk_err-outcome}
use enclave_station.Uploads.Manager.Assembly.{store_chunks}
use enclave_station.Uploads.Manager.Whole.{Assembled}
use enclave_station.Uploads.Manager.Upload.{begin, upload_whole}

abbrev Files : Type 0
Files = List (Text × List ℕ)

abbrev length_of : Option (List ℕ) → Option ℕ
length_of none = none
length_of (some bytes) = some (length bytes)

abbrev write_file : Files → Text → ℕ → List ℕ → Option (List ℕ) → Written Files
write_file s p off bytes none = open_failed
write_file s p off bytes (some old) = wrote (length bytes) (insert_at p (splice old off bytes) s)

abbrev move_file : Files → Text → Text → Option (List ℕ) → Option Files
move_file s p q none = none
move_file s p q (some bytes) = some (insert_at q bytes (erase p s))

abbrev count_of : Written Files → ℕ
count_of open_failed = 0
count_of io_error = 0
count_of (wrote n s) = n

abbrev files_of : Written Files → Files
files_of open_failed = []
files_of io_error = []
files_of (wrote n s) = s

take_all : (xs : List ℕ) → take (length xs) xs ≡ xs
take_all [] = refl
take_all (x ∷ xs) = ap (◌∷◌ x) (take_all xs)

written_lem :
    (s s' : Files) (p q : Text) (off n : ℕ) (bytes old : List ℕ)
    → lookup p s ≡ some old
    → write_file s p off bytes (lookup p s) ≡ wrote n s'
    → lookup q s' ≡ (if p == q then some (splice old off (take n bytes)) else lookup q s)
written_lem s s' p q off n bytes old there e =
    let e' : wrote (length bytes) (insert_at p (splice old off bytes) s) ≡ wrote n s' =
      rw there at e in
    let whole : lookup q s' ≡ (if p == q then some (splice old off bytes) else lookup q s) =
      subst (λ x. lookup q x ≡ (if p == q then some (splice old off bytes) else lookup q s))
        (ap files_of e') (lookup-insert_at p q (splice old off bytes) s) in
    let taken : take n bytes ≡ bytes =
      subst (λ m. take m bytes ≡ bytes) (ap count_of e') (take_all bytes) in
    rw taken whole

renamed_lem :
    (s s' : Files) (p q : Text) (bytes : List ℕ)
    → lookup p s ≡ some bytes
    → move_file s p q (lookup p s) ≡ some s'
    → lookup q s' ≡ some bytes
renamed_lem s s' p q bytes there e =
    let moved : some (insert_at q bytes (erase p s)) ≡ some s' = rw there at e in
    let found : lookup q (insert_at q bytes (erase p s)) ≡ some bytes =
      lookup-insert_at q q bytes (erase p s) ∙ ground (arith, text_eqb_iff q q) in
    subst (λ x. lookup q x ≡ some bytes) (some-injective (insert_at q bytes (erase p s)) s' moved)
      found

abbrev memory : Disk Files
memory = record {
  create = λ s p. some (insert_at p [] s);
  pwrite = λ s p off bytes. write_file s p off bytes (lookup p s);
  file_size = λ s p. length_of (lookup p s);
  rename = λ s p q. move_file s p q (lookup p s);
  remove = λ s p. erase p s;
  content = λ s p. lookup p s;
  created = λ s s' p q e.
      subst (λ x. lookup q x ≡ (if p == q then some [] else lookup q s))
        (some-injective (insert_at p [] s) s' e) (lookup-insert_at p q [] s);
  written = written_lem;
  sized = λ s p bytes there. inr (ap length_of there);
  renamed = renamed_lem;
}

abbrev five : List ℕ
five = 1 ∷ 2 ∷ 3 ∷ 4 ∷ 5 ∷ []

abbrev empty_world : World Files
empty_world = record { rows = []; store = [] }

abbrev no_hash : Text → Text
no_hash bytes = []

abbrev attempts : List (ℕ × Text)
attempts = (2, []) ∷ (0, codes "bad") ∷ (1, []) ∷ (2, []) ∷ (0, []) ∷ []

abbrev begun : World Files
begun = (begin memory no_hash (codes "r") (codes "u") five 2 3 empty_world [] [] 0).0

abbrev sent : World Files
sent = store_chunks memory no_hash (codes "r") (codes "u") five 2 3 begun attempts

upload_whole_example :
    Assembled memory no_hash
      (codes "r")
      (codes "u")
      five
      2
      3
      (codes "k")
      sent
      (assemble (local_fs memory no_hash (codes "r")) sent (codes "u") (codes "k"))
unfolding create_session local_fs any_if filter_if is_complete find? store_chunks store_chunk_err
    lookup insert_at contains
upload_whole_example =
    upload_whole memory no_hash (codes "r") (codes "u") five 2 3 empty_world [] [] 0 attempts
      (codes "k") (omega arith) refl refl

-- The first chunk of a session.
store_chunk_err-outcome_example :
    let storage = local_fs memory no_hash (codes "r") in
    let r = store_chunk_err storage begun (codes "u") 0 (1 ∷ 2 ∷ []) [] in
    ((get_upload_session begun.rows (codes "u") ≡ none)
      × (is_nil r.1 ≡ false)
      × (r.0.rows ≡ begun.rows))
    ⊎ ((row : UploadSessionRow) × (get_upload_session begun.rows (codes "u") ≡ some row)
        × (let part =
              (storage.put_part begun.store (codes "u") row.storage_state 0 (1 ∷ 2 ∷ []) []).1 in
            ((is_nil part.error ≡ false) × (r.1 ≡ part.error) × (r.0.rows ≡ begun.rows))
            ⊎ ((is_nil part.error ≡ true)
                × (r.1 ≡ [])
                × ((after : UploadSessionRow) × (get_upload_session r.0.rows (codes "u")
                      ≡ some after)
                    × Recorded 0 part.token row after))))
store_chunk_err-outcome_example =
    store_chunk_err-outcome (local_fs memory no_hash (codes "r")) begun (codes "u") 0 (1 ∷ 2 ∷ [])
      []
