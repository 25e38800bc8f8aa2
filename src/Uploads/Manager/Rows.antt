-- ===== src/Uploads/Manager/Rows.antt =====
-- The rows of `upload_sessions` when a chunk is stored by backend/src/upload_manager.cpp.
use enclave_station.Base.{
  ℕ, ◌≡◌, refl, ap, ◌⊎◌, true, false, Option, none, some, List, [], ◌∷◌, map, if◌then◌else◌,
  nat_keys, text_keys, find?, any_if, Text, is_nil, arith, inl, inr, Bool-cases, Option-cases,
  contains, contains-append, lookup, lookup-insert_at, ◌==◌,
}
use enclave_station.Uploads.Storage.{StorageBackend}
use enclave_station.Uploads.Manager.{
  World, UploadSessionRow, has_upload_id, get_upload_session, record_upload_chunk, received,
  store_chunk_err, load_state,
}

abbrev pub Recorded : ℕ → Text → UploadSessionRow → UploadSessionRow → Type 0
Recorded index token before after =
    (contains after.received_chunks index ≡ true)
    × (lookup index after.storage_state.part_tokens ≡ some token)
    × ((i : ℕ)
        → (index == i) ≡ false
        → (contains after.received_chunks i ≡ contains before.received_chunks i)
          × (lookup i after.storage_state.part_tokens ≡ lookup i before.storage_state.part_tokens))

module _ (id : Text) where
  abbrev pub received_in : ℕ → Text → Option UploadSessionRow → Option UploadSessionRow
  received_in index token none = none
  received_in index token (some r) = some (received index token r)

  pub updated_row :
      (rows : List UploadSessionRow) (row : UploadSessionRow) (index : ℕ) (token : Text)
      → get_upload_session rows id ≡ some row
      → get_upload_session
          (map (λ r. if has_upload_id id r then received index token r else r) rows)
          id
        ≡ some (received index token row)
  unfolding get_upload_session find?
  updated_row [] row index token h = ground (arith, h)
  updated_row (r ∷ rows) row index token h = elim (Bool-cases (has_upload_id id r)) [
    | inl hit ↦ rw hit (rw hit (ap (received_in index token) (rw hit at h)))
    | inr miss ↦ rw miss (rw miss (updated_row rows row index token (rw miss at h)))
  ]

  -- A row that is found is there to be updated.
  pub row_there :
      (rows : List UploadSessionRow) (row : UploadSessionRow)
      → get_upload_session rows id ≡ some row
      → any_if (has_upload_id id) rows ≡ true
  unfolding get_upload_session find? any_if
  row_there [] row h = ground (arith, h)
  row_there (r ∷ rows) row h = ground (arith, h, row_there rows row)

-- What the row records of one more chunk: its number and its token, and the others as they were.
received-Recorded :
    (index : ℕ) (token : Text) (row : UploadSessionRow)
    → Recorded index token row (received index token row)
unfolding contains
received-Recorded index token row = (
  ground (
    arith,
    contains-append row.received_chunks (index ∷ []) index,
    nat_keys.same_iff index index,
  ),
  ground (
    arith,
    lookup-insert_at index index token row.storage_state.part_tokens,
    nat_keys.same_iff index index,
  ),
  λ i other. (
    ground (arith, contains-append row.received_chunks (index ∷ []) i, other),
    ground (arith, lookup-insert_at index i token row.storage_state.part_tokens, other),
  ),
)

-- Storing a chunk, with any store: if there is no session, or the store reports an error, there is an
-- error and no row changes. Otherwise there is no error, and the session's row records the chunk's
-- number and the token that the store gave for it, with what it records of other chunks unchanged.
pub store_chunk_err-outcome :
    {S : Type 0} (storage : StorageBackend S) (w : World S) (id : Text) (index : ℕ)
    → (bytes hash : Text)
    → let r = store_chunk_err storage w id index bytes hash in
      ((get_upload_session w.rows id ≡ none) × (is_nil r.1 ≡ false) × (r.0.rows ≡ w.rows))
      ⊎ ((row : UploadSessionRow) × (get_upload_session w.rows id ≡ some row)
          × (let part = (storage.put_part w.store id row.storage_state index bytes hash).1 in
              ((is_nil part.error ≡ false) × (r.1 ≡ part.error) × (r.0.rows ≡ w.rows))
              ⊎ ((is_nil part.error ≡ true)
                  × (r.1 ≡ [])
                  × ((after : UploadSessionRow) × (get_upload_session r.0.rows id ≡ some after)
                      × Recorded index part.token row after))))
unfolding store_chunk_err load_state record_upload_chunk
store_chunk_err-outcome storage w id index bytes hash =
    elim (Option-cases (get_upload_session w.rows id)) [
      | inl gone ↦ inl (
        gone,
        rw (store_chunk_err, load_state, gone) refl,
        rw (store_chunk_err, load_state, gone) refl,
      )
      | inr (row, here) ↦
          let part = (storage.put_part w.store id row.storage_state index bytes hash).1 in
          inr (
            row,
            here,
            elim (Bool-cases (is_nil part.error)) [
              | inr failed ↦ inl (
                failed,
                rw (store_chunk_err, load_state, here, failed) refl,
                rw (store_chunk_err, load_state, here, failed) refl,
              )
              | inl stored ↦
                  let there = row_there id w.rows row here in
                  inr (
                    stored,
                    rw (store_chunk_err, load_state, here, stored, there) refl,
                    (
                      received index part.token row,
                      rw (store_chunk_err, load_state, here, stored, there)
                          (updated_row id w.rows row index part.token here),
                      received-Recorded index part.token row,
                    ),
                  )
            ],
          )
    ]
