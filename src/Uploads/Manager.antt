-- ===== src/Uploads/Manager.antt =====
-- backend/src/upload_manager.cpp, with the queries on `upload_sessions` of
-- backend/src/db/database.cpp. The column `storage_state` is the state itself, which the source writes
-- and reads as JSON; the metadata is a text. The random id of a new session is given.
pub mod Complete
pub mod Rows
pub mod Partial
pub mod Assembly
pub mod Whole
pub mod Upload
use enclave_station.Base.{
  ℕ, suc, zero, ◌+◌, Bool, true, false, not, ◌||◌, Option, none, some, List, [], ◌∷◌, ◌++◌, map,
  if◌then◌else◌, ◌==◌, nat_keys, text_keys, ltb, Text, codes, is_nil, find?, filter_if, any_if,
  contains, insert_at, length,
}
use enclave_station.Uploads.Storage.{MultipartState, PartResult, StorageBackend}

-- A row of `upload_sessions`.
pub record UploadSessionRow : Type 0 where
  pub upload_id : Text
  pub user_id : Text
  pub total_size : ℕ
  pub chunk_count : ℕ
  pub chunk_size : ℕ
  pub received_chunks : List ℕ
  pub metadata : Text
  pub storage_state : MultipartState
  pub created_at : ℕ

abbrev pub has_upload_id : Text → UploadSessionRow → Bool
has_upload_id id row = row.upload_id == id

-- The insertion throws if the id is taken.
unfoldable pub create_upload_session :
    List UploadSessionRow → UploadSessionRow → Option (List UploadSessionRow)
create_upload_session rows row =
    if any_if (has_upload_id row.upload_id) rows then none else some (rows ++ row ∷ [])

unfoldable pub get_upload_session : List UploadSessionRow → Text → Option UploadSessionRow
get_upload_session rows id = find? (has_upload_id id) rows

abbrev pub with_token : ℕ → Text → MultipartState → MultipartState
with_token index token st = record st { part_tokens = insert_at index token st.part_tokens }

abbrev pub received : ℕ → Text → UploadSessionRow → UploadSessionRow
received index token row = record row {
  received_chunks =
      if contains row.received_chunks index
      then row.received_chunks
      else row.received_chunks ++ index ∷ [];
  storage_state = with_token index token row.storage_state;
}

-- The new rows, or none where the source returns -1.
unfoldable pub record_upload_chunk :
    List UploadSessionRow → Text → ℕ → Text → Option (List UploadSessionRow)
record_upload_chunk rows id index token =
    if any_if (has_upload_id id) rows
    then some (map (λ row. if has_upload_id id row then received index token row else row) rows)
    else none

unfoldable pub delete_upload_session : List UploadSessionRow → Text → List UploadSessionRow
delete_upload_session rows id = filter_if (λ row. not (has_upload_id id row)) rows

abbrev pub is_stale : (now max_age_seconds : ℕ) → UploadSessionRow → Bool
is_stale now max_age_seconds row = ltb (row.created_at + max_age_seconds) now

-- The rows that stay, and those that go.
unfoldable pub reap_stale_upload_sessions :
    (now max_age_seconds : ℕ)
    → List UploadSessionRow
    → List UploadSessionRow × List UploadSessionRow
reap_stale_upload_sessions now age rows =
    (filter_if (λ row. not (is_stale now age row)) rows, filter_if (is_stale now age) rows)

abbrev pub state_of : Option UploadSessionRow → Option MultipartState
state_of none = none
state_of (some row) = some row.storage_state

-- The database and the store.
pub record World (S : Type 0) : Type 0 where
  pub rows : List UploadSessionRow
  pub store : S

module _ {S : Type 0} (storage : StorageBackend S) where
  open storage use {create_multipart, put_part, complete_multipart, abort_multipart}

  unfoldable pub load_state : World S → Text → Option MultipartState
  unfolding get_upload_session
  load_state w id = state_of (get_upload_session w.rows id)

  unfoldable pub abort_each : S → List UploadSessionRow → S
  abort_each s [] = s
  abort_each s (row ∷ rows) = abort_each (abort_multipart s row.upload_id row.storage_state) rows

  unfoldable pub cleanup_stale : World S → (now max_age_seconds : ℕ) → World S
  unfolding reap_stale_upload_sessions abort_each
  cleanup_stale w now age =
      let (kept, stale) = reap_stale_upload_sessions now age w.rows in
      record { rows = kept; store = abort_each w.store stale }

  abbrev pub new_session_row :
      (upload_id user_id : Text) (total_size chunk_count chunk_size : ℕ) (metadata : Text)
      → MultipartState
      → ℕ
      → UploadSessionRow
  new_session_row id user total count size metadata st now = record {
    upload_id = id;
    user_id = user;
    total_size = total;
    chunk_count = count;
    chunk_size = size;
    received_chunks = [];
    metadata = metadata;
    storage_state = st;
    created_at = now;
  }

  abbrev pub session_inserted :
      World S → Text → MultipartState → Option (List UploadSessionRow) → World S × Text
  session_inserted w id st none = (record w { store = abort_multipart w.store id st }, [])
  session_inserted w id st (some rows) = (record w { rows = rows }, id)

  -- The id, or "" for a failure.
  unfoldable pub create_session :
      World S
      → (upload_id user_id : Text) (total_size chunk_count chunk_size : ℕ) (metadata : Text)
      → (now : ℕ) → World S × Text
  unfolding cleanup_stale create_upload_session
  create_session w id user total count size metadata now =
      let clean = cleanup_stale w now 3600 in
      let st : MultipartState = record {
        handle = [];
        total_size = total;
        chunk_count = count;
        chunk_size = size;
        part_tokens = [];
      } in
      let (store, begun) = create_multipart clean.store id st in
      elim begun [
        | none ↦ (record clean { store = store }, [])
        | some st' ↦
            session_inserted (record clean { store = store }) id st'
              (create_upload_session clean.rows
                (new_session_row id user total count size metadata st' now))
      ]

  abbrev pub chunk_recorded : World S → Option (List UploadSessionRow) → World S × Text
  chunk_recorded w none = (w, codes "session_gone")
  chunk_recorded w (some rows) = (record w { rows = rows }, [])

  -- The error token, "" for success.
  unfoldable pub store_chunk_err :
      World S → Text → ℕ → (bytes expected_hash : Text) → World S × Text
  unfolding load_state record_upload_chunk
  store_chunk_err w id index bytes expected_hash = elim (load_state w id) [
    | none ↦ (w, codes "session_not_found")
    | some st ↦
        let (store, part) = put_part w.store id st index bytes expected_hash in
        let staged = record w { store = store } in
        if not (is_nil part.error)
        then (staged, part.error)
        else chunk_recorded staged (record_upload_chunk w.rows id index part.token)
  ]

  abbrev pub is_full : Option UploadSessionRow → Bool
  is_full none = false
  is_full (some row) = length row.received_chunks == row.chunk_count

  unfoldable pub is_complete : World S → Text → Bool
  unfolding get_upload_session
  is_complete w id = is_full (get_upload_session w.rows id)

  -- The size, or none where the source returns -1.
  unfoldable pub assemble : World S → Text → Text → World S × Option ℕ
  unfolding load_state
  assemble w id final_key = elim (load_state w id) [
    | none ↦ (w, none)
    | some st ↦
        let (store, size) = complete_multipart w.store id st final_key in
        (record w { store = store }, size)
  ]

  unfoldable pub remove_session : World S → Text → World S
  unfolding load_state delete_upload_session
  remove_session w id =
      let store : S = elim (load_state w id) [
        | none ↦ w.store
        | some st ↦ abort_multipart w.store id st
      ] in
      record { rows = delete_upload_session w.rows id; store = store }
