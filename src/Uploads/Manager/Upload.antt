-- ===== src/Uploads/Manager/Upload.antt =====
-- A whole upload through backend/src/upload_manager.cpp to backend/src/storage/local_fs_backend.cpp:
-- the session, its chunks, and the file.
use enclave_station.Base.{
  ℕ, ◌*◌, ◌≡◌, ◌≤◌, ◌∙◌, refl, true, false, some, List, [], ◌∷◌, ◌++◌, text_keys, nat_keys,
  text_eqb_iff, length, find?, any_if, Text, is_nil, contains-nil, arith, inl, inr, Bool-cases,
  Option-cases,
}
use enclave_station.Uploads.Storage.{MultipartState}
use enclave_station.Uploads.LocalFs.{Disk, local_fs, local_create_multipart, tmp_path_for}
use enclave_station.Uploads.Manager.{
  World, UploadSessionRow, has_upload_id, get_upload_session, create_upload_session, create_session,
  cleanup_stale, new_session_row, is_complete, assemble,
}
use enclave_station.Uploads.Manager.Assembly.{Staged, store_chunks, store_chunks-Staged}
use enclave_station.Uploads.Manager.Whole.{Assembled, assemble-Assembled}

-- A row that is inserted under a new id is found.
inserted_lem :
    (rows : List UploadSessionRow) (row : UploadSessionRow)
    → any_if (has_upload_id row.upload_id) rows ≡ false
    → get_upload_session (rows ++ row ∷ []) row.upload_id ≡ some row
unfolding get_upload_session find? any_if
inserted_lem [] row new = ground (arith, text_eqb_iff row.upload_id row.upload_id)
inserted_lem (r ∷ rows) row new = ground (arith, new, inserted_lem rows row)

module _ {S : Type 0} (disk : Disk S) (sha256_hex : Text → Text) (root id : Text) (whole : List ℕ)
    (size count : ℕ) where
  -- The session of an upload of the file, with the clock and the id that the server draws.
  abbrev pub begin : World S → (user metadata : Text) → (now : ℕ) → World S × Text
  begin w user metadata now =
      create_session (local_fs disk sha256_hex root) w id user (length whole) count size metadata
        now

  created_file :
      (s s' : S) (st : MultipartState)
      → disk.create s (tmp_path_for disk sha256_hex root id) ≡ some s'
      → disk.content
          (local_create_multipart disk sha256_hex root s id st).0
          (tmp_path_for disk sha256_hex root id)
        ≡ some []
  unfolding local_create_multipart
  created_file s s' st opened =
      let tmp = tmp_path_for disk sha256_hex root id in
      rw (local_create_multipart, opened)
        (disk.created s s' tmp tmp opened ∙ ground (arith, text_eqb_iff tmp tmp))

  -- What the server keeps of the sizes.
  abbrev sizes : MultipartState
  sizes = record {
    handle = [];
    total_size = length whole;
    chunk_count = count;
    chunk_size = size;
    part_tokens = [];
  }

  begin-Staged :
      (w : World S) (user metadata : Text) (now : ℕ)
      → is_nil (begin w user metadata now).1 ≡ false
      → Staged disk sha256_hex root id whole size count (begin w user metadata now).0
  unfolding create_session create_upload_session local_fs local_create_multipart
  begin-Staged w user metadata now ok =
      let clean = cleanup_stale (local_fs disk sha256_hex root) w now 3600 in
      elim (Option-cases (disk.create clean.store (tmp_path_for disk sha256_hex root id))) [
        | inl failed ↦ ground (arith, rw (create_session, failed) at ok)
        | inr (s', opened) ↦ elim (Bool-cases (any_if (has_upload_id id) clean.rows)) [
          | inl taken ↦ ground (arith, rw (create_session, opened, taken) at ok)
          | inr new ↦
              rw (create_session, opened, new)
                (record {
                  row =
                      new_session_row (local_fs disk sha256_hex root) id user (length whole) count
                        size metadata sizes now;
                  here =
                      inserted_lem clean.rows
                        (new_session_row (local_fs disk sha256_hex root) id user (length whole)
                          count size metadata sizes now)
                        new;
                  expects = refl;
                  state = (refl, refl, refl);
                  distinct = tt;
                  below = λ a held. ground (arith, held, contains-nil a);
                  partial = record {
                    bytes = [];
                    file = created_file clean.store s' sizes opened;
                    short = omega arith;
                    agree = λ i k held inside. ground (arith, held, contains-nil i);
                  };
                })
        ]
      ]

  -- A file that is cut into chunks of one size, which the server is told in advance with the size of
  -- the file, arrives whole: if the session was created, and the chunks were sent in any order, again
  -- if need be and with whatever outcome of each attempt, then once the session is complete its
  -- assembly either stores exactly the bytes of the file under the final key and answers their number,
  -- or it fails because the size of the temporary file could not be read or it could not be renamed.
  pub upload_whole :
      (w : World S) (user metadata : Text) (now : ℕ) (chunks : List (ℕ × Text)) (final_key : Text)
      → length whole ≤ count * size
      → is_nil (begin w user metadata now).1 ≡ false
      → let sent =
          store_chunks disk sha256_hex root id whole size count
            (begin w user metadata now).0
            chunks in
        is_complete (local_fs disk sha256_hex root) sent id ≡ true
        → Assembled disk sha256_hex root id whole size count final_key sent
            (assemble (local_fs disk sha256_hex root) sent id final_key)
  upload_whole w user metadata now chunks final_key enough ok complete =
      let begun = (begin w user metadata now).0 in
      let sent = store_chunks disk sha256_hex root id whole size count begun chunks in
      let staged =
        store_chunks-Staged disk sha256_hex root id whole size count begun chunks
          (begin-Staged w user metadata now ok) in
      assemble-Assembled disk sha256_hex root id whole size count sent final_key staged complete
        enough
