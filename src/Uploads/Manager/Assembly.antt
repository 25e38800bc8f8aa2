-- ===== src/Uploads/Manager/Assembly.antt =====
-- Chunks of one file, uploaded through backend/src/upload_manager.cpp to
-- backend/src/storage/local_fs_backend.cpp in any order.
use enclave_station.Base.{
  ℕ, ◌≡◌, Bool, true, some, List, [], ◌∷◌, nat_keys, text_keys, nat_eqb_iff, Text, is_nil, contains,
  Distinct, arith, inl, inr, Bool-cases,
}
use enclave_station.Uploads.LocalFs.{Disk, local_put_part, local_fs}
use enclave_station.Uploads.Bytes.{slice}
use enclave_station.Uploads.Manager.{
  World, UploadSessionRow, get_upload_session, record_upload_chunk, received, store_chunk_err,
  load_state,
}
use enclave_station.Uploads.Manager.Complete.{
  Below, collected, collected-Distinct, contains-collected,
}
use enclave_station.Uploads.Manager.Rows.{updated_row, row_there}
use enclave_station.Uploads.Manager.Partial.{
  Partial, IsState, with_chunk, put_part-Attempted, put_part-index,
}

module _ {S : Type 0} (disk : Disk S) (sha256_hex : Text → Text) (root id : Text) (whole : List ℕ)
    (size count : ℕ) where
  -- A session of the file: its row, and the temporary file behind it.
  pub record Staged (w : World S) : Type 0 where
    pub row : UploadSessionRow
    pub here : get_upload_session w.rows id ≡ some row
    pub expects : row.chunk_count ≡ count
    pub state : IsState disk sha256_hex root id whole size count row.storage_state
    pub distinct : Distinct row.received_chunks
    pub below : Below count row.received_chunks
    pub partial :
        Partial disk sha256_hex root id whole size count w.store (contains row.received_chunks)

  fewer :
      (s : S) (holds holds' : ℕ → Bool)
      → Partial disk sha256_hex root id whole size count s holds
      → ((i : ℕ) → holds' i ≡ true → holds i ≡ true)
      → Partial disk sha256_hex root id whole size count s holds'
  fewer s holds holds' p less = record {
    bytes = p.bytes;
    file = p.file;
    short = p.short;
    agree = λ i k held inside. p.agree i k (less i held) inside;
  }

  -- An attempt to store a chunk of the file, with whatever outcome.
  store_chunk-Staged :
      (w : World S) (index : ℕ) (hash : Text)
      → Staged w
      → Staged
          (store_chunk_err
            (local_fs disk sha256_hex root)
            w
            id
            index
            (slice whole size index)
            hash).0
  unfolding store_chunk_err load_state record_upload_chunk local_fs
  store_chunk-Staged w index hash g =
      let r =
        local_put_part disk sha256_hex root w.store id g.row.storage_state index
          (slice whole size index) hash in
      let holds : ℕ → Bool = contains g.row.received_chunks in
      let tried =
        put_part-Attempted disk sha256_hex root id whole size count w.store holds index
          g.row.storage_state hash g.state g.partial in
      elim (Bool-cases (is_nil r.1.error)) [
        | inr failed ↦
            rw (store_chunk_err, load_state, g.here, failed)
              (record {
                row = g.row;
                here = g.here;
                expects = g.expects;
                state = g.state;
                distinct = g.distinct;
                below = g.below;
                partial =
                    fewer r.0
                      (with_chunk disk sha256_hex root id whole size count index (is_nil r.1.error)
                        holds)
                      holds tried λ i held. ground (arith, held);
              })
        | inl stored ↦
            rw (store_chunk_err, load_state, g.here, stored, row_there id w.rows g.row g.here)
              (record {
                row = received index r.1.token g.row;
                here = updated_row id w.rows g.row index r.1.token g.here;
                expects = g.expects;
                state = g.state;
                distinct = collected-Distinct index g.row.received_chunks g.distinct;
                below = λ a held. ground (
                  arith,
                  held,
                  contains-collected index g.row.received_chunks a,
                  nat_eqb_iff index a,
                  g.below a,
                  put_part-index disk sha256_hex root id whole size count w.store index
                      g.row.storage_state (slice whole size index) hash g.state stored,
                );
                partial =
                    fewer r.0
                      (with_chunk disk sha256_hex root id whole size count index (is_nil r.1.error)
                        holds)
                      (contains (collected index g.row.received_chunks)) tried
                      λ i held.
                        ground
                          (arith, held, stored, contains-collected index g.row.received_chunks i);
              })
      ]

  -- Chunks that are sent in any order, again if need be, each with the hash that the client states.
  unfoldable pub store_chunks : World S → List (ℕ × Text) → World S
  store_chunks w [] = w
  store_chunks w ((index, hash) ∷ rest) =
      store_chunks
        (store_chunk_err (local_fs disk sha256_hex root) w id index (slice whole size index) hash).0
        rest

  pub store_chunks-Staged :
      (w : World S) (chunks : List (ℕ × Text)) → Staged w → Staged (store_chunks w chunks)
  unfolding store_chunks
  store_chunks-Staged w [] g = g
  store_chunks-Staged w ((index, hash) ∷ rest) g =
      store_chunks-Staged
        (store_chunk_err (local_fs disk sha256_hex root) w id index (slice whole size index) hash).0
        rest (store_chunk-Staged w index hash g)
