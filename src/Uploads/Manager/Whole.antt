-- ===== src/Uploads/Manager/Whole.antt =====
-- The end of an upload: `assemble` of backend/src/upload_manager.cpp with the temporary file of
-- backend/src/storage/local_fs_backend.cpp.
use enclave_station.Base.{
  ℕ, zero, suc, ◌*◌, ◌≡◌, ◌≤◌, ◌<◌, refl, ap, ◌∙◌, ◌⊎◌, Bool, true, Option, none, some, List, ◌==◌,
  nat_keys, text_keys, nat_eqb_iff, ltb, length, Text, contains, arith, inl, inr, Bool-cases,
  Option-cases,
}
use enclave_station.Uploads.Storage.{MultipartState}
use enclave_station.Uploads.LocalFs.{
  Disk, tmp_path_for, path_for, local_complete_multipart, local_fs,
}
use enclave_station.Uploads.Bytes.{Agrees, same_bytes}
use enclave_station.Uploads.Manager.{World, is_complete, assemble, load_state}
use enclave_station.Uploads.Manager.Complete.{all_received}
use enclave_station.Uploads.Manager.Partial.{Partial, IsState}
use enclave_station.Uploads.Manager.Assembly.{Staged}

module _ {S : Type 0} (disk : Disk S) (sha256_hex : Text → Text) (root id : Text) (whole : List ℕ)
    (size count : ℕ) where
  -- All chunks together are the file.
  whole_file :
      (s : S) (holds : ℕ → Bool)
      → (p : Partial disk sha256_hex root id whole size count s holds)
      → ((i : ℕ) → i < count → holds i ≡ true)
      → length whole ≤ count * size
      → p.bytes ≡ whole
  whole_file s holds p all enough =
      same_bytes p.bytes whole p.short
        λ k less. up_to count k (omega arith) (omega (arith, less, enough)) less
    where
      up_to : (n k : ℕ) → n ≤ count → k < n * size → k < length whole → Agrees whole p.bytes k
      up_to zero k most less in_file = ground (arith, less)
      up_to (suc n) k most less in_file = elim (Bool-cases (ltb k (n * size))) [
        | inl earlier ↦ up_to n k (omega (arith, most)) (ground (arith, earlier)) in_file
        | inr last ↦
            p.agree n k (all n (omega (arith, most)))
              (ground (arith, last), ground (arith, less), in_file)
      ]

  -- How the assembly of a session can end.
  abbrev pub Assembled : (final_key : Text) → World S → World S × Option ℕ → Type 0
  Assembled final_key w r =
      ((r.1 ≡ none)
        × ((disk.file_size w.store (tmp_path_for disk sha256_hex root id) ≡ none)
            ⊎ (disk.rename w.store (tmp_path_for disk sha256_hex root id)
                  (path_for disk sha256_hex root final_key)
                ≡ none)))
      ⊎ ((r.1 ≡ some (length whole))
          × (disk.content r.0.store (path_for disk sha256_hex root final_key) ≡ some whole))

  completed :
      (w : World S) (final_key : Text) (st : MultipartState)
      → IsState disk sha256_hex root id whole size count st
      → disk.content w.store (tmp_path_for disk sha256_hex root id) ≡ some whole
      → let r = local_complete_multipart disk sha256_hex root w.store id st final_key in
        Assembled final_key w (record w { store = r.0 }, r.1)
  unfolding local_complete_multipart
  completed w final_key st is file =
      elim (disk.sized w.store (tmp_path_for disk sha256_hex root id) whole file) [
        | inl unknown ↦ inl (rw unknown refl, inl unknown)
        | inr sized ↦
            let fits : (length whole == st.total_size) ≡ true =
              ground (arith, is.2, nat_eqb_iff (length whole) st.total_size) in
            elim (Option-cases (
              disk.rename w.store (tmp_path_for disk sha256_hex root id)
                (path_for disk sha256_hex root final_key))) [
                  | inl stuck ↦ inl (rw (sized, fits, stuck) refl, inr stuck)
                  | inr (s', moved) ↦ inr (
                    rw (sized, fits, moved) (ap some is.2),
                    rw (sized, fits, moved)
                        (disk.renamed w.store s' (tmp_path_for disk sha256_hex root id)
                          (path_for disk sha256_hex root final_key) whole file moved),
                  )
                ]
      ]

  pub assemble-Assembled :
      (w : World S) (final_key : Text)
      → Staged disk sha256_hex root id whole size count w
      → is_complete (local_fs disk sha256_hex root) w id ≡ true
      → length whole ≤ count * size
      → Assembled final_key w (assemble (local_fs disk sha256_hex root) w id final_key)
  unfolding assemble load_state is_complete local_fs local_complete_multipart
  assemble-Assembled w final_key g complete enough =
      let full : length g.row.received_chunks ≡ count =
        (nat_eqb_iff (length g.row.received_chunks) count).0
          (ground (arith, rw g.here at complete, g.expects)) in
      let every : (i : ℕ) → i < count → contains g.row.received_chunks i ≡ true =
        λ i less. all_received count g.row.received_chunks i g.distinct g.below full less in
      let e : g.partial.bytes ≡ whole =
        whole_file w.store (contains g.row.received_chunks) g.partial every enough in
      rw (assemble, load_state, g.here)
        (completed w final_key g.row.storage_state g.state (g.partial.file ∙ ap some e))
