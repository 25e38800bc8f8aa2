-- ===== src/Uploads/Manager/Partial.antt =====
-- The temporary file of backend/src/storage/local_fs_backend.cpp while the chunks of one file are written
-- to it.
use enclave_station.Base.{
  ℕ, ◌+◌, ◌*◌, ◌^◌, ◌≡◌, ◌≤◌, ◌<◌, refl, sym, subst, ◌∙◌, Bool, true, false, not, ◌&&◌, ◌||◌, some,
  List, [], take, if◌then◌else◌, ◌==◌, nat_keys, text_keys, nat_eqb_iff, text_eqb_iff, ltb, leb,
  length, length-take, Text, codes, is_nil, arith, inl, inr, Bool-cases,
}
use enclave_station.Uploads.Storage.{MultipartState, PartResult, StorageBackend}
use enclave_station.Uploads.LocalFs.{
  Disk, Written, open_failed, io_error, wrote, splice, tmp_path_for, after_write, local_put_part,
  local_fs,
}
use enclave_station.Uploads.Bytes.{
  Agrees, slice, slice-IsPiece, slice_fits, length-slice, splice-Agrees, splice-inside,
  length-splice,
}

module _ {S : Type 0} (disk : Disk S) (sha256_hex : Text → Text) (root id : Text) (whole : List ℕ)
    (size count : ℕ) where
  abbrev pub fs : StorageBackend S
  fs = local_fs disk sha256_hex root

  abbrev pub tmp : Text
  tmp = tmp_path_for disk sha256_hex root id

  -- The chunk's place in the file.
  abbrev pub InChunk : ℕ → ℕ → Type 0
  InChunk i k = (i * size ≤ k) × (k < i * size + size) × (k < length whole)

  -- A store whose temporary file is a part of the file.
  pub record Partial (s : S) (holds : ℕ → Bool) : Type 0 where
    pub bytes : List ℕ
    pub file : disk.content s tmp ≡ some bytes
    pub short : length bytes ≤ length whole
    pub agree : (i k : ℕ) → holds i ≡ true → InChunk i k → Agrees whole bytes k

  -- What has arrived of a chunk after an attempt to store it.
  abbrev pub with_chunk : ℕ → Bool → (ℕ → Bool) → ℕ → Bool
  with_chunk index ok holds i = (ok && (index == i)) || holds i

  wrote-Partial :
      (s s' : S) (holds : ℕ → Bool) (index n : ℕ)
      → Partial s holds
      → disk.pwrite s tmp (index * size) (slice whole size index) ≡ wrote n s'
      → Partial s' (with_chunk index (leb (length (slice whole size index)) n) holds)
  wrote-Partial s s' holds index n p e =
      let chunk = slice whole size index in
      let piece = slice-IsPiece whole size index n in
      record {
        bytes = splice p.bytes (index * size) (take n chunk);
        file =
            disk.written s s' tmp tmp (index * size) n chunk p.bytes p.file e
            ∙ ground (arith, text_eqb_iff tmp tmp);
        short =
            length-splice (length whole) p.bytes (take n chunk) (index * size) p.short
              (slice_fits whole size index n);
        agree = λ i k held inside. elim (Bool-cases (holds i)) [
          | inl before ↦
              splice-Agrees whole p.bytes (take n chunk) (index * size) k piece inside.2
                (p.agree i k before inside)
          | inr new ↦
              let same : index ≡ i = (nat_eqb_iff index i).0 (ground (arith, held, new)) in
              let there = subst (λ x. InChunk x k) (sym same) inside in
              splice-inside whole p.bytes (take n chunk) (index * size) k piece there.0 (
                ground (
                  arith,
                  held,
                  new,
                  there.1,
                  there.2,
                  length-take n chunk,
                  length-slice whole size index,
                ))
        ];
      }

  -- A store that has not changed, after an attempt that failed.
  same-Partial :
      (s : S) (holds : ℕ → Bool) (index : ℕ)
      → Partial s holds
      → Partial s (with_chunk index false holds)
  same-Partial s holds index p = record {
    bytes = p.bytes;
    file = p.file;
    short = p.short;
    agree = p.agree;
  }

  all_written : (n m : ℕ) → leb m n ≡ is_nil (if ltb n m then codes "short_write" else [])
  all_written n m = ground arith

  abbrev pub Attempted : (ℕ → Bool) → ℕ → S × PartResult → Type 0
  Attempted holds index r = Partial r.0 (with_chunk index (is_nil r.1.error) holds)

  after_write-Attempted :
      (s : S) (holds : ℕ → Bool) (index : ℕ) (r : Written S)
      → Partial s holds
      → disk.pwrite s tmp (index * size) (slice whole size index) ≡ r
      → Attempted holds index (after_write disk sha256_hex root s (slice whole size index) r)
  after_write-Attempted s holds index open_failed p e = same-Partial s holds index p
  after_write-Attempted s holds index io_error p e = same-Partial s holds index p
  after_write-Attempted s holds index (wrote n s') p e =
      subst (λ b. Partial s' (with_chunk index b holds))
        (all_written n (length (slice whole size index))) (wrote-Partial s s' holds index n p e)

  abbrev pub IsState : MultipartState → Type 0
  IsState st = (st.chunk_count ≡ count) × (st.chunk_size ≡ size) × (st.total_size ≡ length whole)

  after_pwrite :
      (s : S) (holds : ℕ → Bool) (index : ℕ)
      → Partial s holds
      → Attempted holds index (
          after_write disk sha256_hex root s
            (slice whole size index)
            (disk.pwrite s tmp (index * size) (slice whole size index)))
  after_pwrite s holds index p =
      after_write-Attempted s holds index
        (disk.pwrite s tmp (index * size) (slice whole size index)) p refl

  pub put_part-Attempted :
      (s : S) (holds : ℕ → Bool) (index : ℕ) (st : MultipartState) (hash : Text)
      → IsState st
      → Partial s holds
      → Attempted holds index
          (local_put_part disk sha256_hex root s id st index (slice whole size index) hash)
  unfolding local_put_part
  put_part-Attempted s holds index st hash is p =
      elim (Bool-cases (leb st.chunk_count index || leb (2 ^ 63) (index * st.chunk_size))) [
        | inl invalid ↦ rw invalid (same-Partial s holds index p)
        | inr valid ↦
            let mismatch = not (is_nil hash) && not (sha256_hex (slice whole size index) == hash) in
            rw valid (elim (Bool-cases mismatch) [
              | inl wrong ↦ rw wrong (same-Partial s holds index p)
              | inr right ↦ rw (right, is.1) (after_pwrite s holds index p)
            ])
      ]

  pub put_part-index :
      (s : S) (index : ℕ) (st : MultipartState) (bytes hash : Text)
      → IsState st
      → is_nil (local_put_part disk sha256_hex root s id st index bytes hash).1.error ≡ true
      → index < count
  unfolding local_put_part
  put_part-index s index st bytes hash is ok = ground (arith, is.0, ok)
