-- ===== src/Uploads/LocalFs.antt =====
-- backend/src/storage/local_fs_backend.cpp: multipart uploads in a temporary file. The file system is a
-- parameter: each call may fail, and the laws say what POSIX documents of one that does not. An index is
-- a natural number, as the handlers refuse a negative one; a size is below 2 ^ 63.
use enclave_station.Base.{
  ℕ, suc, zero, ◌*◌, ◌^◌, ◌≡◌, ◌⊎◌, Bool, false, not, ◌&&◌, ◌||◌, Option, none, some, List, [], ◌∷◌,
  ◌++◌, take, length, if◌then◌else◌, ◌==◌, nat_keys, text_keys, ltb, leb, Text, codes, is_nil,
}
use enclave_station.Uploads.Storage.{MultipartState, PartResult, StorageBackend}

-- The bytes `new` over the start of `old`.
unfoldable pub overlay : List ℕ → List ℕ → List ℕ
overlay old [] = old
overlay [] (b ∷ new) = b ∷ new
overlay (x ∷ old) (b ∷ new) = b ∷ overlay old new

-- A file after a write of some bytes at an offset: a gap is filled with zeros.
unfoldable pub written_at : ℕ → List ℕ → List ℕ → List ℕ
unfolding overlay
written_at zero old new = overlay old new
written_at (suc off) [] new = zero ∷ written_at off [] new
written_at (suc off) (x ∷ old) new = x ∷ written_at off old new

-- A write of no byte leaves the file.
unfoldable pub splice : List ℕ → ℕ → List ℕ → List ℕ
unfolding written_at
splice old off [] = old
splice old off (b ∷ new) = written_at off old (b ∷ new)

-- What `pwrite` on a file that is opened for it does: the number of bytes that were written.
pub data Written (S : Type 0) : Type 0 where
  open_failed : Written S
  io_error : Written S
  wrote : (written : ℕ) → S → Written S

pub record Disk (S : Type 0) : Type 0 where
  -- `open` with O_WRONLY | O_CREAT | O_TRUNC
  pub create : S → Text → Option S
  -- `open` with O_WRONLY, and `pwrite`
  pub pwrite : S → Text → ℕ → List ℕ → Written S
  pub file_size : S → Text → Option ℕ
  pub rename : S → Text → Text → Option S
  pub remove : S → Text → S
  -- The bytes of a file.
  pub content : S → Text → Option (List ℕ)
  pub created :
      (s s' : S) (p q : Text)
      → create s p ≡ some s'
      → content s' q ≡ (if p == q then some [] else content s q)
  pub written :
      (s s' : S) (p q : Text) (off n : ℕ) (bytes old : List ℕ)
      → content s p ≡ some old
      → pwrite s p off bytes ≡ wrote n s'
      → content s' q ≡ (if p == q then some (splice old off (take n bytes)) else content s q)
  pub sized :
      (s : S) (p : Text) (bytes : List ℕ)
      → content s p ≡ some bytes
      → (file_size s p ≡ none) ⊎ (file_size s p ≡ some (length bytes))
  pub renamed :
      (s s' : S) (p q : Text) (bytes : List ℕ)
      → content s p ≡ some bytes
      → rename s p q ≡ some s'
      → content s' q ≡ some bytes

module _ {S : Type 0} (disk : Disk S) (sha256_hex : Text → Text) (root : Text) where
  open disk use {create, pwrite, file_size, rename, remove}

  abbrev pub path_for : Text → Text
  path_for key = root ++ codes "/" ++ key

  abbrev pub tmp_path_for : Text → Text
  tmp_path_for upload_id = root ++ codes "/tmp/" ++ upload_id ++ codes ".dat"

  unfoldable pub local_create_multipart : S → Text → MultipartState → S × Option MultipartState
  local_create_multipart s upload_id st = elim (create s (tmp_path_for upload_id)) [
    | none ↦ (s, none)
    | some s' ↦ (s', some (record st { handle = [] }))
  ]

  abbrev pub failed_part : S → Text → S × PartResult
  failed_part s error = (s, record { error = error; token = [] })

  abbrev pub after_write : S → (bytes : Text) → Written S → S × PartResult
  after_write s bytes open_failed = failed_part s (codes "open_failed")
  after_write s bytes io_error = failed_part s (codes "io_error")
  after_write s bytes (wrote n s') =
      failed_part s' (if ltb n (length bytes) then codes "short_write" else [])

  -- `__builtin_mul_overflow` on int64_t.
  unfoldable pub local_put_part : S → Text → MultipartState → ℕ → Text → Text → S × PartResult
  local_put_part s upload_id st index bytes expected_sha256_hex =
      let offset = index * st.chunk_size in
      if leb st.chunk_count index || leb (2 ^ 63) offset
      then failed_part s (codes "invalid_index")
      else if not (is_nil expected_sha256_hex) && not (sha256_hex bytes == expected_sha256_hex)
      then failed_part s (codes "hash_mismatch")
      else after_write s bytes (pwrite s (tmp_path_for upload_id) offset bytes)

  abbrev pub has_size : ℕ → Option ℕ → Bool
  has_size n none = false
  has_size n (some m) = m == n

  abbrev pub after_rename : S → ℕ → Option S → S × Option ℕ
  after_rename s size none = (s, none)
  after_rename s size (some s') = (s', some size)

  unfoldable pub local_complete_multipart : S → Text → MultipartState → Text → S × Option ℕ
  local_complete_multipart s upload_id st final_key =
      let tmp_path = tmp_path_for upload_id in
      if not (has_size st.total_size (file_size s tmp_path))
      then (s, none)
      else after_rename s st.total_size (rename s tmp_path (path_for final_key))

  unfoldable pub local_fs : StorageBackend S
  unfolding local_create_multipart local_put_part local_complete_multipart
  local_fs = record {
    create_multipart = local_create_multipart;
    put_part = local_put_part;
    complete_multipart = local_complete_multipart;
    abort_multipart = λ s upload_id st. remove s (tmp_path_for upload_id);
  }
