-- ===== src/Uploads/Storage.antt =====
-- backend/src/storage/storage_backend.h: the interface of the stores of blobs, with the operations that
-- chunked uploads need. A size of -1 is none, and an error token is "" for success. The map of tokens
-- is an association list.
use enclave_station.Base.{ℕ, Option, List, Text}

pub record MultipartState : Type 0 where
  pub handle : Text
  pub total_size : ℕ
  pub chunk_count : ℕ
  pub chunk_size : ℕ
  pub part_tokens : List (ℕ × Text)

-- What `put_part` answers: the error and the token.
pub record PartResult : Type 0 where
  pub error : Text
  pub token : Text

pub record StorageBackend (S : Type 0) : Type 0 where
  pub create_multipart : S → Text → MultipartState → S × Option MultipartState
  pub put_part :
      S → Text → MultipartState → (index : ℕ) → (bytes expected_sha256_hex : Text) → S × PartResult
  pub complete_multipart : S → Text → MultipartState → (final_key : Text) → S × Option ℕ
  pub abort_multipart : S → Text → MultipartState → S
