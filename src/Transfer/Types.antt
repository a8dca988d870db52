-- ===== src/Transfer/Types.antt =====
-- The sessions, the service's state and its errors, of internal/service/transfer/service.go and
-- multipart.go. A timestamp stands for its number of seconds. An open *os.File is whether it is
-- there; the bytes of the temp files are part of the service's state.
use fssvrgo.Prelude.{ℕ, Bool, String, Option, List}
use fssvrgo.Prelude.Int.{ℤ}
use fssvrgo.Transfer.Coverage.{ByteRange}
use fssvrgo.Distributed.Session.Interface.{SessionStore}

pub data Status : Type 0 where
  active completed aborted expired : Status

-- UploadSession; the SHA-256 writer is the bytes written to it, if there is a writer
pub record UploadSession : Type 0 where
  pub file_id : String
  pub file_path : String
  pub file_name : String
  pub total_size : ℤ
  pub uploaded_size : ℤ
  pub hash : String
  pub client_id : String
  pub status : Status
  pub created_at : ℕ
  pub updated_at : ℕ
  pub chunk_count : ℤ
  pub temp_file : Bool
  pub hash_writer : Option (List ℕ)
  pub last_offset : ℤ
  pub hash_valid : Bool
  pub closed : Bool

-- UploadPart
pub record UploadPart : Type 0 where
  pub part_number : ℤ
  pub offset : ℤ
  pub size : ℤ
  pub uploaded_size : ℤ
  pub hash : String
  pub status : Status

-- MultipartUploadSession
pub record MultipartUploadSession : Type 0 where
  pub file_path : String
  pub file_name : String
  pub total_size : ℤ
  pub hash : String
  pub client_id : String
  pub status : Status
  pub created_at : ℕ
  pub updated_at : ℕ
  pub temp_file : Bool
  pub parts : List (ℤ × UploadPart)
  pub uploaded_size : ℤ
  pub chunk_count : ℤ
  pub closed : Bool
  pub covered_ranges : List ByteRange

-- What the session store keeps: the exported fields of an UploadSession, or the map that
-- CreateMultipartUpload stores.
pub data StoredSession : Type 0 where
  upload_record :
      (file_id file_path file_name : String) (total_size uploaded_size : ℤ)
      (hash client_id : String)
      → Status
      → (created_at updated_at : ℕ) → StoredSession
  multipart_record :
      (file_path file_name : String) (total_size : ℤ) (hash client_id : String)
      → Status
      → (created_at : ℕ) → StoredSession

-- The row of the files table, as far as an upload writes it.
pub record FileMetadata : Type 0 where
  pub id : String
  pub path : String
  pub name : String
  pub size : ℤ
  pub hash : String
  pub storage_type : String
  pub created_at : ℕ
  pub updated_at : ℕ

pub data TransferError : Type 0 where
  too_many_sessions create_failed truncate_failed session_not_found lock_failed session_closed
        session_inactive part_number_too_large invalid_offset write_beyond_size write_failed
        open_failed upload_incomplete coverage_incomplete part_incomplete sync_failed close_failed
        hash_failed hash_mismatch encrypt_failed encrypted_hash_failed store_failed update_failed
        metadata_failed :
      TransferError

pub data Outcome {ℓ} (A : Type ℓ) : Type ℓ where
  ok : A → Outcome A
  err : TransferError → Outcome A

module _ (S : SessionStore StoredSession) where
  -- FileTransferService, the temp directory by the names in it, the objects of the storage backend,
  -- and the rows of the files table that are not deleted, by path.
  pub record Service : Type 0 where
    pub uploads : List (String × UploadSession)
    pub multiparts : List (String × MultipartUploadSession)
    pub session_count : ℤ
    pub max_sessions : ℕ
    pub temp_files : List (String × List ℕ)
    pub objects : List (String × List ℕ)
    pub metadata : List (String × FileMetadata)
    pub store : S.Store
