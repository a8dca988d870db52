-- ===== src/Transfer/Complete.antt =====
-- The stages that CompleteUpload (internal/service/transfer/service.go) and CompleteMultipartUpload
-- (multipart.go) have in common: verify the hash, encrypt, lock, write to storage, write the
-- metadata. Each returns early with the session dropped and temp files removed. `drop` is the
-- removal of the session, in the one map or the other; `sha256` is the hash of bytes.
-- utils.SHA256File takes a read error for the end of the file.
use fssvrgo.Prelude.{
  ℕ, Bool, true, false, ◌&&◌, not, String, Option, none, some, List, [], ◌∷◌, take, lookup, insert,
  erase, is_some, str_eq, if◌then◌else◌,
}
use fssvrgo.Prelude.Int.{ℤ}
use fssvrgo.Distributed.Session.Interface.{SessionStore}
use fssvrgo.Transfer.Types.{
  Service, StoredSession, ok, err, TransferError, FileMetadata, hash_failed, hash_mismatch,
  encrypt_failed, encrypted_hash_failed, lock_failed, store_failed, update_failed, metadata_failed,
}
use fssvrgo.Transfer.Exec.{temp_path, encrypted_path, put_temp, remove_temp, Exec}

-- What storage.WriteFromTempFile does: an error, or a success that moves the temp file away
-- (LocalStorage) or copies it (MinIOStorage).
pub data StoreAnswer : Type 0 where
  refuses moves copies : StoreAnswer

-- What the environment answers to the calls of a completion. `cipher` is the crypto service, if it
-- is enabled: what EncryptFile writes for the bytes of a file, or its error. `read_ok` is whether
-- SHA256File can open the temp file, and `read_stops` after how many bytes a read fails, if one does. The random id of a new
-- row and the storage backend's type are here too.
pub record CompleteIo : Type 0 where
  pub reopen_ok : Bool
  pub sync_ok : Bool
  pub close_ok : Bool
  pub read_ok : Bool
  pub read_stops : Option ℕ
  pub cipher : Option (List ℕ → Option (List ℕ))
  pub read_encrypted_ok : Bool
  pub read_encrypted_stops : Option ℕ
  pub lock_ok : Bool
  pub store_answer : StoreAnswer
  pub query_ok : Bool
  pub update_ok : Bool
  pub create_ok : Bool
  pub new_id : String
  pub storage_type : String

module _ {S : SessionStore StoredSession} where
  unfoldable pub remove_all : List String → Service S → Service S
  unfolding remove_temp
  remove_all [] s = s
  remove_all (p ∷ ps) s = remove_all ps (remove_temp p s)

module _ {S : SessionStore StoredSession} {A : Type 0} where
  -- An early return of a completion.
  unfoldable pub fail : (Service S → Service S) → TransferError → List String → Exec (Service S) A
  unfolding remove_all
  fail drop e paths s = (err e, drop (remove_all paths s))

-- The bytes that SHA256File hashes: all, or those before a read error
unfoldable pub bytes_read : Option ℕ → List ℕ → List ℕ
bytes_read none bytes = bytes
bytes_read (some n) bytes = take n bytes

module _ {S : SessionStore StoredSession} (drop : Service S → Service S)
    (sha256 : List ℕ → String) where
  unfoldable pub compare_hash : String → String → String → Exec (Service S) Bool
  unfolding fail
  compare_hash id expected computed s =
      if str_eq computed expected
      then (ok true, s)
      else fail drop hash_mismatch (temp_path id ∷ []) s

  -- The hash is verified if the client gave one: by the incremental hash if that is valid, and
  -- else by reading the temp file.
  unfoldable pub verify_hash :
      CompleteIo → String → String → Option (List ℕ) → Bool → Exec (Service S) Bool
  unfolding compare_hash fail bytes_read
  verify_hash io id expected hasher valid s =
      if str_eq expected ""
      then (ok false, s)
      else if is_some hasher && valid
      then elim hasher [
        | none ↦ (ok false, s)
        | some bytes ↦ compare_hash id expected (sha256 bytes) s
      ]
      else elim (lookup (temp_path id) s.temp_files) [
        | none ↦ fail drop hash_failed (temp_path id ∷ []) s
        | some bytes ↦
            if io.read_ok
            then compare_hash id expected (sha256 (bytes_read io.read_stops bytes)) s
            else fail drop hash_failed (temp_path id ∷ []) s
      ]

  -- The file to store and its hash: the temp file, or the encrypted one.
  unfoldable pub encrypt_temp : CompleteIo → String → String → Exec (Service S) (String × String)
  unfolding fail put_temp remove_temp bytes_read
  encrypt_temp io id expected s = elim io.cipher [
    | none ↦ (ok (temp_path id, expected), s)
    | some encrypt ↦ elim (lookup (temp_path id) s.temp_files) [
      | none ↦ fail drop encrypt_failed (temp_path id ∷ []) s
      | some bytes ↦ elim (encrypt bytes) [
        | none ↦ fail drop encrypt_failed (temp_path id ∷ []) s
        | some secret ↦
            let s' = remove_temp (temp_path id) (put_temp (encrypted_path id) secret s) in
            if io.read_encrypted_ok
            then (ok (encrypted_path id, sha256 (bytes_read io.read_encrypted_stops secret)), s')
            else fail drop encrypted_hash_failed (encrypted_path id ∷ []) s'
      ]
    ]
  ]

module _ {S : SessionStore StoredSession} (drop : Service S → Service S) where
  -- The lock of the file, and storage.WriteFromTempFile.
  unfoldable pub store_temp : CompleteIo → String → String → Exec (Service S) (Unit {0})
  unfolding fail remove_temp
  store_temp io path temp s =
      if not io.lock_ok
      then fail drop lock_failed (temp ∷ []) s
      else elim (lookup temp s.temp_files) [
        | none ↦ fail drop store_failed (temp ∷ []) s
        | some bytes ↦
            let stored : Service S = record s { objects = insert path bytes s.objects } in
            elim io.store_answer [
              | refuses ↦ fail drop store_failed (temp ∷ []) s
              | moves ↦ (ok tt, remove_temp temp stored)
              | copies ↦ (ok tt, stored)
            ]
      ]

  -- The row of the path is updated if it was found, and else created. `on_failure` are the files that an early
  -- return removes.
  unfoldable pub save_metadata :
      CompleteIo
      → (path name : String) → ℤ
      → (hash : String) → ℕ
      → List String
      → Exec (Service S) String
  unfolding fail
  save_metadata io path name total hash now on_failure s =
      elim (if io.query_ok then lookup path s.metadata else none) [
        | some old ↦
            let row : FileMetadata = record old { size = total; hash = hash; updated_at = now } in
            if io.update_ok
            then (ok old.id, record s { metadata = insert path row s.metadata })
            else fail drop update_failed on_failure s
        | none ↦
            let row : FileMetadata = record {
              id = io.new_id;
              path = path;
              name = name;
              size = total;
              hash = hash;
              storage_type = io.storage_type;
              created_at = now;
              updated_at = now;
            } in
            if io.create_ok
            then (ok io.new_id, record s { metadata = insert path row s.metadata })
            else fail drop metadata_failed on_failure (record s { objects = erase path s.objects })
      ]
