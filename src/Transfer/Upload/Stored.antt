-- ===== src/Transfer/Upload/Stored.antt =====
-- What a successful CompleteUpload (internal/service/transfer/service.go) has stored.
pub mod Stages
use text.Mathlib.TextLemmas.{append-nil, append_cancel_left}
use fssvrgo.Prelude.{
  ◌∙◌, ℕ, ◌≡◌, ◌⊎◌, refl, Bool, true, false, ◌&&◌, not, String, Option, some, none, is_some, List,
  [], ◌∷◌, lookup, insert, erase, inl, inr, lookup-insert_here, lookup-insert, lookup-erase, eq_iff,
  str_eq, if_rule, option_rule, if◌then◌else◌, arith, Bool-cases, Option-cases,
}
use fssvrgo.Prelude.Int.{ℤ}
use fssvrgo.Distributed.Session.Interface.{SessionStore}
use fssvrgo.Transfer.Types.{Service, StoredSession, UploadSession, FileMetadata, Outcome, ok, err}
use fssvrgo.Transfer.Exec.{
  Exec, temp_path, encrypted_path, put_temp, remove_temp, delete_record, ◌>>=◌, answer,
}
use fssvrgo.Transfer.Exec.Leads.{Results, Gives, Gives-bind}
use fssvrgo.Transfer.Slots.Steps.{load_upload_here}
use fssvrgo.Prelude.Int.{eqbℤ}
use fssvrgo.Transfer.Upload.{put_upload, drop_upload}
use fssvrgo.Transfer.Complete.{
  CompleteIo, StoreAnswer, refuses, moves, copies, fail, compare_hash, verify_hash, encrypt_temp,
  store_temp, save_metadata,
}
use fssvrgo.Transfer.Upload.Complete.{
  CompleteUploadResult, complete_result, close_temp, finish_upload, store_upload, found_complete,
  complete_upload,
}
use fssvrgo.Transfer.Upload.Stored.Stages.{
  sealed_bytes, sealed_hash, IsVerified, HasTemp, IsSealed, close_temp-Gives, verify_hash-Gives,
  encrypt_temp-Gives, store_temp-Gives, save_metadata-Gives,
}

-- What a completion has stored: the bytes, sealed if there is a cipher, and the row of the path with
-- the declared size and a hash; and the client's hash was compared.
module _ {S : SessionStore StoredSession} (sha256 : List ℕ → String) where
  pub record IsStoredFile (io : CompleteIo) (u : UploadSession) (bytes : List ℕ) (s : Service S)
      : Type 0 where
    pub secret : List ℕ
    pub row : FileMetadata
    pub from_bytes : sealed_bytes io.cipher bytes ≡ some secret
    pub object : lookup u.file_path s.objects ≡ some secret
    pub metadata : lookup u.file_path s.metadata ≡ some row
    pub size : row.size ≡ u.total_size
    pub hash : row.hash ≡ sealed_hash sha256 io.read_encrypted_stops io.cipher u.hash secret
    pub verified : IsVerified sha256 io.read_stops u bytes

  store_end-Gives :
      (io : CompleteIo) (id : String) (u : UploadSession) (bytes : List ℕ)
      (sealed : String × String) (secret : List ℕ)
      → IsVerified sha256 io.read_stops u bytes
      → sealed_bytes io.cipher bytes ≡ some secret
      → sealed.1 ≡ sealed_hash sha256 io.read_encrypted_stops io.cipher u.hash secret
      → (result : CompleteUploadResult)
      → Gives {St = Service S}
          (λ s.
            (lookup u.file_path s.objects ≡ some secret)
            × ((row : FileMetadata) × (lookup u.file_path s.metadata ≡ some row)
                × (row.size ≡ u.total_size)
                × (row.hash ≡ sealed.1)))
          (λ _. IsStoredFile io u bytes)
          (finish_upload id sealed.0 >>= λ _. answer result)
  unfolding finish_upload answer ◌>>=◌
  store_end-Gives io id u bytes sealed secret v from with result = record {
    at = λ s h.
        let (object, (row, here, size, hash)) = h in
        record {
          secret = secret;
          row = row;
          from_bytes = from;
          object = object;
          metadata = here;
          size = size;
          hash = hash ∙ with;
          verified = v;
        };
  }

  store_sealed-Gives :
      (io : CompleteIo) (id : String) (now : ℕ) (u : UploadSession) (bytes : List ℕ)
      (verified : Bool) (sealed : String × String) (secret : List ℕ)
      → IsVerified sha256 io.read_stops u bytes
      → sealed_bytes io.cipher bytes ≡ some secret
      → sealed.1 ≡ sealed_hash sha256 io.read_encrypted_stops io.cipher u.hash secret
      → Gives {St = Service S}
          (λ s. lookup sealed.0 s.temp_files ≡ some secret)
          (λ _. IsStoredFile io u bytes)
          (store_temp (drop_upload id) io u.file_path sealed.0 >>= λ _.
            save_metadata (drop_upload id) io u.file_path u.file_name u.total_size sealed.1 now []
            >>= λ file_id.
                finish_upload id sealed.0 >>= λ _. answer (complete_result u verified file_id))
  store_sealed-Gives io id now u bytes verified sealed secret v from with =
      Gives-bind _ _
        (store_temp-Gives sha256 (drop_upload id) io u.hash u.file_path bytes sealed secret)
        (λ _.
          Gives-bind _ _
            (save_metadata-Gives sha256 (drop_upload id) io u.file_path u.file_name u.total_size
              sealed.1 now [] u.file_path secret)
            (λ file_id.
              store_end-Gives io id u bytes sealed secret v from with
                (complete_result u verified file_id)))

  store_verified-Gives :
      (io : CompleteIo) (id : String) (now : ℕ) (u : UploadSession) (bytes : List ℕ)
      (verified : Bool)
      → IsVerified sha256 io.read_stops u bytes
      → Gives {St = Service S}
          (HasTemp (temp_path id) bytes)
          (λ _. IsStoredFile io u bytes)
          (encrypt_temp (drop_upload id) sha256 io id u.hash >>= λ sealed.
            store_temp (drop_upload id) io u.file_path sealed.0 >>= λ _.
            save_metadata (drop_upload id) io u.file_path u.file_name u.total_size sealed.1 now []
            >>= λ file_id.
                finish_upload id sealed.0 >>= λ _. answer (complete_result u verified file_id))
  store_verified-Gives io id now u bytes verified v =
      Gives-bind _ _ (encrypt_temp-Gives sha256 (drop_upload id) io id u.hash bytes) (λ sealed.
        record {
          at = λ s k.
              (store_sealed-Gives io id now u bytes verified sealed k.secret v k.from_bytes
                  k.with_hash).at
                s k.there;
        })

  store_upload-Gives :
      (io : CompleteIo) (id : String) (now : ℕ) (u : UploadSession) (bytes : List ℕ)
      → Gives {St = Service S}
          (HasTemp (temp_path id) bytes)
          (λ _. IsStoredFile io u bytes)
          (store_upload sha256 io id now u)
  unfolding store_upload
  store_upload-Gives io id now u bytes = Gives-bind _ _ (close_temp-Gives io id u bytes) (λ _.
      Gives-bind _ _ (verify_hash-Gives sha256 (drop_upload id) io id u bytes) (λ verified. record {
        at = λ s k. (store_verified-Gives io id now u bytes verified k.1).at s k.0;
      }))

  -- When CompleteUpload succeeds for a session in memory, the object of the path has the bytes of the
  -- temp file, encrypted if a cipher is on, and the path has a row with the size that the session
  -- declared. The row's hash is, with a cipher, the hash of what SHA256File read of the encrypted
  -- file, and without one the hash that the client gave, or none. A hash that the client gave is that of
  -- the bytes hashed as they came in, where the incremental hash is still valid, or else of what
  -- SHA256File read of the temp file: all of it, or what comes before a read error.
  pub complete_upload-IsStoredFile :
      (io : CompleteIo) (id : String) (now : ℕ) (u : UploadSession) (bytes : List ℕ) (s : Service S)
      (result : CompleteUploadResult)
      → lookup id s.uploads ≡ some u
      → lookup (temp_path id) s.temp_files ≡ some bytes
      → (complete_upload sha256 io id now s).0 ≡ ok result
      → IsStoredFile io u bytes (complete_upload sha256 io id now s).1
  unfolding complete_upload found_complete
  complete_upload-IsStoredFile io id now u bytes s result here temp =
      rw (load_upload_here io.reopen_ok id u now s here, complete_upload)
        (if_rule
          (λ (w : Outcome CompleteUploadResult × Service S).
            w.0 ≡ ok result → IsStoredFile io u bytes w.1)
          (eqbℤ u.uploaded_size u.total_size)
          (λ _. on_success _ ((store_upload-Gives io id now u bytes).at s temp))
          (λ _ e. absurd (cc e)))
    where
      on_success :
          (w : Outcome CompleteUploadResult × Service S)
          → Results (λ _. IsStoredFile io u bytes) w
          → w.0 ≡ ok result
          → IsStoredFile io u bytes w.1
      on_success (ok r, t) h e = h
      on_success (err x, t) h e = absurd (cc e)
