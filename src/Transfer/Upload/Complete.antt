-- ===== src/Transfer/Upload/Complete.antt =====
-- CompleteUpload of internal/service/transfer/service.go.
use fssvrgo.Prelude.{
  Option, ℕ, Bool, true, false, not, String, none, some, List, [], ◌∷◌, if◌then◌else◌, str_eq,
}
use fssvrgo.Prelude.Int.{ℤ, eqbℤ}
use fssvrgo.Distributed.Session.Interface.{SessionStore}
use fssvrgo.Transfer.Types.{
  Outcome, Service, StoredSession, UploadSession, ok, err, session_not_found, upload_incomplete,
  sync_failed, close_failed,
}
use fssvrgo.Transfer.Exec.{temp_path, remove_temp, delete_record, Exec, ◌>>=◌, ◌>>◌, answer}
use fssvrgo.Transfer.Upload.{load_upload, put_upload, drop_upload}
use fssvrgo.Transfer.Complete.{
  CompleteIo, fail, verify_hash, encrypt_temp, store_temp, save_metadata,
}

-- CompleteUploadResult, without the type of the storage backend
pub record CompleteUploadResult : Type 0 where
  pub file_id : String
  pub hash_provided : Bool
  pub hash_verified : Bool
  pub uploaded_size : ℤ

abbrev pub complete_result : UploadSession → Bool → String → CompleteUploadResult
complete_result u verified file_id = record {
  file_id = file_id;
  hash_provided = not (str_eq u.hash "");
  hash_verified = verified;
  uploaded_size = u.total_size;
}

module _ {S : SessionStore StoredSession} where
  -- The session is closed, and its temp file synced and closed.
  unfoldable pub close_temp : CompleteIo → String → UploadSession → Exec (Service S) (Unit {0})
  unfolding put_upload fail
  close_temp io id u s0 =
      let s = put_upload id (record u { closed = true; temp_file = false }) s0 in
      if not u.temp_file
      then (ok tt, s)
      else if not io.sync_ok
      then fail (drop_upload id) sync_failed (temp_path id ∷ []) s
      else if not io.close_ok
      then fail (drop_upload id) close_failed [] s
      else (ok tt, s)

  unfoldable pub finish_upload : String → String → Exec (Service S) (Unit {0})
  unfolding drop_upload remove_temp delete_record
  finish_upload id temp s = (ok tt, delete_record "upload" id (remove_temp temp (drop_upload id s)))

module _ {S : SessionStore StoredSession} (sha256 : List ℕ → String) where
  -- CompleteUpload from the moment that all bytes are there
  unfoldable pub store_upload :
      CompleteIo → String → ℕ → UploadSession → Exec (Service S) CompleteUploadResult
  unfolding close_temp verify_hash encrypt_temp store_temp save_metadata finish_upload ◌>>=◌ answer
  store_upload io id now u = do
    close_temp io id u
    verified ← verify_hash (drop_upload id) sha256 io id u.hash u.hash_writer u.hash_valid
    sealed ← encrypt_temp (drop_upload id) sha256 io id u.hash
    store_temp (drop_upload id) io u.file_path sealed.0
    file_id ← save_metadata (drop_upload id) io u.file_path u.file_name u.total_size sealed.1 now []
    finish_upload id sealed.0
    answer (complete_result u verified file_id)

  unfoldable pub found_complete :
      CompleteIo
      → String
      → ℕ
      → Option UploadSession × Service S
      → Outcome CompleteUploadResult × Service S
  found_complete io id now (none, s) = (err session_not_found, s)
  found_complete io id now (some u, s) =
      if eqbℤ u.uploaded_size u.total_size
      then store_upload io id now u s
      else (err upload_incomplete, s)

  -- CompleteUpload
  unfoldable pub complete_upload : CompleteIo → String → ℕ → Exec (Service S) CompleteUploadResult
  unfolding found_complete
  complete_upload io id now s = found_complete io id now (load_upload io.reopen_ok id now s)
