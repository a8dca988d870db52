-- ===== src/Transfer/Multipart/Complete.antt =====
-- CompleteMultipartUpload of internal/service/transfer/multipart.go.
use fssvrgo.Prelude.{
  ℕ, Bool, true, false, ◌&&◌, not, String, none, some, List, [], ◌∷◌, lookup, if◌then◌else◌,
}
use fssvrgo.Prelude.Int.{ℤ, eqbℤ}
use fssvrgo.Distributed.Session.Interface.{SessionStore}
use fssvrgo.Transfer.Types.{
  Service, StoredSession, MultipartUploadSession, UploadPart, ok, err, session_not_found,
  upload_incomplete, coverage_incomplete, part_incomplete, sync_failed, close_failed,
}
use fssvrgo.Transfer.Coverage.{is_fully_covered}
use fssvrgo.Transfer.Exec.{temp_path, remove_temp, delete_record, Exec, ◌>>=◌, ◌>>◌}
use fssvrgo.Transfer.Multipart.{put_multipart, drop_multipart, is_completed}
use fssvrgo.Transfer.Complete.{
  CompleteIo, fail, verify_hash, encrypt_temp, store_temp, save_metadata,
}

unfoldable pub all_completed : List (ℤ × UploadPart) → Bool
unfolding is_completed
all_completed [] = true
all_completed ((k, part) ∷ rest) = is_completed part.status && all_completed rest

module _ {S : SessionStore StoredSession} where
  unfoldable pub close_part_file :
      CompleteIo → String → MultipartUploadSession → Exec (Service S) (Unit {0})
  unfolding put_multipart fail
  close_part_file io id m s0 =
      let s = put_multipart id (record m { closed = true }) s0 in
      if not io.sync_ok
      then fail (drop_multipart id) sync_failed (temp_path id ∷ []) s
      else if not io.close_ok
      then fail (drop_multipart id) close_failed (temp_path id ∷ []) s
      else (ok tt, s)

  unfoldable pub finish_multipart : String → String → Exec (Service S) (Unit {0})
  unfolding drop_multipart remove_temp delete_record
  finish_multipart id temp s =
      (ok tt, delete_record "multipart_upload" id (remove_temp temp (drop_multipart id s)))

module _ {S : SessionStore StoredSession} (sha256 : List ℕ → String) where
  -- CompleteMultipartUpload from the moment that all bytes are there
  unfoldable pub store_multipart :
      CompleteIo → String → ℕ → MultipartUploadSession → Exec (Service S) (Unit {0})
  unfolding close_part_file verify_hash encrypt_temp store_temp save_metadata finish_multipart ◌>>=◌
  store_multipart io id now m = do
    close_part_file io id m
    verify_hash (drop_multipart id) sha256 io id m.hash none false
    sealed ← encrypt_temp (drop_multipart id) sha256 io id m.hash
    store_temp (drop_multipart id) io m.file_path sealed.0
    save_metadata (drop_multipart id) io m.file_path m.file_name m.total_size sealed.1 now
        (sealed.0 ∷ [])
    finish_multipart id sealed.0

  -- CompleteMultipartUpload
  unfoldable pub complete_multipart_upload : CompleteIo → String → ℕ → Exec (Service S) (Unit {0})
  unfolding all_completed
  complete_multipart_upload io id now s = elim (lookup id s.multiparts) [
    | none ↦ (err session_not_found, s)
    | some m ↦
        if not (eqbℤ m.uploaded_size m.total_size)
        then (err upload_incomplete, s)
        else if not (is_fully_covered m.covered_ranges m.total_size)
        then (err coverage_incomplete, s)
        else if not (all_completed m.parts)
        then (err part_incomplete, s)
        else store_multipart io id now m s
  ]
