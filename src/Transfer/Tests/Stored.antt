-- ===== src/Transfer/Tests/Stored.antt =====
-- A completed upload at concrete inputs.
use fssvrgo.Prelude.{some, ◌∷◌, [], refl, true, lookup, insert, erase}
use fssvrgo.Distributed.Session.Memory.{memory_session_store}
use fssvrgo.Transfer.Types.{Service, StoredSession, UploadSession}
use fssvrgo.Prelude.Int.{pos}
use fssvrgo.Transfer.Exec.{remove_temp, answer, ◌>>=◌}
use fssvrgo.Transfer.Upload.{load_upload, put_upload}
use fssvrgo.Transfer.Complete.{CompleteIo, verify_hash, encrypt_temp, store_temp, save_metadata}
use fssvrgo.Transfer.Upload.Complete.{
  CompleteUploadResult, complete_upload, found_complete, store_upload, close_temp, finish_upload,
}
use fssvrgo.Transfer.Upload.Stored.{IsStoredFile, complete_upload-IsStoredFile}
use fssvrgo.Transfer.Tests.{digest, complete_io, upload, service}

-- A client that gave a hash, and a server with a cipher
abbrev sealing_io : CompleteIo
sealing_io = record complete_io { cipher = some (λ bytes. some (7 ∷ bytes)) }

abbrev hashed_upload : UploadSession
hashed_upload = record upload { hash = "digest" }

abbrev hashed_service : Service (memory_session_store StoredSession)
hashed_service = record service { uploads = ("u", hashed_upload) ∷ [] }

abbrev stored : CompleteUploadResult
stored = record {
  file_id = "f1";
  hash_provided = true;
  hash_verified = true;
  uploaded_size = pos 2;
}

complete_upload-IsStoredFile_example :
    IsStoredFile digest sealing_io hashed_upload
      (1 ∷ 2 ∷ [])
      (complete_upload digest sealing_io "u" 9 hashed_service).1
unfolding lookup complete_upload found_complete load_upload store_upload close_temp put_upload
    insert verify_hash encrypt_temp store_temp remove_temp erase save_metadata finish_upload answer
    ◌>>=◌
complete_upload-IsStoredFile_example =
    complete_upload-IsStoredFile digest sealing_io "u" 9 hashed_upload (1 ∷ 2 ∷ []) hashed_service
      stored refl refl refl
