-- ===== src/Transfer/Tests/Downloads.antt =====
-- A download at a concrete state, and the cleanup of expired sessions.
use fssvrgo.Prelude.{
  some, List, ℕ, Option, false, split, ◌-◌, true, String, none, [], ◌∷◌, ◌≡◌, refl, lookup, drop,
}
use fssvrgo.Prelude.Int.{pos}
use fssvrgo.Distributed.Session.Memory.{memory_session_store, empty_store, delete_succeeds}
use fssvrgo.Transfer.Download.{
  CreateIo, create_download_session, DownloadSession, DownloadRecord, Downloads, failed,
  session_not_found, download_chunk, end_download,
}
use fssvrgo.Transfer.Download.Chunk.{end_download-refused}
use fssvrgo.Transfer.Download.Whole.{Serves, create_download_session-Serves}
use fssvrgo.Utils.{normalize_path}
use fssvrgo.Database.Db.{FileMetadata}
use fssvrgo.Database.Files.{get_by_path}
use fssvrgo.Transfer.Slots.{IsAccounted}
use fssvrgo.Transfer.Cleanup.{cleanup_expired_sessions}
use fssvrgo.Transfer.Cleanup.Expired.{unexpired, cleanup_expired_sessions-left}
use fssvrgo.Transfer.Tests.{service, service-IsAccounted}

abbrev session : DownloadSession
session = record {
  file_id = "f";
  file_path = "a";
  total_size = pos 5;
  downloaded_size = pos 0;
  client_id = "c";
  created_at = 0;
  updated_at = 0;
  chunk_count = pos 0;
  decrypted = none;
  decrypted_path = none;
}

abbrev downloads : Downloads (memory_session_store DownloadRecord)
downloads = record {
  sessions = ("d", session) ∷ [];
  temp_files = [];
  storage = record { inside = λ p. true; files = ("a", 1 ∷ 2 ∷ 3 ∷ 4 ∷ 5 ∷ []) ∷ []; faults = [] };
  db = record { files = []; directories = []; api_keys = []; faults = [] };
  store = empty_store DownloadRecord;
}

-- A cipher that puts one byte before a file, and the encrypted file
abbrev drop_one : List ℕ → Option (List ℕ)
drop_one bytes = some (drop 1 bytes)

abbrev io : CreateIo
io = record { decrypt = some drop_one; create_ok = true; reopen_ok = true; stat_ok = true }

abbrev row : FileMetadata
row = record {
  id = "f";
  path = "a";
  name = "a";
  size = pos 4;
  hash = "";
  storage_type = "local";
  storage_location = "";
  created_at = "";
  updated_at = "";
  is_deleted = false;
}

abbrev sealed : Downloads (memory_session_store DownloadRecord)
sealed = record downloads {
  db = record { files = row ∷ []; directories = []; api_keys = []; faults = [] };
}

create_download_session-Serves_example :
    Serves "n" (2 ∷ 3 ∷ 4 ∷ 5 ∷ []) (create_download_session io "/a" "c" "n" 9 sealed)
unfolding lookup normalize_path split get_by_path
create_download_session-Serves_example =
    create_download_session-Serves io "/a" "c" "n" 9 row (1 ∷ 2 ∷ 3 ∷ 4 ∷ 5 ∷ [])
      (2 ∷ 3 ∷ 4 ∷ 5 ∷ []) sealed refl refl refl refl refl refl refl refl refl

end_download-refused_example :
    (download_chunk "d" (pos 2) (pos 1) 9 (end_download "d" downloads).1).0
    ≡ failed session_not_found
unfolding lookup
end_download-refused_example =
    end_download-refused "d" session (pos 2) (pos 1) 9 downloads refl
      (delete_succeeds DownloadRecord downloads.store "download" "d")

cleanup_expired_sessions-left_example :
    IsAccounted (cleanup_expired_sessions 8000 7200 service)
    × ((id : String)
        → lookup id (cleanup_expired_sessions 8000 7200 service).uploads
          ≡ unexpired (8000 - 7200) (λ u. u.created_at) (lookup id service.uploads))
    × ((id : String)
        → lookup id (cleanup_expired_sessions 8000 7200 service).multiparts
          ≡ unexpired (8000 - 7200) (λ m. m.created_at) (lookup id service.multiparts))
cleanup_expired_sessions-left_example =
    cleanup_expired_sessions-left 8000 7200 service service-IsAccounted
