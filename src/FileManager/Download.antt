-- ===== src/FileManager/Download.antt =====
-- The downloads of internal/service/filemanager/manager.go.
use fssvrgo.Prelude.{ℕ, String, Option, none, some, List}
use fssvrgo.Prelude.Int.{ℤ}
use fssvrgo.Utils.{normalize_path}
use fssvrgo.Storage.{Storage, Answer, good, bad, read, read_at}
use fssvrgo.Database.Db.{FileMetadata, Db}
use fssvrgo.FileManager.{
  FileManager, Outcome, done, failed, read_failed, metadata_required, get_file_metadata,
}

unfoldable pub read_out : Answer (List ℕ) × Storage → Db → Outcome (List ℕ) × FileManager
read_out (good bytes, storage) db = (done bytes, record { storage = storage; db = db })
read_out (bad e, storage) db = (failed read_failed, record { storage = storage; db = db })

unfoldable pub downloaded :
    Outcome FileMetadata × FileManager
    → (Storage → Answer (List ℕ) × Storage)
    → Outcome (List ℕ) × FileManager
unfolding read_out
downloaded (done m, fm) reads = read_out (reads fm.storage) fm.db
downloaded (failed e, fm) reads = (failed e, fm)

-- DownloadFile
unfoldable pub download_file : String → FileManager → Outcome (List ℕ) × FileManager
unfolding normalize_path get_file_metadata downloaded read
download_file path fm =
    downloaded (get_file_metadata (normalize_path path) fm) (read (normalize_path path))

-- DownloadFileAt
unfoldable pub download_file_at : String → ℤ → ℤ → FileManager → Outcome (List ℕ) × FileManager
unfolding normalize_path get_file_metadata downloaded read_at
download_file_at path size offset fm =
    downloaded (get_file_metadata (normalize_path path) fm)
      (read_at (normalize_path path) size offset)

-- DownloadFileData, and DownloadFileDataAt
unfoldable pub download_file_data :
    Option FileMetadata → FileManager → Outcome (List ℕ) × FileManager
unfolding normalize_path read_out read
download_file_data none fm = (failed metadata_required, fm)
download_file_data (some m) fm = read_out (read (normalize_path m.path) fm.storage) fm.db

unfoldable pub download_file_data_at :
    Option FileMetadata → ℤ → ℤ → FileManager → Outcome (List ℕ) × FileManager
unfolding normalize_path read_out read_at
download_file_data_at none size offset fm = (failed metadata_required, fm)
download_file_data_at (some m) size offset fm =
    read_out (read_at (normalize_path m.path) size offset fm.storage) fm.db
