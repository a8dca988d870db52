-- ===== src/FileManager.antt =====
-- FileManager of internal/service/filemanager/manager.go, on the database and the storage. The
-- clock, the fresh id, the hash and what the locks answer are arguments. An operation runs under
-- the lock of its path, and what it does is one step here. For the new path of a rename, which
-- the code does not lock, that is an assumption.
mod Tests
pub mod Download
pub mod Change
pub mod Upload
pub mod Lookup
pub mod Rename
pub mod Delete
use Prim.Native.String.{◌++◌}
use fssvrgo.Prelude.{
  ℕ, Bool, true, false, not, String, Option, none, some, List, str_eq, if◌then◌else◌, length,
}
use fssvrgo.Prelude.Int.{ℤ, pos}
use fssvrgo.Utils.{normalize_path, get_file_name, get_directory}
use fssvrgo.Storage.{Storage, Answer, good, bad, write, read, read_at, remove, rename, get_size}
use fssvrgo.Database.Db.{FileMetadata, Db, Result, ok, err}
use fssvrgo.Database.Files as Files

-- FileManager
pub record FileManager : Type 0 where
  pub storage : Storage
  pub db : Db

pub data FileError : Type 0 where
  lock_failed write_failed read_failed remove_failed rename_failed : FileError
  query_failed update_failed create_failed : FileError
  file_not_found target_exists metadata_required : FileError

pub data Outcome (A : Type 0) : Type 0 where
  done : A → Outcome A
  failed : FileError → Outcome A

-- What an operation gets from outside: the lock's answer, the time, utils.GenerateUUID and the
-- storage's type
pub record Env : Type 0 where
  pub lock_ok : Bool
  pub now : String
  pub new_id : String
  pub storage_type : String

unfoldable pub answer_of : Result Bool → Bool
answer_of (ok b) = b
answer_of (err e) = false

-- Exists: an error counts as no
unfoldable pub exists : String → FileManager → Bool × FileManager
unfolding normalize_path Files.exists answer_of
exists path fm =
    let (r, db) = Files.exists (normalize_path path) fm.db in (answer_of r, record fm { db = db })

unfoldable pub found_or : Result (Option FileMetadata) → Outcome FileMetadata
found_or (ok (some m)) = done m
found_or (ok none) = failed file_not_found
found_or (err e) = failed query_failed

-- GetFileMetadata
unfoldable pub get_file_metadata : String → FileManager → Outcome FileMetadata × FileManager
unfolding normalize_path Files.get_by_path found_or
get_file_metadata path fm =
    let (r, db) = Files.get_by_path (normalize_path path) fm.db in
    (found_or r, record fm { db = db })

unfoldable pub updated :
    FileMetadata → Result (Unit {0}) × Db → Storage → Outcome FileMetadata × FileManager
updated m (ok u, db) storage = (done m, record { storage = storage; db = db })
updated m (err e, db) storage = (failed update_failed, record { storage = storage; db = db })

-- The row of an overwritten file
abbrev pub overwritten : Env → ℤ → String → FileMetadata → FileMetadata
overwritten env size hash m = record m {
  size = size;
  hash = hash;
  updated_at = env.now;
  is_deleted = false;
}

-- The row of a new file
abbrev pub new_row : Env → String → ℤ → String → FileMetadata
new_row env path size hash = record {
  id = env.new_id;
  path = path;
  name = get_file_name path;
  size = size;
  hash = hash;
  storage_type = env.storage_type;
  storage_location = "";
  created_at = env.now;
  updated_at = env.now;
  is_deleted = false;
}

-- A row that cannot be created takes the object away again.
unfoldable pub created :
    FileMetadata → Result (Unit {0}) × Db → Storage → Outcome FileMetadata × FileManager
unfolding remove normalize_path
created m (ok u, db) storage =
    (done (record m { path = normalize_path m.path }), record { storage = storage; db = db })
created m (err e, db) storage =
    (failed create_failed, record { storage = (remove m.path storage).1; db = db })

-- The row of the path is overwritten or created.
unfoldable pub save_row :
    Env
    → String
    → ℤ
    → String
    → Option FileMetadata
    → FileManager
    → Outcome FileMetadata × FileManager
unfolding updated created Files.update_row Files.create
save_row env path size hash (some old) fm =
    let m = overwritten env size hash old in updated m (Files.update_row m fm.db) fm.storage
save_row env path size hash none fm =
    let m = new_row env path size hash in created m (Files.create m fm.db) fm.storage

unfoldable pub row_of : Result (Option FileMetadata) → Option FileMetadata
row_of (ok m) = m
row_of (err e) = none

module _ (sha256 : List ℕ → String) where
  unfoldable pub written :
      Env
      → String
      → List ℕ
      → Option FileMetadata
      → Db
      → Answer (Unit {0}) × Storage
      → Outcome FileMetadata × FileManager
  unfolding save_row
  written env path bytes old db (bad e, storage) =
      (failed write_failed, record { storage = storage; db = db })
  written env path bytes old db (good u, storage) =
      save_row env path (pos (length bytes)) (sha256 bytes) old
        (record { storage = storage; db = db })

  -- UploadFile, from the lookup of the row on
  unfoldable pub upload_row :
      Env → String → List ℕ → Option FileMetadata → FileManager → Outcome FileMetadata × FileManager
  unfolding written write
  upload_row env path bytes old fm = written env path bytes old fm.db (write path bytes fm.storage)

  -- UploadFile
  unfoldable pub upload_file :
      Env → String → List ℕ → FileManager → Outcome FileMetadata × FileManager
  unfolding exists normalize_path Files.get_by_path row_of upload_row
  upload_file env path0 bytes fm0 =
      let path = normalize_path path0 in
      let (there, fm) = exists path fm0 in
      let (r, db) = Files.get_by_path path fm.db in
      if not env.lock_ok
      then (failed lock_failed, fm0)
      else if there
      then upload_row env path bytes (row_of r) (record fm { db = db })
      else upload_row env path bytes none fm

  unfoldable pub streamed :
      Env → String → List ℕ → Db → Answer (Unit {0}) × Storage → Outcome FileMetadata × FileManager
  unfolding get_size Files.get_by_path row_of save_row
  streamed env path bytes db0 (bad e, storage) =
      (failed write_failed, record { storage = storage; db = db0 })
  streamed env path bytes db0 (good u, storage0) =
      let (size, storage) = get_size path storage0 in
      let (r, db) = Files.get_by_path path db0 in
      save_row env path (elim size [ good n ↦ n | bad e ↦ pos 0 ]) (sha256 bytes) (row_of r)
        (record { storage = storage; db = db })

  -- UploadFileFromReader, of a reader that gives the bytes
  unfoldable pub upload_file_from_reader :
      Env → String → List ℕ → FileManager → Outcome FileMetadata × FileManager
  unfolding normalize_path streamed write
  upload_file_from_reader env path0 bytes fm =
      let path = normalize_path path0 in
      if not env.lock_ok
      then (failed lock_failed, fm)
      else streamed env path bytes fm.db (write path bytes fm.storage)

-- GetFileSize
unfoldable pub get_file_size : String → FileManager → ℤ × FileManager
unfolding normalize_path Files.get_by_path row_of
get_file_size path fm =
    let (r, db) = Files.get_by_path (normalize_path path) fm.db in
    (elim (row_of r) [ none ↦ pos 0 | some m ↦ m.size ], record fm { db = db })
