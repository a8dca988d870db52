-- ===== src/FileManager/Change.antt =====
-- DeleteFile and RenameFile of internal/service/filemanager/manager.go.
use Prim.Native.String.{◌++◌}
use fssvrgo.Prelude.{not, String, if◌then◌else◌}
use fssvrgo.Utils.{normalize_path, get_directory}
use fssvrgo.Storage.{Storage, Answer, good, bad, remove, rename}
use fssvrgo.Database.Db.{FileMetadata, Db, Result, ok, err}
use fssvrgo.Database.Files as Files
use fssvrgo.FileManager.{
  FileManager, Env, Outcome, done, failed, lock_failed, remove_failed, rename_failed, update_failed,
  target_exists, exists, get_file_metadata,
}

unfoldable pub row_removed : Result (Unit {0}) × Db → Storage → Outcome (Unit {0}) × FileManager
row_removed (ok u, db) storage = (done tt, record { storage = storage; db = db })
row_removed (err e, db) storage = (failed update_failed, record { storage = storage; db = db })

unfoldable pub object_removed :
    Env → FileMetadata → Answer (Unit {0}) × Storage → Db → Outcome (Unit {0}) × FileManager
unfolding row_removed Files.remove
object_removed env m (good u, storage) db = row_removed (Files.remove env.now m.id db) storage
object_removed env m (bad e, storage) db =
    (failed remove_failed, record { storage = storage; db = db })

unfoldable pub found_delete :
    Env → String → Outcome FileMetadata × FileManager → Outcome (Unit {0}) × FileManager
unfolding object_removed remove
found_delete env path (done m, fm) = object_removed env m (remove path fm.storage) fm.db
found_delete env path (failed e, fm) = (failed e, fm)

-- DeleteFile
unfoldable pub delete_file : Env → String → FileManager → Outcome (Unit {0}) × FileManager
unfolding normalize_path get_file_metadata found_delete
delete_file env path fm =
    if not env.lock_ok
    then (failed lock_failed, fm)
    else found_delete env (normalize_path path) (get_file_metadata (normalize_path path) fm)

-- A row that cannot be updated moves the object back.
unfoldable pub row_moved :
    String → String → Result (Unit {0}) × Db → Storage → Outcome (Unit {0}) × FileManager
unfolding rename
row_moved old new (ok u, db) storage = (done tt, record { storage = storage; db = db })
row_moved old new (err e, db) storage =
    (failed update_failed, record { storage = (rename new old storage).1; db = db })

unfoldable pub object_moved :
    Env
    → String
    → String
    → String
    → FileMetadata
    → Answer (Unit {0}) × Storage
    → Db
    → Outcome (Unit {0}) × FileManager
unfolding row_moved Files.update_row
object_moved env old new name m (good u, storage) db =
    row_moved old new
      (Files.update_row (record m { path = new; name = name; updated_at = env.now }) db) storage
object_moved env old new name m (bad e, storage) db =
    (failed rename_failed, record { storage = storage; db = db })

abbrev pub new_path : String → String → String
new_path old name = normalize_path ((get_directory old ++ "/") ++ name)

-- The code holds the lock of the old path only; that nothing else works on the new path between the
-- check and the rename is an assumption.
unfoldable pub found_rename :
    Env → String → String → Outcome FileMetadata × FileManager → Outcome (Unit {0}) × FileManager
unfolding normalize_path get_directory exists object_moved rename
found_rename env old name (failed e, fm) = (failed e, fm)
found_rename env old name (done m, fm0) =
    let new = new_path old name in
    let (there, fm) = exists new fm0 in
    if there
    then (failed target_exists, fm)
    else object_moved env old new name m (rename old new fm.storage) fm.db

-- RenameFile
unfoldable pub rename_file : Env → String → String → FileManager → Outcome (Unit {0}) × FileManager
unfolding normalize_path get_file_metadata found_rename
rename_file env path name fm =
    let old = normalize_path path in
    if not env.lock_ok
    then (failed lock_failed, fm)
    else found_rename env old name (get_file_metadata old fm)
