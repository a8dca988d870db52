-- ===== src/DirectoryManager/Rename.antt =====
-- RenameDirectory of internal/service/directory/manager.go. `tree` is what LocalStorage.Rename does to
-- a directory: the file system's os.Rename, which moves what is below it or fails; its error is only
-- logged. The rows are read before the transaction begins, and the lock of the directory does not keep
-- uploads of files below it away: that no request comes in between is an assumption.
pub mod Atomic
pub mod Rows
use Prim.Native.String.{◌++◌}
use fssvrgo.Prelude.{
  ℕ, Bool, not, ◌&&◌, String, Option, none, some, List, [], ◌∷◌, if◌then◌else◌, is_some,
}
use fssvrgo.Utils.{normalize_path, get_directory}
use fssvrgo.Storage.{Storage, rename}
use fssvrgo.Database.Db.{FileMetadata, DirectoryMetadata, Db, Result, ok, err, query, exec}
use fssvrgo.Database.Directories as Directories
use fssvrgo.Database.Batch.{file_table, directory_table, transaction, next}
use fssvrgo.Database.Batch.Move.{item_path, rows_below, move_row, move_all}
use fssvrgo.DirectoryManager.{
  DirectoryManager, Outcome, done, failed, Env, exists, is_inside, lock_failed, already_exists,
  directory_not_found, rename_unsupported, statement_failed,
}

-- newPath
abbrev pub new_path : String → String → String
new_path old name = normalize_path ((get_directory old ++ "/") ++ name)

-- store.Rename of the objects of the files, each error only logged
unfoldable pub move_objects : String → String → List FileMetadata → Storage → Storage
unfolding rename item_path
move_objects old new [] st = st
move_objects old new (r ∷ rest) st =
    move_objects old new rest (rename r.path (item_path old new r.path) st).1

unfoldable pub store_moved :
    (String → String → Storage → Storage)
    → String
    → String
    → List FileMetadata
    → Option Storage
    → Option Storage
unfolding move_objects
store_moved tree old new files none = none
store_moved tree old new files (some st) = some (tree old new (move_objects old new files st))

module _ {A : Type 0} where
  -- An early return on the error of a query
  unfoldable pub answered :
      DirectoryManager
      → Result A × Db
      → (A → DirectoryManager → Outcome × DirectoryManager)
      → Outcome × DirectoryManager
  answered dm (err e, db) go = (failed statement_failed, record dm { db = db })
  answered dm (ok a, db) go = go a (record dm { db = db })

-- The statements of the transaction
unfoldable pub move_rows :
    String
    → String
    → String
    → String
    → String
    → List FileMetadata
    → List DirectoryMetadata
    → Db
    → Result (Unit {0}) × Db
unfolding next move_all exec move_row
move_rows old new name now id files directories db =
    next (move_all file_table old new now files db) (λ d.
      next (move_all directory_table old new now directories d)
        (exec (move_row directory_table new name now id)))

-- The transaction's end, and the objects after its commit
unfoldable pub moved :
    (Option Storage → Option Storage)
    → DirectoryManager
    → Result (Unit {0}) × Db
    → Outcome × DirectoryManager
moved objects dm (err e, db) = (failed statement_failed, record dm { db = db })
moved objects dm (ok u, db) = (done, record dm { db = db; store = objects dm.store })

unfoldable pub move_directory :
    (ℕ → ℕ)
    → (String → String → Storage → Storage)
    → Env
    → String
    → String
    → String
    → String
    → DirectoryManager
    → Outcome × DirectoryManager
unfolding answered query rows_below is_inside moved store_moved transaction move_rows
move_directory fold tree env old new name id dm0 =
    answered dm0 (query (rows_below file_table (is_inside fold old)) dm0.db) (λ files dm1.
      answered dm1 (query (rows_below directory_table (is_inside fold old)) dm1.db)
        (λ directories dm2.
          moved (store_moved tree old new files) dm2
            (transaction (move_rows old new name env.now id files directories) dm2.db)))

unfoldable pub found_directory :
    (ℕ → ℕ)
    → (String → String → Storage → Storage)
    → Env
    → String
    → String
    → Option DirectoryMetadata
    → DirectoryManager
    → Outcome × DirectoryManager
unfolding exists move_directory normalize_path get_directory
found_directory fold tree env old name none dm = (failed directory_not_found, dm)
found_directory fold tree env old name (some row) dm =
    let new = new_path old name in
    let (there, db) = exists new dm.db in
    if there
    then (failed already_exists, record dm { db = db })
    else move_directory fold tree env old new name row.id (record dm { db = db })

-- RenameDirectory
unfoldable pub rename_directory :
    (ℕ → ℕ)
    → (String → String → Storage → Storage)
    → Env
    → String
    → String
    → DirectoryManager
    → Outcome × DirectoryManager
unfolding normalize_path answered Directories.get_by_path found_directory
rename_directory fold tree env path name dm =
    let old = normalize_path path in
    if is_some dm.store && not dm.is_local
    then (failed rename_unsupported, dm)
    else if not env.lock_ok
    then (failed lock_failed, dm)
    else answered dm (Directories.get_by_path (normalize_path old) dm.db)
        (found_directory fold tree env old name)
