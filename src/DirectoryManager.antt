-- ===== src/DirectoryManager.antt =====
-- DirectoryManager of internal/service/directory/manager.go, on the database and the storage. A
-- manager without a store has `none`. The marker that CreateDirectory makes on a local storage is a
-- directory without files, which the model of the storage does not tell from a missing one. `fold`
-- is what the database's LIKE compares of a character.
mod Tests
pub mod Below
pub mod Delete
pub mod Empty
pub mod Rename
use Prim.Native.String.{◌++◌}
use fssvrgo.Prelude.{
  ℕ, zero, suc, Bool, true, false, not, ◌&&◌, String, Option, none, some, List, [], ◌∷◌, str_eq,
  if◌then◌else◌, ltb,
}
use fssvrgo.Utils.{normalize_path, get_file_name}
use fssvrgo.Storage.{Storage, remove, remove_directory}
use fssvrgo.Database.Like.{like, escape_like_pattern}
use fssvrgo.Database.Table.{count}
use fssvrgo.Database.Db.{FileMetadata, DirectoryMetadata, Db, Result, ok, err, query}
use fssvrgo.Database.Directories as Directories
use fssvrgo.Database.Batch.{drain, Drained, file_table, directory_table}

-- DirectoryManager
pub record DirectoryManager : Type 0 where
  pub db : Db
  pub store : Option Storage
  pub is_local : Bool

pub data DirectoryError : Type 0 where
  lock_failed already_exists directory_not_found not_empty rename_unsupported : DirectoryError
  statement_failed : DirectoryError

pub data Outcome : Type 0 where
  done : Outcome
  failed : DirectoryError → Outcome

-- What an operation gets from outside: the lock's answer, the time and utils.GenerateUUID
pub record Env : Type 0 where
  pub lock_ok : Bool
  pub now : String
  pub new_id : String

unfoldable pub answer_of : Result Bool → Bool
answer_of (ok b) = b
answer_of (err e) = false

-- Exists
unfoldable pub exists : String → Db → Bool × Db
unfolding normalize_path Directories.exists answer_of
exists path db0 = let (r, db) = Directories.exists (normalize_path path) db0 in (answer_of r, db)

unfoldable pub ended : DirectoryManager → Result (Unit {0}) × Db → Outcome × DirectoryManager
ended dm (ok u, db) = (done, record dm { db = db })
ended dm (err e, db) = (failed statement_failed, record dm { db = db })

-- CreateDirectory
unfoldable pub create_directory : Env → String → DirectoryManager → Outcome × DirectoryManager
unfolding normalize_path exists ended Directories.create get_file_name
create_directory env path0 dm =
    let path = normalize_path path0 in
    let (there, db) = exists path dm.db in
    let row : DirectoryMetadata = record {
      id = env.new_id;
      path = path;
      name = get_file_name path;
      created_at = env.now;
      updated_at = env.now;
      is_deleted = false;
    } in
    if not env.lock_ok
    then (failed lock_failed, dm)
    else if there
    then (failed already_exists, record dm { db = db })
    else ended dm (Directories.create row db)

-- path LIKE ? ESCAPE '\' for the directory's escaped path and "/%"
unfoldable pub is_inside : (ℕ → ℕ) → String → String → Bool
unfolding like escape_like_pattern
is_inside fold directory path = like fold (escape_like_pattern (directory ++ "/") ++ "%") path

-- GetByPath and Remove, at the end of DeleteDirectory
unfoldable pub removed :
    Env → DirectoryManager → Result (Option DirectoryMetadata) × Db → Outcome × DirectoryManager
unfolding ended Directories.remove
removed env dm (err e, db) = (failed statement_failed, record dm { db = db })
removed env dm (ok none, db) = (failed directory_not_found, record dm { db = db })
removed env dm (ok (some row), db) = ended dm (Directories.remove env.now row.id db)

unfoldable pub remove_itself : Env → String → DirectoryManager → Outcome × DirectoryManager
unfolding removed Directories.get_by_path
remove_itself env path dm = removed env dm (Directories.get_by_path path dm.db)

-- One of the two counts of a deletion that is not recursive
unfoldable pub counted :
    DirectoryManager
    → Result ℕ × Db
    → (Db → Outcome × DirectoryManager)
    → Outcome × DirectoryManager
counted dm (err e, db) next = (failed statement_failed, record dm { db = db })
counted dm (ok zero, db) next = next db
counted dm (ok (suc n), db) next = (failed not_empty, record dm { db = db })

unfoldable pub delete_empty : (ℕ → ℕ) → Env → String → DirectoryManager → Outcome × DirectoryManager
unfolding counted query count is_inside remove_itself
delete_empty fold env path dm =
    counted dm
      (query (λ db. count (λ r. is_inside fold path r.path && not r.is_deleted) db.files) dm.db)
      (λ db1.
        counted dm
          (query (λ db. count (λ r. is_inside fold path r.path && not r.is_deleted) db.directories)
            db1)
          (λ db2. remove_itself env path (record dm { db = db2 })))

-- The best-effort removal of the objects of a batch: store.Remove, and RemoveDirectory on a local
-- storage
unfoldable pub remove_objects : List FileMetadata → Storage → Storage
unfolding remove
remove_objects [] st = st
remove_objects (r ∷ rest) st = remove_objects rest (remove r.path st).1

unfoldable pub remove_markers : List DirectoryMetadata → Storage → Storage
unfolding remove_directory
remove_markers [] st = st
remove_markers (r ∷ rest) st = remove_markers rest (remove_directory r.path st).1

-- The loop over the files, and the loop over the directories
unfoldable pub delete_files : (ℕ → ℕ) → String → String → ℕ → Db → Option Storage → Option Drained
unfolding drain is_inside remove_objects
delete_files fold now path = drain file_table now (is_inside fold path) remove_objects

unfoldable pub delete_directories :
    (ℕ → ℕ) → String → String → Bool → ℕ → Db → Option Storage → Option Drained
unfolding drain is_inside remove_markers
delete_directories fold now path is_local =
    drain directory_table now (is_inside fold path)
      (if is_local then remove_markers else λ b st. st)

unfoldable pub after_loop :
    DirectoryManager
    → (DirectoryManager → Option (Outcome × DirectoryManager))
    → Option Drained
    → Option (Outcome × DirectoryManager)
after_loop dm next none = none
after_loop dm next (some (err e, db, store)) =
    some (failed statement_failed, record dm { db = db; store = store })
after_loop dm next (some (ok u, db, store)) = next (record dm { db = db; store = store })

unfoldable pub delete_all :
    (ℕ → ℕ) → Env → ℕ → String → DirectoryManager → Option (Outcome × DirectoryManager)
unfolding delete_files delete_directories after_loop remove_itself
delete_all fold env fuel path dm0 =
    after_loop dm0
      (λ dm1.
        after_loop dm1 (λ dm2. some (remove_itself env path dm2))
          (delete_directories fold env.now path dm1.is_local fuel dm1.db dm1.store))
      (delete_files fold env.now path fuel dm0.db dm0.store)

-- DeleteDirectory; `none`: the fuel for its loops ran out
unfoldable pub delete_directory :
    (ℕ → ℕ) → Env → ℕ → String → Bool → DirectoryManager → Option (Outcome × DirectoryManager)
unfolding normalize_path exists delete_empty delete_all
delete_directory fold env fuel path0 recursive dm =
    let path = normalize_path path0 in
    let (there, db) = exists path dm.db in
    if not env.lock_ok
    then some (failed lock_failed, dm)
    else if not there
    then some (failed directory_not_found, record dm { db = db })
    else if not recursive
    then some (delete_empty fold env path (record dm { db = db }))
    else delete_all fold env fuel path (record dm { db = db })
