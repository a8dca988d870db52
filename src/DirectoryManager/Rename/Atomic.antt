-- ===== src/DirectoryManager/Rename/Atomic.antt =====
-- RenameDirectory of internal/service/directory/manager.go renames all rows or none.
use fssvrgo.Prelude.{ℕ, true, String, some, List, str_eq, ◌≡◌}
use fssvrgo.DirectoryManager.Rename.Rows.{Moves}
use fssvrgo.Storage.{Storage}
use fssvrgo.Database.Table.{select_one, update, is_distinct}
use fssvrgo.Database.Db.{FileMetadata, DirectoryMetadata, ApiKey, Db}
use fssvrgo.Database.Directories as Directories
use fssvrgo.Database.Batch.{file_table, directory_table}
use fssvrgo.Database.Batch.Atomic.{OnlyFaults}
use fssvrgo.DirectoryManager.{DirectoryManager, Outcome, done, failed, Env}
use fssvrgo.DirectoryManager.Rename.{new_path}

-- The tables after the rename of the row `id` and of what is below
abbrev pub Relocated : (ℕ → ℕ) → String → String → String → String → String → Db → Db → Type 0
Relocated fold old new name now id db db' =
    Moves file_table fold old new now db.files db'.files
    × ((rows : List DirectoryMetadata) × Moves directory_table fold old new now db.directories rows
        × (db'.directories
            ≡ update (λ r. str_eq r.id id)
                (λ r. record r { path = new; name = name; updated_at = now }) rows))
    × (db'.api_keys ≡ db.api_keys)

-- What the statements on the files keep, and what those on the directories keep
abbrev beside_files : Db → List DirectoryMetadata × List ApiKey
beside_files db = (db.directories, db.api_keys)

abbrev beside_directories : Db → List FileMetadata × List ApiKey
beside_directories db = (db.files, db.api_keys)

-- What a rename of the directory `old` ends with: all rows below it and its own at their new paths,
-- or an error with every table and object as it was
abbrev pub AllRenamed :
    (ℕ → ℕ) → Env → String → String → DirectoryManager → Outcome × DirectoryManager → Type 0
AllRenamed fold env old name dm (failed e, dm') = OnlyFaults dm.db dm'.db × (dm'.store ≡ dm.store)
AllRenamed fold env old name dm (done, dm') =
    (row : DirectoryMetadata) × (select_one (Directories.is_live_at old) dm.db.directories
      ≡ some row)
    × Relocated fold old (new_path old name) name env.now row.id dm.db dm'.db

-- A later state of the manager in which the tables and the store are as they were
abbrev Same : DirectoryManager → DirectoryManager → Type 0
Same dm dm' = OnlyFaults dm.db dm'.db × (dm'.store ≡ dm.store)

module _ (fold : ℕ → ℕ) (tree : String → String → Storage → Storage) (env : Env) (old name : String)
    (dm : DirectoryManager) (apart : is_distinct (λ r. r.id) dm.db.files ≡ true)
    (apart' : is_distinct (λ r. r.id) dm.db.directories ≡ true) where
  abbrev Ends : Outcome × DirectoryManager → Type 0
  Ends = AllRenamed fold env old name dm
