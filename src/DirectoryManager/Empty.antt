-- ===== src/DirectoryManager/Empty.antt =====
-- DeleteDirectory of internal/service/directory/manager.go, where it is not recursive.
use fssvrgo.Prelude.{
  ℕ, zero, suc, ◌+◌, ◌<◌, false, not, String, Option, none, some, ◌≡◌, refl, sym, ap, ◌∙◌, arith,
  if_rule, str_eq, ltb, subst, Bool, List, if◌then◌else◌,
}
use fssvrgo.Utils.{normalize_path}
use fssvrgo.Database.Table.{count, select_one}
use fssvrgo.Database.Db.{
  DirectoryMetadata, FileMetadata, Db, Result, ok, query, query_rule, exec_rule, rest_of,
}
use fssvrgo.Database.Directories as Directories
use fssvrgo.Database.Directories.{update_directories, removed_at}
use fssvrgo.Storage.{Storage}
use fssvrgo.DirectoryManager.{
  lock_failed, directory_not_found, answer_of, DirectoryManager, Outcome, done, failed, not_empty,
  Env, exists, ended, removed, remove_itself, counted, delete_empty, delete_directory,
}
use fssvrgo.DirectoryManager.Below.{
  IsEmptyBelow, count_below, count_zero-IsEmptyBelow, count-count_below,
}
use fssvrgo.DirectoryManager.Delete.{files_in, directories_in, update_directories_rows}

-- The rows of both tables below a directory that are not deleted
abbrev pub rows_in : (ℕ → ℕ) → String → List FileMetadata → List DirectoryMetadata → ℕ
rows_in fold path files directories =
    count_below (λ (r : FileMetadata). r.path) (λ r. r.is_deleted) fold path files
    + count_below (λ (r : DirectoryMetadata). r.path) (λ r. r.is_deleted) fold path directories

-- What a deletion that is not recursive tells of the tables and leaves of them
abbrev pub Leaves :
    (ℕ → ℕ)
    → String
    → List FileMetadata
    → List DirectoryMetadata
    → Option Storage
    → Outcome × DirectoryManager
    → Type 0
Leaves fold path files directories store (done, dm') =
    IsEmptyBelow (λ (r : FileMetadata). r.path) (λ r. r.is_deleted) path files
    × IsEmptyBelow (λ (r : DirectoryMetadata). r.path) (λ r. r.is_deleted) path directories
    × (dm'.db.files ≡ files)
    × (dm'.store ≡ store)
Leaves fold path files directories store (failed not_empty, dm') =
    (0 < rows_in fold path files directories)
    × (dm'.db.files ≡ files)
    × (dm'.db.directories ≡ directories)
    × (dm'.store ≡ store)
Leaves fold path files directories store (failed _, dm') =
    (dm'.db.files ≡ files) × (dm'.store ≡ store)

abbrev pub WasEmpty : (ℕ → ℕ) → String → DirectoryManager → Outcome × DirectoryManager → Type 0
WasEmpty fold path dm w = Leaves fold path dm.db.files dm.db.directories dm.store w

counted-WasEmpty :
    (fold : ℕ → ℕ) (path : String) (dm0 : DirectoryManager) (n : ℕ) (db : Db)
    (next : Db → Outcome × DirectoryManager)
    → (0 < n → WasEmpty fold path dm0 (failed not_empty, record dm0 { db = db }))
    → (n ≡ 0 → WasEmpty fold path dm0 (next db))
    → WasEmpty fold path dm0 (counted dm0 (ok n, db) next)
unfolding counted
counted-WasEmpty fold path dm0 zero db next some_left h = h refl
counted-WasEmpty fold path dm0 (suc n) db next some_left h = some_left (omega arith)

module _ (fold : ℕ → ℕ) (env : Env) (path : String) (dm : DirectoryManager)
    (no_files : files_in fold path dm.db ≡ 0)
    (no_directories : directories_in fold path dm.db ≡ 0) where
  remove_itself-WasEmpty :
      (db : Db)
      → db.files ≡ dm.db.files
      → WasEmpty fold path dm (remove_itself env path (record dm { db = db }))
  unfolding remove_itself removed Directories.get_by_path Directories.remove ended rest_of
  remove_itself-WasEmpty db same =
      let row_at : Db → Option DirectoryMetadata =
        λ d. select_one (Directories.is_live_at (normalize_path path)) d.directories in
      let start : DirectoryManager = record dm { db = db } in
      query_rule (λ w. WasEmpty fold path dm (removed env start w)) row_at db (same, refl)
        (go (row_at db))
    where
      go :
          (o : Option DirectoryMetadata)
          → WasEmpty fold path dm (removed env (record dm { db = db }) (ok o, rest_of db))
      go none = (same, refl)
      go (some row) =
          exec_rule (λ w. WasEmpty fold path dm (ended (record dm { db = db }) w))
            (update_directories (λ r. str_eq r.id row.id) (removed_at env.now)) (rest_of db)
            (λ e. (same, refl))
            (λ d h. (
              count_zero-IsEmptyBelow (λ (r : FileMetadata). r.path) (λ r. r.is_deleted) fold path
                  dm.db.files no_files,
              count_zero-IsEmptyBelow (λ (r : DirectoryMetadata). r.path) (λ r. r.is_deleted) fold
                  path dm.db.directories no_directories,
              (update_directories_rows _ _ (rest_of (rest_of db)) d h).0 ∙ same,
              refl,
            ))

delete_empty-WasEmpty :
    (fold : ℕ → ℕ) (env : Env) (path : String) (dm : DirectoryManager)
    → WasEmpty fold path dm (delete_empty fold env path dm)
unfolding delete_empty rest_of counted
delete_empty-WasEmpty fold env path dm =
    let files : Db → ℕ = files_in fold path in
    let directories : Db → ℕ = directories_in fold path in
    let files_there =
      count-count_below (λ (r : FileMetadata). r.path) (λ r. r.is_deleted) fold path dm.db.files in
    let directories_there =
      count-count_below (λ (r : DirectoryMetadata). r.path) (λ r. r.is_deleted) fold path
        dm.db.directories in
    let last : Db → Outcome × DirectoryManager =
      λ db. remove_itself env path (record dm { db = db }) in
    query_rule
      (λ w. WasEmpty fold path dm (counted dm w (λ db. counted dm (query directories db) last)))
      files dm.db (refl, refl)
      (counted-WasEmpty fold path dm (files dm.db) (rest_of dm.db) _
        (λ some_left. (omega (arith, some_left, files_there), refl, refl, refl))
        (λ no_files.
          query_rule (λ w. WasEmpty fold path dm (counted dm w last)) directories (rest_of dm.db)
            (refl, refl)
            (counted-WasEmpty fold path dm (directories dm.db) (rest_of (rest_of dm.db)) last
              (λ some_left. (omega (arith, some_left, directories_there), refl, refl, refl))
              (λ no_directories.
                remove_itself-WasEmpty fold env path dm no_files no_directories
                  (rest_of (rest_of dm.db)) refl))))

exists_asks : (path : String) (db : Db) → (Directories.exists path db).1 ≡ rest_of db
unfolding Directories.exists
exists_asks path db =
    query_rule (λ w. w.1 ≡ rest_of db)
      (λ d. ltb 0 (count (Directories.is_live_at (normalize_path path)) d.directories)) db refl refl

-- A DeleteDirectory that is not recursive ends without its loops. It returns no error only if every
-- row whose path is the directory's, a slash and any further text is deleted; it refuses a directory
-- as not empty only if some row that is not deleted begins, as the database compares characters, with
-- the directory's path and a slash, and then no table changes. However it ends, the files and the
-- storage are as they were.
pub delete_directory-WasEmpty :
    (fold : ℕ → ℕ) (env : Env) (fuel : ℕ) (p : String) (dm : DirectoryManager)
    → (w : Outcome × DirectoryManager) × (delete_directory fold env fuel p false dm ≡ some w)
      × WasEmpty fold (normalize_path p) dm w
unfolding delete_directory exists rest_of
delete_directory-WasEmpty fold env fuel p dm =
    let path = normalize_path p in
    let looked = Directories.exists (normalize_path path) dm.db in
    let asked : looked.1 ≡ rest_of dm.db = exists_asks (normalize_path path) dm.db in
    let P : Option (Outcome × DirectoryManager) → Type 0 =
      λ o. (w : Outcome × DirectoryManager) × (o ≡ some w) × WasEmpty fold path dm w in
    subst
      (λ (x : Result Bool × Db). P (
        if not env.lock_ok
        then some (failed lock_failed, dm)
        else if not (answer_of x.0)
        then some (failed directory_not_found, record dm { db = x.1 })
        else some (delete_empty fold env path (record dm { db = x.1 }))))
      (ap (λ d. (looked.0, d)) (sym asked))
      (if_rule P (not env.lock_ok) (λ _. (_, refl, (refl, refl)))
        (λ _.
          if_rule P (not (answer_of looked.0)) (λ _. (_, refl, (refl, refl)))
            (λ _.
              (_, refl, delete_empty-WasEmpty fold env path (record dm { db = rest_of dm.db })))))
