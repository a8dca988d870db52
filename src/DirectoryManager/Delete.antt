-- ===== src/DirectoryManager/Delete.antt =====
-- What DeleteDirectory of internal/service/directory/manager.go leaves.
use fssvrgo.Prelude.{
  ℕ, ◌≤◌, ◌<◌, Bool, true, not, String, Option, none, some, List, str_eq, if◌then◌else◌, ◌≡◌, refl,
  sym, ap, ◌∙◌, subst, arith, if_rule, ltb,
}
use fssvrgo.Utils.{normalize_path}
use fssvrgo.Database.Table.{select_one, count, update, checked, checked-some}
use fssvrgo.Database.Db.{
  FileMetadata, DirectoryMetadata, Db, ok, err, query_rule, exec_rule, rest_of,
}
use fssvrgo.Database.Directories as Directories
use fssvrgo.Database.Directories.{update_directories, removed_at}
use fssvrgo.Database.Batch.{Drained, file_table, directory_table}
use fssvrgo.Database.Batch.Drain.{drain-Ends, remaining, is_below, count-update}
use fssvrgo.Database.Batch.Frame.{Apart, drain_part}
use fssvrgo.DirectoryManager.{
  DirectoryManager, DirectoryError, Outcome, done, failed, Env, exists, ended, is_inside, removed,
  remove_itself, delete_files, delete_directories, after_loop, delete_all, delete_directory,
  remove_objects, remove_markers, statement_failed,
}
use fssvrgo.DirectoryManager.Below.{IsEmptyBelow, count_zero-IsEmptyBelow}

-- How many files and how many directories the database has below a path
abbrev pub files_in : (ℕ → ℕ) → String → Db → ℕ
files_in fold path db = remaining file_table (is_inside fold path) db

abbrev pub directories_in : (ℕ → ℕ) → String → Db → ℕ
directories_in fold path db = remaining directory_table (is_inside fold path) db

directories-Apart : Apart file_table (λ db. db.directories)
directories-Apart = record { faults = λ fs db. refl; put = λ rs db. refl }

files-Apart : Apart directory_table (λ db. db.files)
files-Apart = record { faults = λ fs db. refl; put = λ rs db. refl }

pub update_directories_rows :
    (test : DirectoryMetadata → Bool) (set : DirectoryMetadata → DirectoryMetadata) (db db' : Db)
    → update_directories test set db ≡ some db'
    → (db'.files ≡ db.files) × (db'.directories ≡ update test set db.directories)
unfolding update_directories
update_directories_rows test set db db' =
    go (checked (λ r. r.id) (λ r. r.path) (update test set db.directories)) refl
  where
    go :
        (o : Option (List DirectoryMetadata))
        → checked (λ r. r.id) (λ r. r.path) (update test set db.directories) ≡ o
        → (elim o [
          | none ↦ none
          | some directories ↦ some (record db { directories = directories })
        ])
          ≡ some db'
        → (db'.files ≡ db.files) × (db'.directories ≡ update test set db.directories)
    go none e h = absurd (grind arith)
    go (some rows) e h =
        let same : record db { directories = rows } ≡ db' = grind arith in
        (
          sym (ap (λ (d : Db). d.files) same),
          sym (ap (λ (d : Db). d.directories) same)
              ∙ (checked-some (λ (r : DirectoryMetadata). r.id) (λ r. r.path)
                  (update test set db.directories) rows e).0,
        )

-- The removal of the directory's own row keeps the files, and brings no directory back.
abbrev pub Keeps : (ℕ → ℕ) → String → Db → Outcome × DirectoryManager → Type 0
Keeps fold path db w =
    (w.1.db.files ≡ db.files) × (directories_in fold path w.1.db ≤ directories_in fold path db)

pub remove_itself-Keeps :
    (fold : ℕ → ℕ) (env : Env) (path : String) (dm : DirectoryManager)
    → Keeps fold path dm.db (remove_itself env path dm)
unfolding remove_itself removed Directories.get_by_path Directories.remove ended rest_of
remove_itself-Keeps fold env path dm =
    let row_at : Db → Option DirectoryMetadata =
      λ d. select_one (Directories.is_live_at (normalize_path path)) d.directories in
    query_rule (λ w. Keeps fold path dm.db (removed env dm w)) row_at dm.db (refl, omega arith)
      (go (row_at dm.db))
  where
    go :
        (o : Option DirectoryMetadata)
        → Keeps fold path dm.db (removed env dm (ok o, rest_of dm.db))
    go none = (refl, omega arith)
    go (some row) =
        exec_rule (λ w. Keeps fold path dm.db (ended dm w))
          (update_directories (λ r. str_eq r.id row.id) (removed_at env.now)) (rest_of dm.db)
          (λ e. (refl, omega arith))
          (λ d h.
            let (files, rows) = update_directories_rows _ _ (rest_of (rest_of dm.db)) d h in
            (
              files,
              rw rows (
                  count-update (is_below directory_table (is_inside fold path)) _ _
                    dm.db.directories (λ r. ground arith)),
            ))

-- A recursive deletion that ended: without an error every row below the directory is deleted.
pub record Emptied (fold : ℕ → ℕ) (path : String) (o : Option (Outcome × DirectoryManager))
    : Type 0 where
  pub result : Outcome × DirectoryManager
  pub ended : o ≡ some result
  pub no_files :
      result.0 ≡ done → IsEmptyBelow (λ r. r.path) (λ r. r.is_deleted) path result.1.db.files
  pub no_directories :
      result.0 ≡ done → IsEmptyBelow (λ r. r.path) (λ r. r.is_deleted) path result.1.db.directories

-- An early return
stopped :
    (fold : ℕ → ℕ) (path : String) (e : DirectoryError) (dm : DirectoryManager)
    → Emptied fold path (some (failed e, dm))
stopped fold path e dm = record {
  result = (failed e, dm);
  ended = refl;
  no_files = λ h. absurd (grind arith);
  no_directories = λ h. absurd (grind arith);
}

after_directories :
    (fold : ℕ → ℕ) (env : Env) (path : String) (dm : DirectoryManager) (left : Drained)
    → files_in fold path dm.db ≡ 0
    → left.1.files ≡ dm.db.files
    → (left.0 ≡ ok tt → directories_in fold path left.1 ≡ 0)
    → Emptied fold path (after_loop dm (λ dm2. some (remove_itself env path dm2)) (some left))
unfolding after_loop
after_directories fold env path dm (err e, db, store) none_left same empty =
    stopped fold path statement_failed (record dm { db = db; store = store })
after_directories fold env path dm (ok u, db, store) none_left same empty =
    let dm2 : DirectoryManager = record dm { db = db; store = store } in
    let keeps = remove_itself-Keeps fold env path dm2 in
    let zero_left = empty refl in
    record {
      result = remove_itself env path dm2;
      ended = refl;
      no_files = λ h.
          count_zero-IsEmptyBelow (λ (r : FileMetadata). r.path) (λ r. r.is_deleted) fold path
            (remove_itself env path dm2).1.db.files
            (ap (count (is_below file_table (is_inside fold path))) (keeps.0 ∙ same) ∙ none_left);
      no_directories = λ h.
          count_zero-IsEmptyBelow (λ (r : DirectoryMetadata). r.path) (λ r. r.is_deleted) fold path
            (remove_itself env path dm2).1.db.directories (omega (arith, keeps.1, zero_left));
    }

after_files :
    (fold : ℕ → ℕ) (env : Env) (fuel : ℕ) (path : String) (dm : DirectoryManager) (left : Drained)
    → directories_in fold path dm.db < fuel
    → left.1.directories ≡ dm.db.directories
    → (left.0 ≡ ok tt → files_in fold path left.1 ≡ 0)
    → Emptied fold path (
        after_loop dm
          (λ dm1.
            after_loop dm1
              (λ dm2. some (remove_itself env path dm2))
              (delete_directories fold env.now path dm1.is_local fuel dm1.db dm1.store))
          (some left))
unfolding after_loop delete_directories
after_files fold env fuel path dm (err e, db, store) d same empty =
    stopped fold path statement_failed (record dm { db = db; store = store })
after_files fold env fuel path dm (ok u, db, store) d same empty =
    let dm1 : DirectoryManager = record dm { db = db; store = store } in
    let clean = if dm.is_local then remove_markers else λ b st. st in
    let loop = drain-Ends directory_table env.now (is_inside fold path) clean fuel db store (
      subst (λ rows. count (is_below directory_table (is_inside fold path)) rows < fuel) (sym same)
        d) in
    subst (λ o. Emptied fold path (after_loop dm1 (λ dm2. some (remove_itself env path dm2)) o))
      (sym loop.ended)
      (after_directories fold env path dm1 loop.left (empty refl)
        (drain_part directory_table (λ db. db.files) files-Apart env.now (is_inside fold path) clean
          fuel db store loop.left loop.ended)
        loop.empty)

delete_all-Emptied :
    (fold : ℕ → ℕ) (env : Env) (fuel : ℕ) (path : String) (dm : DirectoryManager)
    → files_in fold path dm.db < fuel
    → directories_in fold path dm.db < fuel
    → Emptied fold path (delete_all fold env fuel path dm)
unfolding delete_all delete_files
delete_all-Emptied fold env fuel path dm f d =
    let loop =
      drain-Ends file_table env.now (is_inside fold path) remove_objects fuel dm.db dm.store f in
    subst
      (λ o. Emptied fold path (
        after_loop dm
          (λ dm1.
            after_loop dm1 (λ dm2. some (remove_itself env path dm2))
              (delete_directories fold env.now path dm1.is_local fuel dm1.db dm1.store))
          o))
      (sym loop.ended)
      (after_files fold env fuel path dm loop.left d
        (drain_part file_table (λ db. db.directories) directories-Apart env.now
          (is_inside fold path) remove_objects fuel dm.db dm.store loop.left loop.ended)
        loop.empty)

pub exists_keeps :
    (path : String) (db : Db)
    → ((Directories.exists path db).1.files ≡ db.files)
      × ((Directories.exists path db).1.directories ≡ db.directories)
unfolding Directories.exists rest_of
exists_keeps path db =
    query_rule (λ w. (w.1.files ≡ db.files) × (w.1.directories ≡ db.directories))
      (λ d. ltb 0 (count (Directories.is_live_at (normalize_path path)) d.directories)) db
      (refl, refl) (refl, refl)

-- A recursive DeleteDirectory ends, whatever the driver, the lock and the storage answer, if no other
-- request changes the tables meanwhile: fuel above the number of rows that its queries find is enough
-- for its loops. Where it returns no error, every row of files and of directories whose path is the
-- directory's, a slash and any further text is deleted.
pub delete_directory-Emptied :
    (fold : ℕ → ℕ) (env : Env) (fuel : ℕ) (p : String) (dm : DirectoryManager)
    → files_in fold (normalize_path p) dm.db < fuel
    → directories_in fold (normalize_path p) dm.db < fuel
    → Emptied fold (normalize_path p) (delete_directory fold env fuel p true dm)
unfolding delete_directory exists
delete_directory-Emptied fold env fuel p dm f d =
    let path = normalize_path p in
    let looked = Directories.exists (normalize_path path) dm.db in
    let keeps = exists_keeps (normalize_path path) dm.db in
    if_rule (Emptied fold path) (not env.lock_ok) (λ h. stopped fold path _ _)
      (λ h.
        if_rule (Emptied fold path) (not (exists path dm.db).0) (λ e. stopped fold path _ _)
          (λ e.
            delete_all-Emptied fold env fuel path (record dm { db = looked.1 })
              (subst (λ rows. count (is_below file_table (is_inside fold path)) rows < fuel)
                (sym keeps.0) f)
              (subst (λ rows. count (is_below directory_table (is_inside fold path)) rows < fuel)
                (sym keeps.1) d)))
