-- ===== src/Database/Directories.antt =====
-- DirectoryMetadataService of internal/database/metadata.go. The clock is an argument. `order` stands for
-- the ORDER BY of a listing: the database's sort.
use Prim.Native.String.{◌++◌}
use fssvrgo.Prelude.{
  ℕ, Bool, true, false, not, ◌&&◌, String, Option, none, some, List, ◌∷◌, str_eq, if◌then◌else◌,
  take, drop, ltb, ◌*◌, ◌-◌,
}
use fssvrgo.Utils.{normalize_path}
use fssvrgo.Database.Table.{select, select_one, count, update, checked}
use fssvrgo.Database.Db.{DirectoryMetadata, Db, Result, ok, err, query, exec}
use fssvrgo.Database.Like.{like, escape_like_pattern}

-- WHERE path = ? AND is_deleted = FALSE, and = TRUE
unfoldable pub is_live_at : String → DirectoryMetadata → Bool
is_live_at path r = str_eq r.path path && not r.is_deleted

unfoldable pub is_dead_at : String → DirectoryMetadata → Bool
is_dead_at path r = str_eq r.path path && r.is_deleted

-- The statements that write, with the constraints of initDirectoryTable
unfoldable pub update_directories :
    (DirectoryMetadata → Bool) → (DirectoryMetadata → DirectoryMetadata) → Db → Option Db
unfolding checked update
update_directories test set db =
    elim (checked (λ r. r.id) (λ r. r.path) (update test set db.directories)) [
      | none ↦ none
      | some directories ↦ some (record db { directories = directories })
    ]

unfoldable pub insert_directory : DirectoryMetadata → Db → Option Db
unfolding checked
insert_directory m db = elim (checked (λ r. r.id) (λ r. r.path) (m ∷ db.directories)) [
  | none ↦ none
  | some directories ↦ some (record db { directories = directories })
]

-- UPDATE directories SET id = ?, name = ?, created_at = ?, updated_at = ?, is_deleted = FALSE
abbrev pub restored : DirectoryMetadata → DirectoryMetadata → DirectoryMetadata
restored m r = record m { path = r.path; is_deleted = false }

unfoldable pub created :
    DirectoryMetadata → Result (Option DirectoryMetadata) × Db → Result (Unit {0}) × Db
unfolding exec update_directories insert_directory
created m (ok (some r), db) = exec (update_directories (λ r. str_eq r.path m.path) (restored m)) db
created m (ok none, db) = exec (insert_directory m) db
created m (err e, db) = exec (insert_directory m) db

-- Create
unfoldable pub create : DirectoryMetadata → Db → Result (Unit {0}) × Db
unfolding normalize_path created query select_one is_dead_at
create m0 db =
    let m = record m0 { path = normalize_path m0.path } in
    created m (query (λ db. select_one (is_dead_at m.path) db.directories) db)

-- UPDATE directories SET path = ?, name = ?, ... : all columns but created_at
abbrev pub replaced : DirectoryMetadata → DirectoryMetadata → DirectoryMetadata
replaced m r = record m { id = r.id; created_at = r.created_at }

-- Update
unfoldable pub update_row : DirectoryMetadata → Db → Result (Unit {0}) × Db
unfolding exec update_directories
update_row m db = exec (update_directories (λ r. str_eq r.id m.id) (replaced m)) db

abbrev pub removed_at : String → DirectoryMetadata → DirectoryMetadata
removed_at now r = record r { is_deleted = true; updated_at = now }

-- Remove
unfoldable pub remove : String → String → Db → Result (Unit {0}) × Db
unfolding exec update_directories
remove now id db = exec (update_directories (λ r. str_eq r.id id) (removed_at now)) db

-- GetById
unfoldable pub get_by_id : String → Db → Result (Option DirectoryMetadata) × Db
unfolding query select_one
get_by_id id db =
    query (λ db. select_one (λ r. str_eq r.id id && not r.is_deleted) db.directories) db

-- GetByPath
unfoldable pub get_by_path : String → Db → Result (Option DirectoryMetadata) × Db
unfolding query select_one normalize_path is_live_at
get_by_path path db = query (λ db. select_one (is_live_at (normalize_path path)) db.directories) db

-- Exists
unfoldable pub exists : String → Db → Result Bool × Db
unfolding query count normalize_path is_live_at
exists path db = query (λ db. ltb 0 (count (is_live_at (normalize_path path)) db.directories)) db

-- List, at a page of at least 1 and a page size
unfoldable pub list_directories :
    (ℕ → ℕ)
    → (List DirectoryMetadata → List DirectoryMetadata)
    → String
    → ℕ
    → ℕ
    → Db
    → Result (List DirectoryMetadata) × Db
unfolding query select normalize_path like escape_like_pattern
list_directories fold order directory page page_size db =
    let path = normalize_path directory in
    query
      (λ db. take page_size (
        drop ((page - 1) * page_size) (
          order (
            select
              (λ r.
                not r.is_deleted
                && (if str_eq path ""
                    then true
                    else like fold (escape_like_pattern path ++ "/%") r.path))
              db.directories))))
      db
