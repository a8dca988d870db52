-- ===== src/Database/Batch.antt =====
-- The tables of files and of directories as the deletion and the renaming of a directory use them,
-- and the transactions of internal/service/directory/manager.go.
pub mod Atomic
pub mod Drain
pub mod Frame
pub mod Move
use fssvrgo.Prelude.{
  ℕ, zero, suc, Bool, true, false, not, ◌&&◌, String, Option, none, some, List, [], ◌∷◌, str_eq,
  ◌≡◌, refl, take, if◌then◌else◌,
}
use fssvrgo.Storage.{Storage}
use fssvrgo.Database.Table.{select, update, checked}
use fssvrgo.Database.Db.{FileMetadata, DirectoryMetadata, Db, Result, ok, err, DbError, query, exec}

-- A table with soft deletion, and what its statements rely on
pub record SoftTable (R : Type 0) : Type 0 where
  pub rows : Db → List R
  pub put : List R → Db → Db
  pub id : R → String
  pub path : R → String
  pub is_deleted : R → Bool
  pub marked : String → R → R
  pub relocated : String → String → String → R → R
  pub rows_faults : (fs : List Bool) (db : Db) → rows (record db { faults = fs }) ≡ rows db
  pub rows_put : (rs : List R) (db : Db) → rows (put rs db) ≡ rs
  pub marked_deleted : (now : String) (r : R) → is_deleted (marked now r) ≡ true
  pub relocated_id : (path name now : String) (r : R) → id (relocated path name now r) ≡ id r

abbrev pub file_table : SoftTable FileMetadata
file_table = record {
  rows = λ db. db.files;
  put = λ rs db. record db { files = rs };
  id = λ r. r.id;
  path = λ r. r.path;
  is_deleted = λ r. r.is_deleted;
  marked = λ now r. record r { is_deleted = true; updated_at = now };
  relocated = λ path name now r. record r { path = path; name = name; updated_at = now };
  rows_faults = λ fs db. refl;
  rows_put = λ rs db. refl;
  marked_deleted = λ now r. refl;
  relocated_id = λ path name now r. refl;
}

abbrev pub directory_table : SoftTable DirectoryMetadata
directory_table = record {
  rows = λ db. db.directories;
  put = λ rs db. record db { directories = rs };
  id = λ r. r.id;
  path = λ r. r.path;
  is_deleted = λ r. r.is_deleted;
  marked = λ now r. record r { is_deleted = true; updated_at = now };
  relocated = λ path name now r. record r { path = path; name = name; updated_at = now };
  rows_faults = λ fs db. refl;
  rows_put = λ rs db. refl;
  marked_deleted = λ now r. refl;
  relocated_id = λ path name now r. refl;
}

-- A transaction that fails leaves the tables as they were at its beginning.
unfoldable pub rolled_back : Db → Db → Db
rolled_back before db = record before { faults = db.faults }

unfoldable pub committed : Db → Result (Unit {0}) × Db → Result (Unit {0}) × Db
unfolding rolled_back
committed before (ok u, db) = (ok tt, db)
committed before (err e, db) = (err e, rolled_back before db)

unfoldable pub finished : Db → Result (Unit {0}) × Db → Result (Unit {0}) × Db
unfolding exec committed rolled_back
finished before (ok u, db) = committed before (exec (λ db. some db) db)
finished before (err e, db) = (err e, rolled_back before db)

unfoldable pub started :
    Db → (Db → Result (Unit {0}) × Db) → Result (Unit {0}) × Db → Result (Unit {0}) × Db
unfolding finished
started before body (ok u, db) = finished before (body db)
started before body (err e, db) = (err e, db)

-- BeginTx, the statements, and Commit or Rollback
unfoldable pub transaction : (Db → Result (Unit {0}) × Db) → Db → Result (Unit {0}) × Db
unfolding started exec
transaction body db = started db body (exec (λ db. some db) db)

-- The next statement, if the last one returned no error
unfoldable pub next :
    Result (Unit {0}) × Db → (Db → Result (Unit {0}) × Db) → Result (Unit {0}) × Db
next (ok u, db) go = go db
next (err e, db) go = (err e, db)

module _ {R : Type 0} (T : SoftTable R) where
  -- UPDATE ... SET is_deleted = TRUE, updated_at = ? WHERE id = ?
  unfoldable pub mark_row : String → String → Db → Option Db
  unfolding checked update
  mark_row now id db =
      elim (checked T.id T.path (update (λ r. str_eq (T.id r) id) (T.marked now) (T.rows db))) [
        | none ↦ none
        | some rs ↦ some (T.put rs db)
      ]

  unfoldable pub mark_all : String → List R → Db → Result (Unit {0}) × Db
  unfolding exec mark_row next
  mark_all now [] db = (ok tt, db)
  mark_all now (r ∷ rest) db = next (exec (mark_row now (T.id r)) db) (mark_all now rest)

  -- The rows below a directory, at most `limit` of them
  unfoldable pub batch_of : (String → Bool) → ℕ → Db → List R
  unfolding select
  batch_of below limit db =
      take limit (select (λ r. below (T.path r) && not (T.is_deleted r)) (T.rows db))

-- What a loop of DeleteDirectory leaves: its result, the database and the storage
abbrev pub Drained : Type 0
Drained = Result (Unit {0}) × Db × Option Storage

module _ {R : Type 0} (T : SoftTable R) (now : String) (below : String → Bool)
    (clean : List R → Storage → Storage) where
  unfoldable pub cleaned : List R → Option Storage → Option Storage
  cleaned batch none = none
  cleaned batch (some st) = some (clean batch st)

  unfoldable pub marked_batch :
      (Db → Option Storage → Option Drained)
      → List R
      → Option Storage
      → Result (Unit {0}) × Db
      → Option Drained
  unfolding cleaned
  marked_batch again batch store (ok u, db) = again db (cleaned batch store)
  marked_batch again batch store (err e, db) = some (err e, db, store)

  unfoldable pub read_batch :
      (Db → Option Storage → Option Drained)
      → Option Storage
      → Result (List R) × Db
      → Option Drained
  unfolding marked_batch transaction mark_all
  read_batch again store (err e, db) = some (err e, db, store)
  read_batch again store (ok [], db) = some (ok tt, db, store)
  read_batch again store (ok (r ∷ rest), db) =
      marked_batch again (r ∷ rest) store (transaction (mark_all T now (r ∷ rest)) db)

  -- A loop of DeleteDirectory: batches of 500 rows, marked in a transaction each, and their objects
  -- removed. `none`: the fuel ran out.
  unfoldable pub drain : ℕ → Db → Option Storage → Option Drained
  unfolding read_batch query batch_of
  drain zero db store = none
  drain (suc fuel) db store = read_batch (drain fuel) store (query (batch_of T below 500) db)
