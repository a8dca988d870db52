-- ===== src/Database/Batch/Move.antt =====
-- The statements by which RenameDirectory of internal/service/directory/manager.go moves the rows
-- below a directory.
pub mod Pass
use Prim.Native.String.{[] as []ˢ, ◌∷◌ as ◌∷ˢ◌, ◌++◌}
use fssvrgo.Prelude.{not, ◌&&◌, Bool, String, Option, none, some, List, [], ◌∷◌, str_eq}
use fssvrgo.Utils.{get_file_name}
use fssvrgo.Database.Table.{select, update, checked}
use fssvrgo.Database.Db.{Db, Result, ok, exec}
use fssvrgo.Database.Batch.{SoftTable, next}

-- path[len(old):]; the code slices bytes, and a row that LIKE finds begins with a text of the length
-- of `old`
unfoldable pub after : String → String → String
after []ˢ path = path
after (c ∷ˢ old) []ˢ = []ˢ
after (c ∷ˢ old) (d ∷ˢ path) = after old path

-- newItemPath
unfoldable pub item_path : String → String → String → String
unfolding after
item_path old new path = new ++ after old path

module _ {R : Type 0} (T : SoftTable R) where
  -- SELECT id, path ... WHERE path LIKE ? ESCAPE '\' AND is_deleted = FALSE
  unfoldable pub rows_below : (String → Bool) → Db → List R
  unfolding select
  rows_below below db = select (λ r. below (T.path r) && not (T.is_deleted r)) (T.rows db)

  -- UPDATE ... SET path = ?, name = ?, updated_at = ? WHERE id = ?
  unfoldable pub move_row : String → String → String → String → Db → Option Db
  unfolding checked update
  move_row path name now id db =
      elim (checked T.id T.path
        (update (λ r. str_eq (T.id r) id) (T.relocated path name now) (T.rows db))) [
          | none ↦ none
          | some rs ↦ some (T.put rs db)
        ]

  -- The loop over the rows that were read
  unfoldable pub move_all : String → String → String → List R → Db → Result (Unit {0}) × Db
  unfolding exec move_row next item_path get_file_name
  move_all old new now [] db = (ok tt, db)
  move_all old new now (r ∷ rest) db =
      let path = item_path old new (T.path r) in
      next (exec (move_row path (get_file_name path) now (T.id r)) db) (move_all old new now rest)
