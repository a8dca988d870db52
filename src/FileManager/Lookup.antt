-- ===== src/FileManager/Lookup.antt =====
-- How GetFileMetadata of internal/service/filemanager/manager.go ends: with the row of the path, or
-- with an error; the rows and the storage are as they were.
use fssvrgo.Prelude.{String, Option, none, some, ◌≡◌, refl, ap, ◌∙◌, sym}
use fssvrgo.Utils.{normalize_path}
use fssvrgo.Database.Db.{FileMetadata, Db, ok, query_rule, rest_of}
use fssvrgo.Database.Files as Files
use fssvrgo.Database.Files.{is_live_at}
use fssvrgo.Database.Files.View.{live}
use fssvrgo.Database.Table.{select_one}
use fssvrgo.FileManager.{FileManager, Outcome, done, failed, FileError, get_file_metadata, found_or}

pub get_rule {κ} :
    (P : Outcome FileMetadata × FileManager → Type κ) (path : String) (fm : FileManager)
    → normalize_path path ≡ path
    → ((e : FileError) (db : Db) → db.files ≡ fm.db.files → P (failed e, record fm { db = db }))
    → ((m : FileMetadata) (db : Db)
        → db.files ≡ fm.db.files
        → live path fm.db ≡ some m
        → P (done m, record fm { db = db }))
    → P (get_file_metadata path fm)
unfolding get_file_metadata Files.get_by_path found_or live rest_of
get_rule P path fm stable bad good =
    query_rule (λ w. P (found_or w.0, record fm { db = w.1 }))
      (λ db. select_one (is_live_at (normalize_path (normalize_path path))) db.files) fm.db
      (bad _ (rest_of fm.db) refl)
      (go (select_one (is_live_at (normalize_path (normalize_path path))) fm.db.files)
        (ap (λ p. select_one (is_live_at p) fm.db.files) (sym (ap normalize_path stable ∙ stable))))
  where
    go :
        (o : Option FileMetadata)
        → live path fm.db ≡ o
        → P (found_or (ok o), record fm { db = rest_of fm.db })
    go none e = bad _ (rest_of fm.db) refl
    go (some m) e = good m (rest_of fm.db) refl e
