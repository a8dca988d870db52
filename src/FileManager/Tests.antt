-- ===== src/FileManager/Tests.antt =====
-- The theorems on the file manager at a manager with two files.
use Prim.Native.String.{String}
use fssvrgo.Prelude.{ℕ, true, false, List, [], ◌∷◌, ◌≡◌, refl, split, insert, lookup}
use fssvrgo.Prelude.Int.{pos}
use fssvrgo.Utils.{normalize_path, get_directory}
use fssvrgo.Database.Db.{FileMetadata}
use fssvrgo.Database.Table.{is_distinct}
use fssvrgo.Database.Files.View.{live}
use fssvrgo.FileManager.{FileManager, Env, failed, update_failed, upload_file}
use fssvrgo.FileManager.Change.{rename_file, delete_file, new_path}
use fssvrgo.FileManager.Upload.{Uploaded, upload_file-Uploaded}
use fssvrgo.FileManager.Rename.{RenameEnds, rename_file-RenameEnds}
use fssvrgo.FileManager.Delete.{DeleteEnds, delete_file-DeleteEnds}

abbrev row : String → String → String → FileMetadata
row id path name = record {
  id = id;
  path = path;
  name = name;
  size = pos 2;
  hash = "h";
  storage_type = "local";
  storage_location = "";
  created_at = "t0";
  updated_at = "t0";
  is_deleted = false;
}

abbrev manager : FileManager
manager = record {
  storage = record {
    inside = λ p. true;
    files = ("docs/a", 1 ∷ 2 ∷ []) ∷ ("b", 7 ∷ []) ∷ [];
    faults = [];
  };
  db = record {
    files = row "1" "docs/a" "a" ∷ row "2" "b" "b" ∷ [];
    directories = [];
    api_keys = [];
    faults = [];
  };
}

abbrev env : Env
env = record { lock_ok = true; now = "t1"; new_id = "9"; storage_type = "local" }

-- The number of the bytes in place of their hash
abbrev hash : List ℕ → String
hash bytes = elim bytes [ [] ↦ "none" | b ∷ rest ↦ "some" ]

abbrev uploaded_row : FileMetadata
uploaded_row = record (row "1" "docs/a" "a") { size = pos 1; hash = "some"; updated_at = "t1" }

abbrev after_upload : FileManager
after_upload = record {
  storage = record manager.storage { files = ("docs/a", 5 ∷ []) ∷ ("b", 7 ∷ []) ∷ [] };
  db = record manager.db { files = uploaded_row ∷ row "2" "b" "b" ∷ [] };
}

upload_file-Uploaded_example :
    Uploaded (normalize_path "/docs//a") (5 ∷ []) (hash (5 ∷ [])) manager after_upload
unfolding upload_file normalize_path split insert
upload_file-Uploaded_example =
    upload_file-Uploaded hash env "/docs//a" (5 ∷ []) uploaded_row manager after_upload (refl, refl)
      refl refl

rename_file-RenameEnds_example :
    RenameEnds
      (normalize_path "docs/a")
      (new_path (normalize_path "docs/a") "c")
      (record (row "1" "docs/a" "a") {
        path = new_path (normalize_path "docs/a") "c";
        name = "c";
        updated_at = "t1";
      })
      manager
      (rename_file env "docs/a" "c" manager)
unfolding normalize_path split live is_distinct
rename_file-RenameEnds_example =
    rename_file-RenameEnds env "docs/a" "c" (row "1" "docs/a" "a") manager (refl, refl) refl refl

delete_file-DeleteEnds_example :
    DeleteEnds (normalize_path "b") (row "2" "b" "b") manager (delete_file env "b" manager)
unfolding normalize_path split live is_distinct
delete_file-DeleteEnds_example =
    delete_file-DeleteEnds env "b" (row "2" "b" "b") manager (refl, refl) refl refl

-- A path with a deleted row looks free to RenameFile, and the database then refuses the update.
abbrev with_deleted : FileManager
with_deleted = record manager {
  db = record manager.db {
    files = row "1" "docs/a" "a" ∷ record (row "2" "docs/c" "c") { is_deleted = true } ∷ [];
  };
}

deleted_target : (rename_file env "docs/a" "c" with_deleted).0 ≡ failed update_failed
unfolding rename_file normalize_path get_directory split lookup insert
deleted_target = refl
