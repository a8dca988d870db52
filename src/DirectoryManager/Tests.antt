-- ===== src/DirectoryManager/Tests.antt =====
-- The theorems on the directory manager at a directory with a file and a directory.
use fssvrgo.Prelude.{Bool, true, false, String, none, some, [], ◌∷◌, ◌≡◌, refl, split, arith}
use fssvrgo.Prelude.Int.{pos}
use fssvrgo.Utils.{normalize_path}
use fssvrgo.Database.Table.{count}
use fssvrgo.Database.Db.{FileMetadata, DirectoryMetadata}
use fssvrgo.DirectoryManager.{
  DirectoryManager, Outcome, done, failed, not_empty, Env, delete_directory, is_inside,
}
use fssvrgo.DirectoryManager.Delete.{Emptied, delete_directory-Emptied}
use fssvrgo.DirectoryManager.Rename.{rename_directory}
use fssvrgo.DirectoryManager.Empty.{WasEmpty, delete_directory-WasEmpty}

abbrev file : String → String → FileMetadata
file id path = record {
  id = id;
  path = path;
  name = "f";
  size = pos 2;
  hash = "h";
  storage_type = "local";
  storage_location = "";
  created_at = "t0";
  updated_at = "t0";
  is_deleted = false;
}

abbrev directory : String → String → Bool → DirectoryMetadata
directory id path deleted = record {
  id = id;
  path = path;
  name = "d";
  created_at = "t0";
  updated_at = "t0";
  is_deleted = deleted;
}

abbrev manager : DirectoryManager
manager = record {
  db = record {
    files = file "1" "a/f" ∷ file "2" "ab/f" ∷ [];
    directories =
        directory "3" "a" false ∷ directory "4" "a/d" false ∷ directory "5" "e" false ∷ [];
    api_keys = [];
    faults = [];
  };
  store = none;
  is_local = true;
}

abbrev env : Env
env = record { lock_ok = true; now = "t0"; new_id = "9" }

delete_directory-Emptied_example :
    Emptied (λ n. n) (normalize_path "/a") (delete_directory (λ n. n) env 2 "/a" true manager)
unfolding normalize_path split is_inside count
delete_directory-Emptied_example =
    delete_directory-Emptied (λ n. n) env 2 "/a" manager (omega arith) (omega arith)

delete_directory-WasEmpty_example :
    (w : Outcome × DirectoryManager) × (delete_directory (λ n. n) env 0 "a" false manager ≡ some w)
    × WasEmpty (λ n. n) (normalize_path "a") manager w
delete_directory-WasEmpty_example = delete_directory-WasEmpty (λ n. n) env 0 "a" manager

-- The directory with a file is refused.
delete_run : (delete_directory (λ n. n) env 0 "a" false manager) ≡ some (failed not_empty, manager)
unfolding delete_directory normalize_path split
delete_run = refl

abbrev renamed : DirectoryManager
renamed = record manager {
  db = record manager.db {
    files = file "1" "z/f" ∷ file "2" "ab/f" ∷ [];
    directories =
        record (directory "3" "z" false) { name = "z" }
        ∷ directory "4" "z/d" false
        ∷ directory "5" "e" false
        ∷ [];
  };
}

rename_run : rename_directory (λ n. n) (λ old new st. st) env "/a" "z" manager ≡ (done, renamed)
unfolding rename_directory normalize_path split
rename_run = refl
