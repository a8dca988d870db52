-- ===== src/Database/Tests.antt =====
-- The theorems on the database at concrete tables.
use Prim.Native.String.{◌++◌}
use fssvrgo.Prelude.{
  split, Bool, true, false, String, none, some, [], ◌∷◌, ◌≡◌, refl, if◌then◌else◌, str_eq,
}
use fssvrgo.Prelude.Int.{pos}
use fssvrgo.Utils.{normalize_path}
use fssvrgo.Database.Like.{like, like-escape, escape_like_pattern, has_prefix}
use fssvrgo.Database.Db.{constraint_failed, FileMetadata, Db, err}
use fssvrgo.Database.Files.{create, remove, update_row}
use fssvrgo.Database.Files.View.{live, IsSound, Puts, live-create, live-remove}
use fssvrgo.Database.Files.Replace.{live-update_row}

like-escape_example :
    like (λ n. n) (escape_like_pattern "a_b/" ++ "%") "a_b/c" ≡ has_prefix (λ n. n) "a_b/" "a_b/c"
like-escape_example = like-escape (λ n. n) "a_b/" "a_b/c"

-- Without the escape another directory is matched.
unescaped : like (λ n. n) "a_b/%" "axb/c" ≡ true
unfolding like
unescaped = refl

abbrev row : String → String → Bool → FileMetadata
row id path deleted = record {
  id = id;
  path = path;
  name = path;
  size = pos 3;
  hash = "h";
  storage_type = "local";
  storage_location = "";
  created_at = "t0";
  updated_at = "t0";
  is_deleted = deleted;
}

-- One live row and one that was deleted
abbrev two_rows : Db
two_rows = record {
  files = row "1" "a" false ∷ row "2" "b" true ∷ [];
  directories = [];
  api_keys = [];
  faults = [];
}

abbrev restored_rows : Db
restored_rows = record {
  files = row "1" "a" false ∷ record (row "3" "b" false) { name = "/b" } ∷ [];
  directories = [];
  api_keys = [];
  faults = [];
}

-- The deleted row of the path is restored under the new id.
live-create_example :
    Puts (record (row "3" "/b" false) { path = normalize_path "/b" }) two_rows restored_rows
    × IsSound restored_rows
unfolding create normalize_path split
live-create_example = live-create (row "3" "/b" false) two_rows restored_rows refl refl

-- A query that the driver fails is taken for a new path, whose row is then a duplicate.
create_fault :
    create (row "3" "/b" false) (record two_rows { faults = true ∷ [] })
    ≡ (err constraint_failed, two_rows)
unfolding create normalize_path split
create_fault = refl

abbrev no_rows : Db
no_rows = record two_rows {
  files =
      record (row "1" "a" false) { is_deleted = true; updated_at = "t1" } ∷ row "2" "b" true ∷ [];
}

live-remove_example :
    (live "a" no_rows ≡ (elim (live "a" two_rows) [
      | none ↦ none
      | some r ↦ if str_eq r.id "1" then none else some r
    ]))
    × IsSound no_rows
unfolding remove
live-remove_example = live-remove "a" "t1" "1" two_rows no_rows (refl, refl) refl

abbrev moved_rows : Db
moved_rows = record two_rows { files = row "1" "c" false ∷ row "2" "b" true ∷ [] }

live-update_row_example :
    (live "a" moved_rows ≡ (
      if str_eq "c" "a"
      then some (row "1" "c" false)
      else if str_eq "a" "a"
      then none
      else live "a" two_rows))
    × IsSound moved_rows
unfolding update_row live
live-update_row_example =
    live-update_row "a" "a" (row "1" "c" false) (row "1" "a" false) two_rows moved_rows (refl, refl)
      refl refl refl refl
