-- ===== src/Storage.antt =====
-- LocalStorage of internal/storage/local.go, as the StorageAdapter that the managers use: the files
-- by their paths. `inside` is what ValidatePath answers, which depends on the symbolic links of the
-- file system; `faults` is what the operating system answers to the next calls. Directories that
-- hold no file are not told apart from missing ones.
pub mod Chunks
use Prim.Native.String.{◌++◌}
use text.Mathlib.Text.{starts_with}
use fssvrgo.Prelude.{
  ◌||◌, ℕ, zero, suc, Bool, true, false, not, ◌&&◌, String, Option, none, some, List, [], ◌∷◌, take,
  drop, length, lookup, insert, erase, str_eq, if◌then◌else◌, is_some,
}
use fssvrgo.Prelude.Int.{ℤ, pos, negsuc, pos_part, ltbℤ, lebℤ}

pub data Fault : Type 0 where
  works refuses : Fault
  stops_after : ℕ → Fault

pub record Storage : Type 0 where
  pub inside : String → Bool
  pub files : List (String × List ℕ)
  pub faults : List Fault

pub data StorageError : Type 0 where
  path_traversal system_failed no_such_file invalid_size invalid_offset : StorageError

pub data Answer (A : Type 0) : Type 0 where
  good : A → Answer A
  bad : StorageError → Answer A

unfoldable pub first_fault : List Fault → Fault
first_fault [] = works
first_fault (f ∷ rest) = f

unfoldable pub next_call : Storage → Storage
next_call st = record st { faults = drop 1 st.faults }

-- Write: what was there is truncated before the bytes are written.
unfoldable pub write : String → List ℕ → Storage → Answer (Unit {0}) × Storage
unfolding first_fault next_call
write path bytes st =
    if not (st.inside path) then (bad path_traversal, st) else elim (first_fault st.faults) [
      | works ↦ (good tt, record (next_call st) { files = insert path bytes st.files })
      | refuses ↦ (bad system_failed, next_call st)
      | stops_after n ↦
          (bad system_failed, record (next_call st) { files = insert path (take n bytes) st.files })
    ]

-- Read
unfoldable pub read : String → Storage → Answer (List ℕ) × Storage
unfolding first_fault next_call
read path st =
    if not (st.inside path) then (bad path_traversal, st) else elim (first_fault st.faults) [
      | works ↦ elim (lookup path st.files) [
        | none ↦ (bad no_such_file, next_call st)
        | some bytes ↦ (good bytes, next_call st)
      ]
      | refuses ↦ (bad system_failed, next_call st)
      | stops_after n ↦ (bad system_failed, next_call st)
    ]

-- ReadAt; past the end it gives the bytes that are there
unfoldable pub read_at : String → ℤ → ℤ → Storage → Answer (List ℕ) × Storage
unfolding first_fault next_call
read_at path size offset st =
    if not (st.inside path)
    then (bad path_traversal, st)
    else if lebℤ size (pos 0)
    then (bad invalid_size, st)
    else if ltbℤ offset (pos 0)
    then (bad invalid_offset, st)
    else elim (first_fault st.faults) [
      | works ↦ elim (lookup path st.files) [
        | none ↦ (bad no_such_file, next_call st)
        | some bytes ↦ (good (take (pos_part size) (drop (pos_part offset) bytes)), next_call st)
      ]
      | refuses ↦ (bad system_failed, next_call st)
      | stops_after n ↦ (bad system_failed, next_call st)
    ]

-- Remove
unfoldable pub remove : String → Storage → Answer (Unit {0}) × Storage
unfolding first_fault next_call
remove path st =
    if not (st.inside path) then (bad path_traversal, st) else elim (first_fault st.faults) [
      | works ↦
          if is_some (lookup path st.files)
          then (good tt, record (next_call st) { files = erase path st.files })
          else (bad no_such_file, next_call st)
      | refuses ↦ (bad system_failed, next_call st)
      | stops_after n ↦ (bad system_failed, next_call st)
    ]

-- GetSize
unfoldable pub get_size : String → Storage → Answer ℤ × Storage
unfolding first_fault next_call
get_size path st =
    if not (st.inside path) then (bad path_traversal, st) else elim (first_fault st.faults) [
      | works ↦ elim (lookup path st.files) [
        | none ↦ (bad no_such_file, next_call st)
        | some bytes ↦ (good (pos (length bytes)), next_call st)
      ]
      | refuses ↦ (bad system_failed, next_call st)
      | stops_after n ↦ (bad system_failed, next_call st)
    ]

-- Rename, of a file
unfoldable pub rename : String → String → Storage → Answer (Unit {0}) × Storage
unfolding first_fault next_call
rename old new st =
    if not (st.inside old && st.inside new)
    then (bad path_traversal, st)
    else if str_eq old new
    then (good tt, st)
    else elim (first_fault st.faults) [
      | works ↦ elim (lookup old st.files) [
        | none ↦ (bad no_such_file, next_call st)
        | some bytes ↦
            (good tt, record (next_call st) { files = insert new bytes (erase old st.files) })
      ]
      | refuses ↦ (bad system_failed, next_call st)
      | stops_after n ↦ (bad system_failed, next_call st)
    ]

-- Whether a path lies below a directory
unfoldable pub under : String → String → Bool
under directory path = starts_with path (directory ++ "/")

unfoldable pub erase_under : String → List (String × List ℕ) → List (String × List ℕ)
unfolding under
erase_under directory [] = []
erase_under directory ((path, bytes) ∷ rest) =
    let others = erase_under directory rest in
    if str_eq path directory || under directory path then others else (path, bytes) ∷ others

-- RemoveDirectory: os.RemoveAll
unfoldable pub remove_directory : String → Storage → Answer (Unit {0}) × Storage
unfolding first_fault next_call erase_under
remove_directory path st =
    if not (st.inside path) then (bad path_traversal, st) else elim (first_fault st.faults) [
      | works ↦ (good tt, record (next_call st) { files = erase_under path st.files })
      | refuses ↦ (bad system_failed, next_call st)
      | stops_after n ↦ (bad system_failed, next_call st)
    ]
