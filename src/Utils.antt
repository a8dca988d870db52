-- ===== src/Utils.antt =====
-- internal/utils/utils.go: the names and the logical paths of files. path.Clean, path.Base, path.Dir
-- and strings.Split are the standard library's, on the segments of a path.
mod Tests
pub mod Normal
pub mod Traversal
use Prim.Native.Char.{code}
use Prim.Native.String.{[] as []ˢ, ◌∷◌ as ◌∷ˢ◌, ◌++◌}
use fssvrgo.Prelude.{
  ℕ, ◌+◌, Bool, true, false, not, ◌&&◌, ◌||◌, String, List, [], ◌∷◌, split, ltb, ◌==◌, str_eq,
  if◌then◌else◌,
}

-- The code of '/'
abbrev pub slash : ℕ
slash = 47

-- strings.Join with "/"
unfoldable pub join : List String → String
join [] = []ˢ
join (s ∷ []) = s
join (s ∷ t ∷ rest) = s ++ ("/" ∷ˢ join (t ∷ rest))

unfoldable pub reverse_onto : List String → List String → List String
reverse_onto [] acc = acc
reverse_onto (s ∷ rest) acc = reverse_onto rest (s ∷ acc)

-- A ".." of path.Clean: it takes the last segment away, stays at the front of a relative path, and
-- is dropped at the root. The segments so far are in reverse order.
unfoldable pub parent_of : Bool → List String → List String
parent_of rooted [] = if rooted then [] else ".." ∷ []
parent_of rooted (top ∷ kept) = if str_eq top ".." then ".." ∷ top ∷ kept else kept

-- The loop of path.Clean
unfoldable pub resolve : Bool → List String → List String → List String
unfolding parent_of reverse_onto
resolve rooted kept [] = reverse_onto kept []
resolve rooted kept (s ∷ rest) =
    resolve rooted
      (if str_eq s "" || str_eq s "."
        then kept
        else if str_eq s ".."
        then parent_of rooted kept
        else s ∷ kept)
      rest

unfoldable pub is_rooted : String → Bool
is_rooted []ˢ = false
is_rooted (c ∷ˢ s) = code c == slash

unfoldable pub assemble : Bool → List String → String
unfolding join
assemble true segments = "/" ∷ˢ join segments
assemble false [] = "."
assemble false (s ∷ rest) = join (s ∷ rest)

-- path.Clean
unfoldable pub clean : String → String
unfolding is_rooted resolve assemble
clean p = assemble (is_rooted p) (resolve (is_rooted p) [] (split p slash))

unfoldable pub strip_slashes : String → String
strip_slashes []ˢ = []ˢ
strip_slashes (c ∷ˢ s) = let rest = strip_slashes s in if code c == slash then rest else c ∷ˢ s

-- NormalizePath
unfoldable pub normalize_path : String → String
unfolding clean strip_slashes
normalize_path p = strip_slashes (clean p)

unfoldable pub last_segment : String → List String → String
last_segment found [] = found
last_segment found (s ∷ rest) = last_segment (if str_eq s "" then found else s) rest

-- GetFileName: path.Base
unfoldable pub get_file_name : String → String
unfolding last_segment
get_file_name p =
    let name = last_segment "" (split p slash) in
    if str_eq p "" then "." else if str_eq name "" then "/" else name

-- What is before the last separator, with it
unfoldable pub up_to_slash : String → String
up_to_slash []ˢ = []ˢ
up_to_slash (c ∷ˢ s) =
    let rest = up_to_slash s in if str_eq rest "" && not (code c == slash) then []ˢ else c ∷ˢ rest

-- GetDirectory: path.Dir
unfoldable pub get_directory : String → String
unfolding up_to_slash clean
get_directory p = clean (up_to_slash p)

unfoldable pub is_any : (ℕ → Bool) → String → Bool
is_any test []ˢ = false
is_any test (c ∷ˢ s) = let rest = is_any test s in test (code c) || rest

-- strings.Contains(name, "..")
unfoldable pub has_dots : Bool → String → Bool
has_dots after_dot []ˢ = false
has_dots after_dot (c ∷ˢ s) =
    let after = has_dots true s in
    let other = has_dots false s in if code c == 46 then after_dot || after else other

-- The length in bytes, in UTF-8
unfoldable pub byte_length : String → ℕ
byte_length []ˢ = 0
byte_length (c ∷ˢ s) =
    let n = code c in
    let rest = byte_length s in
    (if ltb n 128 then 1 else if ltb n 2048 then 2 else if ltb n 65_536 then 3 else 4) + rest

-- IsValidFileName
unfoldable pub is_valid_file_name : String → Bool
unfolding is_any has_dots byte_length
is_valid_file_name name =
    if str_eq name ""
    then false
    else if ltb 255 (byte_length name)
    then false
    else if str_eq name ".." || str_eq name "."
    then false
    else if has_dots false name
    then false
    else if is_any (λ n. n == slash || n == 92) name
    then false
    else not (is_any (λ n. ltb n 32) name)

unfoldable pub are_safe : List String → Bool
are_safe [] = true
are_safe (s ∷ rest) =
    let others = are_safe rest in if str_eq s ".." || str_eq s "" then false else others

-- IsValidFilePath
unfoldable pub is_valid_file_path : String → Bool
unfolding strip_slashes clean are_safe
is_valid_file_path path =
    let p = strip_slashes path in
    if str_eq path "" || str_eq path "/" || str_eq p ""
    then false
    else if str_eq (clean p) "." || str_eq (clean p) ".." || str_eq (clean p) "/"
    then false
    else are_safe (split p slash)
