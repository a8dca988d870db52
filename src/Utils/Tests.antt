-- ===== src/Utils/Tests.antt =====
-- The theorems on paths at concrete paths.
use fssvrgo.Prelude.{false, ◌≡◌, refl, split, if◌then◌else◌, str_eq}
use fssvrgo.Utils.{normalize_path, is_valid_file_path, slash}
use fssvrgo.Utils.Normal.{normalize-normalize}
use fssvrgo.Utils.Traversal.{StaysBelow, is_valid_file_path-StaysBelow}

-- The segments in front of a ".." are dropped with it.
normalized : normalize_path "/a//b/../c/./d" ≡ "a/c/d"
unfolding normalize_path split
normalized = refl

-- The root has two normalized forms.
normalized_root : normalize_path (normalize_path "/") ≡ "."
unfolding normalize_path split
normalized_root = refl

normalize-normalize_example :
    normalize_path (normalize_path "/a/../../b//c")
    ≡ (if str_eq (normalize_path "/a/../../b//c") "" then "." else normalize_path "/a/../../b//c")
normalize-normalize_example = normalize-normalize "/a/../../b//c"

is_valid_file_path-StaysBelow_example : StaysBelow (split (normalize_path "/docs/./a.txt") slash)
unfolding is_valid_file_path split
is_valid_file_path-StaysBelow_example = is_valid_file_path-StaysBelow "/docs/./a.txt" refl

rejected : is_valid_file_path "docs/../../etc/passwd" ≡ false
unfolding is_valid_file_path split
rejected = refl
