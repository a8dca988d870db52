-- ===== src/Prelude/Text.antt =====
-- strings.Split at a one-byte separator, and strings.TrimSpace.
use Prim.Native.Nat.{ℕ}
use Prim.Native.Char.{Char, code}
use Prim.Native.String.{String, [], ◌∷◌}
use mathlib.Core.Bool.{Bool, ◌&&◌, ◌||◌}
use mathlib.Core.List.{List, [] as []ᴸ, ◌∷◌ as ◌∷ᴸ◌}
use text.Mathlib.Text.{◌==◌ as str_eq}
use package.fssvrgo.Prelude.Tests.{leb, ◌==◌, if◌then◌else◌}

unfoldable pub add_front : Char → List String → List String
add_front c []ᴸ = (c ∷ []) ∷ᴸ []ᴸ
add_front c (f ∷ᴸ fs) = (c ∷ f) ∷ᴸ fs

-- strings.Split, by the code of the separator
unfoldable pub split : String → ℕ → List String
unfolding add_front
split [] sep = [] ∷ᴸ []ᴸ
split (c ∷ s) sep = let rest = split s sep in if code c == sep then [] ∷ᴸ rest else add_front c rest

-- unicode.IsSpace
unfoldable pub is_space : ℕ → Bool
is_space n =
    (leb 9 n && leb n 13)
    || n == 32
    || n == 133
    || n == 160
    || n == 5760
    || (leb 8192 n && leb n 8202)
    || n == 8232
    || n == 8233
    || n == 8239
    || n == 8287
    || n == 12288

unfoldable pub trim_left : String → String
unfolding is_space
trim_left [] = []
trim_left (c ∷ s) = let rest = trim_left s in if is_space (code c) then rest else c ∷ s

unfoldable pub trim_right : String → String
unfolding is_space
trim_right [] = []
trim_right (c ∷ s) =
    let rest = trim_right s in if is_space (code c) && str_eq rest "" then [] else c ∷ rest

-- strings.TrimSpace
unfoldable pub trim_space : String → String
unfolding trim_left trim_right
trim_space s = trim_right (trim_left s)
