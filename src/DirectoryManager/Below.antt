-- ===== src/DirectoryManager/Below.antt =====
-- Which rows internal/service/directory/manager.go takes for those below a directory.
use Prim.Native.String.{◌++◌}
use fssvrgo.Prelude.{
  ℕ, Bool, true, false, not, ◌&&◌, String, List, [], ◌∷◌, All, ◌≡◌, refl, ap, ◌∙◌, arith,
}
use fssvrgo.Database.Like.{has_prefix, has_prefix_self, like-escape}
use fssvrgo.Database.Table.{count}
use fssvrgo.DirectoryManager.{is_inside}

-- The LIKE of the code holds of the paths that begin with the directory and a slash.
pub is_inside-has_prefix :
    (fold : ℕ → ℕ) (directory path : String)
    → is_inside fold directory path ≡ has_prefix fold (directory ++ "/") path
unfolding is_inside
is_inside-has_prefix fold directory path = like-escape fold (directory ++ "/") path

pub is_inside_below :
    (fold : ℕ → ℕ) (directory rest path : String)
    → path ≡ (directory ++ "/") ++ rest
    → is_inside fold directory path ≡ true
is_inside_below fold directory rest path h =
    ap (is_inside fold directory) h
    ∙ is_inside-has_prefix fold directory ((directory ++ "/") ++ rest)
    ∙ has_prefix_self fold (directory ++ "/") rest

module _ {R : Type 0} (path : R → String) (is_deleted : R → Bool) where
  -- Every row whose path is the directory's, a slash and some more is deleted.
  abbrev pub IsEmptyBelow : String → List R → Type 0
  IsEmptyBelow directory rows =
      All (λ r. (rest : String) → path r ≡ (directory ++ "/") ++ rest → is_deleted r ≡ true) rows

  -- How many rows that are not deleted begin with the directory's path and a slash, as the database
  -- compares characters
  abbrev pub count_below : (ℕ → ℕ) → String → List R → ℕ
  count_below fold directory rows =
      count (λ r. has_prefix fold (directory ++ "/") (path r) && not (is_deleted r)) rows

  pub count_zero-IsEmptyBelow :
      (fold : ℕ → ℕ) (directory : String) (rows : List R)
      → count (λ r. is_inside fold directory (path r) && not (is_deleted r)) rows ≡ 0
      → IsEmptyBelow directory rows
  unfolding count
  count_zero-IsEmptyBelow fold directory [] h = tt
  count_zero-IsEmptyBelow fold directory (r ∷ rows) h =
      let off : (is_inside fold directory (path r) && not (is_deleted r)) ≡ false =
        ground (arith, h) in
      (
        λ rest e. ground (arith, off, is_inside_below fold directory rest (path r) e),
        count_zero-IsEmptyBelow fold directory rows (ground (arith, h)),
      )

  pub count-count_below :
      (fold : ℕ → ℕ) (directory : String) (rows : List R)
      → count (λ r. is_inside fold directory (path r) && not (is_deleted r)) rows
        ≡ count_below fold directory rows
  unfolding count
  count-count_below fold directory [] = refl
  count-count_below fold directory (r ∷ rows) =
      rw (is_inside-has_prefix fold directory (path r), count-count_below fold directory rows) refl
