-- ===== src/DirectoryManager/Rename/Rows.antt =====
-- What RenameDirectory of internal/service/directory/manager.go does to a row.
use Prim.Native.String.{[] as []ˢ, ◌∷◌ as ◌∷ˢ◌, ◌++◌}
use text.Mathlib.TextLemmas.{cons-append, nil-append, append_assoc}
use fssvrgo.Prelude.{ℕ, false, not, ◌&&◌, String, List, map, ◌≡◌, refl, sym, ap, ◌∙◌}
use fssvrgo.Utils.{get_file_name}
use fssvrgo.Database.Like.{has_prefix}
use fssvrgo.Database.Batch.{SoftTable}
use fssvrgo.Database.Batch.Move.{after, item_path}
use fssvrgo.Database.Batch.Move.Pass.{relocate}
use fssvrgo.DirectoryManager.{is_inside}
use fssvrgo.DirectoryManager.Below.{is_inside-has_prefix, is_inside_below}

-- A row before and after: one that is not deleted and whose path is the old one, a slash and more has
-- the new path, a slash and the same, with its name and the time; one whose path does not begin with
-- the old one and a slash, as the database compares characters, or that is deleted is as it was.
pub record RowMoved {R : Type 0} (T : SoftTable R) (fold : ℕ → ℕ) (old new now : String) (r r' : R)
    : Type 0 where
  pub below :
      (rest : String)
      → T.path r ≡ (old ++ "/") ++ rest
      → T.is_deleted r ≡ false
      → r' ≡ T.relocated ((new ++ "/") ++ rest) (get_file_name ((new ++ "/") ++ rest)) now r
  pub others : (has_prefix fold (old ++ "/") (T.path r) && not (T.is_deleted r)) ≡ false → r' ≡ r

-- The rows of a table, each moved or left
pub record Moves {R : Type 0} (T : SoftTable R) (fold : ℕ → ℕ) (old new now : String)
    (rows rows' : List R) : Type 0 where
  pub move : R → R
  pub each : rows' ≡ map move rows
  pub one : (r : R) → RowMoved T fold old new now r (move r)

after-append : (old rest : String) → after old (old ++ rest) ≡ rest
unfolding after
after-append []ˢ rest = nil-append rest
after-append (c ∷ˢ old) rest = rw (cons-append c old rest) (after-append old rest)

item_path_below :
    (old new rest : String) → item_path old new ((old ++ "/") ++ rest) ≡ (new ++ "/") ++ rest
unfolding item_path
item_path_below old new rest =
    ap (λ x. new ++ after old x) (append_assoc old "/" rest)
    ∙ ap (λ x. new ++ x) (after-append old ("/" ++ rest))
    ∙ sym (append_assoc new "/" rest)

pub relocate-RowMoved :
    {R : Type 0} (T : SoftTable R) (fold : ℕ → ℕ) (old new now : String) (r : R)
    → RowMoved T fold old new now r (relocate T old new now (is_inside fold old) r)
relocate-RowMoved T fold old new now r = record {
  below = λ rest e live.
      let inside = is_inside_below fold old rest (T.path r) e in
      rw (inside, live)
        (ap (λ p. T.relocated p (get_file_name p) now r)
          (ap (item_path old new) e ∙ item_path_below old new rest));
  others = λ off. rw (is_inside-has_prefix fold old (T.path r), off) refl;
}
