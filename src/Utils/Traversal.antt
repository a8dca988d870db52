-- ===== src/Utils/Traversal.antt =====
-- What IsValidFilePath of internal/utils/utils.go lets through cannot leave the root, once
-- NormalizePath has cleaned it.
use Prim.Native.Char.{code}
use Prim.Native.String.{[] as []ˢ, ◌∷◌ as ◌∷ˢ◌}
use fssvrgo.Prelude.{
  Bool, true, false, ◌||◌, String, List, [], ◌∷◌, split, add_front, ◌==◌, str_eq, if◌then◌else◌,
  ◌≡◌, refl, arith, subst, if_rule, Bool-cases, inl, inr, All,
}
use fssvrgo.Utils.{
  slash, join, reverse_onto, resolve, is_rooted, clean, assemble, strip_slashes, normalize_path,
  are_safe, is_valid_file_path,
}
use fssvrgo.Utils.Normal.{
  next_kept, IsClean, IsClean-NoSlash, resolve-IsClean, split-NoSlash, split-join, join_plain,
}

-- No segment leads to a parent.
abbrev pub StaysBelow : List String → Type 0
StaysBelow segments = All (λ s. str_eq s ".." ≡ false) segments

reverse_onto-StaysBelow :
    (kept acc : List String) → StaysBelow kept → StaysBelow acc → StaysBelow (reverse_onto kept acc)
unfolding reverse_onto
reverse_onto-StaysBelow [] acc k a = a
reverse_onto-StaysBelow (s ∷ kept) acc (n, k) a = reverse_onto-StaysBelow kept (s ∷ acc) k (n, a)

resolve-StaysBelow :
    (rooted : Bool) (kept rest : List String)
    → StaysBelow kept
    → StaysBelow rest
    → StaysBelow (resolve rooted kept rest)
unfolding resolve
resolve-StaysBelow rooted kept [] k r = reverse_onto-StaysBelow kept [] k tt
resolve-StaysBelow rooted kept (s ∷ rest) k (n, r) =
    resolve-StaysBelow rooted (next_kept rooted kept s) rest
      (if_rule StaysBelow (str_eq s "" || str_eq s ".") (λ h. k)
        (λ h. if_rule StaysBelow (str_eq s "..") (λ e. absurd (ground arith)) (λ e. (n, k))))
      r

are_safe-StaysBelow : (segments : List String) → are_safe segments ≡ true → StaysBelow segments
unfolding are_safe
are_safe-StaysBelow [] h = tt
are_safe-StaysBelow (s ∷ rest) h = (ground arith, are_safe-StaysBelow rest (ground arith))

-- The slashes in front add empty segments.
split-strip : (p : String) → StaysBelow (split (strip_slashes p) slash) → StaysBelow (split p slash)
unfolding split strip_slashes
split-strip []ˢ h = h
split-strip (c ∷ˢ p) h = elim (Bool-cases (code c == slash)) [
  | inl e ↦ rw e (
    refl,
    split-strip p
        (subst (λ b. StaysBelow (split (if b then strip_slashes p else c ∷ˢ p) slash)) e h),
  )
  | inr e ↦ subst (λ b. StaysBelow (split (if b then strip_slashes p else c ∷ˢ p) slash)) e h
]

assemble-StaysBelow :
    (rooted : Bool) (segments : List String)
    → IsClean true segments
    → StaysBelow segments
    → StaysBelow (split (strip_slashes (assemble rooted segments)) slash)
unfolding assemble join strip_slashes split add_front
assemble-StaysBelow true [] c b = (refl, tt)
assemble-StaysBelow false [] c b = (refl, tt)
assemble-StaysBelow true (s ∷ rest) c b =
    rw ((join_plain s rest c.0).1, split-join s rest (IsClean-NoSlash (s ∷ rest) true c)) b
assemble-StaysBelow false (s ∷ rest) c b =
    rw ((join_plain s rest c.0).1, split-join s rest (IsClean-NoSlash (s ∷ rest) true c)) b

-- A path that IsValidFilePath accepts has no ".." among its segments after NormalizePath: below
-- the root of the storage it names a file below that root.
pub is_valid_file_path-StaysBelow :
    (p : String) → is_valid_file_path p ≡ true → StaysBelow (split (normalize_path p) slash)
unfolding is_valid_file_path normalize_path clean
is_valid_file_path-StaysBelow p h =
    let below =
      split-strip p (are_safe-StaysBelow (split (strip_slashes p) slash) (ground (arith, h))) in
    assemble-StaysBelow (is_rooted p) (resolve (is_rooted p) [] (split p slash))
      (resolve-IsClean (is_rooted p) [] (split p slash) tt (split-NoSlash p))
      (resolve-StaysBelow (is_rooted p) [] (split p slash) tt below)
