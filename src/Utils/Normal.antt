-- ===== src/Utils/Normal.antt =====
-- NormalizePath of internal/utils/utils.go: what it returns has one name for each path.
use Prim.Native.Char.{Char, code}
use Prim.Native.String.{[] as []ˢ, ◌∷◌ as ◌∷ˢ◌, ◌++◌}
use text.Mathlib.TextLemmas.{cons-append, nil-append, append-nil}
use fssvrgo.Prelude.{
  ℕ, Bool, true, false, ◌&&◌, ◌||◌, String, List, [], ◌∷◌, split, add_front, ◌==◌, str_eq,
  if◌then◌else◌, ◌≡◌, refl, arith, sym, ap, subst, ◌∙◌, eq_iff, if_rule, Bool-cases, inl, inr, All,
}
use fssvrgo.Utils.{
  slash, join, reverse_onto, parent_of, resolve, is_rooted, assemble, clean, strip_slashes,
  normalize_path, is_any,
}

pub is_slash : ℕ → Bool
is_slash n = n == slash

-- A segment of a clean path: it has no separator, and is neither empty nor ".".
pub IsPlain : String → Type 0
IsPlain s = (is_any is_slash s ≡ false) × (str_eq s "" ≡ false) × (str_eq s "." ≡ false)

pub are_dots : List String → Bool
are_dots [] = true
are_dots (s ∷ kept) = let rest = are_dots kept in str_eq s ".." && rest

-- The segments that path.Clean keeps, the last one first: ".." only at the front
abbrev pub IsKept : List String → Type 0
IsKept [] = Unit
IsKept (s ∷ kept) = IsPlain s × (str_eq s ".." ≡ true → are_dots kept ≡ true) × IsKept kept

-- The same from the front; `dots` tells whether all segments so far are "..".
abbrev pub IsClean : Bool → List String → Type 0
IsClean dots [] = Unit
IsClean dots (s ∷ rest) =
    IsPlain s × (str_eq s ".." ≡ true → dots ≡ true) × IsClean (str_eq s ".." && dots) rest

reverse_onto-IsClean :
    (kept acc : List String)
    → IsKept kept
    → IsClean (are_dots kept) acc
    → IsClean true (reverse_onto kept acc)
unfolding are_dots reverse_onto
reverse_onto-IsClean [] acc k c = c
reverse_onto-IsClean (s ∷ kept) acc (plain, dots, k) c =
    reverse_onto-IsClean kept (s ∷ acc) k (plain, dots, c)

parent_of_dots : (kept : List String) → are_dots kept ≡ true → parent_of false kept ≡ ".." ∷ kept
unfolding parent_of are_dots
parent_of_dots [] h = refl
parent_of_dots (top ∷ kept) h = let up : str_eq top ".." ≡ true = ground arith in rw up refl

-- A clean list is resolved to itself.
resolve_clean :
    (kept rest : List String)
    → IsClean (are_dots kept) rest
    → resolve false kept rest ≡ reverse_onto kept rest
unfolding resolve reverse_onto are_dots IsPlain parent_of
resolve_clean kept [] c = refl
resolve_clean kept (s ∷ rest) (plain, dots, c) =
    rw (plain.1, plain.2)
      (elim (Bool-cases (str_eq s "..")) [
        | inl h ↦
            let up : parent_of false kept ≡ s ∷ kept =
              parent_of_dots kept (dots h) ∙ ap (λ x. x ∷ kept) (sym ((eq_iff s "..").0 h)) in
            rw (h, up) (resolve_clean (s ∷ kept) rest c)
        | inr h ↦ rw h (resolve_clean (s ∷ kept) rest c)
      ])

dots-IsPlain : IsPlain ".."
unfolding IsPlain is_any is_slash
dots-IsPlain = (refl, refl, refl)

parent_of-IsKept :
    (rooted : Bool) (kept : List String) → IsKept kept → IsKept (parent_of rooted kept)
unfolding parent_of are_dots
parent_of-IsKept true [] k = tt
parent_of-IsKept false [] k = (dots-IsPlain, λ h. refl, tt)
parent_of-IsKept rooted (top ∷ kept) (plain, dots, k) =
    if_rule IsKept (str_eq top "..")
      (λ h. (dots-IsPlain, λ e. rw (h, dots h) refl, (plain, dots, k))) (λ h. k)

abbrev pub NoSlash : List String → Type 0
NoSlash segments = All (λ s. is_any is_slash s ≡ false) segments

abbrev pub next_kept : Bool → List String → String → List String
next_kept rooted kept s =
    if str_eq s "" || str_eq s "."
    then kept
    else if str_eq s ".."
    then parent_of rooted kept
    else s ∷ kept

next_kept-IsKept :
    (rooted : Bool) (kept : List String) (s : String)
    → IsKept kept
    → is_any is_slash s ≡ false
    → IsKept (next_kept rooted kept s)
unfolding IsPlain
next_kept-IsKept rooted kept s k n =
    if_rule IsKept (str_eq s "" || str_eq s ".") (λ h. k)
      (λ h.
        if_rule IsKept (str_eq s "..") (λ e. parent_of-IsKept rooted kept k)
          (λ e. ((n, ground arith, ground arith), λ f. absurd (ground arith), k)))

pub resolve-IsClean :
    (rooted : Bool) (kept rest : List String)
    → IsKept kept
    → NoSlash rest
    → IsClean true (resolve rooted kept rest)
unfolding resolve
resolve-IsClean rooted kept [] k n = reverse_onto-IsClean kept [] k tt
resolve-IsClean rooted kept (s ∷ rest) k (n, ns) =
    resolve-IsClean rooted (next_kept rooted kept s) rest (next_kept-IsKept rooted kept s k n) ns

add_front-NoSlash :
    (c : Char) (segments : List String)
    → (code c == slash) ≡ false
    → NoSlash segments
    → NoSlash (add_front c segments)
unfolding add_front is_any is_slash
add_front-NoSlash c [] h n = (rw h refl, tt)
add_front-NoSlash c (s ∷ rest) h (n, ns) = (rw (h, n) refl, ns)

pub split-NoSlash : (p : String) → NoSlash (split p slash)
unfolding split is_any
split-NoSlash []ˢ = (refl, tt)
split-NoSlash (c ∷ˢ p) =
    if_rule NoSlash (code c == slash) (λ h. (refl, split-NoSlash p))
      (λ h. add_front-NoSlash c (split p slash) h (split-NoSlash p))

split_one : (s : String) → is_any is_slash s ≡ false → split s slash ≡ s ∷ []
unfolding split is_any add_front is_slash
split_one []ˢ h = refl
split_one (c ∷ˢ s) h =
    let off : (code c == slash) ≡ false = ground arith in rw (off, split_one s (ground arith)) refl

split-append :
    (s t : String) → is_any is_slash s ≡ false → split (s ++ ("/" ∷ˢ t)) slash ≡ s ∷ split t slash
unfolding split is_any add_front is_slash
split-append []ˢ t h = rw (nil-append ("/" ∷ˢ t)) refl
split-append (c ∷ˢ s) t h =
    let off : (code c == slash) ≡ false = ground arith in
    rw (cons-append c s ("/" ∷ˢ t), off, split-append s t (ground arith)) refl

pub split-join :
    (s : String) (rest : List String)
    → NoSlash (s ∷ rest)
    → split (join (s ∷ rest)) slash ≡ s ∷ rest
unfolding join
split-join s [] (n, ns) = split_one s n
split-join s (t ∷ rest) (n, ns) =
    split-append s (join (t ∷ rest)) n ∙ ap (λ x. s ∷ x) (split-join t rest ns)

starts_plain :
    (s t : String) → IsPlain s → (is_rooted (s ++ t) ≡ false) × (strip_slashes (s ++ t) ≡ s ++ t)
unfolding is_rooted strip_slashes IsPlain is_any is_slash
starts_plain []ˢ t plain = absurd (ground arith)
starts_plain (c ∷ˢ s) t plain =
    let off : (code c == slash) ≡ false = ground arith in rw (cons-append c s t, off) (refl, refl)

pub join_plain :
    (s : String) (rest : List String)
    → IsPlain s
    → (is_rooted (join (s ∷ rest)) ≡ false) × (strip_slashes (join (s ∷ rest)) ≡ join (s ∷ rest))
unfolding join
join_plain s [] plain =
    subst (λ x. (is_rooted x ≡ false) × (strip_slashes x ≡ x)) (append-nil s)
      (starts_plain s []ˢ plain)
join_plain s (t ∷ rest) plain = starts_plain s ("/" ∷ˢ join (t ∷ rest)) plain

pub IsClean-NoSlash :
    (segments : List String) (dots : Bool) → IsClean dots segments → NoSlash segments
unfolding IsPlain
IsClean-NoSlash [] dots c = tt
IsClean-NoSlash (s ∷ rest) dots (plain, d, c) =
    (plain.0, IsClean-NoSlash rest (str_eq s ".." && dots) c)

normalize_relative :
    (p : String) (segments : List String)
    → is_rooted p ≡ false
    → split p slash ≡ segments
    → resolve false [] segments ≡ segments
    → normalize_path p ≡ strip_slashes (assemble false segments)
unfolding normalize_path clean
normalize_relative p segments h e r = rw (h, e, r) refl

normalize_join :
    (s : String) (rest : List String)
    → IsClean true (s ∷ rest)
    → normalize_path (join (s ∷ rest)) ≡ join (s ∷ rest)
unfolding assemble are_dots reverse_onto
normalize_join s rest c =
    let (relative, same) = join_plain s rest c.0 in
    normalize_relative (join (s ∷ rest)) (s ∷ rest) relative
      (split-join s rest (IsClean-NoSlash (s ∷ rest) true c)) (resolve_clean [] (s ∷ rest) c)
    ∙ same

-- A normalized path is "", "." or clean segments with separators between them.
normalized_cases :
    (rooted : Bool) (segments : List String)
    → IsClean true segments
    → str_eq (strip_slashes (assemble rooted segments)) "" ≡ false
    → normalize_path (strip_slashes (assemble rooted segments))
      ≡ strip_slashes (assemble rooted segments)
unfolding assemble join strip_slashes split
normalized_cases true [] c h = absurd (ground arith)
normalized_cases false [] c h = unfold normalize_path clean in refl
normalized_cases true (s ∷ rest) c h = rw (join_plain s rest c.0).1 (normalize_join s rest c)
normalized_cases false (s ∷ rest) c h = rw (join_plain s rest c.0).1 (normalize_join s rest c)

-- Normalizing a path again changes nothing, unless it was the root: "" becomes ".".
pub normalize-normalize :
    (p : String)
    → normalize_path (normalize_path p)
      ≡ (if str_eq (normalize_path p) "" then "." else normalize_path p)
unfolding split
normalize-normalize p =
    if_rule (λ x. normalize_path (normalize_path p) ≡ x) (str_eq (normalize_path p) "")
      (λ h.
        ap normalize_path ((eq_iff (normalize_path p) "").0 h)
        ∙ unfold normalize_path clean in refl)
      (λ h.
        unfold normalize_path clean in
        normalized_cases (is_rooted p) (resolve (is_rooted p) [] (split p slash))
          (resolve-IsClean (is_rooted p) [] (split p slash) tt (split-NoSlash p)) h)
