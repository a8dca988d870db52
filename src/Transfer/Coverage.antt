-- ===== src/Transfer/Coverage.antt =====
-- byteRange, addCoveredRange and isFullyCovered of internal/service/transfer/multipart.go.
pub mod Covers
pub mod Complete
use fssvrgo.Prelude.{Bool, true, false, List, [], ◌∷◌, if◌then◌else◌}
use fssvrgo.Prelude.Int.{ℤ, pos, ltbℤ, lebℤ, eqbℤ}

-- [start, end)
pub record ByteRange : Type 0 where
  pub start : ℤ
  pub end : ℤ

-- The loop over the ranges that are left. `merged = append(merged, r)` is the head of the result.
unfoldable pub merge_range : List ByteRange → ℤ → ℤ → Bool → List ByteRange
merge_range [] start end inserted =
    if inserted then [] else record { start = start; end = end } ∷ []
merge_range (r ∷ rs) start end inserted = elim (ltbℤ r.end start) [
  | true ↦ r ∷ merge_range rs start end inserted
  | false ↦ elim (ltbℤ end r.start) [
    | true ↦ elim inserted [
      | true ↦ r ∷ merge_range rs start end true
      | false ↦ record { start = start; end = end } ∷ r ∷ merge_range rs start end true
    ]
    | false ↦
        merge_range rs (if ltbℤ r.start start then r.start else start)
          (if ltbℤ end r.end then r.end else end) inserted
  ]
]

-- addCoveredRange
unfoldable pub add_covered_range : List ByteRange → ℤ → ℤ → List ByteRange
unfolding merge_range
add_covered_range covered start end =
    if lebℤ end start then covered else merge_range covered start end false

-- Whether the ranges after one that ends at `end` join on to each other and end at `total`.
unfoldable pub joined : ℤ → List ByteRange → ℤ → Bool
joined end [] total = eqbℤ end total
joined end (r ∷ rs) total =
    let rest = joined r.end rs total in if eqbℤ r.start end then rest else false

-- isFullyCovered: with the two passes over the ranges, for the last end and for the joints, as one.
unfoldable pub is_fully_covered : List ByteRange → ℤ → Bool
unfolding joined
is_fully_covered [] total = eqbℤ total (pos 0)
is_fully_covered (r ∷ rs) total = if eqbℤ r.start (pos 0) then joined r.end rs total else false
