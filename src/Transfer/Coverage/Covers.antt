-- ===== src/Transfer/Coverage/Covers.antt =====
-- What addCoveredRange of internal/service/transfer/multipart.go keeps and records.
use fssvrgo.Prelude.{
  ◌≡◌, ◌↔◌, ◌⊎◌, inl, inr, Bool, true, false, List, [], ◌∷◌, arith, Bool-cases, if◌then◌else◌,
}
use fssvrgo.Prelude.Int.{ℤ, pos, negsuc, ◌≤ℤ◌, ◌<ℤ◌, ltbℤ, lebℤ}
use fssvrgo.Transfer.Coverage.{ByteRange, merge_range, add_covered_range}

abbrev pub InRange : ℤ → ByteRange → Type 0
InRange x r = (r.start ≤ℤ x) × (x <ℤ r.end)

-- A byte of the file lies in one of the ranges.
abbrev pub Covers : List ByteRange → ℤ → Type 0
Covers [] x = ⊥
Covers (r ∷ rs) x = InRange x r ⊎ Covers rs x

-- Sorted, with a gap between neighbours, none empty, and all after `low`.
abbrev pub IsSeparated : ℤ → List ByteRange → Type 0
IsSeparated low [] = Unit
IsSeparated low (r ∷ rs) = (low <ℤ r.start) × (r.start <ℤ r.end) × IsSeparated r.end rs

merge_range_inserted-IsSeparated :
    (low : ℤ) (rs : List ByteRange) (s e : ℤ)
    → e ≤ℤ low
    → IsSeparated low rs
    → merge_range rs s e true ≡ rs
unfolding merge_range
merge_range_inserted-IsSeparated low [] s e b h = ground arith
merge_range_inserted-IsSeparated low (r ∷ rs) s e b h =
    ground (arith, merge_range_inserted-IsSeparated r.end rs s e (omega arith) h.2)

IsSeparated-mono :
    (low high : ℤ) (rs : List ByteRange) → low ≤ℤ high → IsSeparated high rs → IsSeparated low rs
IsSeparated-mono low high [] b h = tt
IsSeparated-mono low high (r ∷ rs) b h = (omega arith, h.1, h.2)

abbrev lower : ByteRange → ℤ → ℤ
lower r s = if ltbℤ r.start s then r.start else s

abbrev upper : ByteRange → ℤ → ℤ
upper r e = if ltbℤ e r.end then r.end else e

merge_range-IsSeparated :
    (low : ℤ) (rs : List ByteRange) (s e : ℤ)
    → low <ℤ s
    → s <ℤ e
    → IsSeparated low rs
    → IsSeparated low (merge_range rs s e false)
unfolding merge_range
merge_range-IsSeparated low [] s e b n h = ground arith
merge_range-IsSeparated low (r ∷ rs) s e b n h = elim (Bool-cases (ltbℤ r.end s)) [
  | inl before ↦
      rw (before, merge_range) (h.0, h.1, merge_range-IsSeparated r.end rs s e (ground arith) n h.2)
  | inr touches ↦ elim (Bool-cases (ltbℤ e r.start)) [
    | inl after ↦
        rw
          (
            touches,
            after,
            merge_range_inserted-IsSeparated r.end rs s e (ground arith) h.2,
            merge_range,
          )
          (b, n, (ground arith, h.1, h.2))
    | inr meets ↦
        rw (touches, meets, merge_range)
          (merge_range-IsSeparated low rs (lower r s) (upper r e) (ground arith) (ground arith)
            (IsSeparated-mono low r.end rs (omega arith) h.2))
  ]
]

swap_out : {M A R C : Type 0} → (M → A ⊎ C) → R ⊎ M → A ⊎ R ⊎ C
swap_out f (inl r) = inr (inl r)
swap_out f (inr m) = elim (f m) [ inl a ↦ inl a | inr c ↦ inr (inr c) ]

swap_in : {M A R C : Type 0} → (A ⊎ C → M) → A ⊎ R ⊎ C → R ⊎ M
swap_in f (inl a) = inr (f (inl a))
swap_in f (inr (inl r)) = inl r
swap_in f (inr (inr c)) = inr (f (inr c))

-- Two ranges that touch have no byte between them.
union_split :
    (r : ByteRange) (s e x : ℤ)
    → ltbℤ r.end s ≡ false
    → ltbℤ e r.start ≡ false
    → lower r s ≤ℤ x
    → x <ℤ upper r e
    → ((s ≤ℤ x) × (x <ℤ e)) ⊎ InRange x r
union_split r s e x touches meets lo hi = elim (Bool-cases (ltbℤ x s)) [
  | inl p ↦ inr (ground arith, ground arith)
  | inr p ↦ elim (Bool-cases (ltbℤ x e)) [
    | inl q ↦ inl (ground arith, ground arith)
    | inr q ↦ inr (ground arith, ground arith)
  ]
]

merge_range-Covers :
    (low : ℤ) (rs : List ByteRange) (s e x : ℤ)
    → s <ℤ e
    → IsSeparated low rs
    → Covers (merge_range rs s e false) x ↔ (((s ≤ℤ x) × (x <ℤ e)) ⊎ Covers rs x)
unfolding merge_range
merge_range-Covers low [] s e x n h = (λ c. c, λ c. c)
merge_range-Covers low (r ∷ rs) s e x n h = elim (Bool-cases (ltbℤ r.end s)) [
  | inl before ↦
      let (to, from) = merge_range-Covers r.end rs s e x n h.2 in
      rw (before, merge_range) (swap_out to, swap_in from)
  | inr touches ↦ elim (Bool-cases (ltbℤ e r.start)) [
    | inl after ↦
        rw
          (
            touches,
            after,
            merge_range_inserted-IsSeparated r.end rs s e (ground arith) h.2,
            merge_range,
          )
          (λ c. c, λ c. c)
    | inr meets ↦
        let (to, from) = merge_range-Covers r.end rs (lower r s) (upper r e) x (ground arith) h.2 in
        rw (touches, meets, merge_range)
          (
            λ c. elim (to c) [
              | inl w ↦ elim (union_split r s e x touches meets w.0 w.1) [
                | inl a ↦ inl a
                | inr b ↦ inr (inl b)
              ]
              | inr rest ↦ inr (inr rest)
            ],
            λ c. elim c [
              | inl w ↦ from (inl (ground arith))
              | inr (inl w) ↦ from (inl (ground arith))
              | inr (inr rest) ↦ from (inr rest)
            ],
          )
  ]
]

-- No range ends past `total`.
abbrev pub IsWithin : ℤ → List ByteRange → Type 0
IsWithin total [] = Unit
IsWithin total (r ∷ rs) = (r.end ≤ℤ total) × IsWithin total rs

merge_range-IsWithin :
    (total : ℤ) (rs : List ByteRange) (s e : ℤ) (inserted : Bool)
    → e ≤ℤ total
    → IsWithin total rs
    → IsWithin total (merge_range rs s e inserted)
unfolding merge_range
merge_range-IsWithin total [] s e inserted b h = ground arith
merge_range-IsWithin total (r ∷ rs) s e inserted b h = ground (
  arith,
  merge_range-IsWithin total rs s e inserted b h.1,
  merge_range-IsWithin total rs s e true b h.1,
  merge_range-IsWithin total rs (lower r s) (upper r e) inserted,
)

-- What a session keeps: the ranges begin at 0 or later, are sorted with gaps and not empty, and lie
-- within the file.
pub record IsCoverage (total : ℤ) (covered : List ByteRange) : Type 0 where
  pub separated : IsSeparated (negsuc 0) covered
  pub within : IsWithin total covered

-- addCoveredRange keeps the ranges sorted, apart, not empty and within the file, whether the new
-- range is empty, overlaps others or touches them, and then exactly the bytes of the new range are
-- covered besides those that were.
pub add_covered_range_records :
    (total : ℤ) (covered : List ByteRange) (start end : ℤ)
    → pos 0 ≤ℤ start
    → end ≤ℤ total
    → IsCoverage total covered
    → IsCoverage total (add_covered_range covered start end)
      × ((x : ℤ)
          → Covers (add_covered_range covered start end) x
            ↔ (((start ≤ℤ x) × (x <ℤ end)) ⊎ Covers covered x))
unfolding add_covered_range
add_covered_range_records total covered start end lo hi h = elim (Bool-cases (lebℤ end start)) [
  | inl empty ↦
      rw (empty, add_covered_range)
        (h, λ x. (inr, λ c. elim c [ inl w ↦ absurd (ground arith) | inr old ↦ old ]))
  | inr proper ↦
      rw (proper, add_covered_range)
        (
          record {
            separated =
                merge_range-IsSeparated (negsuc 0) covered start end (ground arith) (ground arith)
                  h.separated;
            within = merge_range-IsWithin total covered start end false hi h.within;
          },
          λ x. merge_range-Covers (negsuc 0) covered start end x (ground arith) h.separated,
        )
]
