-- ===== src/Transfer/Coverage/Complete.antt =====
-- isFullyCovered of internal/service/transfer/multipart.go decides that no byte is missing.
use fssvrgo.Prelude.{
  zero, suc, ap, ◌≡◌, ◌↔◌, inl, inr, true, List, [], ◌∷◌, arith, Bool-cases, refl,
}
use fssvrgo.Prelude.Int.{ℤ, pos, negsuc, ◌≤ℤ◌, ◌<ℤ◌, ltbℤ, eqbℤ→eq, eqbℤ_self, pos_part, neg_part}
use fssvrgo.Transfer.Coverage.{ByteRange, is_fully_covered}
use fssvrgo.Transfer.Coverage.Covers.{Covers, IsSeparated, IsWithin, IsCoverage}

-- a <= b and b <= a
antisym : (a b : ℤ) → a ≤ℤ b → b ≤ℤ a → a ≡ b
antisym (pos a) (pos b) p q = ground arith
antisym (negsuc a) (negsuc b) p q = ground arith
antisym (pos a) (negsuc b) p q = absurd (omega arith)
antisym (negsuc a) (pos b) p q = absurd (omega arith)

Covers-above : (low x : ℤ) (rs : List ByteRange) → IsSeparated low rs → Covers rs x → low <ℤ x
Covers-above low x [] h c = absurd c
Covers-above low x (r ∷ rs) h (inl w) = omega arith
Covers-above low x (r ∷ rs) h (inr c) = omega (arith, Covers-above r.end x rs h.2 c)

fully_to :
    (total : ℤ) (rs : List ByteRange)
    → IsSeparated (negsuc 0) rs
    → is_fully_covered rs total ≡ true
    → (x : ℤ) → pos 0 ≤ℤ x
    → x <ℤ total
    → Covers rs x
unfolding is_fully_covered
fully_to total [] h f x lo hi = let e = eqbℤ→eq total (pos 0) f in absurd (ground arith)
fully_to total (r ∷ []) h f x lo hi =
    inl (ground (arith, eqbℤ→eq r.start (pos 0), eqbℤ→eq r.end total))
fully_to total (r ∷ q ∷ rs) h f x lo hi = absurd (ground (arith, eqbℤ→eq q.start r.end))

module _ (total : ℤ) (r : ByteRange) (rs : List ByteRange) (h : IsSeparated (negsuc 0) (r ∷ rs))
    (w : IsWithin total (r ∷ rs)) (c : (x : ℤ) → pos 0 ≤ℤ x → x <ℤ total → Covers (r ∷ rs) x) where
  first_start : r.start ≡ pos 0
  first_start = elim (c (pos 0) (omega arith) (omega arith)) [
    | inl v ↦ antisym r.start (pos 0) v.0 (omega arith)
    | inr d ↦ absurd (omega (arith, Covers-above r.end (pos 0) rs h.2 d))
  ]

  first_end : r.end ≡ total
  first_end = antisym r.end total w.0 (elim (Bool-cases (ltbℤ r.end total)) [
    | inl more ↦ elim (c r.end (omega arith) (ground arith)) [
      | inl v ↦ absurd (omega arith)
      | inr d ↦ absurd (omega (arith, Covers-above r.end r.end rs h.2 d))
    ]
    | inr enough ↦ ground arith
  ])

fully_from :
    (total : ℤ) (rs : List ByteRange)
    → pos 0 ≤ℤ total
    → IsSeparated (negsuc 0) rs
    → IsWithin total rs
    → ((x : ℤ) → pos 0 ≤ℤ x → x <ℤ total → Covers rs x)
    → is_fully_covered rs total ≡ true
unfolding is_fully_covered
fully_from (pos zero) [] p h w c = refl
fully_from (pos (suc n)) [] p h w c = absurd (c (pos 0) (omega arith) (omega arith))
fully_from (negsuc n) [] p h w c = absurd (omega arith)
fully_from total (r ∷ []) p h w c =
    rw (first_start total r [] h w c, first_end total r [] h w c) (eqbℤ_self total)
fully_from total (r ∷ q ∷ rs) p h w c =
    let e = first_end total r (q ∷ rs) h w c in
    let (a, b, m) = h.2 in absurd (omega (arith, ap pos_part e, ap neg_part e))

-- With ranges that addCoveredRange keeps, isFullyCovered holds exactly when every byte from 0 up to
-- the total size lies in a recorded range.
pub is_fully_covered_iff :
    (total : ℤ) (covered : List ByteRange)
    → pos 0 ≤ℤ total
    → IsCoverage total covered
    → (is_fully_covered covered total ≡ true)
      ↔ ((x : ℤ) → pos 0 ≤ℤ x → x <ℤ total → Covers covered x)
is_fully_covered_iff total covered p h =
    (fully_to total covered h.separated, fully_from total covered p h.separated h.within)
