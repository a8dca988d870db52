-- ===== src/Consistency/Quorum.antt =====
-- What the quorums of internal/consistency/consistency.go promise.
use fssvrgo.Prelude.{
  ℕ, zero, suc, ◌+◌, ◌≤◌, ◌<◌, ◌≡◌, ◌^◌, Bool, true, ◌&&◌, String, none, List, [], ◌∷◌, arith,
  if◌then◌else◌, Bool-cases, inl, inr,
}
use fssvrgo.Prelude.Int.{ℤ, pos, negsuc, add64_small, ◌≤ℤ◌, eqbℤ}
use fssvrgo.Consistency.{ReplicaStatus, validate_quorum}

-- How many of the first n nodes are in a set.
unfoldable pub count : (ℕ → Bool) → ℕ → ℕ
count set zero = 0
count set (suc n) = let rest = count set n in if set n then suc rest else rest

-- Two sets with more members together than there are nodes share one.
shared :
    (a b : ℕ → Bool) (n : ℕ)
    → n < count a n + count b n
    → (i : ℕ) × (i < n) × (a i ≡ true) × (b i ≡ true)
unfolding count
shared a b zero h = absurd (omega arith)
shared a b (suc n) h = elim (Bool-cases (a n && b n)) [
  | inl both ↦ (n, omega arith, ground arith, ground arith)
  | inr not_both ↦ let (i, lt, p, q) = shared a b n (ground arith) in (i, omega arith, p, q)
]

-- If ValidateQuorum accepts the quorums for a positive number of replicas, fewer than 2^61, then
-- any read quorum and any write quorum among the replicas and the local node have a node in
-- common.
pub quorums_overlap :
    (replicas : ℕ) (read write : ℤ) (readers writers : ℕ → Bool)
    → 0 < replicas
    → replicas < 2 ^ 61
    → validate_quorum (pos replicas) read write ≡ none
    → read ≤ℤ pos (count readers (replicas + 1))
    → write ≤ℤ pos (count writers (replicas + 1))
    → (i : ℕ) × (i < replicas + 1) × (readers i ≡ true) × (writers i ≡ true)
unfolding validate_quorum
quorums_overlap n (negsuc r) write readers writers p small v hr hw = absurd (ground arith)
quorums_overlap n (pos r) (negsuc w) readers writers p small v hr hw =
    let nodes = add64_small n 1 (omega arith) in absurd (ground (arith, nodes))
quorums_overlap n (pos r) (pos w) readers writers p small v hr hw =
    let nodes = add64_small n 1 (omega arith) in
    let r_le : r ≤ n + 1 = ground (arith, nodes) in
    let w_le : w ≤ n + 1 = ground (arith, nodes) in
    let both = add64_small r w (omega arith) in
    let sum : n + 1 < r + w = ground (arith, nodes, both) in
    shared readers writers (n + 1) (omega arith)

-- How many replicas have a version.
unfoldable pub count_at : ℤ → List (String × ReplicaStatus) → ℕ
count_at version [] = 0
count_at version ((id, r) ∷ rest) =
    let n = count_at version rest in if eqbℤ r.version version then suc n else n
