-- ===== src/Consistency/Tests.antt =====
-- Runs of the consistency manager at concrete inputs.
use fssvrgo.Prelude.{ℕ, ◌≡◌, ◌<◌, refl, Bool, true, leb, [], ◌∷◌, arith, none}
use fssvrgo.Prelude.Int.{pos, add64}
use fssvrgo.Consistency.{ConsistencyManager, level_strong, validate_quorum}
use fssvrgo.Consistency.Quorum.{quorums_overlap, count}

abbrev low : ℕ → Bool
low n = leb n 1

abbrev high : ℕ → Bool
high n = leb 1 n

quorums_overlap_example : (i : ℕ) × (i < 3) × (low i ≡ true) × (high i ≡ true)
unfolding validate_quorum add64 count
quorums_overlap_example =
    quorums_overlap 2 (pos 2) (pos 2) low high (omega arith) (omega arith) refl (omega arith)
      (omega arith)

abbrev manager : ConsistencyManager
manager = record {
  level = level_strong;
  replica_count = pos 2;
  read_quorum = pos 2;
  write_quorum = pos 2;
  sync_interval = 5;
  local_version = pos 7;
  replicas =
      (
        "a",
        record { id = "a"; address = "a:1"; last_sync = none; version = pos 3; available = true },
      )
      ∷ [];
}
