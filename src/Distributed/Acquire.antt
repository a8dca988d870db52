-- ===== src/Distributed/Acquire.antt =====
-- AcquireLock and its backoff, of internal/distributed/lock.go. What the other clients do between
-- the attempts is seen in the result of each attempt, so the results of `dl.Lock` are a function of
-- the attempt's number, and so is whether the context ends before the delay after it has passed.
-- Durations are int64 counts of nanoseconds.
pub mod Laws
pub mod Delay
use fssvrgo.Prelude.{
  ℕ, zero, suc, ◌+◌, ◌-◌, ◌*◌, ◌/◌, ◌%◌, ◌^◌, Bool, true, false, String, ◌==◌, ltb, if◌then◌else◌,
}
use fssvrgo.Prelude.Int.{ℤ, pos, negsuc, lebℤ, ltbℤ, add64, of_bits, int64_mod, int64_half}
use fssvrgo.Distributed.Errors.{
  Result, ok, err, LockError, lock_conflict, context_done, retries_exhausted,
}

-- 2*time.Second
abbrev pub max_backoff : ℕ
max_backoff = 2_000_000_000

-- Go's division of an int64 by 2 and its remainder by a positive number, both towards zero
div2 : ℤ → ℤ
div2 (pos a) = pos (a / 2)
div2 (negsuc a) = if suc a / 2 == 0 then pos 0 else negsuc (suc a / 2 - 1)

rem64 : ℤ → ℕ → ℤ
rem64 (pos a) n = pos (a % n)
rem64 (negsuc a) n = if suc a % n == 0 then pos 0 else negsuc (suc a % n - 1)

-- -v on int64: the smallest one is its own negative
neg64 : ℤ → ℤ
neg64 (pos zero) = pos 0
neg64 (pos (suc a)) = negsuc a
neg64 (negsuc a) = if suc a == int64_half then negsuc a else pos (suc a)

-- randInt63n, with the eight random bytes as one number
pub rand_int63n : ℕ → ℤ → ℤ
unfolding rem64 neg64
rand_int63n bytes (negsuc n) = pos 0
rand_int63n bytes (pos zero) = pos 0
rand_int63n bytes (pos (suc n)) =
    let v = of_bits (bytes % int64_mod) in rem64 (if ltbℤ v (pos 0) then neg64 v else v) (suc n)

-- time.Duration(1<<uint(i-1)) * baseDelay on int64, capped
pub backoff : ℕ → ℕ → ℤ
backoff i base =
    let b = of_bits (2 ^ (i - 1) * base % int64_mod) in
    if ltbℤ (pos max_backoff) b then pos max_backoff else b

-- The delay after attempt i.
pub delay : ℕ → ℕ → ℕ → ℤ
unfolding backoff rand_int63n div2
delay zero base bytes = pos base
delay (suc i) base bytes = let b = backoff (suc i) base in add64 b (rand_int63n bytes (div2 b))

module _ (attempt : ℕ → Result String) (context_ends : ℕ → Bool) where
  -- The loop from attempt i on, with so many rounds left.
  acquire_from : ℕ → ℕ → Result String
  acquire_from zero i = err retries_exhausted
  acquire_from (suc left) i = elim (attempt i) [
    | ok token ↦ ok token
    | err lock_conflict ↦ elim (context_ends i) [
      | true ↦ err context_done
      | false ↦ acquire_from left (i + 1)
    ]
    | err e ↦ err e
  ]

  -- AcquireLock
  pub acquire_lock : ℕ → Result String
  unfolding acquire_from
  acquire_lock retry_count = acquire_from retry_count 0
