-- ===== src/Distributed/Acquire/Delay.antt =====
-- How long AcquireLock of internal/distributed/lock.go waits between two attempts.
use native.Mathlib.Nat.{one-le-pow}
use fssvrgo.Prelude.{
  ℕ, zero, suc, ◌+◌, ◌-◌, ◌*◌, ◌/◌, ◌%◌, ◌^◌, ◌≤◌, ◌<◌, ◌≡◌, refl, arith, if◌then◌else◌, min,
}
use fssvrgo.Prelude.Int.{
  ℤ, pos, negsuc, int64_mod, int64_half, of_bits, add64, neg_part, pos_part, ltbℤ,
}
use fssvrgo.Distributed.Acquire.{backoff, delay, rand_int63n, rem64, neg64, max_backoff}

rem64_bound : (v : ℤ) (n : ℕ) → (pos_part (rem64 v (suc n)) ≤ n) × (neg_part (rem64 v (suc n)) ≤ n)
unfolding rem64
rem64_bound (pos a) n = grind arith
rem64_bound (negsuc a) n = grind arith

rand_bound :
    (bytes n : ℕ)
    → (pos_part (rand_int63n bytes (pos n)) ≤ n) × (neg_part (rand_int63n bytes (pos n)) ≤ n)
unfolding rand_int63n
rand_bound bytes zero = omega arith
rand_bound bytes (suc n) =
    let (a, b) =
      rem64_bound
        (if ltbℤ (of_bits (bytes % int64_mod)) (pos 0)
          then neg64 (of_bits (bytes % int64_mod))
          else of_bits (bytes % int64_mod))
        n in
    (omega arith, omega arith)

backoff_lem :
    (i base : ℕ)
    → 2 ^ (i - 1) * base < int64_half
    → backoff i base ≡ pos (min (2 ^ (i - 1) * base) max_backoff)
unfolding backoff
backoff_lem i base h =
    let x = 2 ^ (i - 1) * base in
    let e : x % int64_mod ≡ x = omega arith in rw (e, backoff) (ground arith)

-- A jitter of at most half of b, in either direction, does not overflow.
add64_jitter :
    (b : ℕ) (r : ℤ)
    → b ≤ max_backoff
    → pos_part r ≤ b / 2
    → neg_part r ≤ b / 2
    → (k : ℕ) × (add64 (pos b) r ≡ pos k) × (b ≤ k + b / 2) × (k ≤ b + b / 2)
unfolding add64
add64_jitter b (pos n) h p q = (b + n, ground arith, omega arith, omega arith)
add64_jitter b (negsuc n) h p q = (b - suc n, ground arith, omega arith, omega arith)

-- With a base delay of at most two seconds, and as long as the doubled delay is an int64, every
-- delay is positive time: at least half of the base delay, and at most three seconds.
pub delay_bounds :
    (i base bytes : ℕ)
    → base ≤ max_backoff
    → 2 ^ (i - 1) * base < int64_half
    → (k : ℕ) × (delay i base bytes ≡ pos k) × (base ≤ 2 * k) × (k ≤ 3_000_000_000)
unfolding delay
delay_bounds zero base bytes h fits = (base, refl, omega arith, omega arith)
delay_bounds (suc i) base bytes h fits =
    let b = min (2 ^ (suc i - 1) * base) max_backoff in
    let grows : base ≤ 2 ^ (suc i - 1) * base =
      let one : 1 ≤ 2 ^ (suc i - 1) = one-le-pow (suc i - 1) 2 (omega arith) in grind arith in
    let (p, q) = rand_bound bytes (b / 2) in
    let (k, e, lo, hi) = add64_jitter b (rand_int63n bytes (pos (b / 2))) (omega arith) p q in
    (k, rw (backoff_lem (suc i) base fits, delay) e, omega arith, omega arith)
