-- ===== src/Distributed/Acquire/Laws.antt =====
-- When AcquireLock of internal/distributed/lock.go returns what, and how long it waits.
use native.Mathlib.Decide.{dec_le}
use fssvrgo.Prelude.{
  ℕ, zero, suc, ◌+◌, ◌≤◌, ◌<◌, ◌≡◌, ◌↔◌, refl, Bool, false, String, arith, Bool-cases, ◌⊎◌, inl,
  inr, ◌≢◌,
}
use fssvrgo.Distributed.Errors.{
  Result, ok, err, LockError, lock_conflict, context_done, retries_exhausted, lock_not_held,
  backend_error,
}
use fssvrgo.Distributed.Acquire.{acquire_from, acquire_lock}

abbrev Cases : Result String → Type 0
Cases r =
    ((t : String) × (r ≡ ok t))
    ⊎ (r ≡ err lock_conflict)
    ⊎ ((e : LockError) × (r ≡ err e) × (e ≢ lock_conflict))

attempt-Cases : (r : Result String) → Cases r
attempt-Cases (ok t) = inl (t, refl)
attempt-Cases (err lock_conflict) = inr (inl refl)
attempt-Cases (err lock_not_held) = inr (inr (lock_not_held, refl, λ e. cc))
attempt-Cases (err context_done) = inr (inr (context_done, refl, λ e. cc))
attempt-Cases (err retries_exhausted) = inr (inr (retries_exhausted, refl, λ e. cc))
attempt-Cases (err backend_error) = inr (inr (backend_error, refl, λ e. cc))

module _ (attempt : ℕ → Result String) (context_ends : ℕ → Bool) where
  -- The attempts from i up to j met a held lock, and the context outlived the delay after each.
  abbrev pub Waited : ℕ → ℕ → Type 0
  Waited i j = (k : ℕ) → i ≤ k → k < j → (attempt k ≡ err lock_conflict) × (context_ends k ≡ false)

  Waited-from :
      (i j : ℕ)
      → attempt i ≡ err lock_conflict
      → context_ends i ≡ false
      → Waited (i + 1) j
      → Waited i j
  Waited-from i j a c w k lo hi = elim (dec_le k i) [
    | yes p ↦ let e : k ≡ i = omega arith in rw e (a, c)
    | no p ↦ w k (omega arith) hi
  ]

  abbrev Granted : String → ℕ → ℕ → Type 0
  Granted token i left = (j : ℕ) × (i ≤ j) × (j < i + left) × (attempt j ≡ ok token) × Waited i j

  acquire_from_ok :
      (left i : ℕ) (token : String)
      → acquire_from attempt context_ends left i ≡ ok token
      → Granted token i left
  unfolding acquire_from
  acquire_from_ok zero i token h = cc
  acquire_from_ok (suc left) i token h = elim (attempt-Cases (attempt i)) [
    | inl (t, e) ↦ (i, omega arith, omega arith, ground arith, λ k a b. absurd (omega arith))
    | inr (inr (x, e, d)) ↦ absurd (ground arith)
    | inr (inl e) ↦ elim (Bool-cases (context_ends i)) [
      | inl c ↦ absurd (ground arith)
      | inr c ↦
          let (j, lo, hi, a, w) = acquire_from_ok left (i + 1) token (ground arith) in
          (j, omega arith, omega arith, a, Waited-from i j e c w)
    ]
  ]

  acquire_from-Granted :
      (left i : ℕ) (token : String)
      → Granted token i left
      → acquire_from attempt context_ends left i ≡ ok token
  unfolding acquire_from
  acquire_from-Granted zero i token (j, lo, hi, a, w) = absurd (omega arith)
  acquire_from-Granted (suc left) i token (j, lo, hi, a, w) = elim (dec_le j i) [
    | yes p ↦
        let e : j ≡ i = omega arith in let a' : attempt i ≡ ok token = rw (← e) a in ground arith
    | no p ↦
        let (first, alive) = w i (omega arith) (omega arith) in
        ground (
          arith,
          acquire_from-Granted left (i + 1) token
              (j, omega arith, omega arith, a, λ k lo' hi'. w k (omega arith) hi'),
        )
  ]

  -- AcquireLock returns a token exactly when one of the attempts is granted it, all earlier ones
  -- met a held lock, and the context outlived the delay after each of those.
  pub acquire_lock_iff :
      (retry_count : ℕ) (token : String)
      → (acquire_lock attempt context_ends retry_count ≡ ok token)
        ↔ ((j : ℕ) × (j < retry_count) × (attempt j ≡ ok token) × Waited 0 j)
  unfolding acquire_lock
  acquire_lock_iff n token = (
    λ h. let (j, lo, hi, a, w) = acquire_from_ok n 0 token h in (j, omega arith, a, w),
    λ (j, hi, a, w). acquire_from-Granted n 0 token (j, omega arith, omega arith, a, w),
  )
