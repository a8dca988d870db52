-- ===== src/Distributed/Errors.antt =====
-- The errors of internal/distributed, and the result of a call that may return one.
pub data LockError : Type 0 where
  -- ErrLockConflict, ErrLockNotHeld, ctx.Err(), "failed to acquire lock after %d retries", and an
  -- error of the lock's backend
  lock_conflict lock_not_held context_done retries_exhausted backend_error : LockError

pub data Result {ℓ} (A : Type ℓ) : Type ℓ where
  ok : A → Result A
  err : LockError → Result A
