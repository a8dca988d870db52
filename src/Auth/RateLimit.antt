-- ===== src/Auth/RateLimit.antt =====
-- The failure records of AuthService in internal/auth/auth.go: RecordAuthFailure, IsRateLimited and
-- ClearAuthFailure. Times are in nanoseconds; each operation reads the clock once.
pub mod Burst
use fssvrgo.Prelude.{
  ℕ, ◌-◌, ◌*◌, Bool, true, false, String, Option, none, some, List, [], ◌∷◌, lookup, insert, erase,
  size, ltb, if◌then◌else◌, trim_space,
}
use fssvrgo.Prelude.Int.{ℤ, pos, add64, lebℤ}

-- AuthFailureRecord
pub record AuthFailureRecord : Type 0 where
  pub client_ip : String
  pub failure_count : ℤ
  pub last_failure : ℕ

-- as.authFailures
abbrev pub Failures : Type 0
Failures = List (String × AuthFailureRecord)

-- maxAuthFailures, and rateLimitSeconds in nanoseconds, as NewAuthService sets them
abbrev pub max_auth_failures : ℕ
max_auth_failures = 10

abbrev pub window : ℕ
window = 300 * 1_000_000_000

unfoldable pub is_stale : AuthFailureRecord → ℕ → Bool
is_stale r now = ltb window (now - r.last_failure)

-- IsRateLimited
unfoldable pub is_rate_limited : Failures → String → ℕ → Bool
unfolding is_stale
is_rate_limited fs client_ip now = elim (lookup client_ip fs) [
  | none ↦ false
  | some r ↦ if is_stale r now then false else lebℤ (pos max_auth_failures) r.failure_count
]

-- The records that are not stale.
unfoldable pub sweep : ℕ → Failures → Failures
unfolding is_stale
sweep now [] = []
sweep now ((ip, r) ∷ rest) =
    let kept = sweep now rest in if is_stale r now then kept else (ip, r) ∷ kept

-- RecordAuthFailure for the address without white space around it
unfoldable pub record_trimmed : Failures → String → ℕ → Failures
unfolding is_stale
record_trimmed fs ip now = elim (lookup ip fs) [
  | none ↦ insert ip (record { client_ip = ip; failure_count = pos 1; last_failure = now }) fs
  | some r ↦
      let count = if is_stale r now then pos 1 else add64 r.failure_count (pos 1) in
      insert ip (record r { failure_count = count; last_failure = now }) fs
]

-- RecordAuthFailure
unfoldable pub record_auth_failure : Failures → String → ℕ → Failures
unfolding sweep record_trimmed
record_auth_failure fs client_ip now =
    record_trimmed (if ltb 10000 (size fs) then sweep now fs else fs) (trim_space client_ip) now

-- ClearAuthFailure
unfoldable pub clear_auth_failure : Failures → String → Failures
clear_auth_failure fs client_ip = erase client_ip fs
