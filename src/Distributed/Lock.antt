-- ===== src/Distributed/Lock.antt =====
-- LocalDistributedLock of internal/distributed/lock.go. The clock and the random token of a call
-- are its arguments; a call reads the clock once. A duration that is not positive is 0.
pub mod Holder
pub mod Trace
use fssvrgo.Prelude.{
  ℕ, ◌+◌, ◌≡◌, Bool, true, false, ◌&&◌, not, String, Option, none, some, List, [], ltb, lookup,
  insert, erase, str_eq, if◌then◌else◌,
}
use fssvrgo.Distributed.Errors.{Result, ok, err, lock_conflict, lock_not_held}

-- localLockEntry; the zero time is `none`
pub record LockEntry : Type 0 where
  pub token : String
  pub expiry : Option ℕ

-- l.locks
abbrev pub Locks : Type 0
Locks = List (String × LockEntry)

-- NewLocalDistributedLock
abbrev pub new_local_lock : Locks
new_local_lock = []

-- now is after the entry's expiry
unfoldable pub expired_locked : LockEntry → ℕ → Bool
expired_locked e now = elim e.expiry [ none ↦ false | some t ↦ ltb t now ]

abbrev pub expiry_of : ℕ → ℕ → Option ℕ
expiry_of ttl now = if ltb 0 ttl then some (now + ttl) else none

-- Unlock and Extend begin alike: the entry that is live and has the caller's token, if any, and
-- the map without an entry that has expired.
held_entry : Locks → String → String → ℕ → Option LockEntry × Locks
unfolding expired_locked
held_entry s key token now = elim (lookup key s) [
  | none ↦ (none, s)
  | some e ↦
      if expired_locked e now
      then (none, erase key s)
      else if str_eq e.token token
      then (some e, s)
      else (none, s)
]

-- Lock
pub lock : Locks → String → ℕ → String → ℕ → Result String × Locks
unfolding expired_locked
lock s key ttl token now =
    let entry : LockEntry = record { token = token; expiry = expiry_of ttl now } in
    elim (lookup key s) [
      | none ↦ (ok token, insert key entry s)
      | some e ↦
          if expired_locked e now
          then (ok token, insert key entry (erase key s))
          else (err lock_conflict, s)
    ]

-- Unlock
pub unlock : Locks → String → String → ℕ → Result (Unit {0}) × Locks
unfolding held_entry
unlock s key token now =
    let (found, s') = held_entry s key token now in
    elim found [ none ↦ (err lock_not_held, s') | some e ↦ (ok tt, erase key s') ]

-- Extend
pub extend : Locks → String → String → ℕ → ℕ → Result (Unit {0}) × Locks
unfolding held_entry
extend s key token ttl now =
    let (found, s') = held_entry s key token now in
    elim found [
      | none ↦ (err lock_not_held, s')
      | some e ↦
          (ok tt, if ltb 0 ttl then insert key (record e { expiry = some (now + ttl) }) s' else s')
    ]

-- Who holds the key at a time: the token of a live entry.
pub holder : Locks → String → ℕ → Option String
unfolding expired_locked
holder s key now = elim (lookup key s) [
  | none ↦ none
  | some e ↦ if expired_locked e now then none else some e.token
]

-- The holder that a grant at `now` leaves at the time `t`.
abbrev pub granted : String → ℕ → ℕ → ℕ → Option String
granted token ttl now t = if ltb 0 ttl && ltb (now + ttl) t then none else some token

-- Whether the holder is the one with this token.
abbrev pub holds : Option String → String → Bool
holds none token = false
holds (some x) token = str_eq x token
