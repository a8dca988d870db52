-- ===== src/Distributed/Lock/Trace.antt =====
-- Histories of LocalDistributedLock, with the renewal goroutine of AcquireLockWithRenewal in
-- internal/distributed/lock.go. An event of a history is a call of some client at a time, or a tick
-- of the goroutine that renews the lock of `key` for `token`. Times are in nanoseconds.
use fssvrgo.Prelude.{
  ℕ, ◌+◌, ◌*◌, ◌/◌, ◌≤◌, ◌<◌, ◌≡◌, ◌≢◌, refl, Bool, true, false, String, some, List, [], ◌∷◌, ltb,
  lookup, lookup-insert, lookup-erase, erase, inl, inr, Option-cases, eq_refl, eq_iff,
  if◌then◌else◌, arith,
}
use fssvrgo.Distributed.Errors.{ok, err, lock_conflict}
use fssvrgo.Distributed.Lock.{Locks, LockEntry, expired_locked, lock, unlock, extend, expiry_of}

abbrev pub second : ℕ
second = 1_000_000_000

-- interval := ttl / 3, at least two seconds
abbrev pub renew_interval : ℕ → ℕ
renew_interval ttl = let third = ttl / 3 in if ltb third (2 * second) then 2 * second else third

pub data Event : Type 0 where
  locks : String → ℕ → String → Event
  unlocks : String → String → Event
  extends : String → String → ℕ → Event
  renews : Event

-- Calls on other keys, or with other tokens, leave a live entry alone.
module _ (key : String) (e : LockEntry) (s : Locks) (now : ℕ) where
  lock_keeps :
      (k : String) (d : ℕ) (x : String)
      → lookup key s ≡ some e
      → expired_locked e now ≡ false
      → lookup key (lock s k d x now).1 ≡ some e
  unfolding lock
  lock_keeps k d x h live = ground (
    arith,
    lookup-insert k key (record { token = x; expiry = expiry_of d now }) s,
    lookup-insert k key (record { token = x; expiry = expiry_of d now }) (erase k s),
    lookup-erase k key s,
    eq_iff k key,
  )

  unlock_keeps :
      (k x : String)
      → lookup key s ≡ some e
      → expired_locked e now ≡ false
      → x ≢ e.token
      → lookup key (unlock s k x now).1 ≡ some e
  unfolding unlock
  unlock_keeps k x h live f = ground (arith, lookup-erase k key s, eq_iff k key, eq_iff e.token x)

  extend_keeps :
      (k x : String) (d : ℕ)
      → lookup key s ≡ some e
      → expired_locked e now ≡ false
      → x ≢ e.token
      → lookup key (extend s k x d now).1 ≡ some e
  unfolding extend
  extend_keeps k x d h live f = elim (Option-cases (lookup k s)) [
    | inl missing ↦ ground (arith, lookup-erase k key s, eq_iff k key, eq_iff e.token x)
    | inr (y, found) ↦ ground (
      arith,
      lookup-erase k key s,
      lookup-insert k key (record y { expiry = some (now + d) }) s,
      eq_iff k key,
      eq_iff e.token x,
      eq_iff y.token x,
    )
  ]

  -- The owner's own Extend succeeds and starts a new term.
  extend_renews :
      (ttl : ℕ)
      → lookup key s ≡ some e
      → expired_locked e now ≡ false
      → 0 < ttl
      → ((extend s key e.token ttl now).0 ≡ ok tt)
        × (lookup key (extend s key e.token ttl now).1
            ≡ some (record e { expiry = some (now + ttl) }))
  unfolding extend
  extend_renews ttl h live p = ground (
    arith,
    lookup-insert key key (record e { expiry = some (now + ttl) }) s,
    eq_refl key,
    eq_refl e.token,
  )

module _ (key token : String) (ttl : ℕ) where
  -- The locks, and whether the goroutine still runs: it returns at the first error of Extend.
  pub step : Locks × Bool → ℕ → Event → Locks × Bool
  step (s, on) now (locks k d x) = ((lock s k d x now).1, on)
  step (s, on) now (unlocks k x) = ((unlock s k x now).1, on)
  step (s, on) now (extends k x d) = ((extend s k x d now).1, on)
  step (s, false) now renews = (s, false)
  step (s, true) now renews =
      let (r, s') = extend s key token ttl now in elim r [ ok _ ↦ (s', true) | err _ ↦ (s', false) ]

  pub run : Locks × Bool → List (ℕ × Event) → Locks × Bool
  run w [] = w
  run w ((now, ev) ∷ rest) = run (step w now ev) rest

  -- The owner does nothing but renew: no other call carries the token.
  abbrev pub IsForeign : Event → Type 0
  IsForeign (locks k d x) = Unit
  IsForeign (unlocks k x) = x ≢ token
  IsForeign (extends k x d) = x ≢ token
  IsForeign renews = Unit

  abbrev pub last_after : ℕ → Event → ℕ → ℕ
  last_after last renews now = now
  last_after last _ now = last

  -- The calls of others carry other tokens, and no event comes later than the renewal interval
  -- after the grant or the tick before it.
  abbrev pub IsRenewed : ℕ → List (ℕ × Event) → Type 0
  IsRenewed last [] = Unit
  IsRenewed last ((now, ev) ∷ rest) =
      (now ≤ last + renew_interval ttl) × IsForeign ev × IsRenewed (last_after last ev now) rest

  unfoldable pub last_renewal : ℕ → List (ℕ × Event) → ℕ
  last_renewal last [] = last
  last_renewal last ((now, ev) ∷ rest) = last_renewal (last_after last ev now) rest

  abbrev mine : ℕ → LockEntry
  mine last = record { token = token; expiry = some (last + ttl) }

  -- The goroutine runs, and the entry of the key is the owner's with a full term from `last`.
  pub record IsHeld (last : ℕ) (w : Locks × Bool) : Type 0 where
    pub running : w.1 ≡ true
    pub entry : lookup key w.0 ≡ some (record { token = token; expiry = some (last + ttl) })

  interval_le : 2 * second ≤ ttl → renew_interval ttl ≤ ttl
  interval_le h = ground arith

  step-IsHeld :
      (last : ℕ) (s : Locks) (now : ℕ) (ev : Event)
      → 2 * second ≤ ttl
      → now ≤ last + renew_interval ttl
      → IsForeign ev
      → IsHeld last (s, true)
      → IsHeld (last_after last ev now) (step (s, true) now ev)
  unfolding step expired_locked
  step-IsHeld last s now (locks k d x) long soon f h = record {
    running = refl;
    entry = lock_keeps key (mine last) s now k d x h.entry (ground (arith, interval_le));
  }
  step-IsHeld last s now (unlocks k x) long soon f h = record {
    running = refl;
    entry = unlock_keeps key (mine last) s now k x h.entry (ground (arith, interval_le)) f;
  }
  step-IsHeld last s now (extends k x d) long soon f h = record {
    running = refl;
    entry = extend_keeps key (mine last) s now k x d h.entry (ground (arith, interval_le)) f;
  }
  step-IsHeld last s now renews long soon f h =
      let (r, e) =
        extend_renews key (mine last) s now ttl h.entry (ground (arith, interval_le))
          (omega arith) in
      rw (r, step) (record { running = refl; entry = e })

  run-IsHeld :
      (last : ℕ) (w : Locks × Bool) (events : List (ℕ × Event))
      → 2 * second ≤ ttl
      → IsRenewed last events
      → IsHeld last w
      → IsHeld (last_renewal last events) (run w events)
  unfolding run last_renewal
  run-IsHeld last w [] long r h = h
  run-IsHeld last (s, false) ((now, ev) ∷ rest) long r h = cc h.running
  run-IsHeld last (s, true) ((now, ev) ∷ rest) long r h =
      run-IsHeld (last_after last ev now) (step (s, true) now ev) rest long r.2
        (step-IsHeld last s now ev long r.0 r.1 h)

  -- While the owner renews in time, nobody else gets the lock: after any history of other clients'
  -- calls and renewal ticks that starts with a full term of at least two seconds, the goroutine
  -- still runs, and every Lock of the key up to the end of the last renewed term is a conflict.
  pub renewal_excludes :
      (last : ℕ) (s : Locks) (events : List (ℕ × Event)) (d : ℕ) (x : String) (now : ℕ)
      → 2 * second ≤ ttl
      → lookup key s ≡ some (record { token = token; expiry = some (last + ttl) })
      → IsRenewed last events
      → now ≤ last_renewal last events + ttl
      → ((run (s, true) events).1 ≡ true)
        × ((lock (run (s, true) events).0 key d x now).0 ≡ err lock_conflict)
  unfolding lock expired_locked
  renewal_excludes last s events d x now long h r soon =
      let k = run-IsHeld last (s, true) events long r (record { running = refl; entry = h }) in
      (k.running, ground (arith, k.entry))
