-- ===== src/Distributed/Lock/Holder.antt =====
-- Lock, Unlock and Extend of internal/distributed/lock.go against the map from a key and a time to
-- the holder's token.
use fssvrgo.Prelude.{
  ℕ, ◌+◌, ◌≤◌, ◌≡◌, String, none, some, lookup, erase, lookup-insert, lookup-erase, str_eq, eq_iff,
  if◌then◌else◌, arith, Option-cases, is_some, inl, inr, ◌<◌, ◌&&◌,
}
use fssvrgo.Distributed.Errors.{ok, err, lock_conflict, lock_not_held}
use fssvrgo.Distributed.Lock.{Locks, lock, unlock, extend, holder, holds, granted, expiry_of}

-- A lock is granted exactly when nobody holds the key, and then its token holds the key until the
-- time to live has passed; the holders of other keys, and of a key that is held, stay as they are.
pub lock_refines :
    (s : Locks) (key : String) (ttl : ℕ) (token : String) (now : ℕ) (j : String) (t : ℕ)
    → now ≤ t
    → ((lock s key ttl token now).0
        ≡ (if is_some (holder s key now) then err lock_conflict else ok token))
      × (holder (lock s key ttl token now).1 j t ≡ (
          if is_some (holder s key now)
          then holder s j t
          else if str_eq key j
          then granted token ttl now t
          else holder s j t))
unfolding lock holder
lock_refines s key ttl token now j t h = ground (
  arith,
  lookup-insert key j (record { token = token; expiry = expiry_of ttl now }) s,
  lookup-insert key j (record { token = token; expiry = expiry_of ttl now }) (erase key s),
  lookup-erase key j s,
  eq_iff key j,
)

-- Unlock succeeds exactly for the holder, and then nobody holds the key; otherwise it fails, and
-- from then on the holders are as they were.
pub unlock_refines :
    (s : Locks) (key token : String) (now : ℕ) (j : String) (t : ℕ)
    → now ≤ t
    → ((unlock s key token now).0
        ≡ (if holds (holder s key now) token then ok tt else err lock_not_held))
      × (holder (unlock s key token now).1 j t
          ≡ (if holds (holder s key now) token && str_eq key j then none else holder s j t))
unfolding unlock holder
unlock_refines s key token now j t h = ground (arith, lookup-erase key j s, eq_iff key j)

-- Extend succeeds exactly for the holder, and then a positive time to live counts anew from now;
-- otherwise it fails, and from then on the holders are as they were.
pub extend_refines :
    (s : Locks) (key token : String) (ttl now : ℕ) (j : String) (t : ℕ)
    → now ≤ t
    → 0 < ttl
    → ((extend s key token ttl now).0
        ≡ (if holds (holder s key now) token then ok tt else err lock_not_held))
      × (holder (extend s key token ttl now).1 j t ≡ (
          if holds (holder s key now) token && str_eq key j
          then granted token ttl now t
          else holder s j t))
unfolding extend holder
extend_refines s key token ttl now j t h p = elim (Option-cases (lookup key s)) [
  | inl e ↦ ground (arith, eq_iff key j)
  | inr (x, e) ↦ ground (
    arith,
    lookup-insert key j (record x { expiry = some (now + ttl) }) s,
    lookup-erase key j s,
    eq_iff key j,
    eq_iff x.token token,
  )
]
