-- ===== src/Distributed/Tests.antt =====
-- Runs of the locks, of AcquireLock and of the memory session store at concrete inputs.
use fssvrgo.Prelude.{
  ℕ, ◌*◌, ◌≡◌, ◌↔◌, refl, Bool, true, false, ◌&&◌, String, none, some, is_some, List, [], ◌∷◌,
  arith, str_eq, ltb, if◌then◌else◌, lookup, ◌≤◌, ◌<◌,
}
use fssvrgo.Prelude.Int.{pos}
use fssvrgo.Distributed.Errors.{Result, ok, err, lock_conflict, lock_not_held}
use fssvrgo.Distributed.Lock.{Locks, lock, unlock, extend, holder, granted, holds}
use fssvrgo.Distributed.Lock.Holder.{lock_refines, unlock_refines, extend_refines}
use fssvrgo.Distributed.Lock.Trace.{
  last_renewal, second, run, renews, locks, unlocks, renewal_excludes, Event,
}
use fssvrgo.Distributed.Acquire.{acquire_lock, delay}
use fssvrgo.Distributed.Acquire.Laws.{Waited, acquire_lock_iff}
use fssvrgo.Distributed.Acquire.Delay.{delay_bounds}

abbrev held : Locks
held = ("file", record { token = "mine"; expiry = some (30 * second) }) ∷ []

abbrev history : List (ℕ × Event)
history =
    (5 * second, locks "file" second "other")
    ∷ (9 * second, renews)
    ∷ (12 * second, unlocks "file" "other")
    ∷ []

renewal_excludes_example :
    ((run "file" "mine" (30 * second) (held, true) history).1 ≡ true)
    × ((lock
          (run "file" "mine" (30 * second) (held, true) history).0
          "file"
          second
          "other"
          (35 * second)).0
        ≡ err lock_conflict)
unfolding lookup last_renewal
renewal_excludes_example =
    renewal_excludes "file" "mine" (30 * second) 0 held history second "other" (35 * second)
      (omega arith) refl ((omega arith, tt, (omega arith, tt, (omega arith, (λ e. cc e), tt))))
      (omega arith)

lock_refines_example :
    ((lock held "file" 5 "new" 7).0
      ≡ (if is_some (holder held "file" 7) then err lock_conflict else ok "new"))
    × (holder (lock held "file" 5 "new" 7).1 "file" 9 ≡ (
        if is_some (holder held "file" 7)
        then holder held "file" 9
        else if str_eq "file" "file"
        then granted "new" 5 7 9
        else holder held "file" 9))
lock_refines_example = lock_refines held "file" 5 "new" 7 "file" 9 (omega arith)

unlock_refines_example :
    ((unlock held "file" "mine" 7).0
      ≡ (if holds (holder held "file" 7) "mine" then ok tt else err lock_not_held))
    × (holder (unlock held "file" "mine" 7).1 "file" 9 ≡ (
        if holds (holder held "file" 7) "mine" && str_eq "file" "file"
        then none
        else holder held "file" 9))
unlock_refines_example = unlock_refines held "file" "mine" 7 "file" 9 (omega arith)

extend_refines_example :
    ((extend held "file" "mine" 5 7).0
      ≡ (if holds (holder held "file" 7) "mine" then ok tt else err lock_not_held))
    × (holder (extend held "file" "mine" 5 7).1 "file" 9 ≡ (
        if holds (holder held "file" 7) "mine" && str_eq "file" "file"
        then granted "mine" 5 7 9
        else holder held "file" 9))
extend_refines_example = extend_refines held "file" "mine" 5 7 "file" 9 (omega arith) (omega arith)

abbrev attempts : ℕ → Result String
attempts n = if ltb n 2 then err lock_conflict else ok "granted"

abbrev patient : ℕ → Bool
patient n = false

acquire_lock_iff_example :
    (acquire_lock attempts patient 3 ≡ ok "granted")
    ↔ ((j : ℕ) × (j < 3) × (attempts j ≡ ok "granted") × Waited attempts patient 0 j)
acquire_lock_iff_example = acquire_lock_iff attempts patient 3 "granted"

delay_bounds_example : (k : ℕ) × (delay 3 100 77 ≡ pos k) × (100 ≤ 2 * k) × (k ≤ 3_000_000_000)
delay_bounds_example = delay_bounds 3 100 77 (omega arith) (omega arith)
