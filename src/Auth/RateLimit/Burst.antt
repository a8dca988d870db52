-- ===== src/Auth/RateLimit/Burst.antt =====
-- When IsRateLimited of internal/auth/auth.go holds after a series of failures.
use fssvrgo.Prelude.{
  ℕ, ◌+◌, ◌≤◌, ◌<◌, ◌≡◌, Bool, false, ◌&&◌, String, none, some, List, [], ◌∷◌, lookup, insert, size,
  lookup-insert, lookup-insert_here, eq_iff, ltb, leb, str_eq, if◌then◌else◌, trim_space, arith,
  Bool-cases, inl, inr, Option-cases, sym, subst,
}
use fssvrgo.Prelude.Int.{pos, add64_small, int64_half}
use fssvrgo.Auth.RateLimit.{
  AuthFailureRecord, Failures, window, is_stale, is_rate_limited, sweep, record_trimmed,
  record_auth_failure,
}

lookup-insert_other :
    (key : String) {q : AuthFailureRecord} (fs : Failures) (ip : String) (r : AuthFailureRecord)
    → str_eq ip key ≡ false
    → lookup key fs ≡ some q
    → lookup key (insert ip r fs) ≡ some q
lookup-insert_other key fs ip r other h = ground (arith, lookup-insert ip key r fs)

-- A sweep keeps a record that is not stale, if the addresses are pairwise different or it comes first.
sweep-keeps :
    (now : ℕ) (fs : Failures) (key : String) (r : AuthFailureRecord)
    → lookup key fs ≡ some r
    → is_stale r now ≡ false
    → lookup key (sweep now fs) ≡ some r
unfolding sweep lookup
sweep-keeps now [] key r h f = h
sweep-keeps now ((ip, q) ∷ rest) key r h f =
    ground (arith, eq_iff ip key, sweep-keeps now rest key r)

module _ (key : String) where
  abbrev counted : ℕ → ℕ → AuthFailureRecord
  counted n last = record { client_ip = key; failure_count = pos n; last_failure = last }

  -- The failures with their addresses and times, one after the other.
  pub record_all : Failures → List (String × ℕ) → Failures
  record_all fs [] = fs
  record_all fs ((ip, now) ∷ rest) = record_all (record_auth_failure fs ip now) rest

  abbrev is_hit : String → Bool
  is_hit ip = str_eq (trim_space ip) key

  -- How many of the failures are for the key, and the time of the last of those.
  unfoldable pub hits : ℕ → List (String × ℕ) → ℕ
  hits n [] = n
  hits n ((ip, now) ∷ rest) = hits (if is_hit ip then n + 1 else n) rest

  pub last_hit : ℕ → List (String × ℕ) → ℕ
  last_hit last [] = last
  last_hit last ((ip, now) ∷ rest) = last_hit (if is_hit ip then now else last) rest

  -- Every failure comes at most the window after the last failure for the key.
  abbrev pub IsBurst : ℕ → List (String × ℕ) → Type 0
  IsBurst last [] = Unit
  IsBurst last ((ip, now) ∷ rest) =
      (now ≤ last + window) × IsBurst (if is_hit ip then now else last) rest

  record_trimmed-counted :
      (fs : Failures) (ip : String) (now n last : ℕ)
      → n + 1 < int64_half
      → now ≤ last + window
      → lookup key fs ≡ some (counted n last)
      → lookup key (record_trimmed fs ip now)
        ≡ some (if str_eq ip key then counted (n + 1) now else counted n last)
  unfolding record_trimmed is_stale
  record_trimmed-counted fs ip now n last small soon h =
      let up = add64_small n 1 small in
      elim (Bool-cases (str_eq ip key)) [
        | inl same ↦
            let e : ip ≡ key = (eq_iff ip key).0 same in
            let found : lookup ip fs ≡ some (counted n last) =
              subst (λ k. lookup k fs ≡ some (counted n last)) (sym e) h in
            rw (same, found, record_trimmed)
              (ground (arith, up, lookup-insert ip key (counted (n + 1) now) fs))
        | inr other ↦ elim (Option-cases (lookup ip fs)) [
          | inl missing ↦
              rw (other, missing, record_trimmed)
                (ground (
                  arith,
                  lookup-insert ip key
                      (record { client_ip = ip; failure_count = pos 1; last_failure = now }) fs,
                ))
          | inr (r, found) ↦
              rw (other, found, record_trimmed) (lookup-insert_other key fs ip _ other h)
        ]
      ]

  record-counted :
      (fs : Failures) (ip : String) (now n last : ℕ)
      → n + 1 < int64_half
      → now ≤ last + window
      → lookup key fs ≡ some (counted n last)
      → lookup key (record_auth_failure fs ip now)
        ≡ some (if is_hit ip then counted (n + 1) now else counted n last)
  unfolding record_auth_failure record_trimmed is_stale
  record-counted fs ip now n last small soon h =
      let fs' = if ltb 10000 (size fs) then sweep now fs else fs in
      let h' : lookup key fs' ≡ some (counted n last) =
        ground (arith, sweep-keeps now fs key (counted n last)) in
      record_trimmed-counted fs' (trim_space ip) now n last small soon h'

  hits_le : (n : ℕ) (failures : List (String × ℕ)) → n ≤ hits n failures
  unfolding hits
  hits_le n [] = omega arith
  hits_le n ((ip, now) ∷ rest) = ground (arith, hits_le n rest, hits_le (n + 1) rest)

  record_all-counted :
      (fs : Failures) (n last : ℕ) (failures : List (String × ℕ))
      → hits n failures + 1 < int64_half
      → IsBurst last failures
      → lookup key fs ≡ some (counted n last)
      → lookup key (record_all fs failures)
        ≡ some (counted (hits n failures) (last_hit last failures))
  unfolding record_all hits last_hit
  record_all-counted fs n last [] small b h = h
  record_all-counted fs n last ((ip, now) ∷ rest) small b h =
      record_all-counted (record_auth_failure fs ip now) _ _ rest small b.1 (
        ground (
          arith,
          record-counted fs ip now n last (ground (arith, hits_le n rest, hits_le (n + 1) rest)) b.0
              h,
        ))

  first_failure :
      (fs : Failures) (now : ℕ)
      → lookup key fs ≡ none
      → size fs ≤ 10000
      → trim_space key ≡ key
      → lookup key (record_auth_failure fs key now) ≡ some (counted 1 now)
  unfolding record_auth_failure record_trimmed
  first_failure fs now fresh few trimmed =
      ground (arith, trimmed, lookup-insert_here key (counted 1 now) fs)

  -- After any failures, of this address and of others, each of which comes within the window after
  -- the last one of this address, IsRateLimited holds for it exactly while the window since its
  -- last failure has not passed and at least ten of the failures were its own. The address has no
  -- white space around it and no record before, there are at most 10000 records, and fewer than
  -- 2^63 failures.
  pub burst-limited :
      (fs : Failures) (start : ℕ) (failures : List (String × ℕ)) (now : ℕ)
      → lookup key fs ≡ none
      → size fs ≤ 10000
      → trim_space key ≡ key
      → hits 1 failures + 1 < int64_half
      → IsBurst start failures
      → is_rate_limited (record_all fs ((key, start) ∷ failures)) key now
        ≡ (leb now (last_hit start failures + window) && leb 10 (hits 1 failures))
  unfolding is_rate_limited is_stale record_all
  burst-limited fs start failures now fresh few trimmed small b =
      let first : lookup key (record_auth_failure fs key start) ≡ some (counted 1 start) =
        first_failure fs start fresh few trimmed in
      let k =
        record_all-counted (record_auth_failure fs key start) 1 start failures small b first in
      ground (arith, k)
