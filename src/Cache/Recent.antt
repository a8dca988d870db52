-- ===== src/Cache/Recent.antt =====
-- The cache of internal/cache/cache.go keeps what was used last.
use fssvrgo.Prelude.{
  ℕ, ◌+◌, ◌*◌, ◌<◌, ◌≡◌, refl, ap, ◌∙◌, true, ◌&&◌, String, Option, none, some, List, length, All,
  if_rule, lookup, ltb, if◌then◌else◌, arith,
}
use fssvrgo.Prelude.Int.{pos, ltbℤ, mul64, add_to}
use fssvrgo.Cache.{Entry, Cache, is_expired, entry_of, get, set}
use fssvrgo.Cache.Linked.{IsLinked, set-IsLinked}
use fssvrgo.Cache.History.{Call, call_all}
use fssvrgo.Cache.Recency.{calls-Kept, set_first, spares}

lifetime :
    (seconds t now : ℕ)
    → seconds < 9_223_372_036
    → ltbℤ (add_to t (mul64 seconds 1_000_000_000)) (pos now)
      ≡ ltb (t + seconds * 1_000_000_000) now
unfolding mul64
lifetime seconds t now small =
    let exact : mul64 seconds 1_000_000_000 ≡ pos (seconds * 1_000_000_000) = ground arith in
    ap (λ x. ltbℤ (add_to t x) (pos now)) exact ∙ ground arith

module _ {V : Type 0} where
  get_here :
      (k : String) (e : Entry V) (now : ℕ) (c : Cache V)
      → lookup k c.items ≡ some e
      → (get k now c).0 ≡ (if is_expired c e now then none else some e.value)
  unfolding get
  get_here k e now c here =
      rw (here, get)
        (if_rule
          (λ (w : Option V × Cache V). w.0 ≡ (if is_expired c e now then none else some e.value))
          (is_expired c e now) (λ x. rw x refl) (λ x. rw x refl))

  is_expired_entry :
      (v : V) (t now seconds : ℕ) (c d : Cache V)
      → c.ttl ≡ pos seconds
      → d.ttl ≡ pos seconds
      → seconds < 9_223_372_036
      → is_expired d (entry_of c v t) now ≡ (ltb 0 seconds && ltb (t + seconds * 1_000_000_000) now)
  unfolding is_expired entry_of
  is_expired_entry v t now seconds c d lives lives' small =
      rw (lives, lives') (ground (arith, lifetime seconds t now small))

  -- After Set of a key in a cache whose list agrees with its map, with a time to live in seconds that
  -- is not negative and below 2^63 nanoseconds, and after calls of Get, Set and Delete on other keys,
  -- fewer than a positive maximum size, Get returns the value until the time to live has passed and
  -- nothing from then on; with a time to live of 0 it returns it at any time.
  pub get-call_all-set :
      (k : String) (v : V) (t now seconds : ℕ) (calls : List (ℕ × Call V)) (c : Cache V)
      → IsLinked c
      → c.ttl ≡ pos seconds
      → seconds < 9_223_372_036
      → All (λ x. spares k x.1 ≡ true) calls
      → (0 < c.max_size → length calls < c.max_size)
      → (get k now (call_all (set k v t c) calls)).0
        ≡ (if ltb 0 seconds && ltb (t + seconds * 1_000_000_000) now then none else some v)
  unfolding entry_of
  get-call_all-set k v t now seconds calls c l lives small others room =
      let kept =
        calls-Kept k (entry_of c v t) 0 c.max_size c.ttl calls (set k v t c) others
          (set-IsLinked k v t c l) (λ p. let x = room p in omega (arith, x)) (set_first k v t c) in
      let last = call_all (set k v t c) calls in
      get_here k (entry_of c v t) now last kept.here
      ∙ ap (λ b. if b then none else some v)
          (is_expired_entry v t now seconds c last lives (kept.lives ∙ lives) small)
