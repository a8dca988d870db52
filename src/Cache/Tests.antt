-- ===== src/Cache/Tests.antt =====
-- Runs of the cache at concrete inputs.
use fssvrgo.Prelude.{
  ltb, ◌&&◌, ◌+◌, ◌*◌, ℕ, ◌≡◌, refl, none, some, List, [], ◌∷◌, lookup, if◌then◌else◌, arith,
}
use fssvrgo.Prelude.Int.{pos}
use fssvrgo.Cache.{Cache, new_cache, get, set}
use fssvrgo.Cache.Linked.{IsLinked, occurrences}
use fssvrgo.Cache.History.{Call, gets, sets, deletes, cleans, call_all, calls-IsLinked}
use fssvrgo.Cache.Recent.{get-call_all-set}

abbrev empty : Cache ℕ
empty = new_cache (pos 60) 2

empty-IsLinked : IsLinked empty
unfolding lookup occurrences
empty-IsLinked = record {
  unique = tt;
  linked = λ k. refl;
  same_size = refl;
  bounded = λ p. omega arith;
}

abbrev calls : List (ℕ × Call ℕ)
calls =
    (1, sets "a" 1)
    ∷ (2, sets "b" 2)
    ∷ (3, gets "a")
    ∷ (4, sets "c" 3)
    ∷ (5, deletes "a")
    ∷ (6, cleans)
    ∷ []

calls-IsLinked_example : IsLinked (call_all empty calls)
calls-IsLinked_example = calls-IsLinked empty calls empty-IsLinked

-- With room for two keys, a key outlives one call on another key, and its time to live ends it.
get-call_all-set_example :
    (get "a" (5 + 60_000_000_000) (call_all (set "a" 1 5 empty) ((6, sets "b" 2) ∷ []))).0
    ≡ (if ltb 0 60 && ltb (5 + 60 * 1_000_000_000) (5 + 60_000_000_000) then none else some 1)
get-call_all-set_example =
    get-call_all-set "a" 1 5 (5 + 60_000_000_000) 60 ((6, sets "b" 2) ∷ []) empty empty-IsLinked
      refl (omega arith) (refl, tt) (λ p. omega arith)
