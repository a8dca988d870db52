-- ===== src/Cache/History.antt =====
-- Histories of calls of internal/cache/cache.go.
use fssvrgo.Prelude.{
  ℕ, ◌≡◌, refl, String, none, List, [], ◌∷◌, lookup, lookup-erase, size-erase-none, erase-IsUnique,
  arith, Bool-cases, Option-cases, inl, inr,
}
use fssvrgo.Cache.{
  Entry, Cache, remove_element, is_expired, get, set, delete, clear, cleanup_items, cleanup,
}
use fssvrgo.Cache.Linked.{
  IsLinked, occurrences, occurrences-remove_key, length-remove_key, remove_element-IsLinked,
  set-IsLinked, get-IsLinked, delete-IsLinked,
}

pub data Call (V : Type 0) : Type 0 where
  gets : String → Call V
  sets : String → V → Call V
  deletes : String → Call V
  clears cleans : Call V

module _ {V : Type 0} where
  absent-IsLinked :
      (k : String) (c : Cache V)
      → lookup k c.items ≡ none
      → IsLinked c
      → IsLinked (remove_element k c)
  unfolding remove_element
  absent-IsLinked k c gone h =
      let s = size-erase-none k c.items gone in
      let zero_times : occurrences k c.lru ≡ 0 = ground (arith, h.linked k) in
      let l = length-remove_key k c.lru in
      record {
        unique = erase-IsUnique k c.items h.unique;
        linked = λ j.
            ground (arith, occurrences-remove_key k j c.lru, lookup-erase k j c.items, h.linked j);
        same_size = omega (arith, s, zero_times, l, h.same_size);
        bounded = λ p. let b = h.bounded p in omega (arith, s, b);
      }

  cleanup_items-IsLinked :
      (now : ℕ) (entries : List (String × Entry V)) (c : Cache V)
      → IsLinked c
      → IsLinked (cleanup_items now entries c)
  unfolding cleanup_items
  cleanup_items-IsLinked now [] c h = h
  cleanup_items-IsLinked now ((k, e) ∷ rest) c h =
      cleanup_items-IsLinked now rest _ (elim (Bool-cases (is_expired c e now)) [
        | inr kept ↦ rw kept h
        | inl old ↦ elim (Option-cases (lookup k c.items)) [
          | inl gone ↦ rw old (absent-IsLinked k c gone h)
          | inr (d, here) ↦ rw old (remove_element-IsLinked k d c here h)
        ]
      ])

  unfoldable pub call : Cache V → ℕ → Call V → Cache V
  call c now (gets k) = (get k now c).1
  call c now (sets k v) = set k v now c
  call c now (deletes k) = delete k c
  call c now clears = clear c
  call c now cleans = cleanup now c

  unfoldable pub call_all : Cache V → List (ℕ × Call V) → Cache V
  call_all c [] = c
  call_all c ((now, r) ∷ rest) = call_all (call c now r) rest

  pub call-IsLinked : (c : Cache V) (now : ℕ) (r : Call V) → IsLinked c → IsLinked (call c now r)
  unfolding call clear cleanup
  call-IsLinked c now (gets k) h = get-IsLinked k now c h
  call-IsLinked c now (sets k v) h = set-IsLinked k v now c h
  call-IsLinked c now (deletes k) h = delete-IsLinked k c h
  call-IsLinked c now clears h = record {
    unique = tt;
    linked = λ k. unfold occurrences lookup in refl;
    same_size = refl;
    bounded = λ p. omega arith;
  }
  call-IsLinked c now cleans h = cleanup_items-IsLinked now c.items c h

  -- After any calls, the list of the cache has exactly the keys of the map, each once, and a
  -- positive maximum size is not passed.
  pub calls-IsLinked :
      (c : Cache V) (calls : List (ℕ × Call V)) → IsLinked c → IsLinked (call_all c calls)
  unfolding call_all
  calls-IsLinked c [] h = h
  calls-IsLinked c ((now, r) ∷ rest) h =
      calls-IsLinked (call c now r) rest (call-IsLinked c now r h)
