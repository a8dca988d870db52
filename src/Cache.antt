-- ===== src/Cache.antt =====
-- Cache of internal/cache/cache.go: a map of entries and the list of their keys by use, the most
-- recent first. An element of the list stands for its entry by the entry's key. The clock is an
-- argument, in nanoseconds; the zero time is `none`. A maximum size that is negative is 0.
mod Tests
pub mod Linked
pub mod History
pub mod Recency
pub mod Recent
use fssvrgo.Prelude.{
  ℕ, suc, ◌+◌, ◌*◌, Bool, true, false, ◌&&◌, not, String, Option, none, some, is_some, List, [],
  ◌∷◌, lookup, insert, erase, size, leb, ltb, str_eq, if◌then◌else◌,
}
use fssvrgo.Prelude.Int.{ℤ, pos, ltbℤ, pos_part, mul64, add_to}

-- entry
pub record Entry (V : Type 0) : Type 0 where
  pub value : V
  pub expires_at : Option ℤ

-- Cache
pub record Cache (V : Type 0) : Type 0 where
  pub items : List (String × Entry V)
  pub lru : List String
  pub ttl : ℤ
  pub max_size : ℕ

-- lru.Remove, lru.MoveToFront, lru.Back
unfoldable pub remove_key : String → List String → List String
remove_key k [] = []
remove_key k (j ∷ rest) =
    let others = remove_key k rest in if str_eq j k then others else j ∷ others

unfoldable pub move_to_front : String → List String → List String
unfolding remove_key
move_to_front k lru = k ∷ remove_key k lru

unfoldable pub back : List String → Option String
back [] = none
back (j ∷ rest) = elim (back rest) [ none ↦ some j | some b ↦ some b ]

module _ {V : Type 0} where
  -- NewCache
  abbrev pub new_cache : ℤ → ℕ → Cache V
  new_cache ttl max_size = record { items = []; lru = []; ttl = ttl; max_size = max_size }

  -- removeElement
  unfoldable pub remove_element : String → Cache V → Cache V
  unfolding remove_key
  remove_element k c = record c { items = erase k c.items; lru = remove_key k c.lru }

  -- time.Now().After(item.expiresAt) with a ttl
  unfoldable pub is_expired : Cache V → Entry V → ℕ → Bool
  is_expired c e now =
      ltbℤ (pos 0) c.ttl && elim e.expires_at [ none ↦ true | some t ↦ ltbℤ t (pos now) ]

  -- time.Duration(c.ttl) * time.Second wraps around.
  unfoldable pub entry_of : Cache V → V → ℕ → Entry V
  unfolding mul64
  entry_of c v now = record {
    value = v;
    expires_at =
        if ltbℤ (pos 0) c.ttl
        then some (add_to now (mul64 (pos_part c.ttl) 1_000_000_000))
        else none;
  }

  -- Get
  unfoldable pub get : String → ℕ → Cache V → Option V × Cache V
  unfolding remove_element is_expired move_to_front
  get k now c = elim (lookup k c.items) [
    | none ↦ (none, c)
    | some e ↦
        if is_expired c e now
        then (none, remove_element k c)
        else (some e.value, record c { lru = move_to_front k c.lru })
  ]

  -- Set at capacity drops the entry at the back first.
  unfoldable pub evict : Cache V → Cache V
  unfolding remove_element back
  evict c =
      if ltb 0 c.max_size && leb c.max_size (size c.items)
      then elim (back c.lru) [ none ↦ c | some b ↦ remove_element b c ]
      else c

  unfoldable pub push_front : String → Entry V → Cache V → Cache V
  push_front k e c = record c { items = insert k e c.items; lru = k ∷ c.lru }

  -- Set
  unfoldable pub set : String → V → ℕ → Cache V → Cache V
  unfolding entry_of evict push_front move_to_front
  set k v now c =
      if is_some (lookup k c.items)
      then record c { items = insert k (entry_of c v now) c.items; lru = move_to_front k c.lru }
      else push_front k (entry_of c v now) (evict c)

  -- Delete
  unfoldable pub delete : String → Cache V → Cache V
  unfolding remove_element
  delete k c = if is_some (lookup k c.items) then remove_element k c else c

  -- Clear
  unfoldable pub clear : Cache V → Cache V
  clear c = record c { items = []; lru = [] }

  -- Cleanup, as a loop over the entries that were there when it began
  unfoldable pub cleanup_items : ℕ → List (String × Entry V) → Cache V → Cache V
  unfolding remove_element is_expired
  cleanup_items now [] c = c
  cleanup_items now ((k, e) ∷ rest) c =
      cleanup_items now rest (if is_expired c e now then remove_element k c else c)

  unfoldable pub cleanup : ℕ → Cache V → Cache V
  unfolding cleanup_items
  cleanup now c = cleanup_items now c.items c

  -- Has and Exists
  unfoldable pub has : String → ℕ → Cache V → Bool
  unfolding is_expired
  has k now c = elim (lookup k c.items) [ none ↦ false | some e ↦ not (is_expired c e now) ]
