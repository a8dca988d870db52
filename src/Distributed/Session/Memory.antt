-- ===== src/Distributed/Session/Memory.antt =====
-- MemorySessionStore of internal/distributed/session.go. A value that cannot be marshalled or
-- unmarshalled is not modelled. A call reads the clock once; a duration that is not positive is 0.
-- Get and Exists find an expired entry under the read lock and drop it under the write lock: `between`
-- is what other calls do to the store in between.
mod Tests
pub mod RoundTrip
use Prim.Native.String.{◌++◌}
use fssvrgo.Prelude.{
  refl, ℕ, ◌+◌, ◌≤◌, ◌<◌, ◌≡◌, Bool, true, false, String, Option, none, some, List, [], ltb, lookup,
  insert, erase, lookup-insert, lookup-erase, str_eq, eq_iff, is_some, arith, if◌then◌else◌,
}
use text.Mathlib.TextLemmas.{append_cancel_left}
use fssvrgo.Distributed.Session.Interface.{SessionStore}

-- fmt.Sprintf("%s:%s", prefix, key)
pub store_key : String → String → String
store_key prefix key = (prefix ++ ":") ++ key

store_key_inj : (p j k : String) → str_eq (store_key p j) (store_key p k) ≡ str_eq j k
unfolding store_key
store_key_inj p j k = ground (
  arith,
  eq_iff j k,
  eq_iff ((p ++ ":") ++ j) ((p ++ ":") ++ k),
  append_cancel_left (p ++ ":") j k,
)

pub record MemoryStore (V : Type 0) : Type 0 where
  pub entries : List (String × V)
  pub ttls : List (String × ℕ)

module _ {V : Type 0} where
  -- NewMemorySessionStore
  abbrev pub new_memory_store : MemoryStore V
  new_memory_store = record { entries = []; ttls = [] }

  -- Set
  pub set : MemoryStore V → String → String → V → ℕ → ℕ → Bool × MemoryStore V
  set s prefix key v ttl now =
      let k = store_key prefix key in
      (
        true,
        record {
          entries = insert k v s.entries;
          ttls = if ltb 0 ttl then insert k (now + ttl) s.ttls else s.ttls;
        },
      )

  pub is_expired : MemoryStore V → String → ℕ → Bool
  is_expired s k now = elim (lookup k s.ttls) [ none ↦ false | some t ↦ ltb t now ]

  pub drop_key : MemoryStore V → String → MemoryStore V
  drop_key s k = record { entries = erase k s.entries; ttls = erase k s.ttls }

  -- Get
  pub get_around :
      (MemoryStore V → MemoryStore V)
      → MemoryStore V
      → String
      → String
      → ℕ
      → Option V × MemoryStore V
  unfolding is_expired drop_key
  get_around between s prefix key now =
      let k = store_key prefix key in
      elim (lookup k s.entries) [
        | none ↦ (none, s)
        | some v ↦ if is_expired s k now then (none, drop_key (between s) k) else (some v, s)
      ]

  -- Get with no call in between
  pub get : MemoryStore V → String → String → ℕ → Option V × MemoryStore V
  unfolding get_around
  get = get_around (λ s. s)

  -- Delete
  pub delete : MemoryStore V → String → String → Bool × MemoryStore V
  unfolding drop_key
  delete s prefix key = (true, drop_key s (store_key prefix key))

  -- Exists
  pub exists_around :
      (MemoryStore V → MemoryStore V) → MemoryStore V → String → String → ℕ → Bool × MemoryStore V
  unfolding is_expired drop_key
  exists_around between s prefix key now =
      let k = store_key prefix key in
      elim (lookup k s.entries) [
        | none ↦ (false, s)
        | some v ↦ if is_expired s k now then (false, drop_key (between s) k) else (true, s)
      ]

  pub exists : MemoryStore V → String → String → ℕ → Bool × MemoryStore V
  unfolding exists_around
  exists = exists_around (λ s. s)

  pub view : MemoryStore V → String → String → ℕ → Option V
  unfolding is_expired
  view s prefix key now =
      let k = store_key prefix key in
      elim (lookup k s.entries) [
        | none ↦ none
        | some v ↦ if is_expired s k now then none else some v
      ]

  module _ (s : MemoryStore V) (p k : String) where
    pub view-get : (j : String) (now t : ℕ) → now ≤ t → view (get s p k now).1 p j t ≡ view s p j t
    unfolding view get
    view-get j now t h = ground (
      arith,
      lookup-erase (store_key p k) (store_key p j) s.entries,
      lookup-erase (store_key p k) (store_key p j) s.ttls,
      eq_iff (store_key p k) (store_key p j),
    )

    pub view-set :
        (j : String) (v : V) (ttl now t : ℕ)
        → 0 < ttl
        → view (set s p k v ttl now).1 p j t
          ≡ (if str_eq k j then (if ltb (now + ttl) t then none else some v) else view s p j t)
    unfolding view set
    view-set j v ttl now t h = ground (
      arith,
      lookup-insert (store_key p k) (store_key p j) v s.entries,
      lookup-insert (store_key p k) (store_key p j) (now + ttl) s.ttls,
      store_key_inj p k j,
    )

    pub view-delete :
        (j : String) (t : ℕ)
        → view (delete s p k).1 p j t ≡ (if str_eq k j then none else view s p j t)
    unfolding view delete
    view-delete j t = ground (
      arith,
      lookup-erase (store_key p k) (store_key p j) s.entries,
      lookup-erase (store_key p k) (store_key p j) s.ttls,
      store_key_inj p k j,
    )

    pub get-view : (now : ℕ) → (get s p k now).0 ≡ view s p k now
    unfolding view get
    get-view now = ground arith

    pub exists-view : (now : ℕ) → (exists s p k now).0 ≡ is_some (view s p k now)
    unfolding view exists
    exists-view now = ground arith

-- MemorySessionStore implements SessionStore.
pub memory_session_store : (V : Type 0) → SessionStore V
memory_session_store V = record {
  Store = MemoryStore V;
  set = set;
  get = get;
  delete = delete;
  exists = exists;
  view = view;
  get-view = get-view;
  exists-view = exists-view;
  view-get = view-get;
  view-set = λ s p k j v ttl now t h _. view-set s p k j v ttl now t h;
  view-set_failed = set_failed;
  view-delete = λ s p k j t _. view-delete s p k j t;
}
  where
    set_failed :
        (s : MemoryStore V) (p k j : String) (v : V) (ttl now t : ℕ)
        → (set s p k v ttl now).0 ≡ false
        → view (set s p k v ttl now).1 p j t ≡ view s p j t
    set_failed s p k j v ttl now t h = unfold set in cc h

-- NewMemorySessionStore, as a state of the interface.
pub empty_store : (V : Type 0) → (memory_session_store V).Store
unfolding memory_session_store
empty_store V = new_memory_store

-- Its Delete returns no error.
pub delete_succeeds :
    (V : Type 0) (s : (memory_session_store V).Store) (p k : String)
    → ((memory_session_store V).delete s p k).0 ≡ true
unfolding memory_session_store delete
delete_succeeds V s p k = refl
