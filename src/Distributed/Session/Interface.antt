-- ===== src/Distributed/Session/Interface.antt =====
-- The interface SessionStore of internal/distributed/session.go: its operations, and the laws that
-- its clients rely on. `V` is what json.Marshal keeps of a value. The redis store is on the other
-- side of this interface too: its `set` and its `delete` may fail. A call is one step here, which
-- MemorySessionStore's Get is only if no other call comes between its two locks.
use fssvrgo.Prelude.{
  ℕ, ◌+◌, ◌≤◌, ◌<◌, ◌≡◌, Bool, true, false, String, Option, none, some, ltb, str_eq, is_some,
  if◌then◌else◌,
}

pub record SessionStore (V : Type 0) : Type 1 where
  pub Store : Type 0
  -- Set(prefix, key, value, ttl) at a time: whether it succeeded
  pub set : Store → String → String → V → ℕ → ℕ → Bool × Store
  -- Get(prefix, key) at a time: `none` is an error
  pub get : Store → String → String → ℕ → Option V × Store
  -- Delete(prefix, key): whether it succeeded
  pub delete : Store → String → String → Bool × Store
  pub exists : Store → String → String → ℕ → Bool × Store
  -- what Get would return
  pub view : Store → String → String → ℕ → Option V
  pub get-view : (s : Store) (p k : String) (now : ℕ) → (get s p k now).0 ≡ view s p k now
  pub exists-view :
      (s : Store) (p k : String) (now : ℕ) → (exists s p k now).0 ≡ is_some (view s p k now)
  -- Get does not change what later calls see.
  pub view-get :
      (s : Store) (p k j : String) (now t : ℕ)
      → now ≤ t
      → view (get s p k now).1 p j t ≡ view s p j t
  pub view-set :
      (s : Store) (p k j : String) (v : V) (ttl now t : ℕ)
      → 0 < ttl
      → (set s p k v ttl now).0 ≡ true
      → view (set s p k v ttl now).1 p j t
        ≡ (if str_eq k j then (if ltb (now + ttl) t then none else some v) else view s p j t)
  pub view-set_failed :
      (s : Store) (p k j : String) (v : V) (ttl now t : ℕ)
      → (set s p k v ttl now).0 ≡ false
      → view (set s p k v ttl now).1 p j t ≡ view s p j t
  pub view-delete :
      (s : Store) (p k j : String) (t : ℕ)
      → (delete s p k).0 ≡ true
      → view (delete s p k).1 p j t ≡ (if str_eq k j then none else view s p j t)
