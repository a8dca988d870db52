-- ===== src/Prelude/Map.antt =====
-- Go's `map[string]V` and `sync.Map` as an association list with string keys.
use Prim.Native.Nat.{ℕ, suc, ◌+◌}
use Prim.Native.String.{String}
use mathlib.Core.Path.{◌≡◌, refl}
use mathlib.Core.Option.{Option, none, some}
use mathlib.Core.List.{List, [], ◌∷◌}
use native.Mathlib.Omega.{arith}
use text.Mathlib.Text.{◌==◌}
use text.Mathlib.TextEquality.{eq_iff}
use package.fssvrgo.Prelude.Tests.{if◌then◌else◌}

module _ {ℓ} {V : Type ℓ} where
  -- m[key], if it is there
  unfoldable pub lookup : (key : String) (entries : List (String × V)) → Option V
  lookup key [] = none
  lookup key (first ∷ rest) =
      let later = lookup key rest in if first.0 == key then some first.1 else later

  -- m[key] = value
  unfoldable pub insert :
      (key : String) (value : V) (entries : List (String × V)) → List (String × V)
  insert key value [] = (key, value) ∷ []
  insert key value (first ∷ rest) =
      let later = insert key value rest in
      if first.0 == key then (key, value) ∷ rest else first ∷ later

  -- delete(m, k)
  unfoldable pub erase : String → List (String × V) → List (String × V)
  erase k [] = []
  erase k ((j, v) ∷ m) = let rest = erase k m in if j == k then rest else (j, v) ∷ rest

  -- len(m)
  abbrev pub size : List (String × V) → ℕ
  size [] = 0
  size (x ∷ m) = suc (size m)

  -- No key stands twice.
  abbrev pub IsUnique : List (String × V) → Type ℓ
  IsUnique [] = Unit
  IsUnique ((j, v) ∷ m) = (lookup j m ≡ none) × IsUnique m

  pub lookup-insert :
      (key sought : String) (value : V) (entries : List (String × V))
      → lookup sought (insert key value entries)
        ≡ (if key == sought then some value else lookup sought entries)
  unfolding insert lookup
  lookup-insert key sought value [] = ground arith
  lookup-insert key sought value (first ∷ rest) = ground (
    arith,
    lookup-insert key sought value rest,
    eq_iff first.0 key,
    eq_iff first.0 sought,
    eq_iff key sought,
  )

  pub lookup-erase :
      (k j : String) (m : List (String × V))
      → lookup j (erase k m) ≡ (if k == j then none else lookup j m)
  unfolding lookup erase
  lookup-erase k j [] = ground arith
  lookup-erase k j ((i, w) ∷ m) =
      ground (arith, eq_iff k j, eq_iff i k, eq_iff i j, lookup-erase k j m)

  pub lookup-insert_here :
      (k : String) (v : V) (m : List (String × V)) → lookup k (insert k v m) ≡ some v
  lookup-insert_here k v m = ground (arith, lookup-insert k k v m, eq_iff k k)

  pub lookup-erase_here : (k : String) (m : List (String × V)) → lookup k (erase k m) ≡ none
  lookup-erase_here k m = ground (arith, lookup-erase k k m, eq_iff k k)

  pub size-erase-none :
      (k : String) (m : List (String × V)) → lookup k m ≡ none → size (erase k m) ≡ size m
  unfolding lookup erase
  size-erase-none k [] h = refl
  size-erase-none k ((i, w) ∷ m) h = ground (arith, size-erase-none k m)

  pub size-erase :
      (k : String) (v : V) (m : List (String × V))
      → IsUnique m
      → lookup k m ≡ some v
      → size (erase k m) + 1 ≡ size m
  unfolding lookup erase
  size-erase k v [] u h = ground arith
  size-erase k v ((i, w) ∷ m) u h =
      ground (arith, eq_iff i k, size-erase-none k m, size-erase k v m u.1)

  pub size-insert_new :
      (k : String) (v : V) (m : List (String × V))
      → lookup k m ≡ none
      → size (insert k v m) ≡ size m + 1
  unfolding lookup insert
  size-insert_new k v [] h = refl
  size-insert_new k v ((i, w) ∷ m) h = ground (arith, size-insert_new k v m)

  pub size-insert_old :
      (k : String) (v w : V) (m : List (String × V))
      → lookup k m ≡ some w
      → size (insert k v m) ≡ size m
  unfolding lookup insert
  size-insert_old k v w [] h = ground arith
  size-insert_old k v w ((i, x) ∷ m) h = ground (arith, size-insert_old k v w m)

  pub erase-IsUnique : (k : String) (m : List (String × V)) → IsUnique m → IsUnique (erase k m)
  unfolding erase
  erase-IsUnique k [] u = tt
  erase-IsUnique k ((i, w) ∷ m) u = ground (arith, erase-IsUnique k m u.1, lookup-erase k i m)

  pub insert-IsUnique :
      (k : String) (v : V) (m : List (String × V)) → IsUnique m → IsUnique (insert k v m)
  unfolding insert
  insert-IsUnique k v [] u = (unfold lookup in refl, tt)
  insert-IsUnique k v ((i, w) ∷ m) u =
      ground (arith, insert-IsUnique k v m u.1, lookup-insert k i v m, eq_iff i k, eq_iff k i)

pub ruleset map_laws = (lookup-insert, lookup-erase)
