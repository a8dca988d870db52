-- ===== src/Cache/Linked.antt =====
-- The map and the list of internal/cache/cache.go agree, and the size stays within the maximum.
use fssvrgo.Prelude.{
  ℕ, suc, ◌+◌, ◌≤◌, ◌<◌, ◌≡◌, refl, ◌&&◌, String, Option, none, some, is_some, List, [], ◌∷◌,
  lookup, insert, size, IsUnique, length, lookup-insert, lookup-erase, size-insert_new,
  size-insert_old, size-erase, insert-IsUnique, erase-IsUnique, eq_iff, str_eq, ltb, leb,
  if◌then◌else◌, arith, if_rule, lookup-insert_here, Bool-cases, Option-cases, inl, inr,
}
use fssvrgo.Cache.{
  Entry, Cache, remove_key, move_to_front, back, remove_element, is_expired, entry_of, get, evict,
  push_front, set, delete,
}

-- How often a key stands in the list.
unfoldable pub occurrences : String → List String → ℕ
occurrences k [] = 0
occurrences k (j ∷ rest) = let n = occurrences k rest in if str_eq j k then suc n else n

pub occurrences-remove_key :
    (k j : String) (lru : List String)
    → occurrences j (remove_key k lru) ≡ (if str_eq k j then 0 else occurrences j lru)
unfolding occurrences remove_key
occurrences-remove_key k j [] = ground arith
occurrences-remove_key k j (i ∷ rest) =
    ground (arith, occurrences-remove_key k j rest, eq_iff i k, eq_iff i j, eq_iff k j)

pub length-remove_key :
    (k : String) (lru : List String) → length (remove_key k lru) + occurrences k lru ≡ length lru
unfolding occurrences remove_key
length-remove_key k [] = omega arith
length-remove_key k (i ∷ rest) = ground (arith, length-remove_key k rest)

pub back-occurs : (lru : List String) (b : String) → back lru ≡ some b → 0 < occurrences b lru
unfolding occurrences back
back-occurs [] b h = absurd (cc h)
back-occurs (j ∷ rest) b h = elim (Option-cases (back rest)) [
  | inl e ↦ ground (arith, eq_iff j b)
  | inr (x, e) ↦ ground (arith, back-occurs rest b)
]

pub back-none : (lru : List String) → back lru ≡ none → length lru ≡ 0
unfolding back
back-none [] h = refl
back-none (j ∷ rest) h = elim (Option-cases (back rest)) [
  | inl e ↦ absurd (ground arith)
  | inr (x, e) ↦ absurd (ground arith)
]

module _ {V : Type 0} where
  abbrev pub presence : String → Cache V → ℕ
  presence k c = if is_some (lookup k c.items) then 1 else 0

  -- The list has every key of the map once and no other, and as many as the map; no key stands
  -- twice in the map, and a positive maximum is not passed.
  pub record IsLinked (c : Cache V) : Type 0 where
    pub unique : IsUnique c.items
    pub linked : (k : String) → occurrences k c.lru ≡ presence k c
    pub same_size : length c.lru ≡ size c.items
    pub bounded : 0 < c.max_size → size c.items ≤ c.max_size

  pub remove_element-IsLinked :
      (k : String) (e : Entry V) (c : Cache V)
      → lookup k c.items ≡ some e
      → IsLinked c
      → IsLinked (remove_element k c)
  unfolding remove_element
  remove_element-IsLinked k e c here h =
      let s = size-erase k e c.items h.unique here in
      let one : occurrences k c.lru ≡ 1 = ground (arith, h.linked k) in
      let l = length-remove_key k c.lru in
      record {
        unique = erase-IsUnique k c.items h.unique;
        linked = λ j.
            ground (arith, occurrences-remove_key k j c.lru, lookup-erase k j c.items, h.linked j);
        same_size = omega (arith, s, one, l, h.same_size);
        bounded = λ p. omega (arith, s, h.bounded p);
      }

  move_to_front-IsLinked :
      (k : String) (e : Entry V) (c : Cache V)
      → lookup k c.items ≡ some e
      → IsLinked c
      → IsLinked (record c { lru = move_to_front k c.lru })
  unfolding move_to_front occurrences
  move_to_front-IsLinked k e c here h =
      let one : occurrences k c.lru ≡ 1 = ground (arith, h.linked k) in
      let l = length-remove_key k c.lru in
      record {
        unique = h.unique;
        linked = λ j. ground (arith, occurrences-remove_key k j c.lru, h.linked j, eq_iff k j, one);
        same_size = omega (arith, one, l, h.same_size);
        bounded = h.bounded;
      }

  -- After an eviction there is room for one more entry, and the new key is still missing.
  pub evict-IsLinked :
      (k : String) (c : Cache V)
      → lookup k c.items ≡ none
      → IsLinked c
      → IsLinked (evict c)
        × (lookup k (evict c).items ≡ none)
        × (0 < (evict c).max_size → size (evict c).items < (evict c).max_size)
  unfolding evict remove_element
  evict-IsLinked k c missing h =
      elim (Bool-cases (ltb 0 c.max_size && leb c.max_size (size c.items))) [
        | inr room ↦ rw (room, evict) (h, missing, λ p. ground arith)
        | inl full ↦ elim (Option-cases (back c.lru)) [
          | inl e ↦ let z = back-none c.lru e in absurd (ground (arith, z, h.same_size))
          | inr (b, e) ↦
              let some_b = back-occurs c.lru b e in
              elim (Option-cases (lookup b c.items)) [
                | inl gone ↦ absurd (ground (arith, h.linked b, some_b))
                | inr (x, here) ↦
                    let s = size-erase b x c.items h.unique here in
                    rw (full, e, evict)
                      (
                        remove_element-IsLinked b x c here h,
                        ground (arith, lookup-erase b k c.items),
                        λ p. omega (arith, s, h.bounded p),
                      )
              ]
        ]
      ]

  push_front-IsLinked :
      (k : String) (e : Entry V) (c : Cache V)
      → lookup k c.items ≡ none
      → (0 < c.max_size → size c.items < c.max_size)
      → IsLinked c
      → IsLinked (push_front k e c)
  unfolding push_front occurrences
  push_front-IsLinked k e c missing room h =
      let s = size-insert_new k e c.items missing in
      record {
        unique = insert-IsUnique k e c.items h.unique;
        linked = λ j. ground (arith, lookup-insert k j e c.items, h.linked j, eq_iff k j);
        same_size = omega (arith, s, h.same_size);
        bounded = λ p. let r = room p in omega (arith, s, r);
      }

  replace-IsLinked :
      (k : String) (e d : Entry V) (c : Cache V)
      → lookup k c.items ≡ some d
      → IsLinked c
      → IsLinked (record c { items = insert k e c.items })
  replace-IsLinked k e d c here h =
      let s = size-insert_old k e d c.items here in
      record {
        unique = insert-IsUnique k e c.items h.unique;
        linked = λ j. ground (arith, lookup-insert k j e c.items, h.linked j, eq_iff k j);
        same_size = omega (arith, s, h.same_size);
        bounded = λ p. let b = h.bounded p in omega (arith, s, b);
      }

  pub set-IsLinked :
      (k : String) (v : V) (now : ℕ) (c : Cache V) → IsLinked c → IsLinked (set k v now c)
  unfolding set
  set-IsLinked k v now c h = elim (Option-cases (lookup k c.items)) [
    | inl e ↦
        let (l, m, r) = evict-IsLinked k c e h in
        rw (e, set) (push_front-IsLinked k (entry_of c v now) (evict c) m r l)
    | inr (d, e) ↦
        rw (e, set)
          (move_to_front-IsLinked k (entry_of c v now)
            (record c { items = insert k (entry_of c v now) c.items })
            (lookup-insert_here k (entry_of c v now) c.items)
            (replace-IsLinked k (entry_of c v now) d c e h))
  ]

  pub get-IsLinked : (k : String) (now : ℕ) (c : Cache V) → IsLinked c → IsLinked (get k now c).1
  unfolding get
  get-IsLinked k now c h = elim (Option-cases (lookup k c.items)) [
    | inl e ↦ rw (e, get) h
    | inr (d, e) ↦
        rw (e, get)
          (if_rule (λ (w : Option V × Cache V). IsLinked w.1) (is_expired c d now)
            (λ _. remove_element-IsLinked k d c e h) (λ _. move_to_front-IsLinked k d c e h))
  ]

  pub delete-IsLinked : (k : String) (c : Cache V) → IsLinked c → IsLinked (delete k c)
  unfolding delete
  delete-IsLinked k c h = elim (Option-cases (lookup k c.items)) [
    | inl e ↦ rw (e, delete) h
    | inr (d, e) ↦ rw (e, delete) (remove_element-IsLinked k d c e h)
  ]
