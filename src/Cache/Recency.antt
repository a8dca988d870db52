-- ===== src/Cache/Recency.antt =====
-- The place of a key in the list of internal/cache/cache.go, while other keys are used.
use fssvrgo.Prelude.{
  ℕ, suc, ◌+◌, ◌≤◌, ◌<◌, ◌≡◌, refl, ap, ◌∙◌, Bool, true, false, ◌&&◌, not, String, Option, some,
  is_some, List, [], ◌∷◌, length, All, if_rule, lookup, size, lookup-insert, lookup-erase,
  lookup-insert_here, str_eq, eq_refl, eq_iff, ltb, leb, if◌then◌else◌, arith, Bool-cases,
  Option-cases, inl, inr,
}
use fssvrgo.Prelude.Int.{ℤ}
use fssvrgo.Cache.{
  Entry, Cache, remove_key, move_to_front, back, remove_element, is_expired, entry_of, get, evict,
  push_front, set, delete,
}
use fssvrgo.Cache.Linked.{IsLinked, occurrences, back-occurs, back-none}
use fssvrgo.Cache.History.{Call, gets, sets, deletes, clears, cleans, call, call_all, call-IsLinked}

-- How many keys were used after a key
unfoldable pub above : String → List String → ℕ
above k [] = 0
above k (j ∷ rest) = let n = above k rest in if str_eq j k then 0 else suc n

above-remove_key :
    (k j : String) (lru : List String)
    → str_eq j k ≡ false
    → above k (remove_key j lru) ≤ above k lru
unfolding above remove_key
above-remove_key k j [] off = omega arith
above-remove_key k j (i ∷ rest) off =
    ground (arith, above-remove_key k j rest off, eq_iff i j, eq_iff i k, eq_iff j k)

-- The key at the back was used before all others.
above-back :
    (k : String) (lru : List String)
    → occurrences k lru ≡ 1
    → back lru ≡ some k
    → above k lru + 1 ≡ length lru
unfolding above occurrences back
above-back k [] one h = absurd (ground arith)
above-back k (j ∷ rest) one h = elim (Option-cases (back rest)) [
  | inl e ↦
      let last = back-none rest e in
      let same : j ≡ k = grind arith in
      let here : str_eq j k ≡ true = ap (λ i. str_eq i k) same ∙ eq_refl k in
      rw here (omega (arith, last))
  | inr (b, e) ↦
      let same : b ≡ k = grind arith in
      let again : back rest ≡ some k = e ∙ ap (λ i. some i) same in
      let some_k = back-occurs rest k again in
      let ih = above-back k rest in ground (arith, ih, some_k, again)
]

module _ {V : Type 0} where
  -- A call on another key
  abbrev pub spares : String → Call V → Bool
  spares k (gets j) = not (str_eq j k)
  spares k (sets j v) = not (str_eq j k)
  spares k (deletes j) = not (str_eq j k)
  spares k clears = false
  spares k cleans = false

  -- The entry of a key after which at most n others were used
  pub record Kept (k : String) (e : Entry V) (n m : ℕ) (ttl : ℤ) (c : Cache V) : Type 0 where
    pub here : lookup k c.items ≡ some e
    pub near : above k c.lru ≤ n
    pub limit : c.max_size ≡ m
    pub lives : c.ttl ≡ ttl

  module _ (k : String) (e : Entry V) (n m : ℕ) (ttl : ℤ) (j : String)
      (off : str_eq j k ≡ false) where
    remove-Kept : (c : Cache V) → Kept k e n m ttl c → Kept k e n m ttl (remove_element j c)
    unfolding remove_element
    remove-Kept c h = record {
      here = lookup-erase j k c.items ∙ rw off h.here;
      near = let x = above-remove_key k j c.lru off in omega (arith, x, h.near);
      limit = h.limit;
      lives = h.lives;
    }

    near_front : (lru : List String) → above k lru ≤ n → above k (j ∷ remove_key j lru) ≤ suc n
    unfolding above
    near_front lru h = let x = above-remove_key k j lru off in rw off (omega (arith, x, h))

    later : (c : Cache V) → Kept k e n m ttl c → Kept k e (suc n) m ttl c
    later c h = record {
      here = h.here;
      near = omega (arith, h.near);
      limit = h.limit;
      lives = h.lives;
    }

    get-Kept : (now : ℕ) (c : Cache V) → Kept k e n m ttl c → Kept k e (suc n) m ttl (get j now c).1
    unfolding get move_to_front
    get-Kept now c h = elim (Option-cases (lookup j c.items)) [
      | inl gone ↦ rw (gone, get) (later c h)
      | inr (d, there) ↦
          rw (there, get)
            (if_rule (λ (w : Option V × Cache V). Kept k e (suc n) m ttl w.1) (is_expired c d now)
              (λ _. later (remove_element j c) (remove-Kept c h))
              (λ _. record {
                here = h.here;
                near = near_front c.lru h.near;
                limit = h.limit;
                lives = h.lives;
              }))
    ]

    delete-Kept : (c : Cache V) → Kept k e n m ttl c → Kept k e (suc n) m ttl (delete j c)
    unfolding delete
    delete-Kept c h =
        if_rule (Kept k e (suc n) m ttl) (is_some (lookup j c.items))
          (λ _. later (remove_element j c) (remove-Kept c h)) (λ _. later c h)

    push-Kept :
        (d : Entry V) (c : Cache V) → Kept k e n m ttl c → Kept k e (suc n) m ttl (push_front j d c)
    unfolding push_front above
    push-Kept d c h = record {
      here = lookup-insert j k d c.items ∙ rw off h.here;
      near = rw off (omega (arith, h.near));
      limit = h.limit;
      lives = h.lives;
    }

  -- The key that is dropped for a new one is not one after which fewer others were used than the
  -- cache holds.
  evict-Kept :
      (k : String) (e : Entry V) (n m : ℕ) (ttl : ℤ) (c : Cache V)
      → IsLinked c
      → (0 < m → n + 1 < m)
      → Kept k e n m ttl c
      → Kept k e n m ttl (evict c)
  unfolding evict
  evict-Kept k e n m ttl c l room h =
      if_rule (Kept k e n m ttl) (ltb 0 c.max_size && leb c.max_size (size c.items))
        (λ full. elim (Option-cases (back c.lru)) [
          | inl x ↦ rw x h
          | inr (b, x) ↦ elim (Bool-cases (str_eq b k)) [
            | inr off ↦ rw x (remove-Kept k e n m ttl b off c h)
            | inl same ↦
                let once : occurrences k c.lru ≡ 1 = ground (arith, l.linked k, h.here) in
                let last = above-back k c.lru once (x ∙ ap (λ i. some i) ((eq_iff b k).0 same)) in
                let space : n + 1 < m = room (ground (arith, h.limit)) in
                absurd (ground (arith, last, h.near, h.limit, space, l.same_size))
          ]
        ])
        (λ _. h)

  set-Kept :
      (k : String) (e : Entry V) (n m : ℕ) (ttl : ℤ) (j : String) (v : V) (now : ℕ) (c : Cache V)
      → str_eq j k ≡ false
      → IsLinked c
      → (0 < m → n + 1 < m)
      → Kept k e n m ttl c
      → Kept k e (suc n) m ttl (set j v now c)
  unfolding set move_to_front
  set-Kept k e n m ttl j v now c off l room h =
      if_rule (Kept k e (suc n) m ttl) (is_some (lookup j c.items))
        (λ _. record {
          here = lookup-insert j k (entry_of c v now) c.items ∙ rw off h.here;
          near = near_front k e n m ttl j off c.lru h.near;
          limit = h.limit;
          lives = h.lives;
        })
        (λ _.
          push-Kept k e n m ttl j off (entry_of c v now) (evict c)
            (evict-Kept k e n m ttl c l room h))

  call-Kept :
      (k : String) (e : Entry V) (n m : ℕ) (ttl : ℤ) (now : ℕ) (r : Call V) (c : Cache V)
      → spares k r ≡ true
      → IsLinked c
      → (0 < m → n + 1 < m)
      → Kept k e n m ttl c
      → Kept k e (suc n) m ttl (call c now r)
  unfolding call
  call-Kept k e n m ttl now (gets j) c other l room h =
      get-Kept k e n m ttl j (ground arith) now c h
  call-Kept k e n m ttl now (sets j v) c other l room h =
      set-Kept k e n m ttl j v now c (ground arith) l room h
  call-Kept k e n m ttl now (deletes j) c other l room h =
      delete-Kept k e n m ttl j (ground arith) c h
  call-Kept k e n m ttl now clears c other l room h = absurd (ground arith)
  call-Kept k e n m ttl now cleans c other l room h = absurd (ground arith)

  pub calls-Kept :
      (k : String) (e : Entry V) (n m : ℕ) (ttl : ℤ) (calls : List (ℕ × Call V)) (c : Cache V)
      → All (λ x. spares k x.1 ≡ true) calls
      → IsLinked c
      → (0 < m → n + length calls < m)
      → Kept k e n m ttl c
      → Kept k e (n + length calls) m ttl (call_all c calls)
  unfolding call_all
  calls-Kept k e n m ttl [] c others l room h = record {
    here = h.here;
    near = omega (arith, h.near);
    limit = h.limit;
    lives = h.lives;
  }
  calls-Kept k e n m ttl ((now, r) ∷ rest) c (other, others) l room h =
      let step =
        call-Kept k e n m ttl now r c other l (λ p. let x = room p in omega (arith, x)) h in
      let more =
        calls-Kept k e (suc n) m ttl rest (call c now r) others (call-IsLinked c now r l)
          (λ p. let x = room p in omega (arith, x)) step in
      record {
        here = more.here;
        near = omega (arith, more.near);
        limit = more.limit;
        lives = more.lives;
      }

  evict_limits : (c : Cache V) → ((evict c).max_size ≡ c.max_size) × ((evict c).ttl ≡ c.ttl)
  unfolding evict remove_element
  evict_limits c =
      if_rule (λ (d : Cache V). (d.max_size ≡ c.max_size) × (d.ttl ≡ c.ttl))
        (ltb 0 c.max_size && leb c.max_size (size c.items))
        (λ _. elim (Option-cases (back c.lru)) [
          | inl x ↦ rw x (refl, refl)
          | inr (b, x) ↦ rw x (refl, refl)
        ])
        (λ _. (refl, refl))

  pub set_first :
      (k : String) (v : V) (now : ℕ) (c : Cache V)
      → Kept k (entry_of c v now) 0 c.max_size c.ttl (set k v now c)
  unfolding set push_front above move_to_front
  set_first k v now c =
      if_rule (Kept k (entry_of c v now) 0 c.max_size c.ttl) (is_some (lookup k c.items))
        (λ _. record {
          here = lookup-insert_here k (entry_of c v now) c.items;
          near = rw (eq_refl k) (omega arith);
          limit = refl;
          lives = refl;
        })
        (λ _. record {
          here = lookup-insert_here k (entry_of c v now) (evict c).items;
          near = rw (eq_refl k) (omega arith);
          limit = (evict_limits c).0;
          lives = (evict_limits c).1;
        })
