-- ===== src/Distributed/Session/Memory/RoundTrip.antt =====
-- Set and Get of MemorySessionStore (internal/distributed/session.go), under all prefixes and keys.
use Prim.Native.Char.{Char, code}
use Prim.Native.String.{[] as []ˢ, ◌∷◌ as ◌∷ˢ◌, ◌++◌}
use text.Mathlib.TextLemmas.{
  cons-append, nil-append, append_cancel_left, head-eq_of_cons-eq, tail-eq_of_cons-eq,
}
use fssvrgo.Prelude.{
  ℕ, ◌+◌, ◌<◌, ◌≡◌, refl, Bool, true, not, ◌&&◌, String, none, some, ltb, ◌==◌, str_eq, eq_iff,
  eq_refl, ap, sym, ◌∙◌, arith, if◌then◌else◌, lookup-insert, Bool-cases, inl, inr,
}
use fssvrgo.Distributed.Session.Memory.{MemoryStore, store_key, set, get, get_around, is_expired}

-- A prefix without the separator
abbrev pub is_plain : String → Bool
is_plain []ˢ = true
is_plain (c ∷ˢ s) = let rest = is_plain s in not (code c == 58) && rest

keyed : (c : Char) (p k : String) → ((c ∷ˢ p) ++ ":") ++ k ≡ c ∷ˢ ((p ++ ":") ++ k)
keyed c p k = ap (λ x. x ++ k) (cons-append c p ":") ∙ cons-append c (p ++ ":") k

keyed_empty : (k : String) → ":" ∷ˢ k ≡ ([]ˢ ++ ":") ++ k
keyed_empty k = sym (cons-append ":" []ˢ k ∙ ap (λ x. ":" ∷ˢ x) (nil-append k))

prefix_of_key :
    (p q k j : String)
    → is_plain p ≡ true
    → is_plain q ≡ true
    → (p ++ ":") ++ k ≡ (q ++ ":") ++ j
    → p ≡ q
prefix_of_key []ˢ []ˢ k j plain plain' h = refl
prefix_of_key []ˢ (d ∷ˢ q) k j plain plain' h =
    let same = head-eq_of_cons-eq (keyed_empty k ∙ h ∙ keyed d q j) in
    absurd (ground (arith, ap code same))
prefix_of_key (c ∷ˢ p) []ˢ k j plain plain' h =
    let same = head-eq_of_cons-eq (sym (keyed c p k) ∙ h ∙ sym (keyed_empty j)) in
    absurd (ground (arith, ap code same))
prefix_of_key (c ∷ˢ p) (d ∷ˢ q) k j plain plain' h =
    let both = sym (keyed c p k) ∙ h ∙ keyed d q j in
    let first = head-eq_of_cons-eq both in
    let rest = prefix_of_key p q k j (ground arith) (ground arith) (tail-eq_of_cons-eq both) in
    ap (λ x. x ∷ˢ p) first ∙ ap (λ x. d ∷ˢ x) rest

module _ {V : Type 0} (s : MemoryStore V) (p q k j : String) (plain : is_plain p ≡ true)
    (plain' : is_plain q ≡ true) where
  store_key_same : str_eq (store_key p k) (store_key q j) ≡ (str_eq p q && str_eq k j)
  unfolding store_key
  store_key_same = elim (Bool-cases (str_eq p q)) [
    | inl e ↦
        let same = (eq_iff p q).0 e in
        rw (same, eq_refl q)
          (ground (
            arith,
            eq_iff k j,
            eq_iff ((q ++ ":") ++ k) ((q ++ ":") ++ j),
            append_cancel_left (q ++ ":") k j,
          ))
    | inr e ↦ ground (
      arith,
      eq_iff p q,
      eq_iff ((p ++ ":") ++ k) ((q ++ ":") ++ j),
      prefix_of_key p q k j plain plain',
    )
  ]

  -- After Set with a positive time to live, under prefixes without a colon and with no call between
  -- the two locks of a Get, Get returns the value until that time has passed and nothing from then on;
  -- for every other prefix and key it returns what it returned before.
  pub get-set :
      (v : V) (ttl now t : ℕ)
      → 0 < ttl
      → (get (set s p k v ttl now).1 q j t).0 ≡ (
          if str_eq p q && str_eq k j
          then (if ltb (now + ttl) t then none else some v)
          else (get s q j t).0)
  unfolding get get_around set is_expired
  get-set v ttl now t h = ground (
    arith,
    lookup-insert (store_key p k) (store_key q j) v s.entries,
    lookup-insert (store_key p k) (store_key q j) (now + ttl) s.ttls,
    store_key_same,
  )
