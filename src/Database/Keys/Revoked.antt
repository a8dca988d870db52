-- ===== src/Database/Keys/Revoked.antt =====
-- A key that ApiKeyService (internal/database/metadata.go) has deactivated or removed lets nobody in.
use Prim.Native.String.{compare}
use text.Mathlib.Text.{is_lt}
use fssvrgo.Prelude.{
  not, ◌&&◌, Bool, true, false, String, Option, none, some, List, [], ◌∷◌, str_eq, ◌≡◌, ◌⊎◌, inl,
  inr, refl, sym, ap, ◌∙◌, subst, arith, eq_iff, Bool-cases,
}
use fssvrgo.Database.Table.{
  select_one, select_one-true, update, remove as delete, checked, checked-some,
}
use fssvrgo.Database.Db.{ApiKey, Db, ok, query_rule, exec-ok, rest_of}
use fssvrgo.Database.Keys.{
  update_keys, deactivate, remove, is_expired, is_active_at, unexpired, get_by_key_hash,
}

-- A key that is not of the id
abbrev Other : String → Option ApiKey → Type 0
Other id none = Unit {0}
Other id (some key) = str_eq key.id id ≡ false

updated-Other :
    (id hash : String) (rows : List ApiKey)
    → Other id (
        select_one
          (is_active_at hash)
          (update (λ r. str_eq r.id id) (λ r. record r { is_active = false }) rows))
unfolding select_one update is_active_at
updated-Other id hash [] = tt
updated-Other id hash (r ∷ rows) = elim (Bool-cases (str_eq r.id id)) [
  | inl e ↦ elim (Bool-cases (str_eq r.key_hash hash)) [
    | inl h ↦ rw (e, h) (updated-Other id hash rows)
    | inr h ↦ rw (e, h) (updated-Other id hash rows)
  ]
  | inr e ↦ elim (Bool-cases (is_active_at hash r)) [
    | inl h ↦ rw (e, h) e
    | inr h ↦ rw (e, h) (updated-Other id hash rows)
  ]
]

deleted-Other :
    (id hash : String) (rows : List ApiKey)
    → Other id (select_one (is_active_at hash) (delete (λ r. str_eq r.id id) rows))
unfolding select_one delete
deleted-Other id hash [] = tt
deleted-Other id hash (r ∷ rows) = elim (Bool-cases (str_eq r.id id)) [
  | inl e ↦ rw e (deleted-Other id hash rows)
  | inr e ↦ elim (Bool-cases (is_active_at hash r)) [
    | inl h ↦ rw (e, h) e
    | inr h ↦ rw (e, h) (deleted-Other id hash rows)
  ]
]

update_keys-some :
    (test : ApiKey → Bool) (set : ApiKey → ApiKey) (db db' : Db)
    → update_keys test set db ≡ some db'
    → db'.api_keys ≡ update test set db.api_keys
unfolding update_keys
update_keys-some test set db db' = go (checked (λ r. r.id) (λ r. r.key_hash) rows) refl
  where
    rows : List ApiKey
    rows = update test set db.api_keys

    go :
        (o : Option (List ApiKey))
        → checked (λ r. r.id) (λ r. r.key_hash) rows ≡ o
        → (elim o [ none ↦ none | some keys ↦ some (record db { api_keys = keys }) ]) ≡ some db'
        → db'.api_keys ≡ rows
    go none e h = absurd (grind arith)
    go (some keys) e h =
        let same : record db { api_keys = keys } ≡ db' = grind arith in
        sym (ap (λ (d : Db). d.api_keys) same)
        ∙ (checked-some (λ (r : ApiKey). r.id) (λ r. r.key_hash) rows keys e).0

-- After a revocation no key of the id is found.
revoked-Other :
    (id hash : String) (db db' : Db)
    → (deactivate id db ≡ (ok tt, db')) ⊎ (remove id db ≡ (ok tt, db'))
    → Other id (select_one (is_active_at hash) db'.api_keys)
unfolding deactivate remove rest_of
revoked-Other id hash db db' (inl h) =
    let off : ApiKey → ApiKey = λ r. record r { is_active = false } in
    subst (λ rows. Other id (select_one (is_active_at hash) rows))
      (sym (
        update_keys-some (λ r. str_eq r.id id) off (rest_of db) db'
          (exec-ok (update_keys (λ r. str_eq r.id id) off) db db' h)))
      (updated-Other id hash db.api_keys)
revoked-Other id hash db db' (inr h) =
    let left : Db → Db = λ d. record d { api_keys = delete (λ r. str_eq r.id id) d.api_keys } in
    let gone : some (left (rest_of db)) ≡ some db' = exec-ok (λ d. some (left d)) db db' h in
    let same : left (rest_of db) ≡ db' = grind arith in
    subst (λ (d : Db). Other id (select_one (is_active_at hash) d.api_keys)) same
      (deleted-Other id hash db.api_keys)

-- A key that may be used: it has the hash, is active, has no expiry or one that as a text does not come
-- before the time, and is not of the id
abbrev pub Admits : String → String → String → ApiKey → Type 0
Admits id hash now key =
    (str_eq key.id id ≡ false)
    × (key.key_hash ≡ hash)
    × (key.is_active ≡ true)
    × ((t : String) → key.expires_at ≡ some t → (t ≡ "") ⊎ (is_lt (compare t now) ≡ false))

is_expired-Admits :
    (now : String) (key : ApiKey)
    → is_expired now key ≡ false
    → (t : String) → key.expires_at ≡ some t
    → (t ≡ "") ⊎ (is_lt (compare t now) ≡ false)
unfolding is_expired
is_expired-Admits now key h t e = elim (Bool-cases (str_eq t "")) [
  | inl empty ↦ inl ((eq_iff t "").0 empty)
  | inr some_text ↦ inr (
      let later : (not (str_eq t "") && is_lt (compare t now)) ≡ false =
        subst
          (λ (o : Option String).
            (elim o [ none ↦ false | some t ↦ not (str_eq t "") && is_lt (compare t now) ]) ≡ false)
          e h in
      ground (arith, later, some_text))
]

unexpired-Admits :
    (id hash now : String) (rows : List ApiKey) (key : ApiKey)
    → Other id (select_one (is_active_at hash) rows)
    → unexpired now (select_one (is_active_at hash) rows) ≡ some key
    → Admits id hash now key
unfolding unexpired
unexpired-Admits id hash now rows key other = go (select_one (is_active_at hash) rows) refl other
  where
    go :
        (o : Option ApiKey)
        → select_one (is_active_at hash) rows ≡ o
        → Other id o
        → unexpired now o ≡ some key
        → Admits id hash now key
    go none e k h = absurd (grind arith)
    go (some r) e k h = elim (Bool-cases (is_expired now r)) [
      | inl x ↦ absurd (grind arith)
      | inr x ↦
          let same : r ≡ key = grind arith in
          let hit : is_active_at hash r ≡ true = select_one-true (is_active_at hash) r rows e in
          subst (Admits id hash now) same (
            k,
            unfold is_active_at in grind (arith, eq_iff r.key_hash hash),
            unfold is_active_at in ground (arith, hit),
            is_expired-Admits now r x,
          )
    ]

-- In the table that a successful Deactivate or Remove of a key leaves, GetByKeyHash finds no key of its
-- id, for whatever hash and at whatever time; a key that it finds has the hash, is active, and has no
-- expiry or one that, compared as a text, does not come before the time. A later Create or Update can
-- bring the id back.
pub get_by_key_hash-Admits :
    (id hash now : String) (db db1 db2 : Db) (key : ApiKey)
    → (deactivate id db ≡ (ok tt, db1)) ⊎ (remove id db ≡ (ok tt, db1))
    → get_by_key_hash hash now db1 ≡ (ok (some key), db2)
    → Admits id hash now key
unfolding get_by_key_hash
get_by_key_hash-Admits id hash now db db1 db2 key revoked =
    query_rule (λ w. w ≡ (ok (some key), db2) → Admits id hash now key)
      (λ d. unexpired now (select_one (is_active_at hash) d.api_keys)) db1
      (λ h. absurd (grind arith))
      (λ h.
        let found : unexpired now (select_one (is_active_at hash) db1.api_keys) ≡ some key =
          grind arith in
        unexpired-Admits id hash now db1.api_keys key (revoked-Other id hash db db1 revoked) found)
