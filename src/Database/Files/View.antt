-- ===== src/Database/Files/View.antt =====
-- What FileMetadataService promises its clients: a map from normalized paths to the rows that are
-- not deleted.
use fssvrgo.Prelude.{
  sym, subst, Bool, true, false, String, Option, none, some, List, [], ◌∷◌, str_eq, if◌then◌else◌,
  ◌≡◌, refl, arith, eq_iff, if_rule, ap, ◌∙◌, is_some, Bool-cases, inl, inr, ◌⊎◌,
}
use fssvrgo.Utils.{normalize_path}
use fssvrgo.Database.Table.{
  select_one, update, checked, checked-some, is_distinct, select_one_absent,
  select_one-update_apart, select_one-update_hit,
}
use fssvrgo.Database.Db.{FileMetadata, Db, ok, query, exec-ok, query_rule, rest_of}
use fssvrgo.Database.Files.{
  is_live_at, is_dead_at, update_files, insert_file, restored, removed_at, create, created, remove,
}

-- The row of a path
unfoldable pub live : String → Db → Option FileMetadata
unfolding select_one is_live_at
live path db = select_one (is_live_at path) db.files

-- The two columns of initFileTable that hold no value twice
abbrev pub IsSound : Db → Type 0
IsSound db =
    (is_distinct (λ (r : FileMetadata). r.id) db.files ≡ true)
    × (is_distinct (λ (r : FileMetadata). r.path) db.files ≡ true)

-- What a successful write of rows left
pub checked_rows :
    (rows : List FileMetadata) (db db' : Db)
    → (elim (checked (λ (r : FileMetadata). r.id) (λ r. r.path) rows) [
      | none ↦ none
      | some files ↦ some (record db { files = files })
    ])
      ≡ some db'
    → (db' ≡ record db { files = rows }) × IsSound db'
checked_rows rows db db' = go (checked (λ r. r.id) (λ r. r.path) rows) refl
  where
    go :
        (o : Option (List FileMetadata))
        → checked (λ r. r.id) (λ r. r.path) rows ≡ o
        → (elim o [ none ↦ none | some files ↦ some (record db { files = files }) ]) ≡ some db'
        → (db' ≡ record db { files = rows }) × IsSound db'
    go none e h = absurd (grind arith)
    go (some files) e h =
        grind (arith, checked-some (λ (r : FileMetadata). r.id) (λ r. r.path) rows files e)

-- A query and a failed statement leave the rows.
live-rest_of : (q : String) (db : Db) → live q (rest_of db) ≡ live q db
unfolding live rest_of
live-rest_of q db = refl

pub live-insert :
    (q : String) (m : FileMetadata) (db db' : Db)
    → m.is_deleted ≡ false
    → insert_file m db ≡ some db'
    → (live q db' ≡ (if str_eq m.path q then some m else live q db)) × IsSound db'
unfolding insert_file live select_one is_live_at
live-insert q m db db' kept h =
    let (same, sound) = checked_rows (m ∷ db.files) db db' h in
    (rw (same, kept) (ground arith), sound)

pub live-update :
    (q : String) (test : FileMetadata → Bool) (set : FileMetadata → FileMetadata) (db db' : Db)
    → update_files test set db ≡ some db'
    → (live q db' ≡ select_one (is_live_at q) (update test set db.files)) × IsSound db'
unfolding update_files live
live-update q test set db db' h =
    let (same, sound) = checked_rows (update test set db.files) db db' h in (rw same refl, sound)

-- Restoring the deleted row of a path
live-restore :
    (q : String) (m : FileMetadata) (rows : List FileMetadata)
    → is_some (select_one (λ (r : FileMetadata). str_eq r.path m.path) rows) ≡ true
    → select_one (is_live_at q) (update (λ r. str_eq r.path m.path) (restored m) rows) ≡ (
        if str_eq m.path q
        then some (record m { is_deleted = false })
        else select_one (is_live_at q) rows)
unfolding is_live_at
live-restore q m rows there = elim (Bool-cases (str_eq m.path q)) [
  | inl h ↦ rw h (
      select_one-update_hit _ _ _ (record m { is_deleted = false }) rows
        (λ r e. (
          ground (arith, eq_iff r.path m.path, eq_iff m.path q, eq_iff r.path q),
          ap (λ p. record m { path = p; is_deleted = false }) ((eq_iff r.path m.path).0 e),
        ))
        (λ r e. ground (arith, eq_iff r.path m.path, eq_iff m.path q, eq_iff r.path q)) there)
  | inr h ↦ rw h (
      select_one-update_apart _ _ _ rows (λ r e. (
        ground (arith, eq_iff r.path m.path, eq_iff m.path q, eq_iff r.path q),
        ground (arith, eq_iff r.path m.path, eq_iff m.path q, eq_iff r.path q),
      )))
]

-- Where the rows have each path once, the path of the first is at no later one.
pub live-later :
    (q : String) (r : FileMetadata) (rows : List FileMetadata)
    → is_distinct (λ (r : FileMetadata). r.path) (r ∷ rows) ≡ true
    → str_eq r.path q ≡ true
    → select_one (is_live_at q) rows ≡ none
unfolding is_live_at is_distinct
live-later q r rows distinct h =
    select_one_absent (λ r. r.path) q (is_live_at q) rows (λ s e. ground (arith, eq_iff s.path q))
      (ground (arith, eq_iff r.path q))

live-removed :
    (q now id : String) (rows : List FileMetadata)
    → is_distinct (λ (r : FileMetadata). r.path) rows ≡ true
    → select_one (is_live_at q) (update (λ r. str_eq r.id id) (removed_at now) rows)
      ≡ (elim (select_one (is_live_at q) rows) [
        | none ↦ none
        | some r ↦ if str_eq r.id id then none else some r
      ])
unfolding is_live_at select_one update is_distinct
live-removed q now id [] distinct = refl
live-removed q now id (r ∷ rows) distinct =
    let later = live-removed q now id rows (ground arith) in
    let absent = live-later q r rows distinct in
    if_rule
      (λ x. select_one (is_live_at q) x ≡ (elim (select_one (is_live_at q) (r ∷ rows)) [
        | none ↦ none
        | some s ↦ if str_eq s.id id then none else some s
      ]))
      (str_eq r.id id) (λ h. ground (arith, absent, later)) (λ h. ground (arith, later))

-- A restored row was found dead at the path.
dead-there :
    (path : String) (r : FileMetadata) (rows : List FileMetadata)
    → select_one (is_dead_at path) rows ≡ some r
    → is_some (select_one (λ (r : FileMetadata). str_eq r.path path) rows) ≡ true
unfolding select_one is_dead_at
dead-there path r [] h = ground arith
dead-there path r (s ∷ rows) h = ground (arith, dead-there path r rows)

-- After a call that left `db'`, the rows of a path are the same but for `m` at its path.
abbrev pub Puts : FileMetadata → Db → Db → Type 0
Puts m db db' = (q : String) → live q db' ≡ (if str_eq m.path q then some m else live q db)

live-created :
    (m : FileMetadata) (db db' : Db) (found : Option FileMetadata)
    → m.is_deleted ≡ false
    → (found ≡ none) ⊎ (select_one (is_dead_at m.path) db.files ≡ found)
    → created m (ok found, rest_of db) ≡ (ok tt, db')
    → Puts m db db' × IsSound db'
unfolding created live
live-created m db db' none kept e h =
    let done = exec-ok (insert_file m) (rest_of db) db' h in
    (
      λ q. (live-insert q m (rest_of (rest_of db)) db' kept done).0,
      (live-insert m.path m (rest_of (rest_of db)) db' kept done).1,
    )
live-created m db db' (some r) kept e h =
    let set : FileMetadata → FileMetadata = restored m in
    let test : FileMetadata → Bool = λ r. str_eq r.path m.path in
    let done = exec-ok (update_files test set) (rest_of db) db' h in
    (
      λ q.
          (live-update q test set (rest_of (rest_of db)) db' done).0
          ∙ live-restore q m db.files
              (dead-there m.path r db.files (elim e [ inl x ↦ absurd (grind arith) | inr x ↦ x ]))
          ∙ rw (← kept) refl,
      (live-update m.path test set (rest_of (rest_of db)) db' done).1,
    )

-- Create, after its query failed or was answered
live-create_found :
    (m : FileMetadata) (db db' : Db)
    → m.is_deleted ≡ false
    → created m (query (λ db. select_one (is_dead_at m.path) db.files) db) ≡ (ok tt, db')
    → Puts m db db' × IsSound db'
unfolding created live
live-create_found m db db' kept =
    query_rule (λ w. created m w ≡ (ok tt, db') → Puts m db db' × IsSound db')
      (λ db. select_one (is_dead_at m.path) db.files) db
      (λ h. live-created m db db' none kept (inl refl) h)
      (live-created m db db' (select_one (is_dead_at m.path) db.files) kept (inr refl))

-- A Create that returns no error leaves the row at its normalized path and every other path as it
-- was, whether the path had a deleted row or none; the two columns hold no value twice afterwards.
pub live-create :
    (m : FileMetadata) (db db' : Db)
    → m.is_deleted ≡ false
    → create m db ≡ (ok tt, db')
    → Puts (record m { path = normalize_path m.path }) db db' × IsSound db'
unfolding create
live-create m db db' kept h =
    live-create_found (record m { path = normalize_path m.path }) db db' kept h

-- A Remove that returns no error takes the row with the id away from its path, and no other.
pub live-remove :
    (q now id : String) (db db' : Db)
    → IsSound db
    → remove now id db ≡ (ok tt, db')
    → (live q db'
        ≡ (elim (live q db) [ none ↦ none | some r ↦ if str_eq r.id id then none else some r ]))
      × IsSound db'
unfolding remove live
live-remove q now id db db' sound h =
    let test : FileMetadata → Bool = λ r. str_eq r.id id in
    let set : FileMetadata → FileMetadata = removed_at now in
    let done = exec-ok (update_files test set) db db' h in
    let (rows, sound') = live-update q test set (rest_of db) db' done in
    (rows ∙ live-removed q now id db.files sound.1, sound')

-- Both depend on the rows alone.
pub IsSound-files : (db db' : Db) → db'.files ≡ db.files → IsSound db → IsSound db'
IsSound-files db db' same =
    subst
      (λ (rows : List FileMetadata).
        (is_distinct (λ r. r.id) rows ≡ true) × (is_distinct (λ r. r.path) rows ≡ true))
      (sym same)

pub live-files : (q : String) (db db' : Db) → db'.files ≡ db.files → live q db' ≡ live q db
unfolding live
live-files q db db' same = ap (select_one (is_live_at q)) same
