-- ===== src/Database/Files/Replace.antt =====
-- Update of FileMetadataService, on the map from paths to rows: an overwrite, or a move to another
-- path.
use fssvrgo.Prelude.{
  Bool, true, false, String, Option, none, some, List, [], ◌∷◌, str_eq, if◌then◌else◌, ◌≡◌, refl,
  arith, eq_iff, eq_refl, sym, subst, ◌∙◌, Bool-cases, inl, inr,
}
use fssvrgo.Database.Table.{
  select_one, update, holds_value, is_distinct, holds_value_found, update_absent,
}
use fssvrgo.Database.Db.{FileMetadata, Db, ok, exec-ok, rest_of}
use fssvrgo.Database.Files.{is_live_at, update_files, replaced, update_row}
use fssvrgo.Database.Files.View.{live, IsSound, live-later, checked_rows}

-- The row that is found first at its path is the one with its id.
first_row :
    (p : String) (r r0 : FileMetadata) (rows : List FileMetadata)
    → is_distinct (λ (r : FileMetadata). r.id) (r ∷ rows) ≡ true
    → select_one (is_live_at p) (r ∷ rows) ≡ some r0
    → r.id ≡ r0.id
    → (is_live_at p r ≡ true) × (r ≡ r0)
unfolding select_one is_distinct
first_row p r r0 rows distinct found same = elim (Bool-cases (is_live_at p r)) [
  | inl h ↦ (h, grind arith)
  | inr h ↦
      let there =
        holds_value_found (λ (r : FileMetadata). r.id) (is_live_at p) r0 rows (grind arith) in
      absurd (grind arith)
]

abbrev moved_answer :
    String → String → FileMetadata → FileMetadata → List FileMetadata → Option FileMetadata
moved_answer q p m r0 rows =
    if str_eq m.path q
    then some (replaced m r0)
    else if str_eq p q
    then none
    else select_one (is_live_at q) rows

replaced_first :
    (q p : String) (m r r0 : FileMetadata) (rows : List FileMetadata)
    → m.is_deleted ≡ false
    → is_distinct (λ (r : FileMetadata). r.id) (r ∷ rows) ≡ true
    → is_distinct (λ (r : FileMetadata). r.path) (r ∷ rows) ≡ true
    → select_one (is_live_at p) (r ∷ rows) ≡ some r0
    → r0.id ≡ m.id
    → r.id ≡ m.id
    → select_one (is_live_at q) (replaced m r ∷ update (λ r. str_eq r.id m.id) (replaced m) rows)
      ≡ moved_answer q p m r0 (r ∷ rows)
unfolding select_one is_live_at is_distinct
replaced_first q p m r r0 rows kept ids paths found same here =
    let (is_at, is_r0) = first_row p r r0 rows ids found (here ∙ sym same) in
    let gone : holds_value (λ (r : FileMetadata). r.id) m.id rows ≡ false =
      subst (λ i. holds_value (λ (r : FileMetadata). r.id) i rows ≡ false) here (ground arith) in
    let absent = live-later q r rows paths in
    rw (update_absent (λ (r : FileMetadata). r.id) m.id (replaced m) rows gone, kept, ← is_r0)
      (elim (Bool-cases (str_eq m.path q)) [
        | inl e ↦ rw e refl
        | inr e ↦ elim (Bool-cases (str_eq p q)) [
          | inl f ↦
              rw (e, f)
                (absent (ground (arith, is_at, eq_iff p q, eq_iff r.path q, eq_iff r.path p)))
          | inr f ↦
              let off : str_eq r.path q ≡ false =
                ground (arith, is_at, eq_iff p q, eq_iff r.path q, eq_iff r.path p) in
              rw (e, f, off) refl
        ]
      ])

no_repeat :
    (r : FileMetadata) (rows : List FileMetadata)
    → holds_value (λ (r : FileMetadata). r.path) r.path rows ≡ true
    → is_distinct (λ (r : FileMetadata). r.path) (r ∷ rows) ≡ true
    → true ≡ false
unfolding is_distinct
no_repeat r rows h distinct = ground arith

-- The rows before the one with the id are left.
replaced_later :
    (q p : String) (m r r0 : FileMetadata) (rows : List FileMetadata)
    → str_eq r.id m.id ≡ false
    → select_one (is_live_at p) (r ∷ rows) ≡ some r0
    → r0.id ≡ m.id
    → is_distinct
        (λ (r : FileMetadata). r.path)
        (r ∷ update (λ r. str_eq r.id m.id) (replaced m) rows)
      ≡ true
    → (select_one (is_live_at p) rows ≡ some r0
        → (u : String)
        → select_one (is_live_at u) (update (λ r. str_eq r.id m.id) (replaced m) rows)
          ≡ moved_answer u p m r0 rows)
    → select_one (is_live_at q) (update (λ r. str_eq r.id m.id) (replaced m) (r ∷ rows))
      ≡ moved_answer q p m r0 (r ∷ rows)
unfolding select_one update is_distinct is_live_at
replaced_later q p m r r0 rows other found same after later =
    let off : is_live_at p r ≡ false = elim (Bool-cases (is_live_at p r)) [
      | inl h ↦ absurd (grind (arith, eq_iff r.id m.id))
      | inr h ↦ h
    ] in
    let ih =
      later
        (subst (λ b. (if b then some r else select_one (is_live_at p) rows) ≡ some r0) off found) in
    let at =
      holds_value_found (λ (r : FileMetadata). r.path) (is_live_at m.path) (replaced m r0)
        (update (λ r. str_eq r.id m.id) (replaced m) rows) (ih m.path ∙ rw (eq_refl m.path) refl) in
    let away : str_eq r.path m.path ≡ false = elim (Bool-cases (str_eq r.path m.path)) [
      | inl h ↦
          h
          ∙ no_repeat r (update (λ r. str_eq r.id m.id) (replaced m) rows)
              (subst
                (λ x.
                  holds_value (λ (r : FileMetadata). r.path) x
                    (update (λ r. str_eq r.id m.id) (replaced m) rows)
                  ≡ true)
                (sym ((eq_iff r.path m.path).0 h)) at)
              after
      | inr h ↦ h
    ] in
    rw (other, ih q)
      (elim (Bool-cases (str_eq m.path q)) [
        | inl e ↦
            let gone : str_eq r.path q ≡ false =
              ground (arith, eq_iff m.path q, eq_iff r.path q, eq_iff r.path m.path) in
            rw (e, gone) refl
        | inr e ↦ elim (Bool-cases (str_eq p q)) [
          | inl f ↦
              let gone : is_live_at q r ≡ false =
                subst (λ x. is_live_at x r ≡ false) ((eq_iff p q).0 f) off in
              rw (e, f, gone) refl
          | inr f ↦ rw (e, f) refl
        ]
      ])

pub live-replaced :
    (q p : String) (m r0 : FileMetadata) (rows : List FileMetadata)
    → m.is_deleted ≡ false
    → is_distinct (λ (r : FileMetadata). r.id) rows ≡ true
    → is_distinct (λ (r : FileMetadata). r.path) rows ≡ true
    → is_distinct (λ (r : FileMetadata). r.path) (update (λ r. str_eq r.id m.id) (replaced m) rows)
      ≡ true
    → select_one (is_live_at p) rows ≡ some r0
    → r0.id ≡ m.id
    → select_one (is_live_at q) (update (λ r. str_eq r.id m.id) (replaced m) rows)
      ≡ moved_answer q p m r0 rows
unfolding select_one update is_distinct
live-replaced q p m r0 [] kept ids paths after found same = absurd (ground arith)
live-replaced q p m r0 (r ∷ rows) kept ids paths after found same =
    elim (Bool-cases (str_eq r.id m.id)) [
      | inl h ↦
          rw h (replaced_first q p m r r0 rows kept ids paths found same ((eq_iff r.id m.id).0 h))
      | inr h ↦
          let after' =
            subst
              (λ b.
                is_distinct (λ (r : FileMetadata). r.path)
                  (if b
                    then replaced m r ∷ update (λ r. str_eq r.id m.id) (replaced m) rows
                    else r ∷ update (λ r. str_eq r.id m.id) (replaced m) rows)
                ≡ true)
              h after in
          replaced_later q p m r r0 rows h found same after' (λ there u.
            live-replaced u p m r0 rows kept (ground arith) (ground arith) (ground arith) there
              same)
    ]

-- An Update that returns no error, of the row that its path has, leaves the new columns at the new
-- path, takes the row away from the old path if that is another, and leaves all other paths.
pub live-update_row :
    (q p : String) (m r0 : FileMetadata) (db db' : Db)
    → IsSound db
    → m.is_deleted ≡ false
    → live p db ≡ some r0
    → r0.id ≡ m.id
    → update_row m db ≡ (ok tt, db')
    → (live q db' ≡ (
        if str_eq m.path q then some (replaced m r0) else if str_eq p q then none else live q db))
      × IsSound db'
unfolding update_row update_files live
live-update_row q p m r0 db db' (ids, paths) kept there same h =
    let test : FileMetadata → Bool = λ r. str_eq r.id m.id in
    let done = exec-ok (update_files test (replaced m)) db db' h in
    let (rows, sound) = checked_rows (update test (replaced m) db.files) (rest_of db) db' done in
    let (_, after) = subst IsSound rows sound in
    (rw rows (live-replaced q p m r0 db.files kept ids paths after there same), sound)
