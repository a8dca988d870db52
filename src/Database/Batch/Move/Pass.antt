-- ===== src/Database/Batch/Move/Pass.antt =====
-- The statements that move the rows below a directory (internal/service/directory/manager.go), one
-- after the other, are one pass over the table.
use fssvrgo.Prelude.{
  true, false, not, ◌&&◌, Bool, String, Option, none, some, List, [], ◌∷◌, map, str_eq,
  if◌then◌else◌, ◌≡◌, refl, sym, ap, ◌∙◌, arith, eq_iff, eq_refl, Bool-cases, inl, inr,
}
use fssvrgo.Utils.{get_file_name}
use fssvrgo.Database.Table.{
  select, update, checked, checked-some, holds_value, is_distinct, update_absent,
}
use fssvrgo.Database.Db.{Db, ok, exec, exec-ok, rest_of}
use fssvrgo.Database.Batch.{SoftTable}
use fssvrgo.Database.Batch.Atomic.{next-ok}
use fssvrgo.Database.Batch.Frame.{Apart}
use fssvrgo.Database.Batch.Move.{item_path, move_row, move_all}

module _ {R : Type 0} (T : SoftTable R) where
  pub move_row-some :
      (path name now id : String) (db db' : Db)
      → move_row T path name now id db ≡ some db'
      → db' ≡ T.put (update (λ r. str_eq (T.id r) id) (T.relocated path name now) (T.rows db)) db
  unfolding move_row
  move_row-some path name now id db db' = go (checked T.id T.path rows) refl
    where
      rows : List R
      rows = update (λ r. str_eq (T.id r) id) (T.relocated path name now) (T.rows db)

      go :
          (o : Option (List R))
          → checked T.id T.path rows ≡ o
          → (elim o [ none ↦ none | some rs ↦ some (T.put rs db) ]) ≡ some db'
          → db' ≡ T.put rows db
      go none e h = absurd (grind arith)
      go (some rs) e h =
          let same : T.put rs db ≡ db' = grind arith in
          sym same ∙ ap (λ x. T.put x db) (checked-some T.id T.path rows rs e).0

  module _ (old new now : String) where
    -- A row at the new path of `e`
    abbrev placed : R → R → R
    placed e r =
        let path = item_path old new (T.path e) in T.relocated path (get_file_name path) now r

    -- What the pass does to a row
    abbrev pub relocate : (String → Bool) → R → R
    relocate below r =
        if below (T.path r) && not (T.is_deleted r)
        then T.relocated (item_path old new (T.path r))
            (get_file_name (item_path old new (T.path r))) now r
        else r

    abbrev updates : List R → List R → List R
    updates [] rows = rows
    updates (e ∷ entries) rows =
        updates entries (update (λ r. str_eq (T.id r) (T.id e)) (placed e) rows)

    updates-cons :
        (entries : List R) (x : R) (rows : List R)
        → holds_value T.id (T.id x) entries ≡ false
        → updates entries (x ∷ rows) ≡ x ∷ updates entries rows
    unfolding update holds_value
    updates-cons [] x rows h = refl
    updates-cons (e ∷ entries) x rows h =
        let off : str_eq (T.id x) (T.id e) ≡ false =
          ground (arith, eq_iff (T.id x) (T.id e), eq_iff (T.id e) (T.id x)) in
        let later : holds_value T.id (T.id x) entries ≡ false = ground arith in
        rw off
          (updates-cons entries x (update (λ r. str_eq (T.id r) (T.id e)) (placed e) rows) later)

    holds_value-select :
        (value : String) (test : R → Bool) (rows : List R)
        → holds_value T.id value rows ≡ false
        → holds_value T.id value (select test rows) ≡ false
    unfolding holds_value select
    holds_value-select value test [] h = refl
    holds_value-select value test (r ∷ rows) h = ground (arith, holds_value-select value test rows)

    update_first :
        (r : R) (rows : List R)
        → holds_value T.id (T.id r) rows ≡ false
        → update (λ x. str_eq (T.id x) (T.id r)) (placed r) (r ∷ rows) ≡ placed r r ∷ rows
    unfolding update
    update_first r rows apart =
        rw (eq_refl (T.id r))
          (ap (λ x. placed r r ∷ x) (update_absent T.id (T.id r) (placed r) rows apart))

    updates-select :
        (below : String → Bool) (rows : List R)
        → is_distinct T.id rows ≡ true
        → updates (select (λ r. below (T.path r) && not (T.is_deleted r)) rows) rows
          ≡ map (relocate below) rows
    unfolding select update is_distinct
    updates-select below [] h = refl
    updates-select below (r ∷ rows) h =
        let test : R → Bool = λ r. below (T.path r) && not (T.is_deleted r) in
        let apart : holds_value T.id (T.id r) rows ≡ false = ground arith in
        let rest : is_distinct T.id rows ≡ true = ground arith in
        let ih = updates-select below rows rest in
        let free = holds_value-select (T.id r) test rows apart in
        elim (Bool-cases (test r)) [
          | inl t ↦ rw t (
              ap (updates (select test rows)) (update_first r rows apart)
              ∙ updates-cons (select test rows) (placed r r) rows (
                  ap (λ i. holds_value T.id i (select test rows)) (T.relocated_id _ _ now r) ∙ free)
              ∙ ap (λ x. placed r r ∷ x) ih)
          | inr t ↦ rw t (updates-cons (select test rows) r rows free ∙ ap (λ x. r ∷ x) ih)
        ]

    module _ {X : Type 0} (part : Db → X) (A : Apart T part) where
      move_all-updates :
          (entries : List R) (db db' : Db)
          → move_all T old new now entries db ≡ (ok tt, db')
          → (T.rows db' ≡ updates entries (T.rows db)) × (part db' ≡ part db)
      unfolding move_all rest_of
      move_all-updates [] db db' h =
          let same : db ≡ db' = grind arith in (ap T.rows (sym same), ap part (sym same))
      move_all-updates (e ∷ entries) db db' h =
          let path = item_path old new (T.path e) in
          let write = move_row T path (get_file_name path) now (T.id e) in
          let (mid, wrote, later) =
            next-ok (exec write db) (move_all T old new now entries) db' h in
          let same =
            move_row-some path (get_file_name path) now (T.id e) (rest_of db) mid
              (exec-ok write db mid wrote) in
          let (rows, kept) = move_all-updates entries mid db' later in
          (
            rows
                ∙ ap (updates entries) (
                    ap T.rows same
                    ∙ T.rows_put _ (rest_of db)
                    ∙ ap (update (λ r. str_eq (T.id r) (T.id e)) (placed e)) (T.rows_faults _ db)),
            kept ∙ ap part same ∙ A.put _ (rest_of db) ∙ A.faults _ db,
          )

      -- The loop over the rows that were found, without an error, moves just these.
      pub move_all-relocate :
          (below : String → Bool) (rows : List R) (db db' : Db)
          → T.rows db ≡ rows
          → is_distinct T.id rows ≡ true
          → move_all T old new now (select (λ r. below (T.path r) && not (T.is_deleted r)) rows) db
            ≡ (ok tt, db')
          → (T.rows db' ≡ map (relocate below) rows) × (part db' ≡ part db)
      move_all-relocate below rows db db' same apart h =
          let (moved, kept) = move_all-updates _ db db' h in
          (
            moved
                ∙ ap (updates (select (λ r. below (T.path r) && not (T.is_deleted r)) rows)) same
                ∙ updates-select below rows apart,
            kept,
          )
