-- ===== src/Database/Batch/Drain.antt =====
-- The loops of DeleteDirectory (internal/service/directory/manager.go) end, and leave no row below
-- the directory.
use fssvrgo.Prelude.{
  ℕ, zero, suc, ◌≤◌, ◌<◌, Bool, true, false, not, ◌&&◌, String, Option, none, some, List, [], ◌∷◌,
  str_eq, ◌≡◌, refl, take, if◌then◌else◌, sym, ap, ◌∙◌, subst, arith, eq_refl, if_rule, Bool-cases,
  inl, inr,
}
use fssvrgo.Storage.{Storage}
use fssvrgo.Database.Table.{select, update, checked, checked-some, count}
use fssvrgo.Database.Db.{Db, Result, ok, err, query_rule, exec, exec-ok, rest_of, next_fault}
use fssvrgo.Database.Batch.{
  SoftTable, committed, finished, started, transaction, next, mark_row, mark_all, batch_of, Drained,
  marked_batch, read_batch, drain, cleaned,
}

module _ {R : Type 0} where
  -- An update whose rows fail the test lets no more rows pass.
  pub count-update :
      (test chosen : R → Bool) (set : R → R) (rows : List R)
      → ((r : R) → test (set r) ≡ false)
      → count test (update chosen set rows) ≤ count test rows
  unfolding count update
  count-update test chosen set [] off = omega arith
  count-update test chosen set (r ∷ rows) off =
      if_rule (λ x. count test x ≤ count test (r ∷ rows)) (chosen r)
        (λ h. ground (arith, off r, count-update test chosen set rows off))
        (λ h. ground (arith, count-update test chosen set rows off))

  -- It lets fewer pass if it takes the first that did.
  count-update_first :
      (test chosen : R → Bool) (set : R → R) (first : R) (more rows : List R)
      → ((r : R) → test (set r) ≡ false)
      → select test rows ≡ first ∷ more
      → chosen first ≡ true
      → count test (update chosen set rows) < count test rows
  unfolding count update select
  count-update_first test chosen set first more [] off h hit = absurd (grind arith)
  count-update_first test chosen set first more (r ∷ rows) off h hit = elim (Bool-cases (test r)) [
    | inl p ↦
        let same : r ≡ first = grind arith in
        let picked : chosen r ≡ true = ap chosen same ∙ hit in
        let fewer = count-update test chosen set rows off in
        let gone = off r in rw (p, picked) (ground (arith, gone, fewer))
    | inr p ↦
        let later : select test rows ≡ first ∷ more =
          subst (λ b. (if b then r ∷ select test rows else select test rows) ≡ first ∷ more) p h in
        let ih = count-update_first test chosen set first more rows off later hit in
        let gone = off r in
        rw p (
          if_rule (λ x. count test x < count test rows) (chosen r) (λ c. ground (arith, gone, ih))
            (λ c. ground (arith, p, ih)))
  ]

  count-select : (test : R → Bool) (rows : List R) → select test rows ≡ [] → count test rows ≡ 0
  unfolding count select
  count-select test [] h = refl
  count-select test (r ∷ rows) h = ground (arith, count-select test rows)

  take-nothing : (n : ℕ) (rows : List R) → take (suc n) rows ≡ [] → rows ≡ []
  take-nothing n [] h = refl
  take-nothing n (r ∷ rows) h = absurd (grind arith)

  take-something :
      (n : ℕ) (rows : List R) (first : R) (more : List R)
      → take (suc n) rows ≡ first ∷ more
      → (rest : List R) × (rows ≡ first ∷ rest)
  take-something n [] first more h = absurd (grind arith)
  take-something n (r ∷ rows) first more h = (rows, grind arith)

module _ {R : Type 0} (T : SoftTable R) (below : String → Bool) where
  -- A row that is still below the directory
  abbrev pub is_below : R → Bool
  is_below r = below (T.path r) && not (T.is_deleted r)

  -- How many rows are left
  abbrev pub remaining : Db → ℕ
  remaining db = count is_below (T.rows db)

module _ {R : Type 0} (T : SoftTable R) (now : String) (below : String → Bool) where
  marked-is_below : (r : R) → is_below T below (T.marked now r) ≡ false
  marked-is_below r = rw (T.marked_deleted now r) (ground arith)

  mark_row-some :
      (id : String) (db db' : Db)
      → mark_row T now id db ≡ some db'
      → T.rows db' ≡ update (λ r. str_eq (T.id r) id) (T.marked now) (T.rows db)
  unfolding mark_row
  mark_row-some id db db' = go (checked T.id T.path _) refl
    where
      go :
          (o : Option (List R))
          → checked T.id T.path (update (λ r. str_eq (T.id r) id) (T.marked now) (T.rows db)) ≡ o
          → (elim o [ none ↦ none | some rs ↦ some (T.put rs db) ]) ≡ some db'
          → T.rows db' ≡ update (λ r. str_eq (T.id r) id) (T.marked now) (T.rows db)
      go none e h = absurd (grind arith)
      go (some rs) e h =
          let same : T.put rs db ≡ db' = grind arith in
          ap T.rows (sym same) ∙ T.rows_put rs db ∙ (checked-some T.id T.path _ rs e).0

  -- A statement that marked a row
  mark_row_rows :
      (id : String) (db db' : Db)
      → exec (mark_row T now id) db ≡ (ok tt, db')
      → T.rows db' ≡ update (λ r. str_eq (T.id r) id) (T.marked now) (T.rows db)
  unfolding rest_of
  mark_row_rows id db db' h =
      mark_row-some id (rest_of db) db' (exec-ok (mark_row T now id) db db' h)
      ∙ ap (update (λ r. str_eq (T.id r) id) (T.marked now))
          (T.rows_faults (next_fault db.faults).1 db)

  -- The statements of a batch, where the first of them succeeded
  next_ok :
      (w : Result (Unit {0}) × Db) (go : Db → Result (Unit {0}) × Db) (db' : Db)
      → next w go ≡ (ok tt, db')
      → (db1 : Db) × (w ≡ (ok tt, db1)) × (go db1 ≡ (ok tt, db'))
  unfolding next
  next_ok (ok u, db) go db' h = (db, refl, h)
  next_ok (err e, db) go db' h = absurd (grind arith)

  mark_all_le :
      (rest : List R) (db db' : Db)
      → mark_all T now rest db ≡ (ok tt, db')
      → remaining T below db' ≤ remaining T below db
  unfolding mark_all
  mark_all_le [] db db' h =
      let same : db ≡ db' = grind arith in
      subst (λ x. remaining T below x ≤ remaining T below db) same (omega arith)
  mark_all_le (r ∷ rest) db db' h =
      let (db1, e, later) =
        next_ok (exec (mark_row T now (T.id r)) db) (mark_all T now rest) db' h in
      let one : remaining T below db1 ≤ remaining T below db =
        rw (mark_row_rows (T.id r) db db1 e)
          (count-update (is_below T below) _ _ (T.rows db) marked-is_below) in
      let more = mark_all_le rest db1 db' later in omega (arith, one, more)

  -- A batch that was read from the table and marked leaves fewer rows.
  mark_all_lt :
      (first : R) (rest more : List R) (db db' : Db)
      → select (is_below T below) (T.rows db) ≡ first ∷ more
      → mark_all T now (first ∷ rest) db ≡ (ok tt, db')
      → remaining T below db' < remaining T below db
  unfolding mark_all
  mark_all_lt first rest more db db' read h =
      let (db1, e, later) =
        next_ok (exec (mark_row T now (T.id first)) db) (mark_all T now rest) db' h in
      let one : remaining T below db1 < remaining T below db =
        rw (mark_row_rows (T.id first) db db1 e) (
          count-update_first (is_below T below) _ _ first more (T.rows db) marked-is_below read
            (eq_refl (T.id first))) in
      let others = mark_all_le rest db1 db' later in omega (arith, one, others)

  exec_same : (db db' : Db) → exec (λ db. some db) db ≡ (ok tt, db') → T.rows db' ≡ T.rows db
  unfolding rest_of
  exec_same db db' h =
      let same : rest_of db ≡ db' = grind (arith, exec-ok (λ db. some db) db db' h) in
      ap T.rows (sym same) ∙ T.rows_faults (next_fault db.faults).1 db

  transaction_ok :
      (body : Db → Result (Unit {0}) × Db) (db db' : Db)
      → transaction body db ≡ (ok tt, db')
      → (db1 : Db) × (db2 : Db) × (T.rows db1 ≡ T.rows db)
        × (body db1 ≡ (ok tt, db2))
        × (T.rows db' ≡ T.rows db2)
  unfolding transaction started finished committed
  transaction_ok body db db' = go (exec (λ db. some db) db) refl
    where
      last :
          (db2 : Db) (w : Result (Unit {0}) × Db)
          → exec (λ db. some db) db2 ≡ w
          → committed db w ≡ (ok tt, db')
          → T.rows db' ≡ T.rows db2
      last db2 (ok u, db3) e h =
          let same : db3 ≡ db' = grind arith in ap T.rows (sym same) ∙ exec_same db2 db3 e
      last db2 (err x, db3) e h = absurd (grind arith)

      mid :
          (db1 : Db) (w : Result (Unit {0}) × Db)
          → body db1 ≡ w
          → finished db w ≡ (ok tt, db')
          → (db2 : Db) × (body db1 ≡ (ok tt, db2)) × (T.rows db' ≡ T.rows db2)
      mid db1 (ok u, db2) e h = (db2, e, last db2 (exec (λ db. some db) db2) refl h)
      mid db1 (err x, db2) e h = absurd (grind arith)

      go :
          (w : Result (Unit {0}) × Db)
          → exec (λ db. some db) db ≡ w
          → started db body w ≡ (ok tt, db')
          → (db1 : Db) × (db2 : Db) × (T.rows db1 ≡ T.rows db)
            × (body db1 ≡ (ok tt, db2))
            × (T.rows db' ≡ T.rows db2)
      go (ok u, db1) e h =
          let (db2, b, rows) = mid db1 (body db1) refl h in (db1, db2, exec_same db db1 e, b, rows)
      go (err x, db1) e h = absurd (grind arith)

-- How a loop ends: by its own condition or an error, before the fuel is out; without an error no row
-- is left below the directory.
pub record Ends {R : Type 0} (T : SoftTable R) (below : String → Bool) (o : Option Drained)
    : Type 0 where
  pub left : Drained
  pub ended : o ≡ some left
  pub empty : left.0 ≡ ok tt → remaining T below left.1 ≡ 0

module _ {R : Type 0} (T : SoftTable R) (now : String) (below : String → Bool)
    (clean : List R → Storage → Storage) where
  marked_batch-Ends :
      (again : Db → Option Storage → Option Drained) (first : R) (rest more : List R) (db db0 : Db)
      (store : Option Storage) (w : Result (Unit {0}) × Db)
      → T.rows db ≡ T.rows db0
      → select (is_below T below) (T.rows db0) ≡ first ∷ more
      → transaction (mark_all T now (first ∷ rest)) db ≡ w
      → ((db' : Db) (store' : Option Storage)
          → remaining T below db' < remaining T below db0
          → Ends T below (again db' store'))
      → Ends T below (marked_batch T now below clean again (first ∷ rest) store w)
  unfolding marked_batch
  marked_batch-Ends again first rest more db db0 store (err e, db') same read h later = record {
    left = (err e, db', store);
    ended = refl;
    empty = λ x. absurd (grind arith);
  }
  marked_batch-Ends again first rest more db db0 store (ok u, db') same read h later =
      let (db1, db2, begun, body, rows) =
        transaction_ok T now below (mark_all T now (first ∷ rest)) db db' h in
      let fewer =
        mark_all_lt T now below first rest more db1 db2
          (ap (select (is_below T below)) (begun ∙ same) ∙ read) body in
      later db' (cleaned T now below clean (first ∷ rest) store) (
        subst (λ rs. count (is_below T below) rs < remaining T below db0) (sym rows)
          (subst (λ rs. remaining T below db2 < count (is_below T below) rs) (begun ∙ same) fewer))

  -- A loop of DeleteDirectory ends for every answer of the driver: fuel above the number of rows
  -- below the directory is enough. Where it returns no error, no such row is left.
  pub drain-Ends :
      (fuel : ℕ) (db : Db) (store : Option Storage)
      → remaining T below db < fuel
      → Ends T below (drain T now below clean fuel db store)
  unfolding drain read_batch batch_of rest_of
  drain-Ends zero db store h = absurd (omega arith)
  drain-Ends (suc fuel) db store h =
      query_rule
        (λ w. Ends T below (read_batch T now below clean (drain T now below clean fuel) store w))
        (batch_of T below 500) db
        (record { left = _; ended = refl; empty = λ x. absurd (grind arith) })
        (go (batch_of T below 500 db) refl
          (λ db' store' fewer. drain-Ends fuel db' store' (omega (arith, h, fewer))))
    where
      go :
          (batch : List R)
          → batch_of T below 500 db ≡ batch
          → ((db' : Db) (store' : Option Storage)
              → remaining T below db' < remaining T below db
              → Ends T below (drain T now below clean fuel db' store'))
          → Ends T below (
              read_batch T now below clean
                (drain T now below clean fuel)
                store
                (ok batch, rest_of db))
      go [] e later = record {
        left = (ok tt, rest_of db, store);
        ended = refl;
        empty = λ x.
            ap (count (is_below T below)) (T.rows_faults _ db)
            ∙ count-select (is_below T below) (T.rows db) (take-nothing 499 _ e);
      }
      go (first ∷ rest) e later =
          let (more, read) =
            take-something 499 (select (is_below T below) (T.rows db)) first rest e in
          marked_batch-Ends (drain T now below clean fuel) first rest more (rest_of db) db store
            (transaction (mark_all T now (first ∷ rest)) (rest_of db)) (T.rows_faults _ db) read
            refl later
