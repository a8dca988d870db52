-- ===== src/Database/Batch/Frame.antt =====
-- What the loops of DeleteDirectory (internal/service/directory/manager.go) do not touch: all of the
-- database that their statements do not write.
use fssvrgo.Prelude.{
  ℕ, zero, suc, Bool, String, Option, none, some, List, [], ◌∷◌, ◌≡◌, refl, sym, ap, ◌∙◌, arith,
}
use fssvrgo.Storage.{Storage}
use fssvrgo.Database.Table.{checked}
use fssvrgo.Database.Db.{Db, Result, ok, err, query_rule, exec, exec_rule, rest_of}
use fssvrgo.Database.Batch.{
  SoftTable, rolled_back, committed, finished, started, transaction, next, mark_row, mark_all,
  batch_of, Drained, cleaned, marked_batch, read_batch, drain,
}

-- A part of the database that the statements on a table keep
pub record Apart {R X : Type 0} (T : SoftTable R) (part : Db → X) : Type 0 where
  pub faults : (fs : List Bool) (db : Db) → part (record db { faults = fs }) ≡ part db
  pub put : (rs : List R) (db : Db) → part (T.put rs db) ≡ part db

module _ {R X : Type 0} (T : SoftTable R) (part : Db → X) (A : Apart T part) where
  exec_part :
      (write : Db → Option Db) (db : Db)
      → ((d d' : Db) → write d ≡ some d' → part d' ≡ part d)
      → part (exec write db).1 ≡ part db
  unfolding rest_of
  exec_part write db keeps =
      exec_rule (λ w. part w.1 ≡ part db) write db (λ e. A.faults _ db)
        (λ d h. keeps (rest_of db) d h ∙ A.faults _ db)

  mark_row_part : (now id : String) (d d' : Db) → mark_row T now id d ≡ some d' → part d' ≡ part d
  unfolding mark_row
  mark_row_part now id d d' = go (checked T.id T.path _)
    where
      go :
          (o : Option (List R))
          → (elim o [ none ↦ none | some rs ↦ some (T.put rs d) ]) ≡ some d'
          → part d' ≡ part d
      go none h = absurd (grind arith)
      go (some rs) h = let same : T.put rs d ≡ d' = grind arith in ap part (sym same) ∙ A.put rs d

  next_part :
      (w : Result (Unit {0}) × Db) (go : Db → Result (Unit {0}) × Db)
      → ((d : Db) → part (go d).1 ≡ part d)
      → part (next w go).1 ≡ part w.1
  unfolding next
  next_part (ok u, db) go keeps = keeps db
  next_part (err e, db) go keeps = refl

  mark_all_part :
      (now : String) (batch : List R) (db : Db) → part (mark_all T now batch db).1 ≡ part db
  unfolding mark_all
  mark_all_part now [] db = refl
  mark_all_part now (r ∷ rest) db =
      next_part (exec (mark_row T now (T.id r)) db) (mark_all T now rest) (mark_all_part now rest)
      ∙ exec_part (mark_row T now (T.id r)) db (mark_row_part now (T.id r))

  transaction_part :
      (body : Db → Result (Unit {0}) × Db) (db : Db)
      → ((d : Db) → part (body d).1 ≡ part d)
      → part (transaction body db).1 ≡ part db
  unfolding transaction started finished committed rolled_back
  transaction_part body db keeps =
      first (exec (λ db. some db) db)
        (exec_part (λ db. some db) db (λ d d' h. ap part (sym (some_same d d' h))))
    where
      some_same : (d d' : Db) → some d ≡ some d' → d ≡ d'
      some_same d d' h = grind arith

      last : (w : Result (Unit {0}) × Db) → part w.1 ≡ part db → part (committed db w).1 ≡ part db
      last (ok u, d) h = h
      last (err e, d) h = A.faults _ db

      mid : (w : Result (Unit {0}) × Db) → part w.1 ≡ part db → part (finished db w).1 ≡ part db
      mid (ok u, d) h =
          last (exec (λ db. some db) d)
            (exec_part (λ db. some db) d (λ x y e. ap part (sym (some_same x y e))) ∙ h)
      mid (err e, d) h = A.faults _ db

      first :
          (w : Result (Unit {0}) × Db) → part w.1 ≡ part db → part (started db body w).1 ≡ part db
      first (ok u, d) h = mid (body d) (keeps d ∙ h)
      first (err e, d) h = h

  module _ (now : String) (below : String → Bool) (clean : List R → Storage → Storage) where
    -- However a loop ends, it keeps the part.
    pub drain_part :
        (fuel : ℕ) (db : Db) (store : Option Storage) (left : Drained)
        → drain T now below clean fuel db store ≡ some left
        → part left.1 ≡ part db
    unfolding drain read_batch marked_batch rest_of
    drain_part zero db store left h = absurd (grind arith)
    drain_part (suc fuel) db store left h =
        query_rule
          (λ w.
            read_batch T now below clean (drain T now below clean fuel) store w ≡ some left
            → part left.1 ≡ part db)
          (batch_of T below 500) db (λ e. stop _ _ _ e ∙ A.faults _ db)
          (go (λ d s. drain_part fuel d s left) (batch_of T below 500 db)) h
      where
        stop :
            (r : Result (Unit {0})) (d : Db) (s : Option Storage)
            → some (r, d, s) ≡ some left
            → part left.1 ≡ part d
        stop r d s e =
            let same : ◌≡◌ {A = Drained} (r, d, s) left = grind arith in
            ap (λ (x : Drained). part x.1) (sym same)

        later :
            ((d : Db) (s : Option Storage)
              → drain T now below clean fuel d s ≡ some left
              → part left.1 ≡ part d)
            → (batch : List R) (w : Result (Unit {0}) × Db) → part w.1 ≡ part db
            → marked_batch T now below clean (drain T now below clean fuel) batch store w
              ≡ some left
            → part left.1 ≡ part db
        later ih batch (err e, d) k x = stop _ _ _ x ∙ k
        later ih batch (ok u, d) k x = ih d (cleaned T now below clean batch store) x ∙ k

        go :
            ((d : Db) (s : Option Storage)
              → drain T now below clean fuel d s ≡ some left
              → part left.1 ≡ part d)
            → (batch : List R)
            → read_batch T now below clean
                (drain T now below clean fuel)
                store
                (ok batch, rest_of db)
              ≡ some left
            → part left.1 ≡ part db
        go ih [] e = stop _ _ _ e ∙ A.faults _ db
        go ih (r ∷ rest) e =
            later ih (r ∷ rest) (transaction (mark_all T now (r ∷ rest)) (rest_of db))
              (transaction_part (mark_all T now (r ∷ rest)) (rest_of db)
                  (mark_all_part now (r ∷ rest))
                ∙ A.faults _ db)
              e
