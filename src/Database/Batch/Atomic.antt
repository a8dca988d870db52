-- ===== src/Database/Batch/Atomic.antt =====
-- A transaction of internal/service/directory/manager.go runs all of its statements or none.
use fssvrgo.Prelude.{some, ◌≡◌, refl, sym, ap, ◌∙◌, subst, arith}
use fssvrgo.Database.Db.{Db, Result, ok, err, exec_rule, rest_of}
use fssvrgo.Database.Batch.{rolled_back, committed, finished, started, transaction, next}

-- The tables are as they were; the driver may have been asked.
abbrev pub OnlyFaults : Db → Db → Type 0
OnlyFaults db db' = db' ≡ record db { faults = db'.faults }

pub OnlyFaults-trans : (a b c : Db) → OnlyFaults a b → OnlyFaults b c → OnlyFaults a c
OnlyFaults-trans a b c h k = k ∙ ap (λ (d : Db). record d { faults = c.faults }) h

-- What a transaction ends with
abbrev pub AllOrNone : (Db → Result (Unit {0}) × Db) → Db → Result (Unit {0}) × Db → Type 0
AllOrNone body db (err e, db') = OnlyFaults db db'
AllOrNone body db (ok u, db') =
    (last : Db) × (body (rest_of db) ≡ (ok tt, last)) × (db' ≡ rest_of last)

some_same : (d d' : Db) → some d ≡ some d' → d ≡ d'
some_same d d' h = grind arith

pub transaction-AllOrNone :
    (body : Db → Result (Unit {0}) × Db) (db : Db) → AllOrNone body db (transaction body db)
unfolding transaction started finished committed rolled_back rest_of
transaction-AllOrNone body db =
    exec_rule (λ w. AllOrNone body db (started db body w)) (λ d. some d) db (λ e. refl)
      (λ d h.
        subst (λ x. AllOrNone body db (finished db (body x))) (some_same (rest_of db) d h)
          (mid (body (rest_of db)) refl))
  where
    mid : (w : Result (Unit {0}) × Db) → body (rest_of db) ≡ w → AllOrNone body db (finished db w)
    mid (err e, d) h = refl
    mid (ok u, d) h =
        exec_rule (λ w. AllOrNone body db (committed db w)) (λ d. some d) d (λ e. refl)
          (λ d' k. (d, h, sym (some_same (rest_of d) d' k)))

pub next-ok :
    (w : Result (Unit {0}) × Db) (go : Db → Result (Unit {0}) × Db) (db' : Db)
    → next w go ≡ (ok tt, db')
    → (mid : Db) × (w ≡ (ok tt, mid)) × (go mid ≡ (ok tt, db'))
unfolding next
next-ok (ok u, mid) go db' h = (mid, refl, h)
next-ok (err e, mid) go db' h = absurd (grind arith)
