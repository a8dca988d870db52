-- ===== src/FileManager/Rename.antt =====
-- What RenameFile of internal/service/filemanager/manager.go leaves, on success and after an error.
use fssvrgo.Prelude.{
  ℕ, true, false, not, String, Option, none, some, List, [], str_eq, if◌then◌else◌, ◌≡◌, refl,
  arith, sym, ap, subst, ◌∙◌, eq_iff, if_rule, lookup, insert, erase, lookup-insert,
  lookup-insert_here, lookup-erase, Bool-cases, Option-cases, ◌&&◌, inl, inr, ◌⊎◌, drop,
}
use fssvrgo.Utils.{normalize_path}
use fssvrgo.Storage.{Storage, Answer, good, bad, rename, first_fault, next_call}
use fssvrgo.Database.Db.{FileMetadata, Db, Result, ok, err, rest_of, exec_rule, DbError}
use fssvrgo.Database.Files as Files
use fssvrgo.Database.Files.{replaced, is_live_at, update_files}
use fssvrgo.Database.Files.View.{live, IsSound, IsSound-files, live-files}
use fssvrgo.Database.Files.Replace.{live-update_row}
use fssvrgo.Database.Table.{select_one, select_one-true}
use fssvrgo.FileManager.{FileManager, Env, Outcome, done, failed, exists, answer_of}
use fssvrgo.FileManager.Upload.{normalize-stable, exists-files}
use fssvrgo.FileManager.Lookup.{get_rule}
use fssvrgo.FileManager.Change.{rename_file, new_path, found_rename, object_moved, row_moved}

-- A map after what stood at `old` moved to `new`
abbrev pub moved {ℓ} : {A : Type ℓ} → String → String → (String → Option A) → String → Option A
moved old new m q = if str_eq new q then m old else if str_eq old q then none else m q

-- What a rename that returns no error did
renamed :
    (old new : String) (st st' : Storage) (u : Unit {0})
    → rename old new st ≡ (good u, st')
    → ((str_eq old new ≡ true) × (st' ≡ st))
      ⊎ ((bytes : List ℕ) × (str_eq old new ≡ false)
          × (st.inside old ≡ true)
          × (st.inside new ≡ true)
          × (lookup old st.files ≡ some bytes)
          × (st' ≡ record st {
            files = insert new bytes (erase old st.files);
            faults = drop 1 st.faults;
          }))
unfolding rename next_call first_fault
renamed old new st st' u h = elim (Bool-cases (st.inside old && st.inside new)) [
  | inr i ↦ absurd (grind arith)
  | inl i ↦ elim (Bool-cases (str_eq old new)) [
    | inl e ↦ inl (e, grind arith)
    | inr e ↦ elim (Option-cases (lookup old st.files)) [
      | inl n ↦ absurd (grind arith)
      | inr (bytes, n) ↦ inr (bytes, e, ground arith, ground arith, n, grind arith)
    ]
  ]
]

rename_good :
    (old new : String) (st st' : Storage) (u : Unit {0})
    → rename old new st ≡ (good u, st')
    → (q : String) → lookup q st'.files ≡ moved old new (λ p. lookup p st.files) q
rename_good old new st st' u h q = elim (renamed old new st st' u h) [
  | inl (same, e) ↦ rw e (grind (arith, eq_iff old new, eq_iff old q, eq_iff new q))
  | inr (bytes, off, _, _, there, e) ↦
      rw (e, lookup-insert new q bytes (erase old st.files), lookup-erase old q st.files, there)
        refl
]

rename_back :
    (old new : String) (bytes : List ℕ) (st : Storage) (q : String)
    → str_eq new old ≡ false
    → st.inside old ≡ true
    → st.inside new ≡ true
    → lookup q
        (rename new old
          (record st { files = insert new bytes (erase old st.files); faults = [] })).1.files
      ≡ lookup q (insert old bytes (erase new (insert new bytes (erase old st.files))))
unfolding rename next_call first_fault
rename_back old new bytes st q apart from to =
    rw (to, from, apart, lookup-insert_here new bytes (erase old st.files)) refl

-- Without faults a rename is undone by the rename back, but for what stood at `new`.
rename-rename :
    (old new : String) (st st' : Storage) (u : Unit {0})
    → st.faults ≡ []
    → rename old new st ≡ (good u, st')
    → (q : String) → str_eq new q ≡ false
    → lookup q (rename new old st').1.files ≡ lookup q st.files
unfolding rename next_call first_fault
rename-rename old new st st' u clear h q off = elim (renamed old new st st' u h) [
  | inl (same, e) ↦ rw e (grind (arith, eq_iff old new, eq_iff new old))
  | inr (bytes, apart, from, to, there, e) ↦
      let back : str_eq new old ≡ false = ground (arith, eq_iff old new, eq_iff new old) in
      let calls : drop 1 st.faults ≡ [] = rw clear refl in
      ap (λ (x : Storage). lookup q (rename new old x).1.files)
        (e
          ∙ ap (λ f. record st { files = insert new bytes (erase old st.files); faults = f }) calls)
      ∙ rename_back old new bytes st q back from to
      ∙ rw
          (
            lookup-insert old q bytes (erase new (insert new bytes (erase old st.files))),
            lookup-erase new q (insert new bytes (erase old st.files)),
            off,
            lookup-insert new q bytes (erase old st.files),
            off,
            lookup-erase old q st.files,
          )
          (if_rule (λ x. x ≡ lookup q st.files) (str_eq old q)
            (λ f. sym there ∙ ap (λ p. lookup p st.files) ((eq_iff old q).0 f)) (λ f. rw f refl))
]

rename_bad :
    (old new : String) (st st' : Storage) (e : _)
    → rename old new st ≡ (bad e, st')
    → st'.files ≡ st.files
unfolding rename next_call
rename_bad old new st st' e h = grind arith

update_row_err :
    (m : FileMetadata) (db db' : Db) (e : DbError)
    → Files.update_row m db ≡ (err e, db')
    → db'.files ≡ db.files
unfolding Files.update_row rest_of
update_row_err m db db' e =
    exec_rule (λ w. w ≡ (err e, db') → db'.files ≡ db.files)
      (update_files (λ r. str_eq r.id m.id) (replaced m)) db
      (λ f h. sym (ap (λ (w : Result (Unit {0}) × Db). w.1.files) h))
      (λ d h g. absurd (grind arith))

-- What a RenameFile leaves that returns no error: the object and the row are at the new path.
pub record Renamed (old new : String) (row : FileMetadata) (fm fm' : FileManager) : Type 0 where
  pub objects :
      (q : String) → lookup q fm'.storage.files ≡ moved old new (λ p. lookup p fm.storage.files) q
  pub rows :
      (q : String)
      → live q fm'.db
        ≡ (if str_eq new q then some row else if str_eq old q then none else live q fm.db)
  pub sound : IsSound fm'.db

-- What it leaves beside an error: the rows as they were and, without faults of the storage, the
-- objects too, but for what stood at the new path without a row.
pub record Kept (new : String) (fm fm' : FileManager) : Type 0 where
  pub rows : fm'.db.files ≡ fm.db.files
  pub objects :
      fm.storage.faults ≡ []
      → (q : String) → str_eq new q ≡ false
      → lookup q fm'.storage.files ≡ lookup q fm.storage.files

abbrev pub RenameEnds :
    String → String → FileMetadata → FileManager → Outcome (Unit {0}) × FileManager → Type 0
RenameEnds old new row fm (done u, fm') = Renamed old new row fm fm'
RenameEnds old new row fm (failed e, fm') = Kept new fm fm'

row_moved_ends :
    (old new name : String) (env : Env) (m : FileMetadata) (db : Db) (st' : Storage)
    (fm : FileManager) (u : Unit {0}) (w : Result (Unit {0}) × Db)
    → IsSound db
    → db.files ≡ fm.db.files
    → live old db ≡ some m
    → rename old new fm.storage ≡ (good u, st')
    → Files.update_row (record m { path = new; name = name; updated_at = env.now }) db ≡ w
    → RenameEnds old new
        (record m { path = new; name = name; updated_at = env.now })
        fm
        (row_moved old new w st')
unfolding row_moved live
row_moved_ends old new name env m db st' fm u (ok v, db') sound same there h e =
    let row : FileMetadata = record m { path = new; name = name; updated_at = env.now } in
    let kept : m.is_deleted ≡ false =
      let test = select_one-true (is_live_at old) m db.files there in
      unfold is_live_at in ground arith in
    record {
      objects = rename_good old new fm.storage st' u h;
      rows = λ q.
          (live-update_row q old row m db db' sound kept there refl e).0
          ∙ ap
              (λ rows.
                if str_eq new q
                then some row
                else if str_eq old q
                then none
                else select_one (is_live_at q) rows)
              same;
      sound = (live-update_row old old row m db db' sound kept there refl e).1;
    }
row_moved_ends old new name env m db st' fm u (err x, db') sound same there h e = record {
  rows = update_row_err _ db db' x e ∙ same;
  objects = λ clear q off. rename-rename old new fm.storage st' u clear h q off;
}

object_moved_ends :
    (old new name : String) (env : Env) (m : FileMetadata) (db : Db) (fm : FileManager)
    (w : Answer (Unit {0}) × Storage)
    → IsSound db
    → db.files ≡ fm.db.files
    → live old db ≡ some m
    → rename old new fm.storage ≡ w
    → RenameEnds old new
        (record m { path = new; name = name; updated_at = env.now })
        fm
        (object_moved env old new name m w db)
unfolding object_moved
object_moved_ends old new name env m db fm (good u, st') sound same there h =
    row_moved_ends old new name env m db st' fm u
      (Files.update_row (record m { path = new; name = name; updated_at = env.now }) db) sound same
      there h refl
object_moved_ends old new name env m db fm (bad e, st') sound same there h = record {
  rows = same;
  objects = λ clear q off. ap (lookup q) (rename_bad old new fm.storage st' e h);
}

-- RenameFile of a path with a row ends, in every branch, in one of two states, if no other request
-- works on the new path meanwhile, which the code does not lock. Without an error the object and the
-- row of the old path are at the new path and all else is as it was. With an error no row has changed;
-- and if no call of the storage fails, every object is as it was but one that stood at the new path
-- without a row, which the move back does not restore.
pub rename_file-RenameEnds :
    (env : Env) (p name : String) (m : FileMetadata) (fm : FileManager)
    → IsSound fm.db
    → str_eq (normalize_path p) "" ≡ false
    → live (normalize_path p) fm.db ≡ some m
    → RenameEnds
        (normalize_path p)
        (new_path (normalize_path p) name)
        (record m { path = new_path (normalize_path p) name; name = name; updated_at = env.now })
        fm
        (rename_file env p name fm)
unfolding rename_file found_rename live exists
rename_file-RenameEnds env p name m fm sound named there =
    let old = normalize_path p in
    let new = new_path old name in
    let row : FileMetadata = record m { path = new; name = name; updated_at = env.now } in
    let stable = normalize-stable p named in
    if_rule (RenameEnds old new row fm) (not env.lock_ok)
      (λ h. record { rows = refl; objects = λ clear q off. refl })
      (λ h.
        get_rule (λ w. RenameEnds old new row fm (found_rename env old name w)) old fm stable
          (λ e db same. record { rows = same; objects = λ clear q off. refl })
          (λ m' db same there'.
            let looked = Files.exists (normalize_path new) db in
            let files : looked.1.files ≡ fm.db.files =
              exists-files (normalize_path new) db ∙ same in
            if_rule (RenameEnds old new row fm) (answer_of looked.0)
              (λ e. record { rows = files; objects = λ clear q off. refl })
              (λ e.
                let row_same : m ≡ m' = grind arith in
                subst
                  (λ x.
                    RenameEnds old new row fm
                      (object_moved env old new name x (rename old new fm.storage) looked.1))
                  row_same
                  (object_moved_ends old new name env m looked.1 fm (rename old new fm.storage)
                    (IsSound-files fm.db looked.1 files sound) files
                    (live-files old fm.db looked.1 files ∙ there) refl))))
