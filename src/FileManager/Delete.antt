-- ===== src/FileManager/Delete.antt =====
-- What DeleteFile of internal/service/filemanager/manager.go leaves.
use fssvrgo.Prelude.{
  false, not, String, Option, none, some, str_eq, if◌then◌else◌, ◌≡◌, refl, arith, sym, ap, subst,
  ◌∙◌, eq_refl, if_rule, lookup, lookup-erase,
}
use fssvrgo.Utils.{normalize_path}
use fssvrgo.Storage.{Storage, Answer, good, bad, remove, next_call}
use fssvrgo.Database.Db.{FileMetadata, Db, Result, ok, err, rest_of, exec_rule, DbError}
use fssvrgo.Database.Files as Files
use fssvrgo.Database.Files.{removed_at, is_live_at, update_files}
use fssvrgo.Database.Files.View.{live, IsSound, IsSound-files, live-files, live-remove}
use fssvrgo.FileManager.{FileManager, Env, Outcome, done, failed}
use fssvrgo.FileManager.Upload.{normalize-stable}
use fssvrgo.FileManager.Lookup.{get_rule}
use fssvrgo.FileManager.Change.{delete_file, found_delete, object_removed, row_removed}

-- After a DeleteFile that returns no error the object and the row of the path are gone, and no other
-- row has changed.
pub record Deleted (path : String) (m : FileMetadata) (fm fm' : FileManager) : Type 0 where
  pub objects :
      (q : String)
      → lookup q fm'.storage.files ≡ (if str_eq path q then none else lookup q fm.storage.files)
  pub gone : live path fm'.db ≡ none
  pub others :
      (q : String)
      → live q fm'.db
        ≡ (elim (live q fm.db) [ none ↦ none | some r ↦ if str_eq r.id m.id then none else some r ])
  pub sound : IsSound fm'.db

abbrev pub DeleteEnds :
    String → FileMetadata → FileManager → Outcome (Unit {0}) × FileManager → Type 0
DeleteEnds path m fm (done u, fm') = Deleted path m fm fm'
DeleteEnds path m fm (failed e, fm') =
    (fm'.db.files ≡ fm.db.files)
    × ((q : String)
        → str_eq path q ≡ false
        → lookup q fm'.storage.files ≡ lookup q fm.storage.files)

remove_err :
    (now id : String) (db db' : Db) (e : DbError)
    → Files.remove now id db ≡ (err e, db')
    → db'.files ≡ db.files
unfolding Files.remove rest_of
remove_err now id db db' e =
    exec_rule (λ w. w ≡ (err e, db') → db'.files ≡ db.files)
      (update_files (λ r. str_eq r.id id) (removed_at now)) db
      (λ f h. sym (ap (λ (w : Result (Unit {0}) × Db). w.1.files) h))
      (λ d h g. absurd (grind arith))

remove_good :
    (path : String) (st st' : Storage) (u : Unit {0})
    → remove path st ≡ (good u, st')
    → (q : String) → lookup q st'.files ≡ (if str_eq path q then none else lookup q st.files)
unfolding remove next_call
remove_good path st st' u h q = grind (arith, lookup-erase path q st.files)

remove_bad :
    (path : String) (st st' : Storage) (e : _)
    → remove path st ≡ (bad e, st')
    → st'.files ≡ st.files
unfolding remove next_call
remove_bad path st st' e h = grind arith

row_removed_ends :
    (env : Env) (path : String) (m : FileMetadata) (db : Db) (st' : Storage) (fm : FileManager)
    (u : Unit {0}) (w : Result (Unit {0}) × Db)
    → IsSound db
    → db.files ≡ fm.db.files
    → live path fm.db ≡ some m
    → remove path fm.storage ≡ (good u, st')
    → Files.remove env.now m.id db ≡ w
    → DeleteEnds path m fm (row_removed w st')
unfolding row_removed
row_removed_ends env path m db st' fm u (ok v, db') sound same there h e =
    let rows : (q : String)
        → live q db' ≡ (elim (live q fm.db) [
          | none ↦ none
          | some r ↦ if str_eq r.id m.id then none else some r
        ]) =
      λ q.
        (live-remove q env.now m.id db db' sound e).0
        ∙ ap
            (λ (o : Option FileMetadata). elim o [
              | none ↦ none
              | some r ↦ if str_eq r.id m.id then none else some r
            ])
            (live-files q fm.db db same) in
    record {
      objects = remove_good path fm.storage st' u h;
      gone = rows path ∙ rw (there, eq_refl m.id) refl;
      others = rows;
      sound = (live-remove path env.now m.id db db' sound e).1;
    }
row_removed_ends env path m db st' fm u (err x, db') sound same there h e = (
  remove_err env.now m.id db db' x e ∙ same,
  λ q off. remove_good path fm.storage st' u h q ∙ rw off refl,
)

object_removed_ends :
    (env : Env) (path : String) (m : FileMetadata) (db : Db) (fm : FileManager)
    (w : Answer (Unit {0}) × Storage)
    → IsSound db
    → db.files ≡ fm.db.files
    → live path fm.db ≡ some m
    → remove path fm.storage ≡ w
    → DeleteEnds path m fm (object_removed env m w db)
unfolding object_removed
object_removed_ends env path m db fm (good u, st') sound same there h =
    row_removed_ends env path m db st' fm u (Files.remove env.now m.id db) sound same there h refl
object_removed_ends env path m db fm (bad e, st') sound same there h =
    (same, λ q off. ap (lookup q) (remove_bad path fm.storage st' e h))

-- DeleteFile of a path with a row ends, in every branch, in one of two states. Without an error the
-- object and the row of the path are gone and all else is as it was. With an error no row has
-- changed and no object but the one of the path.
pub delete_file-DeleteEnds :
    (env : Env) (p : String) (m : FileMetadata) (fm : FileManager)
    → IsSound fm.db
    → str_eq (normalize_path p) "" ≡ false
    → live (normalize_path p) fm.db ≡ some m
    → DeleteEnds (normalize_path p) m fm (delete_file env p fm)
unfolding delete_file found_delete
delete_file-DeleteEnds env p m fm sound named there =
    let path = normalize_path p in
    if_rule (DeleteEnds path m fm) (not env.lock_ok) (λ h. (refl, λ q off. refl))
      (λ h.
        get_rule (λ w. DeleteEnds path m fm (found_delete env path w)) path fm
          (normalize-stable p named) (λ e db same. (same, λ q off. refl))
          (λ m' db same there'.
            let row_same : m ≡ m' = grind arith in
            subst (λ x. DeleteEnds path m fm (object_removed env x (remove path fm.storage) db))
              row_same
              (object_removed_ends env path m db fm (remove path fm.storage)
                (IsSound-files fm.db db same sound) same there refl)))
