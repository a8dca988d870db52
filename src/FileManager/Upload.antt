-- ===== src/FileManager/Upload.antt =====
-- What an upload of internal/service/filemanager/manager.go leaves in the storage and the database.
use fssvrgo.Prelude.{
  ℕ, true, false, not, String, Option, none, some, List, str_eq, if◌then◌else◌, length, ◌≡◌, ◌≢◌,
  refl, arith, sym, ap, subst, ◌∙◌, eq_iff, eq_refl, lookup, lookup-insert, Bool-cases, inl, inr,
  ◌⊎◌, if_true, if_false, ltb,
}
use fssvrgo.Prelude.Int.{ℤ, pos}
use fssvrgo.Utils.{normalize_path}
use fssvrgo.Utils.Normal.{normalize-normalize}
use fssvrgo.Storage.{Storage, Answer, good, bad, write, next_call}
use fssvrgo.Database.Db.{FileMetadata, Db, Result, ok, err, query_rule, rest_of}
use fssvrgo.Database.Files as Files
use fssvrgo.Database.Files.{replaced, is_live_at}
use fssvrgo.Database.Table.{select_one-true, select_one, is_distinct, count}
use fssvrgo.Database.Files.View.{live, IsSound, live-create}
use fssvrgo.Database.Files.Replace.{live-update_row}
use fssvrgo.FileManager.{
  FileManager, Env, Outcome, done, failed, FileError, exists, answer_of, overwritten, new_row,
  updated, created, save_row, row_of, written, upload_row, upload_file,
}

pub exists-files : (path : String) (db : Db) → (Files.exists path db).1.files ≡ db.files
unfolding Files.exists rest_of
exists-files path db =
    query_rule (λ w. w.1.files ≡ db.files)
      (λ db. ltb 0 (count (is_live_at (normalize_path path)) db.files)) db refl refl

pub get_by_path-files : (path : String) (db : Db) → (Files.get_by_path path db).1.files ≡ db.files
unfolding Files.get_by_path rest_of
get_by_path-files path db =
    query_rule (λ w. w.1.files ≡ db.files)
      (λ db. select_one (is_live_at (normalize_path path)) db.files) db refl refl

-- The row that GetByPath returns is the one of the path.
pub row_of_found :
    (path : String) (db db0 : Db)
    → normalize_path path ≡ path
    → db.files ≡ db0.files
    → (row_of (Files.get_by_path path db).0 ≡ none)
      ⊎ (live path db0 ≡ row_of (Files.get_by_path path db).0)
unfolding Files.get_by_path row_of live
row_of_found path db db0 stable same =
    query_rule (λ w. (row_of w.0 ≡ none) ⊎ (live path db0 ≡ row_of w.0))
      (λ db. select_one (is_live_at (normalize_path path)) db.files) db (inl refl)
      (inr (rw (stable, same) refl))

not_done :
    {A : Type 0} {a : A} {e : FileError} {x y : FileManager}
    → ◌≢◌ {A = Outcome A × FileManager} (failed e, x) (done a, y)
not_done h = absurd (grind arith)

-- A path that is not the root has one normalized form.
pub normalize-stable :
    (p : String)
    → str_eq (normalize_path p) "" ≡ false
    → normalize_path (normalize_path p) ≡ normalize_path p
normalize-stable p h = normalize-normalize p ∙ rw h refl

-- A write that returns no error
pub write_good :
    (path : String) (bytes : List ℕ) (st st' : Storage) (u : Unit {0})
    → write path bytes st ≡ (good u, st')
    → (q : String) → lookup q st'.files ≡ (if str_eq path q then some bytes else lookup q st.files)
unfolding write next_call
write_good path bytes st st' u h q = grind (arith, lookup-insert path q bytes st.files)

-- The row that an upload leaves at its path
pub record Describes (size : ℤ) (hash : String) (row : Option FileMetadata) : Type 0 where
  pub found : FileMetadata
  pub is_found : row ≡ some found
  pub has_size : found.size ≡ size
  pub has_hash : found.hash ≡ hash

-- One path of the database is described, and no other has changed.
pub record Saved (path : String) (size : ℤ) (hash : String) (db db' : Db) : Type 0 where
  pub here : Describes size hash (live path db')
  pub others : (q : String) → str_eq path q ≡ false → live q db' ≡ live q db
  pub sound : IsSound db'

live-path :
    (path : String) (row : FileMetadata) (db : Db) → live path db ≡ some row → row.path ≡ path
unfolding live is_live_at
live-path path row db h =
    let test = select_one-true (is_live_at path) row db.files h in
    (eq_iff row.path path).0 (ground arith)

-- A call of `updated` or `created` that succeeded got a success of the database.
updated_done :
    (m m' : FileMetadata) (w : Result (Unit {0}) × Db) (st : Storage) (fm' : FileManager)
    → updated m w st ≡ (done m', fm')
    → (w ≡ (ok tt, fm'.db)) × (fm'.storage ≡ st)
unfolding updated
updated_done m m' (ok u, db) st fm' h = (
  ap (λ (x : Outcome FileMetadata × FileManager). (ok tt, x.1.db)) h,
  sym (ap (λ (x : Outcome FileMetadata × FileManager). x.1.storage) h),
)
updated_done m m' (err e, db) st fm' h = absurd (grind arith)

created_done :
    (m m' : FileMetadata) (w : Result (Unit {0}) × Db) (st : Storage) (fm' : FileManager)
    → created m w st ≡ (done m', fm')
    → (w ≡ (ok tt, fm'.db)) × (fm'.storage ≡ st)
unfolding created
created_done m m' (ok u, db) st fm' h = (
  ap (λ (x : Outcome FileMetadata × FileManager). (ok tt, x.1.db)) h,
  sym (ap (λ (x : Outcome FileMetadata × FileManager). x.1.storage) h),
)
created_done m m' (err e, db) st fm' h = absurd (grind arith)

updated-Saved :
    (env : Env) (path : String) (size : ℤ) (hash : String) (old m : FileMetadata)
    (fm fm' : FileManager)
    → IsSound fm.db
    → live path fm.db ≡ some old
    → old.path ≡ path
    → save_row env path size hash (some old) fm ≡ (done m, fm')
    → Saved path size hash fm.db fm'.db × (fm'.storage ≡ fm.storage)
unfolding save_row
updated-Saved env path size hash old m fm fm' sound there at h =
    let row = overwritten env size hash old in
    let (saved, storage) = updated_done row m (Files.update_row row fm.db) fm.storage fm' h in
    let put =
      λ (q : String). live-update_row q path row old fm.db fm'.db sound refl there refl saved in
    (
      record {
        here = record {
          found = replaced row old;
          is_found = (put path).0 ∙ rw (ap (λ x. str_eq x path) at ∙ eq_refl path) refl;
          has_size = refl;
          has_hash = refl;
        };
        others = λ q off. (put q).0 ∙ rw (ap (λ x. str_eq x q) at ∙ off, off) refl;
        sound = (put path).1;
      },
      storage,
    )

created-Saved :
    (env : Env) (path : String) (size : ℤ) (hash : String) (m : FileMetadata) (fm fm' : FileManager)
    → normalize_path path ≡ path
    → save_row env path size hash none fm ≡ (done m, fm')
    → Saved path size hash fm.db fm'.db × (fm'.storage ≡ fm.storage)
unfolding save_row
created-Saved env path size hash m fm fm' stable h =
    let row = new_row env path size hash in
    let (saved, storage) = created_done row m (Files.create row fm.db) fm.storage fm' h in
    let (put, sound) = live-create row fm.db fm'.db refl saved in
    (
      record {
        here = record {
          found = record row { path = normalize_path path };
          is_found = put path ∙ rw (ap (λ x. str_eq x path) stable ∙ eq_refl path) refl;
          has_size = refl;
          has_hash = refl;
        };
        others = λ q off. put q ∙ rw (ap (λ x. str_eq x q) stable ∙ off) refl;
        sound = sound;
      },
      storage,
    )

-- UploadFile and UploadFileFromReader, once the row of the path is known: `old` is it, or `none`
-- where it was not found.
save_row-Saved :
    (env : Env) (path : String) (size : ℤ) (hash : String) (old : Option FileMetadata)
    (m : FileMetadata) (fm fm' : FileManager)
    → IsSound fm.db
    → normalize_path path ≡ path
    → (old ≡ none) ⊎ (live path fm.db ≡ old)
    → save_row env path size hash old fm ≡ (done m, fm')
    → Saved path size hash fm.db fm'.db × (fm'.storage ≡ fm.storage)
save_row-Saved env path size hash none m fm fm' sound stable there h =
    created-Saved env path size hash m fm fm' stable h
save_row-Saved env path size hash (some old) m fm fm' sound stable there h =
    let found : live path fm.db ≡ some old = elim there [
      | inl e ↦ absurd (grind arith)
      | inr e ↦ e
    ] in
    updated-Saved env path size hash old m fm fm' sound found (live-path path old fm.db found) h

-- After an upload the storage has the bytes at the path, and the database describes them.
pub record Uploaded (path : String) (bytes : List ℕ) (hash : String) (fm fm' : FileManager)
    : Type 0 where
  pub content : lookup path fm'.storage.files ≡ some bytes
  pub others :
      (q : String) → str_eq path q ≡ false → lookup q fm'.storage.files ≡ lookup q fm.storage.files
  pub saved : Saved path (pos (length bytes)) hash fm.db fm'.db

module _ (sha256 : List ℕ → String) where
  written-Uploaded :
      (env : Env) (path : String) (bytes : List ℕ) (old : Option FileMetadata) (m : FileMetadata)
      (db : Db) (st : Storage) (w : Answer (Unit {0}) × Storage) (fm' : FileManager)
      → IsSound db
      → normalize_path path ≡ path
      → (old ≡ none) ⊎ (live path db ≡ old)
      → write path bytes st ≡ w
      → written sha256 env path bytes old db w ≡ (done m, fm')
      → Uploaded path bytes (sha256 bytes) (record { storage = st; db = db }) fm'
  unfolding written
  written-Uploaded env path bytes old m db st (bad e, st') fm' sound stable there e' h =
      absurd (grind arith)
  written-Uploaded env path bytes old m db st (good u, st') fm' sound stable there e h =
      let (saved, same) =
        save_row-Saved env path (pos (length bytes)) (sha256 bytes) old m
          (record { storage = st'; db = db }) fm' sound stable there h in
      record {
        content =
            ap (λ (x : Storage). lookup path x.files) same
            ∙ write_good path bytes st st' u e path
            ∙ rw (eq_refl path) refl;
        others = λ q off.
            ap (λ (x : Storage). lookup q x.files) same
            ∙ write_good path bytes st st' u e q
            ∙ rw off refl;
        saved = saved;
      }

  -- The queries before the write change no row.
  upload_row-Uploaded :
      (env : Env) (path : String) (bytes : List ℕ) (old : Option FileMetadata) (m : FileMetadata)
      (db : Db) (fm fm' : FileManager)
      → IsSound fm.db
      → normalize_path path ≡ path
      → db.files ≡ fm.db.files
      → (old ≡ none) ⊎ (live path fm.db ≡ old)
      → upload_row sha256 env path bytes old (record fm { db = db }) ≡ (done m, fm')
      → Uploaded path bytes (sha256 bytes) fm fm'
  unfolding upload_row live
  upload_row-Uploaded env path bytes old m db fm fm' sound stable same there h =
      let IsRows : List FileMetadata → Type 0 = λ rows.
        (is_distinct (λ (r : FileMetadata). r.id) rows ≡ true)
        × (is_distinct (λ (r : FileMetadata). r.path) rows ≡ true) in
      let up =
        written-Uploaded env path bytes old m db fm.storage (write path bytes fm.storage) fm'
          (subst IsRows (sym same) sound) stable
          (subst (λ rows. (old ≡ none) ⊎ (select_one (is_live_at path) rows ≡ old)) (sym same)
            there)
          refl h in
      record {
        content = up.content;
        others = up.others;
        saved = record {
          here = up.saved.here;
          others = λ q off. up.saved.others q off ∙ ap (select_one (is_live_at q)) same;
          sound = up.saved.sound;
        };
      }

  -- An UploadFile that returns no error, to a path that is not the root, has stored the bytes under
  -- the normalized path and their size and hash in the row of that path, new, restored or
  -- overwritten; every other object and every other row is as it was.
  pub upload_file-Uploaded :
      (env : Env) (p : String) (bytes : List ℕ) (m : FileMetadata) (fm fm' : FileManager)
      → IsSound fm.db
      → str_eq (normalize_path p) "" ≡ false
      → upload_file sha256 env p bytes fm ≡ (done m, fm')
      → Uploaded (normalize_path p) bytes (sha256 bytes) fm fm'
  unfolding upload_file exists
  upload_file-Uploaded env p bytes m fm fm' sound named h =
      let path = normalize_path p in
      let stable = normalize-stable p named in
      let looked = Files.exists (normalize_path path) fm.db in
      let found = Files.get_by_path path looked.1 in
      let same : looked.1.files ≡ fm.db.files = exists-files (normalize_path path) fm.db in
      let same' : found.1.files ≡ fm.db.files = get_by_path-files path looked.1 ∙ same in
      let found_here : (row_of found.0 ≡ none) ⊎ (live path fm.db ≡ row_of found.0) =
        row_of_found path looked.1 fm.db stable same in
      elim (Bool-cases env.lock_ok) [
        | inr e ↦ absurd (not_done {a = m} (if_true _ _ _ (ap not e) h))
        | inl e ↦ elim (Bool-cases (answer_of looked.0)) [
          | inl f ↦
              upload_row-Uploaded env path bytes (row_of found.0) m found.1 fm fm' sound stable
                same' found_here (if_true _ _ _ f (if_false _ _ _ (ap not e) h))
          | inr f ↦
              upload_row-Uploaded env path bytes none m looked.1 fm fm' sound stable same (inl refl)
                (if_false _ _ _ f (if_false _ _ _ (ap not e) h))
        ]
      ]
