-- ===== src/Transfer/Download/Whole.antt =====
-- A download of internal/service/transfer/service.go from its creation on returns the file.
use fssvrgo.Prelude.{
  ℕ, ◌<◌, true, drop, if_rule, not, if◌then◌else◌, String, Option, none, some, List, [], length,
  lookup, lookup-insert_here, ◌≡◌, refl, sym, ap, ◌∙◌, subst, arith,
}
use fssvrgo.Prelude.Int.{ℤ, pos}
use fssvrgo.Utils.{normalize_path}
use fssvrgo.Storage.{
  Fault, works, refuses, stops_after, no_such_file, system_failed, Storage, Answer, good, bad, read,
  next_call, first_fault,
}
use fssvrgo.Database.Db.{FileMetadata, Db, Result, ok}
use fssvrgo.Database.Files.{get_by_path}
use fssvrgo.Distributed.Session.Interface.{SessionStore}
use fssvrgo.Transfer.Download.{
  DownloadRecord, DownloadSession, Downloads, CreateIo, Outcome, done, failed, temp_failed,
  fresh_session, keep_session, decrypt_copy, decrypted_session, start_download,
  create_download_session, download_chunk,
}
use fssvrgo.Transfer.Download.Chunk.{slice, chunk_here}

-- The file behind an object: the object, or what the cipher decrypts it to
abbrev pub plaintext : Option (List ℕ → Option (List ℕ)) → List ℕ → Option (List ℕ)
plaintext none object = some object
plaintext (some decrypt) object = decrypt object

read_clear :
    (path : String) (object : List ℕ) (st : Storage)
    → st.inside path ≡ true
    → st.faults ≡ []
    → lookup path st.files ≡ some object
    → (read path st).0 ≡ good object
unfolding read first_fault
read_clear path object st inside clear there = rw (inside, clear, there, read) refl

read_rest :
    (path : String) (st : Storage)
    → st.faults ≡ []
    → ((read path st).1.inside path ≡ st.inside path) × ((read path st).1.faults ≡ [])
unfolding read next_call first_fault
read_rest path st clear =
    if_rule P (not (st.inside path)) (λ _. (refl, clear)) (λ _. by_fault (first_fault st.faults))
  where
    P : Answer (List ℕ) × Storage → Type 0
    P w = (w.1.inside path ≡ st.inside path) × (w.1.faults ≡ [])

    rest : ((next_call st).inside path ≡ st.inside path) × ((next_call st).faults ≡ [])
    rest = (refl, ap (drop 1) clear)

    by_object :
        (o : Option (List ℕ))
        → P (elim o [
          | none ↦ (bad no_such_file, next_call st)
          | some bytes ↦ (good bytes, next_call st)
        ])
    by_object none = rest
    by_object (some bytes) = rest

    by_fault :
        (f : Fault)
        → P (elim f [
          | works ↦ elim (lookup path st.files) [
            | none ↦ (bad no_such_file, next_call st)
            | some bytes ↦ (good bytes, next_call st)
          ]
          | refuses ↦ (bad system_failed, next_call st)
          | stops_after n ↦ (bad system_failed, next_call st)
        ])
    by_fault works = by_object (lookup path st.files)
    by_fault refuses = rest
    by_fault (stops_after n) = rest

module _ {S : SessionStore DownloadRecord} where
  -- A created download whose chunks are those of the file
  abbrev pub Serves : String → List ℕ → Outcome String × Downloads S → Type 0
  Serves id plain w =
      (w.0 ≡ done id)
      × ((size : ℕ) (offset : ℤ) (now : ℕ)
          → 0 < size
          → (download_chunk id (pos size) offset now w.1).0 ≡ slice plain size offset)

  decrypted-Serves :
      (io : CreateIo) (id : String) (now : ℕ) (d : DownloadSession)
      (decrypt : List ℕ → Option (List ℕ)) (object plain : List ℕ) (w : Answer (List ℕ) × Storage)
      (s : Downloads S)
      → io.reopen_ok ≡ true
      → io.stat_ok ≡ true
      → decrypt object ≡ some plain
      → w.0 ≡ good object
      → w.1.inside d.file_path ≡ true
      → w.1.faults ≡ []
      → Serves id plain (decrypted_session io decrypt id now d w s)
  unfolding decrypted_session decrypt_copy keep_session
  decrypted-Serves io id now d decrypt object plain (bad e, st) s opened measured file h inside
        clear =
      absurd (grind arith)
  decrypted-Serves io id now d decrypt object plain (good bytes, st) s opened measured file h inside
        clear =
      let same : bytes ≡ object = grind arith in
      let e : decrypt bytes ≡ some plain = ap decrypt same ∙ file in
      rw (e, opened, measured)
        (
          refl,
          λ size offset t positive.
              chunk_here id _ plain size t offset _ (lookup-insert_here id _ s.sessions) refl refl
                positive inside clear,
        )

  module _ (io : CreateIo) (path client id : String) (now : ℕ) (m : FileMetadata)
      (object plain : List ℕ) (s0 : Downloads S) (created : io.create_ok ≡ true)
      (opened : io.reopen_ok ≡ true) (measured : io.stat_ok ≡ true)
      (inside : s0.storage.inside path ≡ true) (clear : s0.storage.faults ≡ [])
      (there : lookup path s0.storage.files ≡ some object)
      (file : plaintext io.decrypt object ≡ some plain) (sized : m.size ≡ pos (length plain)) where
    start_download-Serves :
        (db : Db) → Serves id plain (start_download io path client id now (ok (some m), db) s0)
    unfolding start_download keep_session
    start_download-Serves db = go io.decrypt file
      where
        d : DownloadSession
        d = fresh_session m path client now

        s : Downloads S
        s = record s0 { db = db }

        go :
            (c : Option (List ℕ → Option (List ℕ)))
            → plaintext c object ≡ some plain
            → Serves id plain (elim c [
              | none ↦ (done id, keep_session id now d s)
              | some decrypt ↦
                  if not io.create_ok
                  then (failed temp_failed, s)
                  else decrypted_session io decrypt id now d (read path s.storage) s
            ])
        go none e =
            let same : object ≡ plain = grind arith in
            (
              refl,
              λ size offset t positive.
                  chunk_here id d plain size t offset (keep_session id now d s)
                    (lookup-insert_here id d s.sessions) (there ∙ ap (λ x. some x) same) sized
                    positive inside clear,
            )
        go (some decrypt) e = rw created (
            decrypted-Serves io id now d decrypt object plain (read path s.storage) s opened
              measured e (read_clear path object s.storage inside clear there)
              ((read_rest path s.storage clear).0 ∙ inside) (read_rest path s.storage clear).1)

  by_row :
      (io : CreateIo) (path client id : String) (now : ℕ) (m : FileMetadata) (plain : List ℕ)
      (w : Result (Option FileMetadata) × Db) (s : Downloads S)
      → w.0 ≡ ok (some m)
      → ((db : Db) → Serves id plain (start_download io path client id now (ok (some m), db) s))
      → Serves id plain (start_download io path client id now w s)
  by_row io path client id now m plain (r, db) s h serves =
      subst (λ x. Serves id plain (start_download io path client id now (x, db) s)) (sym h)
        (serves db)

  -- A download of a path with a row and an object, where no call of the file system fails, the storage
  -- accepts the path and the row has the size of the file, which is the object or what the cipher
  -- decrypts it to: CreateDownloadSession succeeds, and then DownloadChunk, at any offset and for any
  -- positive size, refuses an offset outside of the file and else returns the bytes of the file from the
  -- offset, of the size or up to the end.
  pub create_download_session-Serves :
      (io : CreateIo) (p client id : String) (now : ℕ) (m : FileMetadata) (object plain : List ℕ)
      (s : Downloads S)
      → (get_by_path (normalize_path p) s.db).0 ≡ ok (some m)
      → io.create_ok ≡ true
      → io.reopen_ok ≡ true
      → io.stat_ok ≡ true
      → s.storage.inside (normalize_path p) ≡ true
      → s.storage.faults ≡ []
      → lookup (normalize_path p) s.storage.files ≡ some object
      → plaintext io.decrypt object ≡ some plain
      → m.size ≡ pos (length plain)
      → Serves id plain (create_download_session io p client id now s)
  unfolding create_download_session
  create_download_session-Serves io p client id now m object plain s row created opened measured
        inside clear there file sized =
      by_row io (normalize_path p) client id now m plain (get_by_path (normalize_path p) s.db) s row
        (start_download-Serves io (normalize_path p) client id now m object plain s created opened
          measured inside clear there file sized)
