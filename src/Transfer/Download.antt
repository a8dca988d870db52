-- ===== src/Transfer/Download.antt =====
-- The downloads of internal/service/transfer/service.go. They share no session, no slot and no temp
-- file with the uploads, so their state stands by itself; the records that the session store keeps
-- under "download" are those of a store of their own. A file that is encrypted is decrypted to a
-- temp file first, which the session reads through an open handle.
pub mod Chunk
pub mod Whole
use Prim.Native.String.{◌++◌}
use fssvrgo.Prelude.{
  ℕ, Bool, true, false, not, String, Option, none, some, List, take, drop, length, lookup, insert,
  erase, ◌%◌, ◌==◌, if◌then◌else◌,
}
use fssvrgo.Prelude.Int.{ℤ, pos, pos_part, to_bits, ltbℤ, lebℤ, add64}
use fssvrgo.Utils.{normalize_path}
use fssvrgo.Storage.{Storage, Answer, good, bad, read, read_at}
use fssvrgo.Database.Db.{FileMetadata, Db, Result, ok, err}
use fssvrgo.Database.Files.{get_by_path}
use fssvrgo.Distributed.Session.Interface.{SessionStore}
use fssvrgo.Transfer.Exec.{session_ttl}

-- DownloadSession; `decrypted` is the content behind the open decryptedFile
pub record DownloadSession : Type 0 where
  pub file_id : String
  pub file_path : String
  pub total_size : ℤ
  pub downloaded_size : ℤ
  pub client_id : String
  pub created_at : ℕ
  pub updated_at : ℕ
  pub chunk_count : ℤ
  pub decrypted : Option (List ℕ)
  pub decrypted_path : Option String

-- What the session store keeps of it: the exported fields
pub record DownloadRecord : Type 0 where
  pub file_id : String
  pub file_path : String
  pub total_size : ℤ
  pub downloaded_size : ℤ
  pub client_id : String
  pub created_at : ℕ
  pub updated_at : ℕ

abbrev pub to_download_record : DownloadSession → DownloadRecord
to_download_record d = record {
  file_id = d.file_id;
  file_path = d.file_path;
  total_size = d.total_size;
  downloaded_size = d.downloaded_size;
  client_id = d.client_id;
  created_at = d.created_at;
  updated_at = d.updated_at;
}

abbrev pub of_download_record : DownloadRecord → DownloadSession
of_download_record r = record {
  file_id = r.file_id;
  file_path = r.file_path;
  total_size = r.total_size;
  downloaded_size = r.downloaded_size;
  client_id = r.client_id;
  created_at = r.created_at;
  updated_at = r.updated_at;
  chunk_count = pos 0;
  decrypted = none;
  decrypted_path = none;
}

module _ (S : SessionStore DownloadRecord) where
  -- FileTransferService, as far as downloads use it
  pub record Downloads : Type 0 where
    pub sessions : List (String × DownloadSession)
    pub temp_files : List (String × List ℕ)
    pub storage : Storage
    pub db : Db
    pub store : S.Store

pub data DownloadError : Type 0 where
  metadata_failed file_not_found temp_failed read_failed decrypt_failed reopen_failed :
      DownloadError
  session_not_found invalid_offset offset_beyond_size : DownloadError

pub data Outcome (A : Type 0) : Type 0 where
  done : A → Outcome A
  failed : DownloadError → Outcome A

-- What the environment answers to CreateDownloadSession. `decrypt` is the crypto service, if it is
-- enabled: the plaintext of the bytes, or its error.
pub record CreateIo : Type 0 where
  pub decrypt : Option (List ℕ → Option (List ℕ))
  pub create_ok : Bool
  pub reopen_ok : Bool
  pub stat_ok : Bool

abbrev pub fresh_session : FileMetadata → String → String → ℕ → DownloadSession
fresh_session m path client now = record {
  file_id = m.id;
  file_path = path;
  total_size = m.size;
  downloaded_size = pos 0;
  client_id = client;
  created_at = now;
  updated_at = now;
  chunk_count = pos 0;
  decrypted = none;
  decrypted_path = none;
}

unfoldable pub without_copy : Option String → List (String × List ℕ) → List (String × List ℕ)
without_copy none files = files
without_copy (some path) files = erase path files

-- The read of DownloadChunk, of the decrypted copy or of the storage; the size is positive
unfoldable pub read_from : Option (List ℕ) → String → ℤ → ℤ → Storage → Answer (List ℕ) × Storage
unfolding read_at
read_from (some plain) path size offset st =
    (good (take (pos_part size) (drop (pos_part offset) plain)), st)
read_from none path size offset st = read_at path size offset st

module _ {S : SessionStore DownloadRecord} where
  -- Storing a session in memory and in the session store, whose error is only logged
  unfoldable pub keep_session : String → ℕ → DownloadSession → Downloads S → Downloads S
  keep_session id now d s = record s {
    sessions = insert id d s.sessions;
    store = (S.set s.store "download" id (to_download_record d) session_ttl now).1;
  }

  -- The decrypted copy, once the encrypted file has been streamed to a temp file
  unfoldable pub decrypt_copy :
      CreateIo
      → String
      → ℕ
      → DownloadSession
      → Option (List ℕ)
      → Downloads S
      → Outcome String × Downloads S
  unfolding keep_session
  decrypt_copy io id now d none s = (failed decrypt_failed, s)
  decrypt_copy io id now d (some plain) s =
      if not io.reopen_ok then (failed reopen_failed, s) else (
        done id,
        keep_session id now
            (record d {
              decrypted = some plain;
              decrypted_path = some (id ++ ".dec");
              total_size = if io.stat_ok then pos (length plain) else d.total_size;
            })
            (record s { temp_files = insert (id ++ ".dec") plain s.temp_files }),
      )

  unfoldable pub decrypted_session :
      CreateIo
      → (List ℕ → Option (List ℕ))
      → String
      → ℕ
      → DownloadSession
      → Answer (List ℕ) × Storage
      → Downloads S
      → Outcome String × Downloads S
  unfolding decrypt_copy
  decrypted_session io decrypt id now d (bad e, storage) s =
      (failed read_failed, record s { storage = storage })
  decrypted_session io decrypt id now d (good bytes, storage) s =
      decrypt_copy io id now d (decrypt bytes) (record s { storage = storage })

  unfoldable pub start_download :
      CreateIo
      → String
      → String
      → String
      → ℕ
      → Result (Option FileMetadata) × Db
      → Downloads S
      → Outcome String × Downloads S
  unfolding keep_session decrypted_session read
  start_download io path client id now (err e, db) s =
      (failed metadata_failed, record s { db = db })
  start_download io path client id now (ok none, db) s =
      (failed file_not_found, record s { db = db })
  start_download io path client id now (ok (some m), db) s0 =
      let s : Downloads S = record s0 { db = db } in
      let d = fresh_session m path client now in
      elim io.decrypt [
        | none ↦ (done id, keep_session id now d s)
        | some decrypt ↦
            if not io.create_ok
            then (failed temp_failed, s)
            else decrypted_session io decrypt id now d (read path s.storage) s
      ]

  -- CreateDownloadSession; the encrypted temp file is removed on every path and leaves no trace
  unfoldable pub create_download_session :
      CreateIo → String → String → String → ℕ → Downloads S → Outcome String × Downloads S
  unfolding normalize_path get_by_path start_download
  create_download_session io path client id now s =
      start_download io (normalize_path path) client id now (get_by_path (normalize_path path) s.db)
        s

  -- The session in memory, or one that is restored from the session store
  unfoldable pub load_download : String → ℕ → Downloads S → Option DownloadSession × Downloads S
  load_download id now s = elim (lookup id s.sessions) [
    | some d ↦ (some d, s)
    | none ↦
        let (found, store) = S.get s.store "download" id now in
        elim found [
          | none ↦ (none, record s { store = store })
          | some r ↦ (
            some (of_download_record r),
            record s { store = store; sessions = insert id (of_download_record r) s.sessions },
          )
        ]
  ]

  -- The counters, and the record in the session store with every eighth chunk
  unfoldable pub note_chunk : String → ℕ → DownloadSession → List ℕ → Downloads S → Downloads S
  unfolding keep_session
  note_chunk id now d bytes s =
      let counted : DownloadSession = record d {
        downloaded_size = add64 d.downloaded_size (pos (length bytes));
        chunk_count = add64 d.chunk_count (pos 1);
      } in
      if to_bits counted.chunk_count % 8 == 0
      then keep_session id now (record counted { updated_at = now }) s
      else record s { sessions = insert id counted s.sessions }

  unfoldable pub chunk_read :
      String
      → ℕ
      → DownloadSession
      → Answer (List ℕ) × Storage
      → Downloads S
      → Outcome (List ℕ) × Downloads S
  unfolding note_chunk
  chunk_read id now d (bad e, storage) s = (failed read_failed, record s { storage = storage })
  chunk_read id now d (good bytes, storage) s =
      (done bytes, note_chunk id now d bytes (record s { storage = storage }))

  unfoldable pub found_download :
      String → ℤ → ℤ → ℕ → Option DownloadSession × Downloads S → Outcome (List ℕ) × Downloads S
  unfolding chunk_read read_from
  found_download id size offset now (none, s) = (failed session_not_found, s)
  found_download id size offset now (some d, s) =
      if ltbℤ offset (pos 0)
      then (failed invalid_offset, s)
      else if lebℤ d.total_size offset
      then (failed offset_beyond_size, s)
      else chunk_read id now d (read_from d.decrypted d.file_path size offset s.storage) s

  -- DownloadChunk
  unfoldable pub download_chunk : String → ℤ → ℤ → ℕ → Downloads S → Outcome (List ℕ) × Downloads S
  unfolding found_download load_download
  download_chunk id size offset now s = found_download id size offset now (load_download id now s)

  -- Closing the decrypted copy, and dropping the session and its record
  unfoldable pub end_session : String → DownloadSession → Downloads S → Downloads S
  unfolding without_copy
  end_session id d s = record s {
    sessions = erase id s.sessions;
    temp_files = without_copy d.decrypted_path s.temp_files;
    store = (S.delete s.store "download" id).1;
  }

  -- CompleteDownload and AbortDownload
  unfoldable pub end_download : String → Downloads S → Outcome (Unit {0}) × Downloads S
  unfolding end_session
  end_download id s = elim (lookup id s.sessions) [
    | none ↦ (failed session_not_found, s)
    | some d ↦ (done tt, end_session id d s)
  ]
