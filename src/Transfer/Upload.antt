-- ===== src/Transfer/Upload.antt =====
-- CreateUploadSession, UploadChunk, AbortUpload and GetUploadProgress of
-- internal/service/transfer/service.go. One process is modelled, so LoadOrStore finds no rival. The
-- random session id and the clock are arguments; `normalize` stands for utils.NormalizePath.
pub mod Complete
pub mod Stored
use fssvrgo.Prelude.{
  ℕ, ◌%◌, Bool, true, false, ◌&&◌, not, String, Option, none, some, List, [], ◌++◌, length,
  replicate, lookup, insert, erase, is_some, str_eq, if◌then◌else◌, ◌==◌,
}
use fssvrgo.Prelude.Int.{ℤ, pos, negsuc, ltbℤ, eqbℤ, add64, pos_part}
use fssvrgo.Distributed.Session.Interface.{SessionStore}
use fssvrgo.Transfer.Types.{
  Service, StoredSession, upload_record, multipart_record, UploadSession, Outcome, ok, err, active,
  too_many_sessions, create_failed, truncate_failed, session_not_found, lock_failed, session_closed,
  invalid_offset, write_beyond_size, write_failed, open_failed,
}
use fssvrgo.Transfer.Exec.{
  temp_path, acquire_session_slot, release_session_slot, remove_temp, put_temp, write_temp,
  save_record, delete_record,
}

-- What json.Marshal keeps of a session.
unfoldable pub to_record : UploadSession → StoredSession
to_record u =
    upload_record u.file_id u.file_path u.file_name u.total_size u.uploaded_size u.hash u.client_id
      u.status u.created_at u.updated_at

-- The session that UploadChunk and CompleteUpload restore from a record, with the temp file open or
-- not: the fields that are not exported are zero, and there is no hash writer.
unfoldable pub of_record : Bool → StoredSession → Option UploadSession
of_record opened (multipart_record _ _ _ _ _ _ _) = none
of_record opened (upload_record fid path name total uploaded hash client st created updated) =
    some (record {
      file_id = fid;
      file_path = path;
      file_name = name;
      total_size = total;
      uploaded_size = uploaded;
      hash = hash;
      client_id = client;
      status = st;
      created_at = created;
      updated_at = updated;
      chunk_count = pos 0;
      temp_file = opened;
      hash_writer = none;
      last_offset = pos 0;
      hash_valid = false;
      closed = false;
    })

-- What the environment answers to the calls of CreateUploadSession and of UploadChunk.
pub record CreateIo : Type 0 where
  pub create_ok : Bool
  pub truncate_ok : Bool

pub record ChunkIo : Type 0 where
  pub reopen_ok : Bool
  pub lock_ok : Bool
  pub open_ok : Bool
  pub write_fault : Option ℕ

new_upload : String → String → ℤ → String → String → ℕ → UploadSession
new_upload path name total client hash now = record {
  file_id = "";
  file_path = path;
  file_name = name;
  total_size = total;
  uploaded_size = pos 0;
  hash = hash;
  client_id = client;
  status = active;
  created_at = now;
  updated_at = now;
  chunk_count = pos 0;
  temp_file = true;
  hash_writer = if str_eq hash "" then none else some [];
  last_offset = pos 0;
  hash_valid = not (str_eq hash "");
  closed = false;
}

-- The incremental hash: a chunk that follows the last one is hashed, any other ends it.
unfoldable pub hash_chunk : UploadSession → List ℕ → ℕ → UploadSession
hash_chunk u chunk o = elim u.hash_writer [
  | none ↦ u
  | some bytes ↦
      if not u.hash_valid
      then u
      else if eqbℤ (pos o) u.last_offset
      then record u {
        hash_writer = some (bytes ++ chunk);
        last_offset = add64 (pos o) (pos (length chunk));
      }
      else record u { hash_valid = false }
]

unfoldable pub count_chunk : UploadSession → List ℕ → UploadSession
count_chunk u chunk = record u {
  uploaded_size = add64 u.uploaded_size (pos (length chunk));
  chunk_count = add64 u.chunk_count (pos 1);
}

module _ {S : SessionStore StoredSession} where
  unfoldable pub put_upload : String → UploadSession → Service S → Service S
  put_upload id u s = record s { uploads = insert id u s.uploads }

  -- s.uploadSessions.Delete and s.releaseSessionSlot, as they stand together everywhere
  unfoldable pub drop_upload : String → Service S → Service S
  unfolding release_session_slot
  drop_upload id s = release_session_slot (record s { uploads = erase id s.uploads })

  -- CreateUploadSession
  unfoldable pub create_upload_session :
      (normalize : String → String)
      → CreateIo
      → (path name : String) → ℤ
      → (client hash id : String) → ℕ
      → Service S
      → Outcome String × Service S
  unfolding acquire_session_slot release_session_slot remove_temp put_temp save_record put_upload
      to_record new_upload
  create_upload_session normalize io path name total client hash id now s0 =
      let (got, s1) = acquire_session_slot s0 in
      if not got
      then (err too_many_sessions, s1)
      else if not io.create_ok
      then (err create_failed, release_session_slot s1)
      else if ltbℤ (pos 0) total && not io.truncate_ok
      then (err truncate_failed, release_session_slot (remove_temp (temp_path id) s1))
      else (let u = new_upload (normalize path) name total client hash now in
          (
            ok id,
            save_record "upload" id (to_record u) now
                (put_upload id u (put_temp (temp_path id) (replicate (pos_part total) 0) s1)),
          ))

  -- The first part of UploadChunk and of CompleteUpload: the session in memory, or one restored from
  -- the session store and kept.
  unfoldable pub load_upload : Bool → String → ℕ → Service S → Option UploadSession × Service S
  unfolding of_record put_upload
  load_upload reopen_ok id now s = elim (lookup id s.uploads) [
    | some u ↦ (some u, s)
    | none ↦
        let (found, store') = S.get s.store "upload" id now in
        let s' : Service S = record s { store = store' } in
        elim found [
          | none ↦ (none, s')
          | some v ↦
              elim (of_record (reopen_ok && is_some (lookup (temp_path id) s.temp_files)) v) [
                | none ↦ (none, s')
                | some u ↦ (some u, put_upload id u s')
              ]
        ]
  ]

  -- The part of UploadChunk that writes the data: by the open file, or by one that it opens.
  unfoldable pub write_chunk :
      ChunkIo → String → UploadSession → List ℕ → ℕ → Service S → Outcome (Unit {0}) × Service S
  unfolding write_temp
  write_chunk io id u chunk o s =
      if not u.temp_file && not (io.open_ok && is_some (lookup (temp_path id) s.temp_files))
      then (err open_failed, s)
      else (let (written, s') = write_temp (temp_path id) o chunk io.write_fault s in
          if written then (ok tt, s') else (err write_failed, s'))

  -- Every eighth chunk the record in the session store is renewed.
  unfoldable pub note_progress : String → UploadSession → ℕ → Service S → Service S
  unfolding put_upload save_record to_record
  note_progress id u now s =
      if pos_part u.chunk_count % 8 == 0
      then (let u' : UploadSession = record u { updated_at = now } in
          save_record "upload" id (to_record u') now (put_upload id u' s))
      else put_upload id u s

  -- What UploadChunk does once the write has returned
  unfoldable pub after_write :
      String → UploadSession → ℕ → Outcome (Unit {0}) × Service S → Outcome (Unit {0}) × Service S
  unfolding note_progress
  after_write id u now (err e, s) = (err e, s)
  after_write id u now (ok _, s) = (ok tt, note_progress id u now s)

  -- UploadChunk after the session is found, the lock held and the offset not negative
  unfoldable pub place_chunk :
      ChunkIo → String → UploadSession → List ℕ → ℕ → ℕ → Service S → Outcome (Unit {0}) × Service S
  unfolding write_chunk after_write count_chunk
  place_chunk io id u chunk o now s =
      if ltbℤ u.total_size (add64 (pos o) (pos (length chunk)))
      then (err write_beyond_size, s)
      else after_write id (count_chunk (hash_chunk u chunk o) chunk) now
          (write_chunk io id u chunk o s)

  -- UploadChunk after the session is found
  unfoldable pub accept_chunk :
      ChunkIo → String → UploadSession → List ℕ → ℤ → ℕ → Service S → Outcome (Unit {0}) × Service S
  accept_chunk io id u chunk offset now s =
      if not io.lock_ok
      then (err lock_failed, s)
      else if u.closed
      then (err session_closed, s)
      else elim offset [
        | negsuc n ↦ (err invalid_offset, s)
        | pos o ↦ place_chunk io id u chunk o now s
      ]

  unfoldable pub found_chunk :
      ChunkIo
      → String
      → List ℕ
      → ℤ
      → ℕ
      → Option UploadSession × Service S
      → Outcome (Unit {0}) × Service S
  found_chunk io id chunk offset now (none, s) = (err session_not_found, s)
  found_chunk io id chunk offset now (some u, s) = accept_chunk io id u chunk offset now s

  -- UploadChunk
  unfoldable pub upload_chunk :
      ChunkIo → String → List ℕ → ℤ → ℕ → Service S → Outcome (Unit {0}) × Service S
  unfolding found_chunk
  upload_chunk io id chunk offset now s =
      found_chunk io id chunk offset now (load_upload io.reopen_ok id now s)

  -- AbortUpload
  unfoldable pub abort_upload : String → Service S → Outcome (Unit {0}) × Service S
  unfolding drop_upload remove_temp delete_record
  abort_upload id s = elim (lookup id s.uploads) [
    | none ↦ (err session_not_found, s)
    | some u ↦ (ok tt, delete_record "upload" id (remove_temp (temp_path id) (drop_upload id s)))
  ]

  -- GetUploadSession: a session that is found in the session store is returned, but not kept.
  unfoldable pub get_upload_session : String → ℕ → Service S → Option UploadSession × Service S
  unfolding of_record
  get_upload_session id now s = elim (lookup id s.uploads) [
    | some u ↦ (some u, s)
    | none ↦
        let (found, store') = S.get s.store "upload" id now in
        (elim found [ none ↦ none | some v ↦ of_record false v ], record s { store = store' })
  ]

  -- GetUploadProgress
  get_upload_progress : String → Service S → ℤ
  get_upload_progress id s = elim (lookup id s.uploads) [ none ↦ pos 0 | some u ↦ u.uploaded_size ]
