-- ===== src/Transfer/Multipart.antt =====
-- suggestedPartSize, CreateMultipartUpload, UploadPartData, AbortMultipartUpload and
-- GetMultipartUploadProgress of internal/service/transfer/multipart.go. The random session id and
-- the clock are arguments; `normalize` stands for utils.NormalizePath, `sha256` for the hexadecimal
-- SHA-256 of some bytes.
pub mod Complete
pub mod Written
use fssvrgo.Prelude.{
  ℕ, suc, ◌+◌, ◌*◌, ◌%◌, Bool, true, false, ◌&&◌, ◌||◌, not, String, Option, none, some, List, [],
  ◌∷◌, length, replicate, lookup, insert, erase, if◌then◌else◌, ◌==◌,
}
use fssvrgo.Prelude.Int.{ℤ, pos, negsuc, ltbℤ, lebℤ, eqbℤ, add64, pos_part}
use fssvrgo.Distributed.Session.Interface.{SessionStore}
use fssvrgo.Transfer.Types.{
  Service, StoredSession, multipart_record, MultipartUploadSession, UploadPart, Outcome, ok, err,
  Status, active, completed, aborted, expired, too_many_sessions, create_failed, truncate_failed,
  session_not_found, session_closed, session_inactive, part_number_too_large, invalid_offset,
  write_beyond_size, write_failed,
}
use fssvrgo.Transfer.Coverage.{add_covered_range}
use fssvrgo.Transfer.Exec.{
  temp_path, acquire_session_slot, release_session_slot, remove_temp, put_temp, write_temp,
  save_record, delete_record,
}
use fssvrgo.Transfer.Upload.{CreateIo}

abbrev pub mib : ℕ
mib = 1_048_576

-- suggestedPartSize
unfoldable pub suggested_part_size : ℤ → ℤ
suggested_part_size total =
    if lebℤ total (pos (100 * mib))
    then pos (8 * mib)
    else if lebℤ total (pos (1024 * mib))
    then pos (16 * mib)
    else if lebℤ total (pos (10240 * mib))
    then pos (64 * mib)
    else pos (128 * mib)

-- session.parts, a map from int
module _ {V : Type 0} where
  unfoldable pub lookup_part : ℤ → List (ℤ × V) → Option V
  lookup_part k [] = none
  lookup_part k ((j, v) ∷ m) = if eqbℤ j k then some v else lookup_part k m

  unfoldable pub insert_part : ℤ → V → List (ℤ × V) → List (ℤ × V)
  insert_part k v [] = (k, v) ∷ []
  insert_part k v ((j, w) ∷ m) =
      let rest = insert_part k v m in if eqbℤ j k then (k, v) ∷ m else (j, w) ∷ rest

unfoldable pub is_active : Status → Bool
is_active active = true
is_active _ = false

unfoldable pub is_completed : Status → Bool
is_completed completed = true
is_completed _ = false

-- The part after some bytes of it were written, new or written before.
unfoldable pub record_part : ℤ → ℤ → ℤ → String → Option UploadPart → UploadPart
record_part number offset len hash none = record {
  part_number = number;
  offset = offset;
  size = len;
  uploaded_size = len;
  hash = hash;
  status = completed;
}
record_part number offset len hash (some part) =
    let uploaded = add64 part.uploaded_size len in
    record part {
      uploaded_size = uploaded;
      hash = hash;
      status = if lebℤ part.size uploaded then completed else part.status;
    }

-- The bookkeeping of UploadPartData after the write, with every eighth chunk's time stamp.
unfoldable pub note_part :
    (sha256 : List ℕ → String)
    → ℤ
    → ℕ
    → List ℕ
    → ℕ
    → MultipartUploadSession
    → MultipartUploadSession
unfolding record_part
note_part sha256 number o chunk now m =
    let len = pos (length chunk) in
    let count = add64 m.chunk_count (pos 1) in
    record m {
      parts =
          insert_part number
            (record_part number (pos o) len (sha256 chunk) (lookup_part number m.parts)) m.parts;
      covered_ranges = add_covered_range m.covered_ranges (pos o) (add64 (pos o) len);
      uploaded_size = add64 m.uploaded_size len;
      chunk_count = count;
      updated_at = if pos_part count % 8 == 0 then now else m.updated_at;
    }

module _ {S : SessionStore StoredSession} where
  unfoldable pub put_multipart : String → MultipartUploadSession → Service S → Service S
  put_multipart id m s = record s { multiparts = insert id m s.multiparts }

  -- s.multipartSessions.Delete and s.releaseSessionSlot
  unfoldable pub drop_multipart : String → Service S → Service S
  unfolding release_session_slot
  drop_multipart id s = release_session_slot (record s { multiparts = erase id s.multiparts })

  -- CreateMultipartUpload; Truncate refuses a negative size
  unfoldable pub create_multipart_upload :
      (normalize : String → String)
      → CreateIo
      → (path name : String) → ℤ
      → (client hash id : String) → ℕ
      → Service S
      → Outcome (String × ℤ) × Service S
  unfolding acquire_session_slot release_session_slot remove_temp put_temp save_record put_multipart
  create_multipart_upload normalize io path name total client hash id now s0 =
      let (got, s1) = acquire_session_slot s0 in
      if not got
      then (err too_many_sessions, s1)
      else if not io.create_ok
      then (err create_failed, release_session_slot s1)
      else if ltbℤ total (pos 0) || not io.truncate_ok
      then (err truncate_failed, release_session_slot (remove_temp (temp_path id) s1))
      else (let m : MultipartUploadSession = record {
        file_path = normalize path;
        file_name = name;
        total_size = total;
        hash = hash;
        client_id = client;
        status = active;
        created_at = now;
        updated_at = now;
        temp_file = true;
        parts = [];
        uploaded_size = pos 0;
        chunk_count = pos 0;
        closed = false;
        covered_ranges = [];
      } in
          (
            ok (id, suggested_part_size total),
            save_record "multipart_upload" id
                (multipart_record (normalize path) name total hash client active now) now
                (put_multipart id m (put_temp (temp_path id) (replicate (pos_part total) 0) s1)),
          ))

  module _ (sha256 : List ℕ → String) where
    -- The end of UploadPartData: the bounds, the write, and what it is noted by. A fault is how many
    -- bytes were written before the error.
    unfoldable pub write_part :
        Option ℕ
        → String
        → MultipartUploadSession
        → ℤ
        → ℤ
        → List ℕ
        → ℕ
        → Service S
        → Outcome (Unit {0}) × Service S
    unfolding write_temp note_part put_multipart
    write_part fault id m number (negsuc n) chunk now s = (err invalid_offset, s)
    write_part fault id m number (pos o) chunk now s =
        if ltbℤ m.total_size (add64 (pos o) (pos (length chunk)))
        then (err write_beyond_size, s)
        else (let (written, s') = write_temp (temp_path id) o chunk fault s in
            if written
            then (ok tt, put_multipart id (note_part sha256 number o chunk now m) s')
            else (err write_failed, s'))

    -- UploadPartData after the session is found
    unfoldable pub accept_part :
        Option ℕ
        → String
        → MultipartUploadSession
        → ℤ
        → ℤ
        → List ℕ
        → ℕ
        → Service S
        → Outcome (Unit {0}) × Service S
    unfolding write_part is_active
    accept_part fault id m number offset chunk now s =
        if m.closed
        then (err session_closed, s)
        else if not (is_active m.status)
        then (err session_inactive, s)
        else if ltbℤ (pos 10000) number
        then (err part_number_too_large, s)
        else write_part fault id m number offset chunk now s

    -- UploadPartData
    unfoldable pub upload_part_data :
        Option ℕ → String → ℤ → ℤ → List ℕ → ℕ → Service S → Outcome (Unit {0}) × Service S
    upload_part_data fault id number offset chunk now s = elim (lookup id s.multiparts) [
      | none ↦ (err session_not_found, s)
      | some m ↦ accept_part fault id m number offset chunk now s
    ]

  -- AbortMultipartUpload
  unfoldable pub abort_multipart_upload : String → Service S → Outcome (Unit {0}) × Service S
  unfolding drop_multipart remove_temp delete_record
  abort_multipart_upload id s = elim (lookup id s.multiparts) [
    | none ↦ (err session_not_found, s)
    | some m ↦ (
      ok tt,
      delete_record "multipart_upload" id (remove_temp (temp_path id) (drop_multipart id s)),
    )
  ]

completed_parts : List (ℤ × UploadPart) → ℕ
completed_parts [] = 0
completed_parts ((k, part) ∷ rest) =
    let n = completed_parts rest in if is_completed part.status then suc n else n

module _ {S : SessionStore StoredSession} where
  -- GetMultipartUploadProgress
  get_multipart_upload_progress : String → Service S → ℤ × ℤ × ℕ
  unfolding completed_parts is_completed
  get_multipart_upload_progress id s = elim (lookup id s.multiparts) [
    | none ↦ (pos 0, pos 0, 0)
    | some m ↦ (m.uploaded_size, m.total_size, completed_parts m.parts)
  ]
