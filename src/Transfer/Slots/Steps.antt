-- ===== src/Transfer/Slots/Steps.antt =====
-- Creating, writing and aborting sessions of internal/service/transfer keep the slots accounted.
use fssvrgo.Prelude.{
  length, Bool, ℕ, ◌<◌, ◌≡◌, inl, inr, refl, not, ◌&&◌, ◌||◌, String, some, none, Option, List,
  lookup, arith, Bool-cases, Option-cases, ltb, if_rule, ltb→lt, ◌%◌, ◌==◌,
}
use fssvrgo.Prelude.Int.{add64, ℤ, pos, negsuc, pos_part, ltbℤ}
use fssvrgo.Distributed.Session.Interface.{SessionStore}
use fssvrgo.Transfer.Types.{
  Service, StoredSession, UploadSession, MultipartUploadSession, Outcome, ok, err,
}
use fssvrgo.Transfer.Exec.{write_temp, temp_path}
use fssvrgo.Transfer.Upload.{
  CreateIo, ChunkIo, create_upload_session, upload_chunk, accept_chunk, write_chunk, note_progress,
  after_write, place_chunk, count_chunk, hash_chunk, put_upload, load_upload, abort_upload,
}
use fssvrgo.Transfer.Multipart.{
  create_multipart_upload, upload_part_data, accept_part, write_part, is_active, note_part,
  abort_multipart_upload,
}
use fssvrgo.Transfer.Slots.{
  IsAccounted, IsAccounted-same, sessions, acquire_full, acquire_room, count_ahead, put_upload_new,
  put_upload_old, put_multipart_new, put_multipart_old, drop_upload-IsAccounted,
  drop_multipart-IsAccounted,
}

module _ {S : SessionStore StoredSession} {A : Type 0} where
  -- An operation ends in an accounted state.
  abbrev Fine : A × Service S → Type 0
  Fine w = IsAccounted w.1

module _ {S : SessionStore StoredSession} where
  -- A new upload session takes a slot if there is one, on every path out of CreateUploadSession.
  pub create_upload_session-IsAccounted :
      (normalize : String → String) (io : CreateIo) (path name : String) (total : ℤ)
      (client hash id : String) (now : ℕ) (s : Service S)
      → lookup id s.uploads ≡ none
      → IsAccounted s
      → IsAccounted (create_upload_session normalize io path name total client hash id now s).1
  unfolding create_upload_session
  create_upload_session-IsAccounted normalize io path name total client hash id now s fresh h =
      elim (Bool-cases (ltb (sessions s) s.max_sessions)) [
        | inr full ↦ rw (acquire_full s h (ground arith), create_upload_session) h
        | inl room ↦
            let space : sessions s < s.max_sessions = ltb→lt _ _ room in
            rw (acquire_room s h space, create_upload_session)
              (if_rule Fine (not io.create_ok)
                (λ _. IsAccounted-same s _ refl refl (count_ahead s h) refl h)
                (λ _.
                  if_rule Fine (ltbℤ (pos 0) total && not io.truncate_ok)
                    (λ _. IsAccounted-same s _ refl refl (count_ahead s h) refl h)
                    (λ _.
                      IsAccounted-same _ _ refl refl refl refl
                        (put_upload_new id _ s fresh h space))))
      ]

  -- So does a new multipart session.
  pub create_multipart_upload-IsAccounted :
      (normalize : String → String) (io : CreateIo) (path name : String) (total : ℤ)
      (client hash id : String) (now : ℕ) (s : Service S)
      → lookup id s.multiparts ≡ none
      → IsAccounted s
      → IsAccounted (create_multipart_upload normalize io path name total client hash id now s).1
  unfolding create_multipart_upload
  create_multipart_upload-IsAccounted normalize io path name total client hash id now s fresh h =
      elim (Bool-cases (ltb (sessions s) s.max_sessions)) [
        | inr full ↦ rw (acquire_full s h (ground arith), create_multipart_upload) h
        | inl room ↦
            let space : sessions s < s.max_sessions = ltb→lt _ _ room in
            rw (acquire_room s h space, create_multipart_upload)
              (if_rule Fine (not io.create_ok)
                (λ _. IsAccounted-same s _ refl refl (count_ahead s h) refl h)
                (λ _.
                  if_rule Fine (ltbℤ total (pos 0) || not io.truncate_ok)
                    (λ _. IsAccounted-same s _ refl refl (count_ahead s h) refl h)
                    (λ _.
                      IsAccounted-same _ _ refl refl refl refl
                        (put_multipart_new id _ s fresh h space))))
      ]

  pub abort_upload-IsAccounted :
      (id : String) (s : Service S) → IsAccounted s → IsAccounted (abort_upload id s).1
  unfolding abort_upload
  abort_upload-IsAccounted id s h = elim (Option-cases (lookup id s.uploads)) [
    | inl e ↦ rw (e, abort_upload) h
    | inr (u, e) ↦
        rw (e, abort_upload)
          (IsAccounted-same _ _ refl refl refl refl (drop_upload-IsAccounted id u s e h))
  ]

  pub abort_multipart_upload-IsAccounted :
      (id : String) (s : Service S) → IsAccounted s → IsAccounted (abort_multipart_upload id s).1
  unfolding abort_multipart_upload
  abort_multipart_upload-IsAccounted id s h = elim (Option-cases (lookup id s.multiparts)) [
    | inl e ↦ rw (e, abort_multipart_upload) h
    | inr (u, e) ↦
        rw (e, abort_multipart_upload)
          (IsAccounted-same _ _ refl refl refl refl (drop_multipart-IsAccounted id u s e h))
  ]

  -- A write to a temp file leaves the sessions alone.
  write_temp_frame :
      (path : String) (o : ℕ) (chunk : List ℕ) (fault : Option ℕ) (s : Service S)
      → let t = (write_temp path o chunk fault s).1 in
        (t.uploads ≡ s.uploads)
        × (t.multiparts ≡ s.multiparts)
        × (t.session_count ≡ s.session_count)
        × (t.max_sessions ≡ s.max_sessions)
  unfolding write_temp
  write_temp_frame path o chunk fault s = ground arith

  write_temp-IsAccounted :
      (path : String) (o : ℕ) (chunk : List ℕ) (fault : Option ℕ) (s : Service S)
      → IsAccounted s
      → IsAccounted (write_temp path o chunk fault s).1
  write_temp-IsAccounted path o chunk fault s h =
      let (u, m, c, x) = write_temp_frame path o chunk fault s in IsAccounted-same s _ u m c x h

  write_part-IsAccounted :
      (sha256 : List ℕ → String) (fault : Option ℕ) (id : String) (m : MultipartUploadSession)
      (number offset : ℤ) (chunk : List ℕ) (now : ℕ) (s : Service S)
      → lookup id s.multiparts ≡ some m
      → IsAccounted s
      → IsAccounted (write_part sha256 fault id m number offset chunk now s).1
  unfolding write_part
  write_part-IsAccounted sha256 fault id m number (negsuc n) chunk now s e h = h
  write_part-IsAccounted sha256 fault id m number (pos o) chunk now s e h =
      let (u, k, c, x) = write_temp_frame (temp_path id) o chunk fault s in
      let written = write_temp-IsAccounted (temp_path id) o chunk fault s h in
      if_rule Fine (ltbℤ m.total_size (add64 (pos o) (pos (length chunk)))) (λ _. h)
        (λ _.
          if_rule Fine (write_temp (temp_path id) o chunk fault s).0
            (λ _. put_multipart_old id (note_part sha256 number o chunk now m) m _ (rw k e) written)
            (λ _. written))

  pub upload_part_data-IsAccounted :
      (sha256 : List ℕ → String) (fault : Option ℕ) (id : String) (number offset : ℤ)
      (chunk : List ℕ) (now : ℕ) (s : Service S)
      → IsAccounted s
      → IsAccounted (upload_part_data sha256 fault id number offset chunk now s).1
  unfolding upload_part_data accept_part
  upload_part_data-IsAccounted sha256 fault id number offset chunk now s h =
      elim (Option-cases (lookup id s.multiparts)) [
        | inl e ↦ rw (e, upload_part_data) h
        | inr (m, e) ↦
            rw (e, upload_part_data)
              (if_rule Fine m.closed (λ _. h)
                (λ _.
                  if_rule Fine (not (is_active m.status)) (λ _. h)
                    (λ _.
                      if_rule Fine (ltbℤ (pos 10000) number) (λ _. h)
                        (λ _.
                          write_part-IsAccounted sha256 fault id m number offset chunk now s e h))))
      ]

  note_progress-IsAccounted :
      (id : String) (u v : UploadSession) (now : ℕ) (s : Service S)
      → lookup id s.uploads ≡ some v
      → IsAccounted s
      → IsAccounted (note_progress id u now s)
  unfolding note_progress
  note_progress-IsAccounted id u v now s e h = elim (Bool-cases (pos_part u.chunk_count % 8 == 0)) [
    | inl t ↦
        rw (t, note_progress)
          (IsAccounted-same (put_upload id (record u { updated_at = now }) s) _ refl refl refl refl
            (put_upload_old id (record u { updated_at = now }) v s e h))
    | inr f ↦ rw (f, note_progress) (put_upload_old id u v s e h)
  ]

  write_chunk_frame :
      (io : ChunkIo) (id : String) (u : UploadSession) (chunk : List ℕ) (o : ℕ) (s : Service S)
      → let t = (write_chunk io id u chunk o s).1 in
        (t.uploads ≡ s.uploads)
        × (t.multiparts ≡ s.multiparts)
        × (t.session_count ≡ s.session_count)
        × (t.max_sessions ≡ s.max_sessions)
  unfolding write_chunk
  write_chunk_frame io id u chunk o s = ground arith

  after_write-IsAccounted :
      (id : String) (u v : UploadSession) (now : ℕ) (w : Outcome (Unit {0}) × Service S)
      → lookup id w.1.uploads ≡ some v
      → IsAccounted w.1
      → IsAccounted (after_write id u now w).1
  unfolding after_write
  after_write-IsAccounted id u v now (err x, s) e h = h
  after_write-IsAccounted id u v now (ok _, s) e h = note_progress-IsAccounted id u v now s e h

  place_chunk-IsAccounted :
      (io : ChunkIo) (id : String) (u : UploadSession) (chunk : List ℕ) (o now : ℕ) (s : Service S)
      → lookup id s.uploads ≡ some u
      → IsAccounted s
      → IsAccounted (place_chunk io id u chunk o now s).1
  unfolding place_chunk
  place_chunk-IsAccounted io id u chunk o now s e h =
      let w = write_chunk io id u chunk o s in
      let (p, k, c, x) = write_chunk_frame io id u chunk o s in
      if_rule Fine (ltbℤ u.total_size (add64 (pos o) (pos (length chunk)))) (λ _. h)
        (λ _.
          after_write-IsAccounted id (count_chunk (hash_chunk u chunk o) chunk) u now w (rw p e)
            (IsAccounted-same s w.1 p k c x h))

  accept_chunk-IsAccounted :
      (io : ChunkIo) (id : String) (u : UploadSession) (chunk : List ℕ) (offset : ℤ) (now : ℕ)
      (s : Service S)
      → lookup id s.uploads ≡ some u
      → IsAccounted s
      → IsAccounted (accept_chunk io id u chunk offset now s).1
  unfolding accept_chunk
  accept_chunk-IsAccounted io id u chunk (negsuc n) now s e h =
      if_rule Fine (not io.lock_ok) (λ _. h) (λ _. if_rule Fine u.closed (λ _. h) (λ _. h))
  accept_chunk-IsAccounted io id u chunk (pos o) now s e h =
      if_rule Fine (not io.lock_ok) (λ _. h)
        (λ _.
          if_rule Fine u.closed (λ _. h) (λ _. place_chunk-IsAccounted io id u chunk o now s e h))

  pub load_upload_here :
      (reopen_ok : Bool) (id : String) (u : UploadSession) (now : ℕ) (s : Service S)
      → lookup id s.uploads ≡ some u
      → load_upload reopen_ok id now s ≡ (some u, s)
  unfolding load_upload
  load_upload_here reopen_ok id u now s e = rw (e, load_upload)

  -- Writing to a session that is in memory.
  pub upload_chunk-IsAccounted :
      (io : ChunkIo) (id : String) (u : UploadSession) (chunk : List ℕ) (offset : ℤ) (now : ℕ)
      (s : Service S)
      → lookup id s.uploads ≡ some u
      → IsAccounted s
      → IsAccounted (upload_chunk io id chunk offset now s).1
  unfolding upload_chunk
  upload_chunk-IsAccounted io id u chunk offset now s e h =
      rw (load_upload_here io.reopen_ok id u now s e, upload_chunk)
        (accept_chunk-IsAccounted io id u chunk offset now s e h)
