-- ===== src/Transfer/Slots.antt =====
-- The session slots of internal/service/transfer: the counter agrees with the sessions that are
-- kept, and never passes the maximum.
pub mod Steps
pub mod Completion
pub mod History
use fssvrgo.Prelude.{
  ℕ, ◌+◌, ◌≤◌, ◌<◌, ◌^◌, ◌≡◌, refl, true, false, String, some, none, lookup, insert, erase, size,
  IsUnique, size-erase, size-insert_new, size-insert_old, insert-IsUnique, erase-IsUnique, ap,
  arith,
}
use fssvrgo.Prelude.Int.{ℤ, pos, negsuc, add64, add64_small, add64_pred, ltbℤ}
use fssvrgo.Distributed.Session.Interface.{SessionStore}
use fssvrgo.Transfer.Types.{Service, StoredSession, UploadSession, MultipartUploadSession}
use fssvrgo.Transfer.Exec.{acquire_session_slot, release_session_slot}
use fssvrgo.Transfer.Upload.{put_upload, drop_upload}
use fssvrgo.Transfer.Multipart.{put_multipart, drop_multipart}

module _ {S : SessionStore StoredSession} where
  abbrev pub sessions : Service S → ℕ
  sessions s = size s.uploads + size s.multiparts

  pub record IsAccounted (s : Service S) : Type 0 where
    pub limit : s.max_sessions < 2 ^ 62
    pub within : sessions s ≤ s.max_sessions
    pub counted : s.session_count ≡ pos (sessions s)
    pub unique_uploads : IsUnique s.uploads
    pub unique_multiparts : IsUnique s.multiparts

  -- Without room the counter goes up and down again; with room it is one ahead of the sessions.
  pub acquire_full :
      (s : Service S)
      → IsAccounted s
      → s.max_sessions ≤ sessions s
      → acquire_session_slot s ≡ (false, s)
  unfolding acquire_session_slot
  acquire_full s h full =
      let up : add64 s.session_count (pos 1) ≡ pos (sessions s + 1) =
        rw h.counted (add64_small (sessions s) 1 (omega arith)) in
      let down : add64 (pos (sessions s + 1)) (negsuc 0) ≡ s.session_count =
        rw h.counted (add64_pred (sessions s) (omega arith)) in
      rw (up, acquire_session_slot) (ground (arith, down))

  pub acquire_room :
      (s : Service S)
      → IsAccounted s
      → sessions s < s.max_sessions
      → acquire_session_slot s ≡ (true, record s { session_count = pos (sessions s + 1) })
  unfolding acquire_session_slot
  acquire_room s h room =
      let up : add64 s.session_count (pos 1) ≡ pos (sessions s + 1) =
        rw h.counted (add64_small (sessions s) 1 (omega arith)) in
      rw (up, acquire_session_slot) (ground arith)

  pub count_ahead :
      (s : Service S) → IsAccounted s → add64 (pos (sessions s + 1)) (negsuc 0) ≡ s.session_count
  count_ahead s h = rw h.counted (add64_pred (sessions s) (omega arith))

  pub release_ahead :
      (s : Service S)
      → IsAccounted s
      → release_session_slot (record s { session_count = pos (sessions s + 1) }) ≡ s
  unfolding release_session_slot
  release_ahead s h =
      let down : add64 (pos (sessions s + 1)) (negsuc 0) ≡ s.session_count =
        rw h.counted (add64_pred (sessions s) (omega arith)) in
      ap (λ c. record s { session_count = c }) down

  pub put_upload_new :
      (id : String) (u : UploadSession) (s : Service S)
      → lookup id s.uploads ≡ none
      → IsAccounted s
      → sessions s < s.max_sessions
      → IsAccounted (put_upload id u (record s { session_count = pos (sessions s + 1) }))
  unfolding put_upload
  put_upload_new id u s fresh h room =
      let e = size-insert_new id u s.uploads fresh in
      record {
        limit = h.limit;
        within = omega arith;
        counted = ap pos (omega arith);
        unique_uploads = insert-IsUnique id u s.uploads h.unique_uploads;
        unique_multiparts = h.unique_multiparts;
      }

  pub put_multipart_new :
      (id : String) (m : MultipartUploadSession) (s : Service S)
      → lookup id s.multiparts ≡ none
      → IsAccounted s
      → sessions s < s.max_sessions
      → IsAccounted (put_multipart id m (record s { session_count = pos (sessions s + 1) }))
  unfolding put_multipart
  put_multipart_new id m s fresh h room =
      let e = size-insert_new id m s.multiparts fresh in
      record {
        limit = h.limit;
        within = omega arith;
        counted = ap pos (omega arith);
        unique_uploads = h.unique_uploads;
        unique_multiparts = insert-IsUnique id m s.multiparts h.unique_multiparts;
      }

  pub put_upload_old :
      (id : String) (u v : UploadSession) (s : Service S)
      → lookup id s.uploads ≡ some v
      → IsAccounted s
      → IsAccounted (put_upload id u s)
  unfolding put_upload
  put_upload_old id u v s here h =
      let e = size-insert_old id u v s.uploads here in
      record {
        limit = h.limit;
        within = omega arith;
        counted = rw h.counted (ap pos (omega arith));
        unique_uploads = insert-IsUnique id u s.uploads h.unique_uploads;
        unique_multiparts = h.unique_multiparts;
      }

  pub put_multipart_old :
      (id : String) (m v : MultipartUploadSession) (s : Service S)
      → lookup id s.multiparts ≡ some v
      → IsAccounted s
      → IsAccounted (put_multipart id m s)
  unfolding put_multipart
  put_multipart_old id m v s here h =
      let e = size-insert_old id m v s.multiparts here in
      record {
        limit = h.limit;
        within = omega arith;
        counted = rw h.counted (ap pos (omega arith));
        unique_uploads = h.unique_uploads;
        unique_multiparts = insert-IsUnique id m s.multiparts h.unique_multiparts;
      }

  pub drop_upload-IsAccounted :
      (id : String) (u : UploadSession) (s : Service S)
      → lookup id s.uploads ≡ some u
      → IsAccounted s
      → IsAccounted (drop_upload id s)
  unfolding drop_upload
  drop_upload-IsAccounted id u s here h =
      let e = size-erase id u s.uploads h.unique_uploads here in
      let n = size (erase id s.uploads) + size s.multiparts in
      let before : sessions s ≡ n + 1 = omega arith in
      record {
        limit = h.limit;
        within = omega arith;
        counted = rw (h.counted, before) (add64_pred n (omega arith));
        unique_uploads = erase-IsUnique id s.uploads h.unique_uploads;
        unique_multiparts = h.unique_multiparts;
      }

  pub drop_multipart-IsAccounted :
      (id : String) (m : MultipartUploadSession) (s : Service S)
      → lookup id s.multiparts ≡ some m
      → IsAccounted s
      → IsAccounted (drop_multipart id s)
  unfolding drop_multipart
  drop_multipart-IsAccounted id m s here h =
      let e = size-erase id m s.multiparts h.unique_multiparts here in
      let n = size s.uploads + size (erase id s.multiparts) in
      let before : sessions s ≡ n + 1 = omega arith in
      record {
        limit = h.limit;
        within = omega arith;
        counted = rw (h.counted, before) (add64_pred n (omega arith));
        unique_uploads = h.unique_uploads;
        unique_multiparts = erase-IsUnique id s.multiparts h.unique_multiparts;
      }

  -- Only the sessions, the counter and the maximum matter.
  pub IsAccounted-same :
      (s t : Service S)
      → t.uploads ≡ s.uploads
      → t.multiparts ≡ s.multiparts
      → t.session_count ≡ s.session_count
      → t.max_sessions ≡ s.max_sessions
      → IsAccounted s
      → IsAccounted t
  IsAccounted-same s t u m c x h = record {
    limit = rw x h.limit;
    within = rw (u, m, x) h.within;
    counted = rw (u, m, c) h.counted;
    unique_uploads = rw u h.unique_uploads;
    unique_multiparts = rw m h.unique_multiparts;
  }
