-- ===== src/Transfer/Cleanup.antt =====
-- CleanupExpiredSessions of internal/service/transfer/service.go: its loops over the uploads, the
-- downloads and the multipart uploads. The age is at least 0.
pub mod Expired
use fssvrgo.Prelude.{ℕ, ◌-◌, String, List, [], ◌∷◌, ltb, if◌then◌else◌}
use fssvrgo.Distributed.Session.Interface.{SessionStore}
use fssvrgo.Transfer.Types.{Service, StoredSession, UploadSession, MultipartUploadSession}
use fssvrgo.Transfer.Download.{DownloadSession, DownloadRecord, Downloads, end_session}
use fssvrgo.Transfer.Exec.{temp_path, remove_temp, delete_record}
use fssvrgo.Transfer.Upload.{drop_upload}
use fssvrgo.Transfer.Multipart.{drop_multipart}

module _ {W V : Type 0} where
  -- A loop over the sessions of one kind; `created` and `expire` are the kind's
  unfoldable pub sweep :
      (created : V → ℕ) → (expire : String → V → W → W) → ℕ → List (String × V) → W → W
  sweep created expire expiry [] s = s
  sweep created expire expiry (e ∷ rest) s =
      sweep created expire expiry rest (if ltb (created e.1) expiry then expire e.0 e.1 s else s)

module _ {S : SessionStore StoredSession} where
  -- What the loop over the uploads does for an expired session
  unfoldable pub expire_upload : String → UploadSession → Service S → Service S
  unfolding drop_upload remove_temp delete_record
  expire_upload id u s = delete_record "upload" id (drop_upload id (remove_temp (temp_path id) s))

  -- And the loop over the multipart uploads
  unfoldable pub expire_multipart : String → MultipartUploadSession → Service S → Service S
  unfolding drop_multipart remove_temp delete_record
  expire_multipart id m s =
      delete_record "multipart_upload" id (drop_multipart id (remove_temp (temp_path id) s))

  unfoldable pub expire_uploads : ℕ → Service S → Service S
  unfolding expire_upload sweep
  expire_uploads expiry s =
      sweep (λ (u : UploadSession). u.created_at) expire_upload expiry s.uploads s

  unfoldable pub expire_multiparts : ℕ → Service S → Service S
  unfolding expire_multipart sweep
  expire_multiparts expiry s =
      sweep (λ (m : MultipartUploadSession). m.created_at) expire_multipart expiry s.multiparts s

  -- CleanupExpiredSessions
  unfoldable pub cleanup_expired_sessions : ℕ → ℕ → Service S → Service S
  unfolding expire_uploads expire_multiparts
  cleanup_expired_sessions now max_age s =
      expire_multiparts (now - max_age) (expire_uploads (now - max_age) s)

module _ {S : SessionStore DownloadRecord} where
  -- The loop over the downloads, whose state stands by itself
  unfoldable pub expire_downloads : ℕ → ℕ → Downloads S → Downloads S
  unfolding sweep end_session
  expire_downloads now max_age s =
      sweep (λ (d : DownloadSession). d.created_at) end_session (now - max_age) s.sessions s
