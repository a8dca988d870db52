-- ===== src/Transfer/Slots/History.antt =====
-- Histories of the transfer service: clients create, write, complete and abort sessions in any
-- order, and expired sessions are cleaned up (internal/service/transfer/service.go and multipart.go). Each request comes with what the
-- environment answers to it and its time.
use fssvrgo.Prelude.{
  ℕ, ◌≤◌, ◌≡◌, String, none, Option, Option-cases, inl, inr, List, [], ◌∷◌, lookup, is_some, true,
}
use fssvrgo.Prelude.Int.{ℤ, pos}
use fssvrgo.Distributed.Session.Interface.{SessionStore}
use fssvrgo.Transfer.Types.{Service, StoredSession}
use fssvrgo.Transfer.Upload.{CreateIo, ChunkIo, create_upload_session, upload_chunk, abort_upload}
use fssvrgo.Transfer.Upload.Complete.{complete_upload}
use fssvrgo.Transfer.Multipart.{create_multipart_upload, upload_part_data, abort_multipart_upload}
use fssvrgo.Transfer.Multipart.Complete.{complete_multipart_upload}
use fssvrgo.Transfer.Complete.{CompleteIo}
use fssvrgo.Transfer.Cleanup.{cleanup_expired_sessions}
use fssvrgo.Transfer.Cleanup.Expired.{cleanup_expired_sessions-left}
use fssvrgo.Transfer.Slots.{IsAccounted, sessions}
use fssvrgo.Transfer.Slots.Steps.{
  create_upload_session-IsAccounted, create_multipart_upload-IsAccounted, upload_chunk-IsAccounted,
  upload_part_data-IsAccounted, abort_upload-IsAccounted, abort_multipart_upload-IsAccounted,
}
use fssvrgo.Transfer.Slots.Completion.{complete_upload-IsAccounted}
use fssvrgo.Transfer.Slots.Completion.Multiparts.{
  complete_multipart_upload-IsAccounted, complete_multipart_upload_unknown,
}

-- A call of the service, with the random id that it draws.
pub data Request : Type 0 where
  creates creates_multipart :
      CreateIo → (path name : String) → (total : ℤ) → (client hash id : String) → Request
  sends : ChunkIo → (id : String) → (chunk : List ℕ) → (offset : ℤ) → Request
  sends_part : Option ℕ → (id : String) → (number offset : ℤ) → (chunk : List ℕ) → Request
  completes completes_multipart : CompleteIo → (id : String) → Request
  aborts aborts_multipart : (id : String) → Request
  cleans : (max_age : ℕ) → Request

module _ {S : SessionStore StoredSession} (normalize : String → String)
    (sha256 : List ℕ → String) where
  unfoldable pub serve : Service S → ℕ → Request → Service S
  serve s now (creates io path name total client hash id) =
      (create_upload_session normalize io path name total client hash id now s).1
  serve s now (creates_multipart io path name total client hash id) =
      (create_multipart_upload normalize io path name total client hash id now s).1
  serve s now (sends io id chunk offset) = (upload_chunk io id chunk offset now s).1
  serve s now (sends_part fault id number offset chunk) =
      (upload_part_data sha256 fault id number offset chunk now s).1
  serve s now (completes io id) = (complete_upload sha256 io id now s).1
  serve s now (completes_multipart io id) = (complete_multipart_upload sha256 io id now s).1
  serve s now (aborts id) = (abort_upload id s).1
  serve s now (aborts_multipart id) = (abort_multipart_upload id s).1
  serve s now (cleans max_age) = cleanup_expired_sessions now max_age s

  pub serve_all : Service S → List (ℕ × Request) → Service S
  serve_all s [] = s
  serve_all s ((now, r) ∷ rest) = serve_all (serve s now r) rest

  -- A new session draws an unused id; a chunk or a completion is for a session that is in memory.
  abbrev pub IsKnown : Service S → Request → Type 0
  IsKnown s (creates io path name total client hash id) = lookup id s.uploads ≡ none
  IsKnown s (creates_multipart io path name total client hash id) = lookup id s.multiparts ≡ none
  IsKnown s (sends io id chunk offset) = is_some (lookup id s.uploads) ≡ true
  IsKnown s (completes io id) = is_some (lookup id s.uploads) ≡ true
  IsKnown s _ = Unit

  abbrev pub AllKnown : Service S → List (ℕ × Request) → Type 0
  AllKnown s [] = Unit
  AllKnown s ((now, r) ∷ rest) = IsKnown s r × AllKnown (serve s now r) rest

  serve-IsAccounted :
      (s : Service S) (now : ℕ) (r : Request)
      → IsKnown s r
      → IsAccounted s
      → IsAccounted (serve s now r)
  unfolding serve
  serve-IsAccounted s now (creates io path name total client hash id) k h =
      create_upload_session-IsAccounted normalize io path name total client hash id now s k h
  serve-IsAccounted s now (creates_multipart io path name total client hash id) k h =
      create_multipart_upload-IsAccounted normalize io path name total client hash id now s k h
  serve-IsAccounted s now (sends io id chunk offset) k h =
      elim (Option-cases (lookup id s.uploads)) [
        | inl e ↦ absurd (cc (e, k))
        | inr (u, e) ↦ upload_chunk-IsAccounted io id u chunk offset now s e h
      ]
  serve-IsAccounted s now (sends_part fault id number offset chunk) k h =
      upload_part_data-IsAccounted sha256 fault id number offset chunk now s h
  serve-IsAccounted s now (completes io id) k h = elim (Option-cases (lookup id s.uploads)) [
    | inl e ↦ absurd (cc (e, k))
    | inr (u, e) ↦ (complete_upload-IsAccounted sha256 io id u now s e h).0
  ]
  serve-IsAccounted s now (completes_multipart io id) k h =
      elim (Option-cases (lookup id s.multiparts)) [
        | inl e ↦ rw (complete_multipart_upload_unknown sha256 io id now s e, serve) h
        | inr (u, e) ↦ (complete_multipart_upload-IsAccounted sha256 io id u now s e h).0
      ]
  serve-IsAccounted s now (aborts id) k h = abort_upload-IsAccounted id s h
  serve-IsAccounted s now (aborts_multipart id) k h = abort_multipart_upload-IsAccounted id s h
  serve-IsAccounted s now (cleans max_age) k h = (cleanup_expired_sessions-left now max_age s h).0

  serve_all-IsAccounted :
      (s : Service S) (requests : List (ℕ × Request))
      → AllKnown s requests
      → IsAccounted s
      → IsAccounted (serve_all s requests)
  unfolding serve_all
  serve_all-IsAccounted s [] k h = h
  serve_all-IsAccounted s ((now, r) ∷ rest) k h =
      serve_all-IsAccounted (serve s now r) rest k.1 (serve-IsAccounted s now r k.0 h)

  -- After any history of requests, failed ones included, in which chunks and completions are for
  -- sessions in memory and new sessions draw unused ids, the session counter is the number of
  -- sessions that are kept, and that number is at most the maximum.
  pub sessions_bounded :
      (s : Service S) (requests : List (ℕ × Request))
      → IsAccounted s
      → AllKnown s requests
      → let t = serve_all s requests in
        (t.session_count ≡ pos (sessions t)) × (sessions t ≤ t.max_sessions)
  sessions_bounded s requests h k =
      let a = serve_all-IsAccounted s requests k h in (a.counted, a.within)
