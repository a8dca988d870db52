-- ===== src/Transfer/Slots/Completion.antt =====
-- Completing a session of internal/service/transfer gives its slot back exactly once, on every path.
pub mod Stages
pub mod Multiparts
use fssvrgo.Prelude.{
  ℕ, ◌≡◌, refl, Bool, true, false, not, String, some, none, lookup, if_rule, Bool-cases, inl, inr,
  ◌⊎◌, if◌then◌else◌, lookup-insert_here, lookup-erase_here, List, [], ◌∷◌,
}
use fssvrgo.Prelude.Int.{eqbℤ}
use fssvrgo.Distributed.Session.Interface.{SessionStore}
use fssvrgo.Transfer.Types.{Service, StoredSession, UploadSession, MultipartUploadSession}
use fssvrgo.Transfer.Exec.{temp_path}
use fssvrgo.Transfer.Exec.Leads.{Leads, Ends, Leads-bind, Leads-answer, Ends-both}
use fssvrgo.Transfer.Complete.{
  CompleteIo, verify_hash, encrypt_temp, store_temp, save_metadata, remove_all, fail,
}
use fssvrgo.Transfer.Upload.{drop_upload, put_upload}
use fssvrgo.Transfer.Upload.Complete.{
  close_temp, finish_upload, store_upload, complete_upload, found_complete, complete_result,
}
use fssvrgo.Transfer.Exec.{remove_temp, delete_record, ◌>>=◌}
use fssvrgo.Transfer.Slots.Steps.{load_upload_here}
use fssvrgo.Transfer.Slots.{IsAccounted, IsAccounted-same, put_upload_old, drop_upload-IsAccounted}
use fssvrgo.Transfer.Slots.Completion.Stages.{
  Same, Same-refl, failed, verify_hash-Leads, encrypt_temp-Leads, store_temp-Leads,
  save_metadata-Leads,
}

module _ {S : SessionStore StoredSession} where
  -- The slots are accounted for and the session is kept, or is gone.
  record HasUpload (id : String) (s : Service S) : Type 0 where
    session : UploadSession
    here : lookup id s.uploads ≡ some session
    accounted : IsAccounted s

  record LacksUpload (id : String) (s : Service S) : Type 0 where
    gone : lookup id s.uploads ≡ none
    accounted : IsAccounted s

  upload_stable : (id : String) (s t : Service S) → Same s t → HasUpload id s → HasUpload id t
  upload_stable id s t e h = record {
    session = h.session;
    here = rw e.uploads h.here;
    accounted = IsAccounted-same s t e.uploads e.multiparts e.count e.maximum h.accounted;
  }

  upload_dropped :
      (id : String) (s : Service S) → HasUpload id s → LacksUpload id (drop_upload id s)
  unfolding drop_upload
  upload_dropped id s h = record {
    gone = lookup-erase_here id s.uploads;
    accounted = drop_upload-IsAccounted id h.session s h.here h.accounted;
  }

  -- The session is written back first, so the later stages find it there.
  close_temp-Leads :
      (io : CompleteIo) (id : String) (u : UploadSession)
      → Leads (HasUpload id) (HasUpload id) (LacksUpload id) (close_temp io id u)
  unfolding close_temp put_upload fail remove_all
  close_temp-Leads io id u = record {
    at = λ s h.
        let v : UploadSession = record u { closed = true; temp_file = false } in
        let kept : HasUpload id (put_upload id v s) = record {
          session = v;
          here = lookup-insert_here id v s.uploads;
          accounted = put_upload_old id v h.session s h.here h.accounted;
        } in
        let gone =
          failed (drop_upload id) (HasUpload id) (LacksUpload id) (upload_stable id)
            (upload_dropped id) in
        if_rule (Ends (HasUpload id) (LacksUpload id)) (not u.temp_file) (λ _. kept)
          (λ _.
            if_rule (Ends (HasUpload id) (LacksUpload id)) (not io.sync_ok)
              (λ _. gone (temp_path id ∷ []) _ _ (Same-refl _) kept)
              (λ _.
                if_rule (Ends (HasUpload id) (LacksUpload id)) (not io.close_ok)
                  (λ _. gone [] _ _ (Same-refl _) kept) (λ _. kept)));
  }

  finish_upload-Leads :
      (id temp : String)
      → Leads (HasUpload id) (LacksUpload id) (LacksUpload id) (finish_upload id temp)
  unfolding finish_upload remove_temp delete_record drop_upload
  finish_upload-Leads id temp = record {
    at = λ s h. record {
      gone = lookup-erase_here id s.uploads;
      accounted =
          IsAccounted-same (drop_upload id s) _ refl refl refl refl
            (drop_upload-IsAccounted id h.session s h.here h.accounted);
    };
  }

module _ {S : SessionStore StoredSession} (sha256 : List ℕ → String) where
  store_upload-Leads :
      (io : CompleteIo) (id : String) (now : ℕ) (u : UploadSession)
      → Leads {St = Service S}
          (HasUpload id)
          (LacksUpload id)
          (LacksUpload id)
          (store_upload sha256 io id now u)
  unfolding store_upload
  store_upload-Leads io id now u =
      let drop : Service S → Service S = drop_upload id in
      let P = HasUpload id in
      let E = LacksUpload id in
      let st = upload_stable id in
      let dr = upload_dropped id in
      Leads-bind _ _ (close_temp-Leads io id u) (λ _.
        Leads-bind _ _
          (verify_hash-Leads drop P E st dr sha256 io id u.hash u.hash_writer u.hash_valid)
          (λ verified.
            Leads-bind _ _ (encrypt_temp-Leads drop P E st dr sha256 io id u.hash) (λ sealed.
              Leads-bind _ _ (store_temp-Leads drop P E st dr io u.file_path sealed.0) (λ _.
                Leads-bind _ _
                  (save_metadata-Leads drop P E st dr io u.file_path u.file_name u.total_size
                    sealed.1 now [])
                  (λ file_id.
                    Leads-bind _ _ (finish_upload-Leads id sealed.0)
                      (λ _. Leads-answer (complete_result u verified file_id)))))))

  -- Completing a session that is in memory gives its slot back exactly once, whether it succeeds or
  -- fails: the session is gone and the counter is right. If bytes are missing the session stays.
  pub complete_upload-IsAccounted :
      (io : CompleteIo) (id : String) (u : UploadSession) (now : ℕ) (s : Service S)
      → lookup id s.uploads ≡ some u
      → IsAccounted s
      → let t = (complete_upload sha256 io id now s).1 in
        IsAccounted t
        × (lookup id t.uploads ≡ (if eqbℤ u.uploaded_size u.total_size then none else some u))
  unfolding complete_upload found_complete
  complete_upload-IsAccounted io id u now s e h =
      rw (load_upload_here io.reopen_ok id u now s e, complete_upload)
        (elim (Bool-cases (eqbℤ u.uploaded_size u.total_size)) [
          | inl full ↦
              let l = Ends-both (LacksUpload id) _ (
                (store_upload-Leads io id now u).at s
                  (record { session = u; here = e; accounted = h })) in
              rw full (l.accounted, l.gone)
          | inr part ↦ rw part (h, e)
        ])
