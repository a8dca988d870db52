-- ===== src/Transfer/Slots/Completion/Multiparts.antt =====
-- Completing a multipart session of internal/service/transfer gives its slot back exactly once.
use fssvrgo.Prelude.{
  ℕ, ◌≡◌, refl, true, false, not, ◌&&◌, String, some, none, lookup, if_rule, Bool-cases, inl, inr,
  if◌then◌else◌, lookup-insert_here, lookup-erase_here, List, [], ◌∷◌,
}
use fssvrgo.Prelude.Int.{eqbℤ}
use fssvrgo.Distributed.Session.Interface.{SessionStore}
use fssvrgo.Transfer.Types.{Service, StoredSession, MultipartUploadSession}
use fssvrgo.Transfer.Exec.{temp_path}
use fssvrgo.Transfer.Exec.Leads.{Leads, Ends, Leads-bind, Ends-both}
use fssvrgo.Transfer.Complete.{CompleteIo, remove_all, fail}
use fssvrgo.Transfer.Multipart.{drop_multipart, put_multipart}
use fssvrgo.Transfer.Multipart.Complete.{
  close_part_file, finish_multipart, store_multipart, complete_multipart_upload, all_completed,
}
use fssvrgo.Transfer.Exec.{remove_temp, delete_record}
use fssvrgo.Transfer.Coverage.{is_fully_covered}
use fssvrgo.Transfer.Slots.{
  IsAccounted, IsAccounted-same, put_multipart_old, drop_multipart-IsAccounted,
}
use fssvrgo.Transfer.Slots.Completion.Stages.{
  Same, Same-refl, failed, verify_hash-Leads, encrypt_temp-Leads, store_temp-Leads,
  save_metadata-Leads,
}

module _ {S : SessionStore StoredSession} where
  -- The slots are accounted for and the session is kept, or is gone.
  record HasMultipart (id : String) (s : Service S) : Type 0 where
    session : MultipartUploadSession
    here : lookup id s.multiparts ≡ some session
    accounted : IsAccounted s

  record LacksMultipart (id : String) (s : Service S) : Type 0 where
    gone : lookup id s.multiparts ≡ none
    accounted : IsAccounted s

  multipart_stable :
      (id : String) (s t : Service S) → Same s t → HasMultipart id s → HasMultipart id t
  multipart_stable id s t e h = record {
    session = h.session;
    here = rw e.multiparts h.here;
    accounted = IsAccounted-same s t e.uploads e.multiparts e.count e.maximum h.accounted;
  }

  multipart_dropped :
      (id : String) (s : Service S) → HasMultipart id s → LacksMultipart id (drop_multipart id s)
  unfolding drop_multipart
  multipart_dropped id s h = record {
    gone = lookup-erase_here id s.multiparts;
    accounted = drop_multipart-IsAccounted id h.session s h.here h.accounted;
  }

  -- The session is written back first, so the later stages find it there.
  close_part_file-Leads :
      (io : CompleteIo) (id : String) (u : MultipartUploadSession)
      → Leads (HasMultipart id) (HasMultipart id) (LacksMultipart id) (close_part_file io id u)
  unfolding close_part_file put_multipart fail remove_all
  close_part_file-Leads io id u = record {
    at = λ s h.
        let v : MultipartUploadSession = record u { closed = true } in
        let kept : HasMultipart id (put_multipart id v s) = record {
          session = v;
          here = lookup-insert_here id v s.multiparts;
          accounted = put_multipart_old id v h.session s h.here h.accounted;
        } in
        let gone =
          failed (drop_multipart id) (HasMultipart id) (LacksMultipart id) (multipart_stable id)
            (multipart_dropped id) in
        if_rule (Ends (HasMultipart id) (LacksMultipart id)) (not io.sync_ok)
          (λ _. gone (temp_path id ∷ []) _ _ (Same-refl _) kept)
          (λ _.
            if_rule (Ends (HasMultipart id) (LacksMultipart id)) (not io.close_ok)
              (λ _. gone (temp_path id ∷ []) _ _ (Same-refl _) kept) (λ _. kept));
  }

  finish_multipart-Leads :
      (id temp : String)
      → Leads (HasMultipart id) (LacksMultipart id) (LacksMultipart id) (finish_multipart id temp)
  unfolding finish_multipart remove_temp delete_record drop_multipart
  finish_multipart-Leads id temp = record {
    at = λ s h. record {
      gone = lookup-erase_here id s.multiparts;
      accounted =
          IsAccounted-same (drop_multipart id s) _ refl refl refl refl
            (drop_multipart-IsAccounted id h.session s h.here h.accounted);
    };
  }

module _ {S : SessionStore StoredSession} (sha256 : List ℕ → String) where
  store_multipart-Leads :
      (io : CompleteIo) (id : String) (now : ℕ) (u : MultipartUploadSession)
      → Leads {St = Service S}
          (HasMultipart id)
          (LacksMultipart id)
          (LacksMultipart id)
          (store_multipart sha256 io id now u)
  unfolding store_multipart
  store_multipart-Leads io id now u =
      let drop : Service S → Service S = drop_multipart id in
      let P = HasMultipart id in
      let E = LacksMultipart id in
      let st = multipart_stable id in
      let dr = multipart_dropped id in
      Leads-bind _ _ (close_part_file-Leads io id u) (λ _.
        Leads-bind _ _ (verify_hash-Leads drop P E st dr sha256 io id u.hash none false) (λ _.
          Leads-bind _ _ (encrypt_temp-Leads drop P E st dr sha256 io id u.hash) (λ sealed.
            Leads-bind _ _ (store_temp-Leads drop P E st dr io u.file_path sealed.0) (λ _.
              Leads-bind _ _
                (save_metadata-Leads drop P E st dr io u.file_path u.file_name u.total_size sealed.1
                  now (sealed.0 ∷ []))
                (λ _. finish_multipart-Leads id sealed.0)))))

  pub complete_multipart_upload_unknown :
      (io : CompleteIo) (id : String) (now : ℕ) (s : Service S)
      → lookup id s.multiparts ≡ none
      → (complete_multipart_upload sha256 io id now s).1 ≡ s
  unfolding complete_multipart_upload
  complete_multipart_upload_unknown io id now s e = rw (e, complete_multipart_upload) refl

  pub complete_multipart_upload-IsAccounted :
      (io : CompleteIo) (id : String) (u : MultipartUploadSession) (now : ℕ) (s : Service S)
      → lookup id s.multiparts ≡ some u
      → IsAccounted s
      → let t = (complete_multipart_upload sha256 io id now s).1 in
        let whole =
          eqbℤ u.uploaded_size u.total_size
          && is_fully_covered u.covered_ranges u.total_size
          && all_completed u.parts in
        IsAccounted t × (lookup id t.multiparts ≡ (if whole then none else some u))
  unfolding complete_multipart_upload
  complete_multipart_upload-IsAccounted io id u now s e h =
      let gone = Ends-both (LacksMultipart id) _ (
        (store_multipart-Leads io id now u).at s
          (record { session = u; here = e; accounted = h })) in
      rw (e, complete_multipart_upload)
        (elim (Bool-cases (eqbℤ u.uploaded_size u.total_size)) [
          | inr size ↦ rw size (h, e)
          | inl size ↦ elim (Bool-cases (is_fully_covered u.covered_ranges u.total_size)) [
            | inr covered ↦ rw (size, covered) (h, e)
            | inl covered ↦ elim (Bool-cases (all_completed u.parts)) [
              | inr parts ↦ rw (size, covered, parts) (h, e)
              | inl parts ↦ rw (size, covered, parts) (gone.accounted, gone.gone)
            ]
          ]
        ])
