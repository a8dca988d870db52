-- ===== src/Transfer/Download/Chunk.antt =====
-- What DownloadChunk of internal/service/transfer/service.go returns, and that an ended download
-- returns nothing.
use fssvrgo.Prelude.{
  Bool-cases, inl, inr, length, suc, if◌then◌else◌, ℕ, ◌+◌, ◌<◌, true, false, String, Option, none,
  some, List, [], take, drop, lookup, erase, lookup-erase_here, ◌≡◌, refl, ap, ◌∙◌, arith, eq_refl,
  leb, ltb,
}
use fssvrgo.Prelude.Int.{negsuc, ℤ, pos, lebℤ}
use fssvrgo.Storage.{Storage, Answer, good, bad}
use fssvrgo.Storage.Chunks.{read_at_good}
use fssvrgo.Distributed.Session.Interface.{SessionStore}
use fssvrgo.Transfer.Download.{
  Outcome, DownloadSession, DownloadRecord, Downloads, done, failed, session_not_found,
  load_download, read_from, chunk_read, invalid_offset, offset_beyond_size, found_download,
  download_chunk, end_download, without_copy,
}

-- What a session downloads: the decrypted copy, or the object
abbrev pub content : Option (List ℕ) → Option (List ℕ) → Option (List ℕ)
content (some plain) object = some plain
content none object = object

-- What a chunk of a text of bytes is: nothing outside of it, and else the bytes from the offset, of the
-- given size or up to the end
abbrev pub slice : List ℕ → ℕ → ℤ → Outcome (List ℕ)
slice bytes size (negsuc n) = failed invalid_offset
slice bytes size (pos o) =
    if leb (length bytes) o then failed offset_beyond_size else done (take size (drop o bytes))

read_from_content :
    (plain : Option (List ℕ)) (path : String) (bytes : List ℕ) (size o : ℕ) (st : Storage)
    → content plain (lookup path st.files) ≡ some bytes
    → st.inside path ≡ true
    → st.faults ≡ []
    → 0 < size
    → (read_from plain path (pos size) (pos o) st).0 ≡ good (take size (drop o bytes))
unfolding read_from
read_from_content none path bytes size o st h inside clear positive =
    read_at_good path size o bytes st inside clear h positive
read_from_content (some plain) path bytes size o st h inside clear positive =
    let same : plain ≡ bytes = grind arith in ap (λ x. good (take size (drop o x))) same

module _ {S : SessionStore DownloadRecord} where
  chunk_read_good :
      (id : String) (now : ℕ) (d : DownloadSession) (bytes : List ℕ) (w : Answer (List ℕ) × Storage)
      (s : Downloads S)
      → w.0 ≡ good bytes
      → (chunk_read id now d w s).0 ≡ done bytes
  unfolding chunk_read
  chunk_read_good id now d bytes (bad e, st) s h = absurd (grind arith)
  chunk_read_good id now d bytes (good b, st) s h =
      let same : b ≡ bytes = grind arith in ap (λ x. done x) same

  load_download_here :
      (id : String) (now : ℕ) (d : DownloadSession) (s : Downloads S)
      → lookup id s.sessions ≡ some d
      → load_download id now s ≡ (some d, s)
  unfolding load_download
  load_download_here id now d s here = rw (here, load_download) refl

  load_download_gone :
      (id : String) (now : ℕ) (s : Downloads S)
      → lookup id s.sessions ≡ none
      → (S.get s.store "download" id now).0 ≡ none
      → load_download id now s ≡ (none, record s { store = (S.get s.store "download" id now).1 })
  unfolding load_download
  load_download_gone id now s gone forgotten = rw (gone, load_download, forgotten) refl

  end_download_here :
      (id : String) (d : DownloadSession) (s : Downloads S)
      → lookup id s.sessions ≡ some d
      → (end_download id s).1 ≡ record s {
        sessions = erase id s.sessions;
        temp_files = without_copy d.decrypted_path s.temp_files;
        store = (S.delete s.store "download" id).1;
      }
  unfolding end_download
  end_download_here id d s here = rw (here, end_download) refl

  -- A chunk of a session in memory that downloads the bytes
  pub chunk_here :
      (id : String) (d : DownloadSession) (bytes : List ℕ) (size now : ℕ) (offset : ℤ)
      (s : Downloads S)
      → lookup id s.sessions ≡ some d
      → content d.decrypted (lookup d.file_path s.storage.files) ≡ some bytes
      → d.total_size ≡ pos (length bytes)
      → 0 < size
      → s.storage.inside d.file_path ≡ true
      → s.storage.faults ≡ []
      → (download_chunk id (pos size) offset now s).0 ≡ slice bytes size offset
  unfolding download_chunk load_download found_download
  chunk_here id d bytes size now (negsuc n) s here has sized positive inside clear =
      let started : ltb 0 (0 + suc n) ≡ true = ground arith in
      ap (λ w. (found_download id (pos size) (negsuc n) now w).0)
        (load_download_here id now d s here)
      ∙ rw started refl
  chunk_here id d bytes size now (pos o) s here has sized positive inside clear =
      let started : ltb (o + 0) 0 ≡ false = ground arith in
      let limit : lebℤ d.total_size (pos o) ≡ leb (length bytes) o =
        ap (λ t. lebℤ t (pos o)) sized ∙ ground arith in
      ap (λ w. (found_download id (pos size) (pos o) now w).0) (load_download_here id now d s here)
      ∙ elim (Bool-cases (leb (length bytes) o)) [
        | inl past ↦ rw (started, limit, past) refl
        | inr within ↦
            rw (started, limit, within)
              (chunk_read_good id now d (take size (drop o bytes))
                (read_from d.decrypted d.file_path (pos size) (pos o) s.storage) s
                (read_from_content d.decrypted d.file_path bytes size o s.storage has inside clear
                  positive))
      ]

  -- After CompleteDownload or AbortDownload of a session in memory, if the session store's Delete, whose
  -- error the code ignores, has succeeded, a DownloadChunk of the session is refused.
  pub end_download-refused :
      (id : String) (d : DownloadSession) (size offset : ℤ) (now : ℕ) (s : Downloads S)
      → lookup id s.sessions ≡ some d
      → (S.delete s.store "download" id).0 ≡ true
      → (download_chunk id size offset now (end_download id s).1).0 ≡ failed session_not_found
  unfolding download_chunk load_download found_download end_download
  end_download-refused id d size offset now s here deleted =
      let gone : (S.get (S.delete s.store "download" id).1 "download" id now).0 ≡ none =
        S.get-view (S.delete s.store "download" id).1 "download" id now
        ∙ S.view-delete s.store "download" id id now deleted
        ∙ rw (eq_refl id) refl in
      let ended : Downloads S = record s {
        sessions = erase id s.sessions;
        temp_files = without_copy d.decrypted_path s.temp_files;
        store = (S.delete s.store "download" id).1;
      } in
      ap (λ x. (download_chunk id size offset now x).0) (end_download_here id d s here)
      ∙ ap (λ w. (found_download id size offset now w).0)
          (load_download_gone id now ended (lookup-erase_here id s.sessions) gone)
