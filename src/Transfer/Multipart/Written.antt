-- ===== src/Transfer/Multipart/Written.antt =====
-- The bytes of a multipart session of internal/service/transfer/multipart.go: what the temp file
-- holds after the parts that UploadPartData has accepted.
use fssvrgo.Prelude.{
  ℕ, ◌+◌, ◌-◌, ◌≤◌, ◌<◌, ◌≡◌, inl, inr, refl, subst, true, false, not, String, Option, some, none,
  is_some, List, [], ◌∷◌, lookup, lookup-insert_here, get_elem?, get_elem?_here, length, arith,
  if◌then◌else◌, Bool-cases, if_rule, All, sym,
}
use fssvrgo.Prelude.Int.{pos_part, ℤ, pos, negsuc, add64, add64_small, int64_half, ltbℤ}
use fssvrgo.Distributed.Session.Interface.{SessionStore}
use fssvrgo.Transfer.Types.{TransferError, Service, StoredSession, MultipartUploadSession, ok, err}
use fssvrgo.Transfer.File.{write_at, is_inside, get_elem?-write_at, length-write_at}
use fssvrgo.Transfer.Exec.{temp_path, write_temp, put_temp}
use fssvrgo.Transfer.Coverage.{is_fully_covered, add_covered_range}
use fssvrgo.Transfer.Coverage.Covers.{Covers, IsCoverage, add_covered_range_records}
use fssvrgo.Transfer.Coverage.Complete.{is_fully_covered_iff}
use fssvrgo.Transfer.Multipart.{
  Outcome, upload_part_data, accept_part, write_part, note_part, put_multipart, is_active,
}

-- The accepted chunks with their offsets, the newest first.
abbrev pub Chunks : Type 0
Chunks = List (ℕ × List ℕ)

-- The byte that the newest chunk over x has there.
unfoldable pub latest : Chunks → ℕ → Option ℕ
latest [] x = none
latest ((o, chunk) ∷ log) x = if is_inside o chunk x then get_elem? chunk (x - o) else latest log x

is_some→some : (v : Option ℕ) → is_some v ≡ true → (b : ℕ) × (v ≡ some b)
is_some→some none h = absurd (cc h)
is_some→some (some b) h = (b, refl)

-- The session and its temp file agree with the chunks.
pub record IsFilled (total : ℕ) (log : Chunks) (m : MultipartUploadSession) (file : List ℕ)
    : Type 0 where
  pub size : m.total_size ≡ pos total
  pub long : length file ≡ total
  pub coverage : IsCoverage (pos total) m.covered_ranges
  pub covers : (x : ℕ) → Covers m.covered_ranges (pos x) → is_some (latest log x) ≡ true
  pub bytes : (x b : ℕ) → latest log x ≡ some b → get_elem? file x ≡ some b

inside-some :
    (o : ℕ) (chunk : List ℕ) (x : ℕ)
    → is_inside o chunk x ≡ true
    → is_some (get_elem? chunk (x - o)) ≡ true
inside-some o chunk x h = let (b, e) = get_elem?_here chunk (x - o) (ground arith) in rw e refl

note_part-IsFilled :
    (sha256 : List ℕ → String) (number : ℤ) (o : ℕ) (chunk : List ℕ) (now total : ℕ) (log : Chunks)
    (m : MultipartUploadSession) (file : List ℕ)
    → o + length chunk ≤ total
    → total < int64_half
    → IsFilled total log m file
    → IsFilled total
        ((o, chunk) ∷ log)
        (note_part sha256 number o chunk now m)
        (write_at file o chunk)
unfolding note_part latest
note_part-IsFilled sha256 number o chunk now total log m file fits small h =
    let end : add64 (pos o) (pos (length chunk)) ≡ pos (o + length chunk) =
      add64_small o (length chunk) (omega arith) in
    let (kept, covers) =
      add_covered_range_records (pos total) m.covered_ranges (pos o) (pos (o + length chunk))
        (omega arith) (omega arith) h.coverage in
    record {
      size = h.size;
      long =
          let e = length-write_at file chunk o (omega (arith, h.long)) in omega (arith, e, h.long);
      coverage = rw end kept;
      covers = λ x c. elim (Bool-cases (is_inside o chunk x)) [
        | inl i ↦ rw i (inside-some o chunk x i)
        | inr n ↦
            let c' : Covers (add_covered_range m.covered_ranges (pos o) (pos (o + length chunk)))
                (pos x) =
              subst (λ e. Covers (add_covered_range m.covered_ranges (pos o) e) (pos x)) end c in
            rw n (elim ((covers (pos x)).0 c') [
              | inl i ↦ absurd (ground arith)
              | inr old ↦ h.covers x old
            ])
      ];
      bytes = λ x b l.
          let e = get_elem?-write_at file chunk o x (omega (arith, h.long)) in
          ground (arith, e, h.bytes x b);
    }

-- One UploadPartData, with its time, as the client sends it.
pub record Part : Type 0 where
  pub number : ℤ
  pub offset : ℤ
  pub chunk : List ℕ
  pub time : ℕ

-- The end of the part is an int64, as it is for every offset within a file.
abbrev pub IsSmall : Part → Type 0
IsSmall p = pos_part p.offset + length p.chunk < int64_half

-- The chunk is logged if the call succeeded.
unfoldable pub log_part : ℤ → List ℕ → Outcome (Unit {0}) → Chunks → Chunks
log_part (pos o) chunk (ok _) log = (o, chunk) ∷ log
log_part _ chunk _ log = log

module _ {S : SessionStore StoredSession} where
  -- The multipart session and its temp file are there and agree with the chunks.
  pub record IsStored (total : ℕ) (log : Chunks) (id : String) (s : Service S) : Type 0 where
    pub session : MultipartUploadSession
    pub file : List ℕ
    pub here : lookup id s.multiparts ≡ some session
    pub temp : lookup (temp_path id) s.temp_files ≡ some file
    pub filled : IsFilled total log session file

  module _ (sha256 : List ℕ → String) (id : String) where
    -- A write that fits.
    write_part_fits :
        (m : MultipartUploadSession) (file : List ℕ) (number : ℤ) (o : ℕ) (chunk : List ℕ) (now : ℕ)
        (s : Service S)
        → ltbℤ m.total_size (add64 (pos o) (pos (length chunk))) ≡ false
        → lookup (temp_path id) s.temp_files ≡ some file
        → write_part sha256 none id m number (pos o) chunk now s ≡ (
          ok tt,
          put_multipart id
              (note_part sha256 number o chunk now m)
              (put_temp (temp_path id) (write_at file o chunk) s),
        )
    unfolding write_part write_temp
    write_part_fits m file number o chunk now s fits temp =
        rw (fits, temp, write_part, write_temp) refl

    write_part-IsStored :
        (total : ℕ) (log : Chunks) (number offset : ℤ) (chunk : List ℕ) (now : ℕ) (s : Service S)
        → total < int64_half
        → pos_part offset + length chunk < int64_half
        → (h : IsStored total log id s)
        → let w = write_part sha256 none id h.session number offset chunk now s in
          IsStored total (log_part offset chunk w.0 log) id w.1
    unfolding write_part log_part put_temp put_multipart
    write_part-IsStored total log number (negsuc n) chunk now s t f h = h
    write_part-IsStored total log number (pos o) chunk now s t f h =
        let end = add64_small o (length chunk) f in
        let size = h.filled.size in
        elim (Bool-cases (ltbℤ h.session.total_size (add64 (pos o) (pos (length chunk))))) [
          | inl beyond ↦ rw (beyond, write_part) h
          | inr fits ↦
              rw (write_part_fits h.session h.file number o chunk now s fits h.temp, log_part)
                (record {
                  session = note_part sha256 number o chunk now h.session;
                  file = write_at h.file o chunk;
                  here = lookup-insert_here id _ s.multiparts;
                  temp = lookup-insert_here (temp_path id) _ s.temp_files;
                  filled =
                      note_part-IsFilled sha256 number o chunk now total log h.session h.file
                        (ground (arith, end, size)) t h.filled;
                })
        ]

    accept_part-IsStored :
        (total : ℕ) (log : Chunks) (number offset : ℤ) (chunk : List ℕ) (now : ℕ) (s : Service S)
        → total < int64_half
        → pos_part offset + length chunk < int64_half
        → (h : IsStored total log id s)
        → let w = accept_part sha256 none id h.session number offset chunk now s in
          IsStored total (log_part offset chunk w.0 log) id w.1
    unfolding accept_part log_part
    accept_part-IsStored total log number offset chunk now s t f h =
        let Logged : Outcome (Unit {0}) × Service S → Type 0 =
          λ w. IsStored total (log_part offset chunk w.0 log) id w.1 in
        if_rule Logged h.session.closed (λ _. refused _ offset h)
          (λ _.
            if_rule Logged (not (is_active h.session.status)) (λ _. refused _ offset h)
              (λ _.
                if_rule Logged (ltbℤ (pos 10000) number) (λ _. refused _ offset h)
                  (λ _. write_part-IsStored total log number offset chunk now s t f h)))
      where
        refused :
            (e : TransferError) (offset : ℤ)
            → IsStored total log id s
            → IsStored total (log_part offset chunk (err e) log) id s
        refused e (pos o) k = k
        refused e (negsuc o) k = k

    -- The calls of UploadPartData one after the other, and the log.
    unfoldable pub send_parts : Service S × Chunks → List Part → Service S × Chunks
    send_parts w [] = w
    send_parts (s, log) (p ∷ ps) =
        let (r, s') = upload_part_data sha256 none id p.number p.offset p.chunk p.time s in
        send_parts (s', log_part p.offset p.chunk r log) ps

    send_parts-IsStored :
        (total : ℕ) (log : Chunks) (s : Service S) (ps : List Part)
        → total < int64_half
        → All IsSmall ps
        → IsStored total log id s
        → let w = send_parts (s, log) ps in IsStored total w.1 id w.0
    unfolding send_parts upload_part_data
    send_parts-IsStored total log s [] t f h = h
    send_parts-IsStored total log s (p ∷ ps) t f h =
        let w = accept_part sha256 none id h.session p.number p.offset p.chunk p.time s in
        let e : upload_part_data sha256 none id p.number p.offset p.chunk p.time s ≡ w =
          rw (h.here, upload_part_data) refl in
        rw (e, send_parts)
          (send_parts-IsStored total (log_part p.offset p.chunk w.0 log) w.1 ps t f.1
            (accept_part-IsStored total log p.number p.offset p.chunk p.time s t f.0 h))

    -- When the recorded ranges of a multipart session pass the test that CompleteMultipartUpload
    -- makes, every byte of the temp file is the byte of the newest accepted part over it: none is
    -- left as it was created. This holds after any calls of UploadPartData, refused ones included,
    -- whose writes do not fail half-way and whose ends are within an int64, from a session without
    -- accepted parts whose temp file has the total size, below 2^63.
    pub covered_bytes :
        (total : ℕ) (s : Service S) (ps : List Part) (x : ℕ)
        → total < int64_half
        → All IsSmall ps
        → (h : IsStored total [] id s) → (m : MultipartUploadSession)
        → let w = send_parts (s, []) ps in
          lookup id w.0.multiparts ≡ some m
          → is_fully_covered m.covered_ranges m.total_size ≡ true
          → x < total
          → (file : List ℕ) × (b : ℕ) × (lookup (temp_path id) w.0.temp_files ≡ some file)
            × (length file ≡ total)
            × (latest w.1 x ≡ some b)
            × (get_elem? file x ≡ some b)
    covered_bytes total s ps x t f h m here full inside =
        let k = send_parts-IsStored total [] s ps t f h in
        let same : k.session ≡ m = cc (k.here, here) in
        let full' : is_fully_covered k.session.covered_ranges (pos total) ≡ true =
          rw (sym k.filled.size) (rw same full) in
        let c =
          (is_fully_covered_iff (pos total) k.session.covered_ranges (omega arith)
              k.filled.coverage).0
            full' (pos x) (omega arith) (omega arith) in
        let (b, e) = is_some→some (latest (send_parts (s, []) ps).1 x) (k.filled.covers x c) in
        (k.file, b, k.temp, k.filled.long, e, k.filled.bytes x b e)
