-- ===== src/Transfer/Tests.antt =====
-- Runs of the transfer service at concrete inputs, with the session store in memory.
mod Stored
mod Downloads
use fssvrgo.Prelude.{
  insert, ℕ, ◌≡◌, ◌≤◌, ◌↔◌, ◌⊎◌, refl, true, false, String, none, some, List, [], ◌∷◌, arith,
  lookup, length, get_elem?, if◌then◌else◌,
}
use fssvrgo.Prelude.Int.{add64, ℤ, pos, ◌≤ℤ◌, ◌<ℤ◌, eqbℤ}
use fssvrgo.Distributed.Session.Interface.{SessionStore}
use fssvrgo.Distributed.Session.Memory.{memory_session_store, empty_store}
use fssvrgo.Transfer.Types.{
  Service, StoredSession, UploadSession, MultipartUploadSession, active, completed,
}
use fssvrgo.Transfer.Coverage.{joined, merge_range, ByteRange, add_covered_range, is_fully_covered}
use fssvrgo.Transfer.Coverage.Covers.{Covers, IsCoverage, add_covered_range_records}
use fssvrgo.Transfer.Coverage.Complete.{is_fully_covered_iff}
use fssvrgo.Transfer.Exec.{put_temp, write_temp, acquire_session_slot}
use fssvrgo.Transfer.File.{write_at, write_from, overwrite}
use fssvrgo.Transfer.Complete.{CompleteIo, moves}
use fssvrgo.Transfer.Upload.{CreateIo, ChunkIo}
use fssvrgo.Transfer.Upload.Complete.{complete_upload}
use fssvrgo.Transfer.Multipart.{
  record_part, lookup_part, insert_part, put_multipart, note_part, write_part, is_active,
  accept_part, suggested_part_size, upload_part_data, create_multipart_upload,
}
use fssvrgo.Transfer.Multipart.Written.{log_part, Part, IsStored, send_parts, latest, covered_bytes}
use fssvrgo.Transfer.Slots.{IsAccounted, sessions}
use fssvrgo.Transfer.Slots.History.{
  serve, Request, sends_part, completes, aborts, aborts_multipart, cleans, serve_all,
  sessions_bounded,
}
use fssvrgo.Transfer.Slots.Completion.{complete_upload-IsAccounted}

abbrev ranges : List ByteRange
ranges = record { start = pos 0; end = pos 4 } ∷ []

ranges-IsCoverage : IsCoverage (pos 10) ranges
ranges-IsCoverage = record { separated = (omega arith, omega arith, tt); within = omega arith }

is_fully_covered_iff_example :
    (is_fully_covered ranges (pos 10) ≡ true)
    ↔ ((x : ℤ) → pos 0 ≤ℤ x → x <ℤ pos 10 → Covers ranges x)
is_fully_covered_iff_example = is_fully_covered_iff (pos 10) ranges (omega arith) ranges-IsCoverage

add_covered_range_records_example :
    IsCoverage (pos 10) (add_covered_range ranges (pos 3) (pos 10))
    × ((x : ℤ)
        → Covers (add_covered_range ranges (pos 3) (pos 10)) x
          ↔ (((pos 3 ≤ℤ x) × (x <ℤ pos 10)) ⊎ Covers ranges x))
add_covered_range_records_example =
    add_covered_range_records (pos 10) ranges (pos 3) (pos 10) (omega arith) (omega arith)
      ranges-IsCoverage

abbrev memory : SessionStore StoredSession
memory = memory_session_store StoredSession

abbrev plain : String → String
plain path = path

abbrev pub digest : List ℕ → String
digest bytes = "digest"

abbrev create_io : CreateIo
create_io = record { create_ok = true; truncate_ok = true }

abbrev chunk_io : ChunkIo
chunk_io = record { reopen_ok = true; lock_ok = true; open_ok = true; write_fault = none }

abbrev pub complete_io : CompleteIo
complete_io = record {
  reopen_ok = true;
  sync_ok = true;
  close_ok = true;
  read_ok = true;
  read_stops = none;
  cipher = none;
  read_encrypted_ok = true;
  read_encrypted_stops = none;
  lock_ok = true;
  store_answer = moves;
  query_ok = true;
  update_ok = true;
  create_ok = true;
  new_id = "f1";
  storage_type = "local";
}

abbrev pub upload : UploadSession
upload = record {
  file_id = "";
  file_path = "a.txt";
  file_name = "a.txt";
  total_size = pos 2;
  uploaded_size = pos 2;
  hash = "";
  client_id = "c";
  status = active;
  created_at = 0;
  updated_at = 0;
  chunk_count = pos 1;
  temp_file = true;
  hash_writer = none;
  last_offset = pos 0;
  hash_valid = false;
  closed = false;
}

abbrev multipart : MultipartUploadSession
multipart = record {
  file_path = "b.txt";
  file_name = "b.txt";
  total_size = pos 3;
  hash = "";
  client_id = "c";
  status = active;
  created_at = 0;
  updated_at = 0;
  temp_file = true;
  parts = [];
  uploaded_size = pos 0;
  chunk_count = pos 0;
  closed = false;
  covered_ranges = [];
}

abbrev pub service : Service memory
service = record {
  uploads = ("u", upload) ∷ [];
  multiparts = ("m", multipart) ∷ [];
  session_count = pos 2;
  max_sessions = 5;
  temp_files = ("u.tmp", 1 ∷ 2 ∷ []) ∷ ("m.tmp", 0 ∷ 0 ∷ 0 ∷ []) ∷ [];
  objects = [];
  metadata = [];
  store = empty_store StoredSession;
}

pub service-IsAccounted : IsAccounted service
unfolding lookup
service-IsAccounted = record {
  limit = omega arith;
  within = omega arith;
  counted = refl;
  unique_uploads = (refl, tt);
  unique_multiparts = (refl, tt);
}

complete_upload-IsAccounted_example :
    IsAccounted (complete_upload digest complete_io "u" 9 service).1
    × (lookup "u" (complete_upload digest complete_io "u" 9 service).1.uploads
        ≡ (if eqbℤ (pos 2) (pos 2) then none else some upload))
unfolding lookup
complete_upload-IsAccounted_example =
    complete_upload-IsAccounted digest complete_io "u" upload 9 service refl service-IsAccounted

abbrev requests : List (ℕ × Request)
requests =
    (1, completes complete_io "u")
    ∷ (2, sends_part none "m" (pos 1) (pos 0) (7 ∷ []))
    ∷ (3, aborts "u")
    ∷ (4, aborts_multipart "m")
    ∷ (7203, cleans 7200)
    ∷ []

sessions_bounded_example :
    let t = serve_all plain digest service requests in
    (t.session_count ≡ pos (sessions t)) × (sessions t ≤ t.max_sessions)
unfolding lookup serve
sessions_bounded_example =
    sessions_bounded plain digest service requests service-IsAccounted
      (refl, (tt, (tt, (tt, (tt, tt)))))

service-IsStored : IsStored 3 [] "m" service
unfolding lookup latest
service-IsStored = record {
  session = multipart;
  file = 0 ∷ 0 ∷ 0 ∷ [];
  here = refl;
  temp = refl;
  filled = record {
    size = refl;
    long = omega arith;
    coverage = record { separated = tt; within = tt };
    covers = λ x c. absurd c;
    bytes = λ x b l. absurd (cc l);
  };
}

abbrev parts : List Part
parts =
    record { number = pos 1; offset = pos 0; chunk = 7 ∷ 8 ∷ []; time = 1 }
    ∷ record { number = pos 2; offset = pos 1; chunk = 9 ∷ 6 ∷ []; time = 2 }
    ∷ []

abbrev sent : MultipartUploadSession
sent = record multipart {
  parts =
      (
        pos 1,
        record {
          part_number = pos 1;
          offset = pos 0;
          size = pos 2;
          uploaded_size = pos 2;
          hash = "digest";
          status = completed;
        },
      )
      ∷ (
        pos 2,
        record {
          part_number = pos 2;
          offset = pos 1;
          size = pos 2;
          uploaded_size = pos 2;
          hash = "digest";
          status = completed;
        },
      )
      ∷ [];
  uploaded_size = pos 4;
  chunk_count = pos 2;
  covered_ranges = record { start = pos 0; end = pos 3 } ∷ [];
}

covered_bytes_example :
    let w = send_parts digest "m" (service, []) parts in
    (file : List ℕ) × (b : ℕ) × (lookup "m.tmp" w.0.temp_files ≡ some file)
    × (length file ≡ 3)
    × (latest w.1 1 ≡ some b)
    × (get_elem? file 1 ≡ some b)
unfolding lookup insert send_parts upload_part_data accept_part is_active write_part write_temp
    put_temp note_part put_multipart log_part add64 add_covered_range merge_range is_fully_covered
    joined insert_part lookup_part record_part write_at write_from overwrite
covered_bytes_example =
    covered_bytes digest "m" 3 service parts 1 (omega arith) (omega arith, (omega arith, tt))
      service-IsStored sent refl refl (omega arith)
