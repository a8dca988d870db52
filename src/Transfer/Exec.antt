-- ===== src/Transfer/Exec.antt =====
-- The calls that FileTransferService makes at many places: slots, temp files and session records,
-- of internal/service/transfer/service.go. An operation returns the state that it leaves beside an
-- error too. What the operating system, the storage backend, the database and the lock answer to
-- the calls of one operation is an argument of it.
pub mod Leads
use Prim.Native.String.{◌++◌}
use fssvrgo.Prelude.{
  ℕ, Bool, true, false, String, Option, none, some, List, take, lookup, insert, erase, is_some,
  if◌then◌else◌,
}
use fssvrgo.Prelude.Int.{pos, negsuc, ltbℤ, add64}
use fssvrgo.Distributed.Session.Interface.{SessionStore}
use fssvrgo.Transfer.Types.{Service, StoredSession, Outcome, ok, err}
use fssvrgo.Transfer.File.{write_at}

-- filepath.Join(s.tempDir, sessionID+".tmp"), and tempPath + ".enc"
abbrev pub temp_path : String → String
temp_path id = id ++ ".tmp"

abbrev pub encrypted_path : String → String
encrypted_path id = (id ++ ".tmp") ++ ".enc"

-- 2*time.Hour, in seconds
abbrev pub session_ttl : ℕ
session_ttl = 7200

abbrev pub Exec : Type 0 → Type 0 → Type 0
Exec St A = St → Outcome A × St

module _ {St A : Type 0} where
  -- The last return of an operation.
  unfoldable pub answer : A → Exec St A
  answer a s = (ok a, s)

module _ {St A B : Type 0} where
  abbrev continue : Outcome A → (A → Exec St B) → Exec St B
  continue (ok a) f s = f a s
  continue (err e) f s = (err e, s)

  infixl 10 ◌>>=◌ ◌>>◌
  unfoldable pub ◌>>=◌ : Exec St A → (A → Exec St B) → Exec St B
  ◌>>=◌ m f s = let (r, s') = m s in continue r f s'

  abbrev pub ◌>>◌ : Exec St A → Exec St B → Exec St B
  m >> n = m >>= λ _. n

module _ {S : SessionStore StoredSession} where
  -- acquireSessionSlot
  unfoldable pub acquire_session_slot : Service S → Bool × Service S
  acquire_session_slot s =
      let count = add64 s.session_count (pos 1) in
      if ltbℤ (pos s.max_sessions) count
      then (false, record s { session_count = add64 count (negsuc 0) })
      else (true, record s { session_count = count })

  -- releaseSessionSlot
  unfoldable pub release_session_slot : Service S → Service S
  release_session_slot s = record s { session_count = add64 s.session_count (negsuc 0) }

  -- os.Remove
  unfoldable pub remove_temp : String → Service S → Service S
  remove_temp path s = record s { temp_files = erase path s.temp_files }

  unfoldable pub put_temp : String → List ℕ → Service S → Service S
  put_temp path bytes s = record s { temp_files = insert path bytes s.temp_files }

  -- WriteAt on a temp file. A fault is the number of bytes that were written before the error. A
  -- handle to a file that was removed is written to no avail.
  unfoldable pub write_temp : String → ℕ → List ℕ → Option ℕ → Service S → Bool × Service S
  unfolding put_temp
  write_temp path o chunk fault s = elim (lookup path s.temp_files) [
    | none ↦ (if is_some fault then false else true, s)
    | some bytes ↦ elim fault [
      | none ↦ (true, put_temp path (write_at bytes o chunk) s)
      | some n ↦ (false, put_temp path (write_at bytes o (take n chunk)) s)
    ]
  ]

  -- sessionStore.Set, whose error is only logged, and sessionStore.Delete
  unfoldable pub save_record : String → String → StoredSession → ℕ → Service S → Service S
  save_record prefix id v now s = record s { store = (S.set s.store prefix id v session_ttl now).1 }

  unfoldable pub delete_record : String → String → Service S → Service S
  delete_record prefix id s = record s { store = (S.delete s.store prefix id).1 }
