-- ===== src/Transfer/Upload/Stored/Stages.antt =====
-- What the stages of CompleteUpload (internal/service/transfer/service.go) hand on when they succeed.
use text.Mathlib.TextLemmas.{append-nil, append_cancel_left}
use fssvrgo.Prelude.{
  ◌∙◌, ℕ, ◌≡◌, ◌⊎◌, refl, Bool, true, false, ◌&&◌, not, String, Option, some, none, is_some, List,
  lookup, insert, inl, inr, lookup-insert_here, lookup-erase, eq_iff, str_eq, if_rule, option_rule,
  if◌then◌else◌, arith, Bool-cases, Option-cases,
}
use fssvrgo.Prelude.Int.{ℤ}
use fssvrgo.Distributed.Session.Interface.{SessionStore}
use fssvrgo.Transfer.Types.{Service, StoredSession, UploadSession, FileMetadata, Outcome, ok}
use fssvrgo.Transfer.Exec.{temp_path, encrypted_path, put_temp, remove_temp}
use fssvrgo.Transfer.Exec.Leads.{Results, Gives}
use fssvrgo.Transfer.Upload.{put_upload}
use fssvrgo.Transfer.Complete.{
  CompleteIo, StoreAnswer, refuses, moves, copies, fail, compare_hash, verify_hash, encrypt_temp,
  store_temp, save_metadata, bytes_read,
}
use fssvrgo.Transfer.Upload.Complete.{close_temp}

-- The bytes to store and their hash in the metadata, of the bytes of the temp file.
abbrev pub sealed_bytes : Option (List ℕ → Option (List ℕ)) → List ℕ → Option (List ℕ)
sealed_bytes none bytes = some bytes
sealed_bytes (some encrypt) bytes = encrypt bytes

abbrev pub sealed_hash :
    (List ℕ → String) → Option ℕ → Option (List ℕ → Option (List ℕ)) → String → List ℕ → String
sealed_hash sha256 stops none expected secret = expected
sealed_hash sha256 stops (some encrypt) expected secret = sha256 (bytes_read stops secret)

paths_differ : (id : String) → str_eq (temp_path id) (encrypted_path id) ≡ false
paths_differ id = elim (Bool-cases (str_eq (temp_path id) (encrypted_path id))) [
  | inr f ↦ f
  | inl e ↦
      let same = (eq_iff (temp_path id) (encrypted_path id)).0 e in
      let empty : "" ≡ ".enc" =
        append_cancel_left (temp_path id) "" ".enc" (append-nil (temp_path id) ∙ same) in
      absurd (ground (arith, eq_iff "" ".enc", empty))
]

module _ (sha256 : List ℕ → String) where
  -- The hash of the client was compared: with the incremental one, or with that of the temp file.
  pub IsVerified : Option ℕ → UploadSession → List ℕ → Type 0
  IsVerified stops u bytes =
      (u.hash ≡ "")
      ⊎ (((hashed : List ℕ) × (u.hash_writer ≡ some hashed)
            × (u.hash_valid ≡ true)
            × (sha256 hashed ≡ u.hash))
          ⊎ (sha256 (bytes_read stops bytes) ≡ u.hash))

module _ {S : SessionStore StoredSession} where
  abbrev pub HasTemp : String → List ℕ → Service S → Type 0
  HasTemp path bytes s = lookup path s.temp_files ≡ some bytes

  pub close_temp-Gives :
      (io : CompleteIo) (id : String) (u : UploadSession) (bytes : List ℕ)
      → Gives
          (HasTemp (temp_path id) bytes)
          (λ _. HasTemp (temp_path id) bytes)
          (close_temp io id u)
  unfolding close_temp put_upload fail
  close_temp-Gives io id u bytes = record {
    at = λ s h.
        let Q : Outcome (Unit {0}) × Service S → Type 0 =
          Results (λ _. HasTemp (temp_path id) bytes) in
        if_rule Q (not u.temp_file) (λ _. h)
          (λ _.
            if_rule Q (not io.sync_ok) (λ _. tt)
              (λ _. if_rule Q (not io.close_ok) (λ _. tt) (λ _. h)));
  }

module _ {S : SessionStore StoredSession} (sha256 : List ℕ → String)
    (drop : Service S → Service S) where
  compare_hash-Results :
      (id expected computed : String) (V : Type 0) (H : Service S → Type 0) (s : Service S)
      → H s
      → (computed ≡ expected → V)
      → Results (λ _ t. H t × V) (compare_hash drop sha256 id expected computed s)
  unfolding compare_hash fail
  compare_hash-Results id expected computed V H s h v =
      if_rule (Results {A = Bool} (λ _ t. H t × V)) (str_eq computed expected)
        (λ e. (h, v ((eq_iff computed expected).0 e))) (λ _. tt)

  incremental-Results :
      (id expected : String) (hasher : Option (List ℕ)) (V : Type 0) (H : Service S → Type 0)
      (s : Service S)
      → H s
      → is_some hasher ≡ true
      → ((hashed : List ℕ) → hasher ≡ some hashed → sha256 hashed ≡ expected → V)
      → Results {St = Service S} {A = Bool}
          (λ _ t. H t × V)
          (elim hasher [
            | none ↦ (ok false, s)
            | some bytes ↦ compare_hash drop sha256 id expected (sha256 bytes) s
          ])
  incremental-Results id expected none V H s h some_hasher v = absurd (cc some_hasher)
  incremental-Results id expected (some hashed) V H s h some_hasher v =
      compare_hash-Results id expected (sha256 hashed) V H s h (v hashed refl)

  pub verify_hash-Gives :
      (io : CompleteIo) (id : String) (u : UploadSession) (bytes : List ℕ)
      → Gives
          (HasTemp (temp_path id) bytes)
          (λ _ s. HasTemp (temp_path id) bytes s × IsVerified sha256 io.read_stops u bytes)
          (verify_hash drop sha256 io id u.hash u.hash_writer u.hash_valid)
  unfolding verify_hash fail IsVerified
  verify_hash-Gives io id u bytes = record {
    at = λ s h.
        let V = IsVerified sha256 io.read_stops u bytes in
        let Q : Outcome Bool × Service S → Type 0 =
          Results (λ _ t. HasTemp (temp_path id) bytes t × V) in
        if_rule Q (str_eq u.hash "") (λ e. (h, inl ((eq_iff u.hash "").0 e)))
          (λ _.
            if_rule Q (is_some u.hash_writer && u.hash_valid)
              (λ valid.
                incremental-Results id u.hash u.hash_writer V (HasTemp (temp_path id) bytes) s h
                  (ground arith) (λ hashed e same. inr (inl (hashed, e, ground arith, same))))
              (λ _. rw h (
                if_rule Q io.read_ok
                  (λ _.
                    compare_hash-Results id u.hash (sha256 (bytes_read io.read_stops bytes)) V
                      (HasTemp (temp_path id) bytes) s h (λ same. inr (inr same)))
                  (λ _. tt))));
  }

  -- The file to store is there, with the bytes and the hash for the metadata.
  pub record IsSealed (stops : Option ℕ) (cipher : Option (List ℕ → Option (List ℕ)))
      (expected : String) (bytes : List ℕ) (sealed : String × String) (s : Service S) : Type 0 where
    pub secret : List ℕ
    pub from_bytes : sealed_bytes cipher bytes ≡ some secret
    pub with_hash : sealed.1 ≡ sealed_hash sha256 stops cipher expected secret
    pub there : lookup sealed.0 s.temp_files ≡ some secret

  pub encrypt_temp-Gives :
      (io : CompleteIo) (id expected : String) (bytes : List ℕ)
      → Gives
          (HasTemp (temp_path id) bytes)
          (IsSealed io.read_encrypted_stops io.cipher expected bytes)
          (encrypt_temp drop sha256 io id expected)
  unfolding encrypt_temp fail put_temp remove_temp
  encrypt_temp-Gives io id expected bytes = record {
    at = λ s h. elim (Option-cases io.cipher) [
      | inl e ↦ rw e (record { secret = bytes; from_bytes = refl; with_hash = refl; there = h })
      | inr (f, e) ↦ elim (Option-cases (f bytes)) [
        | inl bad ↦ rw (e, h, bad, encrypt_temp) tt
        | inr (secret, good) ↦
            rw (e, h, good, encrypt_temp)
              (if_rule (Results (IsSealed io.read_encrypted_stops (some f) expected bytes))
                io.read_encrypted_ok
                (λ _. record {
                  secret = secret;
                  from_bytes = good;
                  with_hash = refl;
                  there =
                      let l =
                        lookup-erase (temp_path id) (encrypted_path id)
                          (insert (encrypted_path id) secret s.temp_files) in
                      let k = lookup-insert_here (encrypted_path id) secret s.temp_files in
                      rw (l, paths_differ id) k;
                })
                (λ _. tt))
      ]
    ];
  }

  pub store_temp-Gives :
      (io : CompleteIo) (expected path : String) (bytes : List ℕ) (sealed : String × String)
      (secret : List ℕ)
      → Gives
          (λ s. lookup sealed.0 s.temp_files ≡ some secret)
          (λ _ s. lookup path s.objects ≡ some secret)
          (store_temp drop io path sealed.0)
  unfolding store_temp fail remove_temp
  store_temp-Gives io expected path bytes sealed secret = record {
    at = λ s h.
        let Q : Outcome (Unit {0}) × Service S → Type 0 =
          Results (λ _ s'. lookup path s'.objects ≡ some secret) in
        if_rule Q (not io.lock_ok) (λ _. tt)
          (λ _. rw h (
            by_answer io.store_answer _ _ _ tt (lookup-insert_here path secret s.objects)
              (lookup-insert_here path secret s.objects)));
  }
    where
      by_answer :
          (a : StoreAnswer) (x y z : Outcome (Unit {0}) × Service S)
          → Results {St = Service S} {A = Unit {0}} (λ _ s'. lookup path s'.objects ≡ some secret) x
          → Results {St = Service S} {A = Unit {0}} (λ _ s'. lookup path s'.objects ≡ some secret) y
          → Results {St = Service S} {A = Unit {0}} (λ _ s'. lookup path s'.objects ≡ some secret) z
          → Results {St = Service S} {A = Unit {0}}
              (λ _ s'. lookup path s'.objects ≡ some secret)
              (elim a [ refuses ↦ x | moves ↦ y | copies ↦ z ])
      by_answer refuses x y z hx hy hz = hx
      by_answer moves x y z hx hy hz = hy
      by_answer copies x y z hx hy hz = hz

  pub save_metadata-Gives :
      (io : CompleteIo) (path name : String) (total : ℤ) (hash : String) (now : ℕ)
      (on_failure : List String) (object : String) (secret : List ℕ)
      → Gives
          (λ s. lookup object s.objects ≡ some secret)
          (λ _ s.
            (lookup object s.objects ≡ some secret)
            × ((row : FileMetadata) × (lookup path s.metadata ≡ some row)
                × (row.size ≡ total)
                × (row.hash ≡ hash)))
          (save_metadata drop io path name total hash now on_failure)
  unfolding save_metadata fail
  save_metadata-Gives io path name total hash now on_failure object secret = record {
    at = λ s h.
        let Q : Outcome String × Service S → Type 0 = Results (λ _ s'.
          (lookup object s'.objects ≡ some secret)
          × ((row : FileMetadata) × (lookup path s'.metadata ≡ some row)
              × (row.size ≡ total)
              × (row.hash ≡ hash))) in
        option_rule Q (if io.query_ok then lookup path s.metadata else none)
          (if_rule Q io.create_ok (λ _. (h, (_, lookup-insert_here path _ s.metadata, refl, refl)))
            (λ _. tt))
          (λ old _.
            if_rule Q io.update_ok (λ _. (h, (_, lookup-insert_here path _ s.metadata, refl, refl)))
              (λ _. tt));
  }
