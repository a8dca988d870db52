-- ===== src/Transfer/Slots/Completion/Stages.antt =====
-- The shared stages of a completion (internal/service/transfer): what they keep and how they fail.
use fssvrgo.Prelude.{
  ℕ, ◌≡◌, refl, Bool, not, ◌&&◌, String, none, Option, List, [], ◌∷◌, lookup, if_rule, str_eq,
  is_some, option_rule, if◌then◌else◌,
}
use fssvrgo.Prelude.Int.{ℤ}
use fssvrgo.Distributed.Session.Interface.{SessionStore}
use fssvrgo.Transfer.Types.{Service, StoredSession, Outcome}
use fssvrgo.Transfer.Exec.{temp_path, encrypted_path}
use fssvrgo.Transfer.Exec.Leads.{Leads, Ends}
use fssvrgo.Transfer.Complete.{
  CompleteIo, refuses, moves, copies, StoreAnswer, remove_all, compare_hash, verify_hash,
  encrypt_temp, store_temp, save_metadata, bytes_read,
}

module _ {S : SessionStore StoredSession} where
  -- The sessions, the counter and the maximum are the same.
  pub record Same (s t : Service S) : Type 0 where
    pub uploads : t.uploads ≡ s.uploads
    pub multiparts : t.multiparts ≡ s.multiparts
    pub count : t.session_count ≡ s.session_count
    pub maximum : t.max_sessions ≡ s.max_sessions

  pub Same-refl : (s : Service S) → Same s s
  Same-refl s = record { uploads = refl; multiparts = refl; count = refl; maximum = refl }

  remove_all-Same : (paths : List String) (s t : Service S) → Same s t → Same s (remove_all paths t)
  unfolding remove_all
  remove_all-Same [] s t h = h
  remove_all-Same (p ∷ ps) s t h = remove_all-Same ps s _ (record {
    uploads = h.uploads;
    multiparts = h.multiparts;
    count = h.count;
    maximum = h.maximum;
  })

-- `P` depends only on the sessions and the counter; dropping the session leads from `P` to `E`.
module _ {S : SessionStore StoredSession} (drop : Service S → Service S) (P E : Service S → Type 0)
    (stable : (s t : Service S) → Same s t → P s → P t)
    (dropped : (s : Service S) → P s → E (drop s)) where
  pub failed :
      (paths : List String) (s t : Service S) → Same s t → P s → E (drop (remove_all paths t))
  failed paths s t same h = dropped _ (stable s _ (remove_all-Same paths s t same) h)

  module _ (sha256 : List ℕ → String) where
    compare_hash-Ends :
        (id expected computed : String) (s : Service S)
        → P s
        → Ends P E (compare_hash drop sha256 id expected computed s)
    unfolding compare_hash
    compare_hash-Ends id expected computed s h =
        if_rule (Ends P E) (str_eq computed expected) (λ _. h)
          (λ _. failed (temp_path id ∷ []) s s (Same-refl s) h)

    pub verify_hash-Leads :
        (io : CompleteIo) (id expected : String) (hasher : Option (List ℕ)) (valid : Bool)
        → Leads P P E (verify_hash drop sha256 io id expected hasher valid)
    unfolding verify_hash
    verify_hash-Leads io id expected hasher valid = record {
      at = λ s h.
          let bad = failed (temp_path id ∷ []) s s (Same-refl s) h in
          if_rule (Ends P E) (str_eq expected "") (λ _. h)
            (λ _.
              if_rule (Ends P E) (is_some hasher && valid)
                (λ _.
                  option_rule (Ends P E) hasher h
                    (λ bytes _. compare_hash-Ends id expected (sha256 bytes) s h))
                (λ _. option_rule (Ends P E) (lookup (temp_path id) s.temp_files) bad (λ bytes _.
                  if_rule (Ends P E) io.read_ok
                    (λ _.
                      compare_hash-Ends id expected (sha256 (bytes_read io.read_stops bytes)) s h)
                    (λ _. bad))));
    }

    pub encrypt_temp-Leads :
        (io : CompleteIo) (id expected : String)
        → Leads P P E (encrypt_temp drop sha256 io id expected)
    unfolding encrypt_temp
    encrypt_temp-Leads io id expected = record {
      at = λ s h.
          let bad = failed (temp_path id ∷ []) s s (Same-refl s) h in
          option_rule (Ends P E) io.cipher h (λ encrypt _.
            option_rule (Ends P E) (lookup (temp_path id) s.temp_files) bad (λ bytes _.
              option_rule (Ends P E) (encrypt bytes) bad (λ secret _.
                if_rule (Ends P E) io.read_encrypted_ok
                  (λ _.
                    stable s _
                      (record { uploads = refl; multiparts = refl; count = refl; maximum = refl })
                      h)
                  (λ _.
                    failed (encrypted_path id ∷ []) s _
                      (record { uploads = refl; multiparts = refl; count = refl; maximum = refl })
                      h))));
    }

  by_answer :
      (a : StoreAnswer) (x y z : Outcome (Unit {0}) × Service S)
      → Ends {A = Unit {0}} P E x
      → Ends {A = Unit {0}} P E y
      → Ends {A = Unit {0}} P E z
      → Ends {A = Unit {0}} P E (elim a [ refuses ↦ x | moves ↦ y | copies ↦ z ])
  by_answer refuses x y z hx hy hz = hx
  by_answer moves x y z hx hy hz = hy
  by_answer copies x y z hx hy hz = hz

  pub store_temp-Leads :
      (io : CompleteIo) (path temp : String) → Leads P P E (store_temp drop io path temp)
  unfolding store_temp
  store_temp-Leads io path temp = record {
    at = λ s h.
        let bad = failed (temp ∷ []) s s (Same-refl s) h in
        if_rule (Ends P E) (not io.lock_ok) (λ _. bad)
          (λ _. option_rule (Ends P E) (lookup temp s.temp_files) bad (λ bytes _.
            by_answer io.store_answer _ _ _ bad
              (stable s _
                (record { uploads = refl; multiparts = refl; count = refl; maximum = refl }) h)
              (stable s _
                (record { uploads = refl; multiparts = refl; count = refl; maximum = refl }) h)));
  }

  pub save_metadata-Leads :
      (io : CompleteIo) (path name : String) (total : ℤ) (hash : String) (now : ℕ)
      (on_failure : List String)
      → Leads P P E (save_metadata drop io path name total hash now on_failure)
  unfolding save_metadata
  save_metadata-Leads io path name total hash now on_failure = record {
    at = λ s h.
        option_rule (Ends P E) (if io.query_ok then lookup path s.metadata else none)
          (if_rule (Ends P E) io.create_ok
            (λ _.
              stable s _
                (record { uploads = refl; multiparts = refl; count = refl; maximum = refl }) h)
            (λ _.
              failed on_failure s _
                (record { uploads = refl; multiparts = refl; count = refl; maximum = refl }) h))
          (λ old _.
            if_rule (Ends P E) io.update_ok
              (λ _.
                stable s _
                  (record { uploads = refl; multiparts = refl; count = refl; maximum = refl }) h)
              (λ _. failed on_failure s s (Same-refl s) h));
  }
