-- ===== src/Transfer/Cleanup/Expired.antt =====
-- CleanupExpiredSessions of internal/service/transfer/service.go drops the expired sessions, no
-- others, and one slot for each.
use fssvrgo.Prelude.{
  ℕ, ◌-◌, false, String, Option, none, some, List, [], ◌∷◌, ◌≡◌, refl, sym, ap, ◌∙◌, subst, arith,
  ltb, str_eq, if◌then◌else◌, if_rule, lookup, erase, lookup-erase, IsUnique, eq_iff, eq_refl, All,
  Bool-cases, inl, inr,
}
use fssvrgo.Distributed.Session.Interface.{SessionStore}
use fssvrgo.Transfer.Types.{Service, StoredSession, UploadSession, MultipartUploadSession}
use fssvrgo.Transfer.Slots.{
  IsAccounted, IsAccounted-same, drop_upload-IsAccounted, drop_multipart-IsAccounted,
}
use fssvrgo.Transfer.Exec.{temp_path, remove_temp}
use fssvrgo.Transfer.Download.{DownloadSession, DownloadRecord, Downloads, end_session}
use fssvrgo.Transfer.Cleanup.{
  expire_downloads, sweep, expire_upload, expire_uploads, expire_multipart, expire_multiparts,
  cleanup_expired_sessions,
}

module _ {V : Type 0} where
  -- The entries of a snapshot that are still to be visited stand in the map.
  abbrev pub Stands : List (String × V) → List (String × V) → Type 0
  Stands entries m = All (λ e. lookup e.0 m ≡ some e.1) entries

  Stands-erase :
      (k : String) (entries m : List (String × V))
      → lookup k entries ≡ none
      → Stands entries m
      → Stands entries (erase k m)
  unfolding lookup
  Stands-erase k [] m h s = tt
  Stands-erase k (e ∷ entries) m h (s, rest) =
      let off : str_eq k e.0 ≡ false = ground (arith, eq_iff e.0 k, eq_iff k e.0) in
      (lookup-erase k e.0 m ∙ rw off s, Stands-erase k entries m (ground (arith, h)) rest)

  Stands-cons :
      (k : String) (v : V) (entries m : List (String × V))
      → lookup k m ≡ none
      → Stands entries m
      → Stands entries ((k, v) ∷ m)
  unfolding lookup
  Stands-cons k v [] m h s = tt
  Stands-cons k v (e ∷ entries) m h (s, rest) = (
    elim (Bool-cases (str_eq k e.0)) [
      | inl x ↦
          let gone : lookup e.0 m ≡ none = subst (λ i. lookup i m ≡ none) ((eq_iff k e.0).0 x) h in
          absurd (grind arith)
      | inr x ↦ rw x s
    ],
    Stands-cons k v entries m h rest,
  )

  Stands-self : (m : List (String × V)) → IsUnique m → Stands m m
  unfolding lookup
  Stands-self [] u = tt
  Stands-self (e ∷ m) (first, u) =
      (rw (eq_refl e.0) refl, Stands-cons e.0 e.1 m m first (Stands-self m u))

  -- What is left of an entry: nothing, if it has expired
  abbrev pub left : ℕ → (V → ℕ) → Option V → Option V → Option V
  left expiry created none standing = standing
  left expiry created (some v) standing = if ltb (created v) expiry then none else standing

  -- A session, if it has not expired
  abbrev pub unexpired : ℕ → (V → ℕ) → Option V → Option V
  unexpired expiry created none = none
  unexpired expiry created (some v) = if ltb (created v) expiry then none else some v

  left_self :
      (expiry : ℕ) (created : V → ℕ) (o : Option V)
      → left expiry created o o ≡ unexpired expiry created o
  left_self expiry created none = refl
  left_self expiry created (some v) = refl

module _ {W V X : Type 0} (created : V → ℕ) (expire : String → V → W → W) (part : W → X)
    (keeps : (id : String) (v : V) (s : W) → part (expire id v s) ≡ part s) where
  -- A loop over one kind of sessions keeps what its rounds keep.
  sweep_keeps :
      (expiry : ℕ) (entries : List (String × V)) (s : W)
      → part (sweep created expire expiry entries s) ≡ part s
  unfolding sweep
  sweep_keeps expiry [] s = refl
  sweep_keeps expiry (e ∷ rest) s =
      sweep_keeps expiry rest (if ltb (created e.1) expiry then expire e.0 e.1 s else s)
      ∙ if_rule (λ x. part x ≡ part s) (ltb (created e.1) expiry) (λ h. keeps e.0 e.1 s) (λ h. refl)

module _ {W V : Type 0} (Inv : W → Type 0) (created : V → ℕ) (expire : String → V → W → W)
    (sessions_of : W → List (String × V))
    (erases : (id : String) (v : V) (s : W)
      → sessions_of (expire id v s) ≡ erase id (sessions_of s))
    (accounts : (id : String) (v : V) (s : W)
      → lookup id (sessions_of s) ≡ some v
      → Inv s
      → Inv (expire id v s)) where
  one_round :
      (expiry : ℕ) (e : String × V) (rest : List (String × V)) (s : W)
      → Stands (e ∷ rest) (sessions_of s)
      → lookup e.0 rest ≡ none
      → Inv s
      → let s' = if ltb (created e.1) expiry then expire e.0 e.1 s else s in
        Inv s'
        × Stands rest (sessions_of s')
        × ((id : String)
            → lookup id (sessions_of s') ≡ (
                if str_eq e.0 id
                then (if ltb (created e.1) expiry then none else lookup id (sessions_of s))
                else lookup id (sessions_of s)))
  one_round expiry e rest s (here, stands) first h = elim (Bool-cases (ltb (created e.1) expiry)) [
    | inl old ↦ rw old (
      accounts e.0 e.1 s here h,
      subst (Stands rest) (sym (erases e.0 e.1 s))
          (Stands-erase e.0 rest (sessions_of s) first stands),
      λ id. ap (lookup id) (erases e.0 e.1 s) ∙ lookup-erase e.0 id (sessions_of s),
    )
    | inr young ↦ rw young (
      h,
      stands,
      λ id. if_rule (λ x. lookup id (sessions_of s) ≡ x) (str_eq e.0 id) (λ _. refl) (λ _. refl),
    )
  ]

  sweep_left :
      (expiry : ℕ) (entries : List (String × V)) (s : W)
      → Stands entries (sessions_of s)
      → IsUnique entries
      → Inv s
      → Inv (sweep created expire expiry entries s)
        × ((id : String)
            → lookup id (sessions_of (sweep created expire expiry entries s))
              ≡ left expiry created (lookup id entries) (lookup id (sessions_of s)))
  unfolding sweep lookup
  sweep_left expiry [] s stands u h = (h, λ id. refl)
  sweep_left expiry (e ∷ rest) s stands (first, u) h =
      let s' = if ltb (created e.1) expiry then expire e.0 e.1 s else s in
      let (accounted, stands', same) = one_round expiry e rest s stands first h in
      let (after, later) = sweep_left expiry rest s' stands' u accounted in
      (
        after,
        λ id. later id ∙ elim (Bool-cases (str_eq e.0 id)) [
          | inl x ↦
              let gone : lookup id rest ≡ none =
                subst (λ k. lookup k rest ≡ none) ((eq_iff e.0 id).0 x) first in
              rw (gone, x) (same id ∙ rw x refl)
          | inr x ↦ rw x (ap (left expiry created (lookup id rest)) (same id ∙ rw x refl))
        ],
      )

module _ {S : SessionStore StoredSession} where
  expire_upload-IsAccounted :
      (id : String) (u : UploadSession) (s : Service S)
      → lookup id s.uploads ≡ some u
      → IsAccounted s
      → IsAccounted (expire_upload id u s)
  unfolding expire_upload
  expire_upload-IsAccounted id u s here h = IsAccounted-same _ _ refl refl refl refl (
      drop_upload-IsAccounted id u (remove_temp (temp_path id) s) here
        (IsAccounted-same s _ refl refl refl refl h))

  expire_multipart-IsAccounted :
      (id : String) (m : MultipartUploadSession) (s : Service S)
      → lookup id s.multiparts ≡ some m
      → IsAccounted s
      → IsAccounted (expire_multipart id m s)
  unfolding expire_multipart
  expire_multipart-IsAccounted id m s here h = IsAccounted-same _ _ refl refl refl refl (
      drop_multipart-IsAccounted id m (remove_temp (temp_path id) s) here
        (IsAccounted-same s _ refl refl refl refl h))

  -- CleanupExpiredSessions drops exactly the uploads and the multipart uploads that were created
  -- before the given age, gives back one slot for each, and keeps every other session as it was.
  pub cleanup_expired_sessions-left :
      (now max_age : ℕ) (s : Service S)
      → IsAccounted s
      → IsAccounted (cleanup_expired_sessions now max_age s)
        × ((id : String)
            → lookup id (cleanup_expired_sessions now max_age s).uploads
              ≡ unexpired (now - max_age) (λ u. u.created_at) (lookup id s.uploads))
        × ((id : String)
            → lookup id (cleanup_expired_sessions now max_age s).multiparts
              ≡ unexpired (now - max_age) (λ m. m.created_at) (lookup id s.multiparts))
  unfolding cleanup_expired_sessions expire_uploads expire_multiparts
  cleanup_expired_sessions-left now max_age s h =
      let expiry = now - max_age in
      let s' = expire_uploads expiry s in
      let (accounted, uploads) =
        sweep_left IsAccounted (λ (u : UploadSession). u.created_at) expire_upload (λ s. s.uploads)
          (λ id v s. unfold expire_upload in refl) expire_upload-IsAccounted expiry s.uploads s
          (Stands-self s.uploads h.unique_uploads) h.unique_uploads h in
      let (after, multiparts) =
        sweep_left IsAccounted (λ (m : MultipartUploadSession). m.created_at) expire_multipart
          (λ s. s.multiparts) (λ id v s. unfold expire_multipart in refl)
          expire_multipart-IsAccounted expiry s'.multiparts s'
          (Stands-self s'.multiparts accounted.unique_multiparts) accounted.unique_multiparts
          accounted in
      let same : s'.multiparts ≡ s.multiparts =
        sweep_keeps (λ (u : UploadSession). u.created_at) expire_upload (λ s. s.multiparts)
          (λ id v s. unfold expire_upload in refl) expiry s.uploads s in
      let others =
        sweep_keeps (λ (m : MultipartUploadSession). m.created_at) expire_multipart (λ s. s.uploads)
          (λ id v s. unfold expire_multipart in refl) expiry s'.multiparts s' in
      (
        after,
        λ id.
            ap (lookup id) others
            ∙ uploads id
            ∙ left_self expiry (λ u. u.created_at) (lookup id s.uploads),
        λ id.
            multiparts id
            ∙ left_self expiry (λ m. m.created_at) (lookup id s'.multiparts)
            ∙ ap (λ m. unexpired expiry (λ m. m.created_at) (lookup id m)) same,
      )

module _ {S : SessionStore DownloadRecord} where
  -- The loop over the downloads drops exactly the expired ones.
  pub expire_downloads_left :
      (now max_age : ℕ) (s : Downloads S)
      → IsUnique s.sessions
      → (id : String)
      → lookup id (expire_downloads now max_age s).sessions
        ≡ unexpired (now - max_age) (λ d. d.created_at) (lookup id s.sessions)
  unfolding expire_downloads
  expire_downloads_left now max_age s unique id =
      (sweep_left (λ s. Unit {0}) (λ (d : DownloadSession). d.created_at) end_session
          (λ s. s.sessions) (λ id d s. unfold end_session in refl) (λ id d s h u. tt)
          (now - max_age) s.sessions s (Stands-self s.sessions unique) unique tt).1
        id
      ∙ left_self (now - max_age) (λ d. d.created_at) (lookup id s.sessions)
