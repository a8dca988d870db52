-- ===== src/Auth/Keys.antt =====
-- What a key may do, by internal/auth/auth.go.
use fssvrgo.Prelude.{
  subst, inr, inl, Option-cases, eq_iff, ◌↔◌, ◌⊎◌, ◌≡◌, true, false, ◌&&◌, ◌||◌, not, String,
  is_some, str_eq, arith,
}
use fssvrgo.Auth.{
  some, active_key, List, [], ◌∷◌, permits, find_user, has_permission, user_of_key, User,
  AuthService, validate_api_key, get_user_by_api_key, user_of_hash, access_claims,
}

module _ (hash : String → String) (s : AuthService) where
  user_of_hash-some :
      (key : String)
      → s.auth_enabled ≡ true
      → str_eq key "" ≡ false
      → is_some (user_of_hash hash s (hash key)) ≡ validate_api_key hash s key
  unfolding user_of_hash validate_api_key
  user_of_hash-some key on k = ground arith

  -- While authentication is on, a key has a user exactly when ValidateApiKey accepts it or it is an
  -- access token (a key that is not empty).
  pub user_iff_valid :
      (key : String)
      → s.auth_enabled ≡ true
      → is_some (get_user_by_api_key hash s key) ≡ (
          validate_api_key hash s key
          || (not (str_eq key "") && is_some (access_claims s.validate_token key)))
  unfolding get_user_by_api_key validate_api_key
  user_iff_valid key on = ground (arith, user_of_hash-some key on)

  find_user-enabled :
      (users : List (String × User)) (hashed : String) (u : User)
      → find_user users hashed ≡ some u
      → (u.enabled ≡ true) × (u.api_key_hash ≡ hashed)
  unfolding find_user
  find_user-enabled [] hashed u h = absurd (cc h)
  find_user-enabled ((id, v) ∷ rest) hashed u h =
      ground (arith, eq_iff v.api_key_hash hashed, find_user-enabled rest hashed u)

  -- What a user may do: an administrator everything, a plain user read and write files.
  pub Permits : User → String → String → Type 0
  Permits u resource action =
      (u.role ≡ "admin")
      ⊎ ((u.role ≡ "user") × (resource ≡ "files") × ((action ≡ "read") ⊎ (action ≡ "write")))

  user_of_hash-enabled :
      (hashed : String) (u : User) → user_of_hash hash s hashed ≡ some u → u.enabled ≡ true
  unfolding user_of_hash user_of_key active_key
  user_of_hash-enabled hashed u h = ground (arith, find_user-enabled s.users hashed u)

  get_user-enabled :
      (key : String) (u : User) → get_user_by_api_key hash s key ≡ some u → u.enabled ≡ true
  unfolding get_user_by_api_key
  get_user-enabled key u h = ground (arith, user_of_hash-enabled (hash key) u)

  permits_iff :
      (u : User) (resource action : String)
      → u.enabled ≡ true
      → (permits hash (some u) resource action ≡ true) ↔ Permits u resource action
  unfolding permits Permits
  permits_iff u resource action on = ground (
    arith,
    eq_iff u.role "admin",
    eq_iff u.role "user",
    eq_iff resource "files",
    eq_iff action "read",
    eq_iff action "write",
  )

  -- While authentication is on, HasPermission grants an action exactly to a key that has a user who
  -- may do it: an administrator, or a plain user who reads or writes files.
  pub has_permission_iff :
      (key resource action : String)
      → s.auth_enabled ≡ true
      → (has_permission hash s key resource action ≡ true)
        ↔ ((u : User) × (get_user_by_api_key hash s key ≡ some u) × Permits u resource action)
  unfolding has_permission
  has_permission_iff key resource action on = elim (Option-cases (get_user_by_api_key hash s key)) [
    | inl e ↦ (λ h. absurd (unfold permits in ground arith), λ (u, f, p). absurd (cc (e, f)))
    | inr (u, e) ↦
        let iff = permits_iff u resource action (get_user-enabled key u e) in
        (
          λ h. (u, e, iff.0 (grants u e h)),
          λ (v, f, p).
              let same : v ≡ u = cc (e, f) in
              granted u e (iff.1 (subst (λ w. Permits w resource action) same p)),
        )
  ]
    where
      grants :
          (u : User)
          → get_user_by_api_key hash s key ≡ some u
          → has_permission hash s key resource action ≡ true
          → permits hash (some u) resource action ≡ true
      grants u e h = ground arith

      granted :
          (u : User)
          → get_user_by_api_key hash s key ≡ some u
          → permits hash (some u) resource action ≡ true
          → has_permission hash s key resource action ≡ true
      granted u e h = ground arith
