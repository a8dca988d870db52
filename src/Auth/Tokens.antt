-- ===== src/Auth/Tokens.antt =====
-- JWTService of internal/auth/jwt.go. `parse` is jwt.ParseWithClaims with the service's secret at a
-- time, `none` for an error or an invalid token; `sign` is SignedString. The random token ids and
-- the clock are arguments. Times are in nanoseconds.
pub mod Replay
use fssvrgo.Prelude.{
  ℕ, ◌+◌, ◌/◌, Bool, true, false, ◌&&◌, not, String, Option, none, some, is_some, List, [], ◌∷◌,
  lookup, insert, ltb, str_eq, if◌then◌else◌,
}

-- Claims with the registered claims that are set
pub record TokenClaims : Type 0 where
  pub user_id : String
  pub role : String
  pub token_type : String
  pub jti : String
  pub expires_at : ℕ
  pub issued_at : ℕ
  pub not_before : ℕ
  pub issuer : String
  pub subject : String

pub record TokenPair : Type 0 where
  pub access_token : String
  pub refresh_token : String
  pub expires_in : ℕ

pub data TokenError : Type 0 where
  jti_failed sign_failed token_invalid token_revoked not_refresh_token : TokenError

pub data TokenResult {ℓ} (A : Type ℓ) : Type ℓ where
  ok : A → TokenResult A
  err : TokenError → TokenResult A

-- s.refreshBlacklist: from a token id to the time until which it is kept
abbrev pub Blacklist : Type 0
Blacklist = List (String × ℕ)

-- JWTService, with the secret in `parse` and `sign`
pub record JwtService : Type 0 where
  pub token_expiry : ℕ
  pub refresh_expiry : ℕ
  pub refresh_blacklist : Blacklist

unfoldable pub claims_of : String → String → String → String → ℕ → ℕ → TokenClaims
claims_of user_id role token_type jti now lifetime = record {
  user_id = user_id;
  role = role;
  token_type = token_type;
  jti = jti;
  expires_at = now + lifetime;
  issued_at = now;
  not_before = now;
  issuer = "fsserver";
  subject = user_id;
}

-- cleanupBlacklist
unfoldable pub cleanup_blacklist : ℕ → Blacklist → Blacklist
cleanup_blacklist now [] = []
cleanup_blacklist now ((jti, expiry) ∷ rest) =
    let kept = cleanup_blacklist now rest in if ltb expiry now then kept else (jti, expiry) ∷ kept

module _ (parse : String → ℕ → Option TokenClaims) (sign : TokenClaims → Option String) where
  -- GenerateTokenPair, with the results of generateJTI for the access and the refresh token
  unfoldable pub generate_token_pair :
      JwtService
      → (user_id role : String) → (access_jti refresh_jti : Option String) → ℕ
      → TokenResult TokenPair
  unfolding claims_of
  generate_token_pair s user_id role none refresh_jti now = err jti_failed
  generate_token_pair s user_id role (some a) refresh_jti now =
      elim (sign (claims_of user_id role "access" a now s.token_expiry)) [
        | none ↦ err sign_failed
        | some access ↦ elim refresh_jti [
          | none ↦ err jti_failed
          | some r ↦ elim (sign (claims_of user_id role "refresh" r now s.refresh_expiry)) [
            | none ↦ err sign_failed
            | some refresh ↦ ok (record {
              access_token = access;
              refresh_token = refresh;
              expires_in = s.token_expiry / 1_000_000_000;
            })
          ]
        ]
      ]

  -- ValidateToken
  unfoldable pub validate_token : JwtService → String → ℕ → TokenResult TokenClaims
  validate_token s token now = elim (parse token now) [
    | none ↦ err token_invalid
    | some c ↦
        if str_eq c.token_type "refresh"
          && not (str_eq c.jti "")
          && is_some (lookup c.jti s.refresh_blacklist)
        then err token_revoked
        else ok c
  ]

  unfoldable pub revoke : String → ℕ → JwtService → JwtService
  unfolding cleanup_blacklist
  revoke jti now s = if str_eq jti "" then s else record s {
    refresh_blacklist =
        cleanup_blacklist now (insert jti (now + s.refresh_expiry) s.refresh_blacklist);
  }

  -- RefreshToken after the token was validated
  unfoldable pub refresh_claims :
      JwtService
      → Option String
      → Option String
      → ℕ
      → TokenResult TokenClaims
      → TokenResult TokenPair × JwtService
  unfolding revoke generate_token_pair
  refresh_claims s a r now (err e) = (err e, s)
  refresh_claims s a r now (ok c) =
      if not (str_eq c.token_type "") && not (str_eq c.token_type "refresh")
      then (err not_refresh_token, s)
      else (generate_token_pair s c.user_id c.role a r now, revoke c.jti now s)

  -- RefreshToken
  unfoldable pub refresh_token :
      JwtService → String → Option String → Option String → ℕ → TokenResult TokenPair × JwtService
  unfolding validate_token refresh_claims
  refresh_token s token a r now = refresh_claims s a r now (validate_token s token now)
