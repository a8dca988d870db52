-- ===== src/Auth/Tests.antt =====
-- Runs of the authentication service at concrete inputs.
use fssvrgo.Prelude.{
  lookup, trim_space, trim_left, trim_right, is_space, is_space, trim_right, trim_left, ℕ, ◌≡◌, ◌↔◌,
  ◌⊎◌, ◌+◌, refl, true, ◌&&◌, ◌||◌, not, String, Option, none, some, is_some, List, [], ◌∷◌, arith,
  str_eq, leb, if◌then◌else◌,
}
use fssvrgo.Auth.{
  trim_space, lookup, AuthService, User, new_auth_service, validate_api_key, get_user_by_api_key,
  access_claims, has_permission,
}
use fssvrgo.Auth.Keys.{user_iff_valid, has_permission_iff, Permits}
use fssvrgo.Auth.RateLimit.{window, is_rate_limited}
use fssvrgo.Auth.RateLimit.Burst.{record_all, hits, last_hit, burst-limited}
use fssvrgo.Auth.Tokens.{
  TokenClaims, JwtService, validate_token, refresh_token, token_invalid, token_revoked, err,
}
use fssvrgo.Auth.Tokens.Replay.{Call, refresh_all, replay_refused}

abbrev plain : String → String
plain key = key

abbrev reader : User
reader = record { id = "u1"; api_key_hash = "k1"; name = "Reader"; role = "user"; enabled = true }

abbrev service : AuthService
service = record new_auth_service { auth_enabled = true; users = ("u1", reader) ∷ [] }

user_iff_valid_example : is_some (get_user_by_api_key plain service "k1") ≡ (
    validate_api_key plain service "k1"
    || (not (str_eq "k1" "") && is_some (access_claims none "k1")))
user_iff_valid_example = user_iff_valid plain service "k1" refl

has_permission_iff_example : (has_permission plain service "k1" "files" "read" ≡ true) ↔ (
    (u : User) × (get_user_by_api_key plain service "k1" ≡ some u)
    × Permits plain service u "files" "read")
has_permission_iff_example = has_permission_iff plain service "k1" "files" "read" refl

abbrev failures : List (String × ℕ)
failures = ("10.0.0.1", 1) ∷ ("10.0.0.2", 2) ∷ ("10.0.0.1 ", 3) ∷ []

burst-limited_example :
    is_rate_limited (record_all "10.0.0.1" [] (("10.0.0.1", 0) ∷ failures)) "10.0.0.1" 9
    ≡ (leb 9 (last_hit "10.0.0.1" 0 failures + window) && leb 10 (hits "10.0.0.1" 1 failures))
unfolding lookup trim_space trim_left trim_right is_space hits
burst-limited_example =
    burst-limited "10.0.0.1" [] 0 failures 9 refl (omega arith) refl (omega arith)
      (omega arith, (omega arith, (omega arith, tt)))

abbrev claims : TokenClaims
claims = record {
  user_id = "u1";
  role = "user";
  token_type = "refresh";
  jti = "j1";
  expires_at = 100;
  issued_at = 0;
  not_before = 0;
  issuer = "fsserver";
  subject = "u1";
}

abbrev parse : String → ℕ → Option TokenClaims
parse token now = if leb now 100 && str_eq token "t" then some claims else none

abbrev sign : TokenClaims → Option String
sign c = some c.jti

abbrev jwt : JwtService
jwt = record { token_expiry = 10; refresh_expiry = 100; refresh_blacklist = [] }

abbrev calls : List Call
calls = ("x", some "a", some "b", 21) ∷ []

replay_refused_example :
    ((refresh_token parse sign
        (refresh_all parse sign (refresh_token parse sign jwt "t" (some "a") (some "b") 20).1 calls)
        "t"
        (some "c")
        (some "d")
        30).0
      ≡ err token_invalid)
    ⊎ ((refresh_token parse sign
          (refresh_all parse sign
            (refresh_token parse sign jwt "t" (some "a") (some "b") 20).1
            calls)
          "t"
          (some "c")
          (some "d")
          30).0
        ≡ err token_revoked)
unfolding lookup validate_token
replay_refused_example =
    replay_refused parse sign jwt "t" (some "a") (some "b") 20 claims calls 30 (some "c") (some "d")
      refl refl (λ e. cc e) (omega arith, omega arith, tt) (λ d e. (cc e, omega arith))
      (omega arith) (omega arith)
