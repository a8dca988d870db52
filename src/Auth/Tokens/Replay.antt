-- ===== src/Auth/Tokens/Replay.antt =====
-- A refresh token of internal/auth/jwt.go cannot be used twice.
use fssvrgo.Prelude.{
  ℕ, ◌+◌, ◌≤◌, ◌≡◌, refl, false, ◌&&◌, not, String, Option, some, List, [], ◌∷◌, lookup, insert,
  lookup-insert, lookup-insert_here, Bool-cases, ap, ◌≢◌, ◌⊎◌, eq_iff, str_eq, arith, Option-cases,
  inl, inr, if_rule,
}
use fssvrgo.Auth.Tokens.{
  TokenClaims, JwtService, Blacklist, TokenResult, TokenPair, ok, err, token_revoked, token_invalid,
  cleanup_blacklist, validate_token, revoke, refresh_claims, refresh_token,
}

-- A call of RefreshToken: the token, the ids drawn, the time.
abbrev pub Call : Type 0
Call = String × Option String × Option String × ℕ

-- The id is kept at least until the time `until`.
pub record IsRevoked (jti : String) (until : ℕ) (s : JwtService) : Type 0 where
  pub expiry : ℕ
  pub listed : lookup jti s.refresh_blacklist ≡ some expiry
  pub lasts : until ≤ expiry

cleanup-keeps :
    (now : ℕ) (jti : String) (expiry : ℕ) (b : Blacklist)
    → now ≤ expiry
    → lookup jti b ≡ some expiry
    → lookup jti (cleanup_blacklist now b) ≡ some expiry
unfolding cleanup_blacklist lookup
cleanup-keeps now jti expiry [] h l = l
cleanup-keeps now jti expiry ((j, e) ∷ rest) h l =
    ground (arith, eq_iff j jti, cleanup-keeps now jti expiry rest h)

not_empty : (t : String) → t ≢ "" → str_eq t "" ≡ false
not_empty t h = elim (Bool-cases (str_eq t "")) [
  | inl e ↦ absurd (h ((eq_iff t "").0 e))
  | inr f ↦ f
]

module _ (parse : String → ℕ → Option TokenClaims) (sign : TokenClaims → Option String) where
  revoke-lists :
      (jti : String) (now : ℕ) (s : JwtService)
      → str_eq jti "" ≡ false
      → IsRevoked jti (now + s.refresh_expiry) (revoke parse sign jti now s)
  unfolding revoke
  revoke-lists jti now s h =
      let until = now + s.refresh_expiry in
      let b = insert jti until s.refresh_blacklist in
      let here : lookup jti b ≡ some until = lookup-insert_here jti until s.refresh_blacklist in
      rw (h, revoke)
        (record {
          expiry = until;
          listed = cleanup-keeps now jti until b (omega arith) here;
          lasts = omega arith;
        })

  revoke-keeps :
      (jti : String) (until : ℕ) (j : String) (now : ℕ) (s : JwtService)
      → now ≤ until
      → until ≤ now + s.refresh_expiry
      → IsRevoked jti until s
      → IsRevoked jti until (revoke parse sign j now s)
  unfolding revoke
  revoke-keeps jti until j now s h k r =
      let b = insert j (now + s.refresh_expiry) s.refresh_blacklist in
      let l = lookup-insert j jti (now + s.refresh_expiry) s.refresh_blacklist in
      elim (Bool-cases (str_eq j "")) [
        | inl e ↦ rw (e, revoke) r
        | inr f ↦ elim (Bool-cases (str_eq j jti)) [
          | inl same ↦
              rw (f, revoke)
                (record {
                  expiry = now + s.refresh_expiry;
                  listed = cleanup-keeps now jti _ b (omega arith) (ground (arith, l));
                  lasts = k;
                })
          | inr other ↦
              rw (f, revoke)
                (record {
                  expiry = r.expiry;
                  listed = cleanup-keeps now jti r.expiry b (omega arith) (ground (arith, l));
                  lasts = r.lasts;
                })
        ]
      ]

  revoke_expiry :
      (j : String) (now : ℕ) (s : JwtService)
      → (revoke parse sign j now s).refresh_expiry ≡ s.refresh_expiry
  unfolding revoke
  revoke_expiry j now s = ground arith

  -- The calls of RefreshToken one after the other.
  pub refresh_all : JwtService → List Call → JwtService
  refresh_all s [] = s
  refresh_all s ((token, a, r, now) ∷ rest) =
      refresh_all (refresh_token parse sign s token a r now).1 rest

  abbrev pub IsBetween : ℕ → ℕ → List Call → Type 0
  IsBetween start end [] = Unit
  IsBetween start end ((token, a, r, now) ∷ rest) =
      (start ≤ now) × (now ≤ end) × IsBetween start end rest

  refresh-keeps :
      (jti : String) (until : ℕ) (a r : Option String) (now : ℕ) (s : JwtService)
      (v : TokenResult TokenClaims)
      → now ≤ until
      → until ≤ now + s.refresh_expiry
      → IsRevoked jti until s
      → IsRevoked jti until (refresh_claims parse sign s a r now v).1
        × ((refresh_claims parse sign s a r now v).1.refresh_expiry ≡ s.refresh_expiry)
  unfolding refresh_claims
  refresh-keeps jti until a r now s (err e) h k v = (v, refl)
  refresh-keeps jti until a r now s (ok c) h k v =
      if_rule
        (λ (w : TokenResult TokenPair × JwtService).
          IsRevoked jti until w.1 × (w.1.refresh_expiry ≡ s.refresh_expiry))
        (not (str_eq c.token_type "") && not (str_eq c.token_type "refresh")) (λ _. (v, refl))
        (λ _. (revoke-keeps jti until c.jti now s h k v, revoke_expiry c.jti now s))

  refresh_all-keeps :
      (jti : String) (start end until : ℕ) (s : JwtService) (calls : List Call)
      → end ≤ until
      → until ≤ start + s.refresh_expiry
      → IsBetween start end calls
      → IsRevoked jti until s
      → IsRevoked jti until (refresh_all s calls)
  unfolding refresh_all refresh_token
  refresh_all-keeps jti start end until s [] h k b v = v
  refresh_all-keeps jti start end until s ((token, a, r, now) ∷ rest) h k b v =
      let (v', same) =
        refresh-keeps jti until a r now s (validate_token parse sign s token now)
          (omega (arith, b.0, b.1)) (omega (arith, b.0, b.1)) v in
      refresh_all-keeps jti start end until (refresh_token parse sign s token a r now).1 rest h
        (omega (arith, same)) b.2 v'

  -- The token that was accepted is revoked, and a revoked token is refused.
  accepted-revoke :
      (s : JwtService) (token : String) (a r : Option String) (now : ℕ) (c : TokenClaims)
      → validate_token parse sign s token now ≡ ok c
      → c.token_type ≡ "refresh"
      → (refresh_token parse sign s token a r now).1 ≡ revoke parse sign c.jti now s
  unfolding refresh_token refresh_claims
  accepted-revoke s token a r now c valid kind =
      let k = (eq_iff c.token_type "refresh").1 kind in
      rw (valid, refresh_token) (ground (arith, k))

  revoked_refused :
      (s : JwtService) (token : String) (a r : Option String) (until now : ℕ) (c : TokenClaims)
      → parse token now ≡ some c
      → c.token_type ≡ "refresh"
      → str_eq c.jti "" ≡ false
      → IsRevoked c.jti until s
      → (refresh_token parse sign s token a r now).0 ≡ err token_revoked
  unfolding refresh_token validate_token refresh_claims
  revoked_refused s token a r until now c e kind named v =
      let k = (eq_iff c.token_type "refresh").1 kind in
      let l = v.listed in rw (e, k, named, l, refresh_token, validate_token) refl

  -- A refresh token with an id that RefreshToken has accepted is refused from then on, whatever
  -- tokens are refreshed in between: by the revocation, or since it has expired. Used of the JWT
  -- library: it reads the same claims again or refuses the token, and refuses it once its expiry
  -- has passed, which is within the service's refresh period from the first use.
  pub replay_refused :
      (s : JwtService) (token : String) (a r : Option String) (start : ℕ) (c : TokenClaims)
      (calls : List Call) (now : ℕ) (a' r' : Option String)
      → validate_token parse sign s token start ≡ ok c
      → c.token_type ≡ "refresh"
      → c.jti ≢ ""
      → IsBetween start now calls
      → ((d : TokenClaims) → parse token now ≡ some d → (d ≡ c) × (now ≤ c.expires_at))
      → c.expires_at ≤ start + s.refresh_expiry
      → start ≤ now
      → let t = refresh_all (refresh_token parse sign s token a r start).1 calls in
        ((refresh_token parse sign t token a' r' now).0 ≡ err token_invalid)
        ⊎ ((refresh_token parse sign t token a' r' now).0 ≡ err token_revoked)
  unfolding refresh_token refresh_claims validate_token
  replay_refused s token a r start c calls now a' r' valid kind named between parsed within later =
      elim (Option-cases (parse token now)) [
        | inl e ↦ inl (rw (e, refresh_token, validate_token) refl)
        | inr (d, e) ↦
            let (same, soon) = parsed d e in
            let named' : str_eq c.jti "" ≡ false = not_empty c.jti named in
            let kept =
              refresh_all-keeps c.jti start now (start + s.refresh_expiry)
                (revoke parse sign c.jti start s) calls (omega arith)
                (omega (arith, revoke_expiry c.jti start s)) between
                (revoke-lists c.jti start s named') in
            let used = accepted-revoke s token a r start c valid kind in
            inr (
              rw used (
                revoked_refused (refresh_all (revoke parse sign c.jti start s) calls) token a' r' _
                  now c (rw e (ap some same)) kind named' kept))
      ]
