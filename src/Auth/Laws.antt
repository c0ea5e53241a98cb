-- ===== src/Auth/Laws.antt =====
-- An access token from its signature to its claims.
use text.Mathlib.Text.{◌==◌ as str_eq}
use golang_gin.Prelude.{
  ℕ, ◌+◌, ◌≡◌, refl, String, Bool, true, false, Bool-cases, inl, inr, arith, ltb,
}
use golang_gin.Errors.{unauthenticated, GoError, caused, Result, ok, err, get_kind}
use golang_gin.Auth.{
  AccessClaims, claims_of, expired, Jwt, generate_access_token, key_for, accepted,
  parse_access_token,
}

-- What a JWT library guarantees of the tokens that it signs itself: they are not empty, they parse
-- with the key that the key function gives for HMAC up to their expiry, and no longer.
pub record IsJwt (jwt : Jwt) : Type 0 where
  pub not_empty :
      (key : String) (c : AccessClaims) (from to : ℕ) (token : String)
      → jwt.sign key c from to ≡ ok token
      → str_eq token "" ≡ false
  pub parses :
      (key : String) (c : AccessClaims) (from to : ℕ) (token : String) (keys : Bool → Result String)
      (now : ℕ)
      → jwt.sign key c from to ≡ ok token
      → keys true ≡ ok key
      → ltb now to ≡ true
      → jwt.parse_with token keys now ≡ claims_of c true
  pub expires :
      (key : String) (c : AccessClaims) (from to : ℕ) (token : String) (keys : Bool → Result String)
      (now : ℕ)
      → jwt.sign key c from to ≡ ok token
      → keys true ≡ ok key
      → ltb now to ≡ false
      → (e : GoError) × (jwt.parse_with token keys now ≡ expired e)

generate_access_token-eq-ok :
    (jwt : Jwt) (secret user role : String) (ttl now : ℕ) (token : String)
    → generate_access_token jwt secret user role ttl now ≡ ok token
    → (str_eq secret "" ≡ false)
      × (jwt.sign secret
            (record { user_id = user; role = role })
            (jwt.numeric_date now)
            (jwt.numeric_date (now + ttl))
          ≡ ok token)
unfolding generate_access_token
generate_access_token-eq-ok jwt secret user role ttl now token h = ground arith

-- What is read of a token: its claims while it lives, an error that is unauthenticated after that.
abbrev pub IsRead : Bool → AccessClaims → Result AccessClaims → Type 0
IsRead true c r = r ≡ ok c
IsRead false c r = (e : GoError) × (r ≡ err e) × (get_kind e ≡ unauthenticated)

-- With a library that keeps the guarantees of JWT, a token that `GenerateAccessToken` made is read
-- by `ParseAccessToken` under the same secret: before its time to live is over it gives the user
-- and the role that it was made for, and from then on an error that is unauthenticated. The end is
-- the one that the library writes into the token, without the part of a second.
pub parse_access_token-generate_access_token :
    (jwt : Jwt)
    → IsJwt jwt
    → (secret user role : String) (ttl issued : ℕ) (token : String)
    → generate_access_token jwt secret user role ttl issued ≡ ok token
    → (now : ℕ)
    → IsRead
        (ltb now (jwt.numeric_date (issued + ttl)))
        (record { user_id = user; role = role })
        (parse_access_token jwt secret token now)
unfolding parse_access_token accepted get_kind
parse_access_token-generate_access_token jwt laws secret user role ttl issued token h now =
    let from = jwt.numeric_date issued in
    let to = jwt.numeric_date (issued + ttl) in
    let c : AccessClaims = record { user_id = user; role = role } in
    let (keyed, signed) = generate_access_token-eq-ok jwt secret user role ttl issued token h in
    let full = laws.not_empty secret c from to token signed in
    let keys = key_for secret in
    elim (Bool-cases (ltb now to)) [
      | inl early ↦
          let is = laws.parses secret c from to token keys now signed refl early in
          rw (early, keyed, full, is) refl
      | inr late ↦
          let (e, is) = laws.expires secret c from to token keys now signed refl late in
          rw (late, keyed, full, is) (caused unauthenticated "token has expired" e, refl, refl)
    ]
