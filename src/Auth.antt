-- ===== src/Auth.antt =====
-- pkg/auth: access tokens, refresh tokens, passwords and one-time codes. The JWT library, bcrypt,
-- SHA-256 and the source of random bytes are parameters.
pub mod Laws
use text.Mathlib.Text.{◌==◌ as str_eq}
use golang_gin.Prelude.{
  ℕ, ◌+◌, ◌≡◌, String, Bool, true, false, not, Option, none, some, if◌then◌else◌, ltb,
}
use golang_gin.Errors.{
  unauthenticated, invalid_input, internal, GoError, new, caused, Result, ok, err, ◌>>=◌, ◌>>◌,
  guard,
}

-- `AccessClaims`; the times of `jwt.RegisteredClaims` are arguments of the signature.
pub record AccessClaims : Type 0 where
  pub user_id : String
  pub role : String

-- What `jwt.ParseWithClaims` reports: the claims and whether the token is valid, an error that is
-- `jwt.ErrTokenExpired`, or another one.
pub data Parsed : Type 0 where
  claims_of : AccessClaims → Bool → Parsed
  expired malformed : GoError → Parsed

-- The JWT library. `numeric_date` is `jwt.NewNumericDate`, which drops the part of a time below the
-- precision of a token; `sign` gets the key, the claims, the dates of issue and of expiry;
-- `parse_with` the token, the key function, which is told whether the method is HMAC, and the time.
pub record Jwt : Type 0 where
  pub numeric_date : ℕ → ℕ
  pub sign : String → AccessClaims → ℕ → ℕ → Result String
  pub parse_with : String → (Bool → Result String) → ℕ → Parsed

-- `GenerateAccessToken`, at the time `now`.
unfoldable pub generate_access_token : Jwt → String → String → String → ℕ → ℕ → Result String
generate_access_token jwt secret user role ttl now = do
  guard (not (str_eq secret "")) invalid_input "jwt secret is empty"
  guard (not (str_eq user "")) invalid_input "user id is empty"
  guard (not (str_eq role "")) invalid_input "user role is empty"
  guard (ltb 0 ttl) invalid_input "access token ttl must be greater than zero"
  elim (jwt.sign secret (record { user_id = user; role = role }) (jwt.numeric_date now)
      (jwt.numeric_date (now + ttl))) [
        | ok token ↦ ok token
        | err e ↦ err (caused internal "failed to sign access token" e)
      ]

-- The key function of `ParseAccessToken`.
abbrev pub key_for : String → Bool → Result String
key_for secret hmac = if hmac then ok secret else err (new internal "unexpected signing method")

-- `ParseAccessToken` by what the library reports.
unfoldable pub accepted : Parsed → Result AccessClaims
accepted (expired e) = err (caused unauthenticated "token has expired" e)
accepted (malformed e) = err (caused unauthenticated "invalid or malformed token" e)
accepted (claims_of c false) = err (new unauthenticated "invalid or malformed token")
accepted (claims_of c true) = ok c

unfoldable pub parse_access_token : Jwt → String → String → ℕ → Result AccessClaims
unfolding accepted
parse_access_token jwt secret token now = do
  guard (not (str_eq secret "")) invalid_input "jwt secret is empty"
  guard (not (str_eq token "")) unauthenticated "access token is empty"
  accepted (jwt.parse_with token (key_for secret) now)

-- What `bcrypt.CompareHashAndPassword` reports.
pub data Comparison : Type 0 where
  matches mismatch too_short : Comparison
  broken : GoError → Comparison

-- bcrypt, and the number of bytes of a text.
pub record Bcrypt : Type 0 where
  pub hash : String → Result String
  pub compare : String → String → Comparison
  pub byte_length : String → ℕ

-- `HashPassword`
unfoldable pub hash_password : Bcrypt → String → Result String
hash_password bcrypt password = do
  guard (not (str_eq password "")) invalid_input "password cannot be empty"
  guard (not (ltb (bcrypt.byte_length password) 8)) invalid_input
      "password must be at least 8 characters"
  elim (bcrypt.hash password) [
    | ok hashed ↦ ok hashed
    | err e ↦ err (caused internal "failed to hash password" e)
  ]

-- `ComparePassword` by what the library reports.
unfoldable pub compared : Comparison → Option GoError
compared matches = none
compared mismatch = some (new invalid_input "invalid password")
compared too_short = some (new invalid_input "invalid password format")
compared (broken e) = some (caused internal "failed to compare password" e)

unfoldable pub compare_password : Bcrypt → String → String → Option GoError
unfolding compared
compare_password bcrypt hashed password = compared (bcrypt.compare hashed password)

-- `GenerateRefreshToken`, of the text of 32 random bytes.
unfoldable pub generate_refresh_token : Result String → Result String
generate_refresh_token (ok text) = ok text
generate_refresh_token (err e) = err (caused internal "failed to generate refresh token" e)

-- `GenerateOTP`, of a random number below 100000 and its text of five digits.
unfoldable pub generate_otp : (ℕ → String) → Result ℕ → Result String
generate_otp digits (ok n) = ok (digits n)
generate_otp digits (err e) = err (caused internal "failed to generate otp" e)
