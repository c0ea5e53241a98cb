-- ===== src/Middleware/Laws.antt =====
-- A token on its way through the interceptor.
use Prim.Native.String.{len, slice, ◌++◌ as str_append}
use text.Mathlib.TextPositions.{starts_with-append, slice-append_right, len-append}
use golang_gin.Prelude.{ℕ, ◌+◌, ◌≡◌, refl, ap, ◌∙◌, String, Bool, true, false, some, List, ◌∷◌, ltb}
use golang_gin.Errors.{Result, ok}
use golang_gin.Errors.Grpc.{code_unauthenticated}
use golang_gin.Auth.{AccessClaims, Jwt, generate_access_token, parse_access_token}
use golang_gin.Auth.Laws.{IsJwt, IsRead, parse_access_token-generate_access_token}
use golang_gin.Middleware.{
  Verdict, runs, stops, status_error, trim_prefix, identified, auth_interceptor,
}

trim_prefix-append : (p t : String) → trim_prefix (str_append p t) p ≡ t
unfolding trim_prefix
trim_prefix-append p t =
    rw (starts_with-append p t)
      (ap (slice (str_append p t) (len p)) (len-append p t) ∙ slice-append_right p t)

-- What the interceptor decides on a token that is read or not.
abbrev pub IsDecided : Bool → AccessClaims → Verdict → Type 0
IsDecided true c v = v ≡ runs (some c)
IsDecided false c v = v ≡ stops (status_error code_unauthenticated "invalid or expired token")

identified-IsDecided :
    (b : Bool) (c : AccessClaims) (r : Result AccessClaims)
    → IsRead b c r
    → IsDecided b c (identified r)
identified-IsDecided true c r is = rw is refl
identified-IsDecided false c r (e, is, kind) = rw is refl

-- A caller of a method that is not public, with a token that `GenerateAccessToken` made for a user
-- and a role under the secret of the service, and with a library that keeps the guarantees of JWT:
-- until the token expires the handler runs with exactly that user and that role in its context, and
-- from then on it does not run and the call ends with the status unauthenticated.
pub auth_interceptor-generate_access_token :
    (jwt : Jwt)
    → IsJwt jwt
    → (secret user role : String) (ttl issued : ℕ) (token : String)
    → generate_access_token jwt secret user role ttl issued ≡ ok token
    → (now : ℕ) (others : List String)
    → IsDecided
        (ltb now (jwt.numeric_date (issued + ttl)))
        (record { user_id = user; role = role })
        (auth_interceptor false
          (λ t. parse_access_token jwt secret t now)
          (some (str_append "Bearer " token ∷ others)))
unfolding auth_interceptor
auth_interceptor-generate_access_token jwt laws secret user role ttl issued token h now others =
    rw (trim_prefix-append "Bearer " token) (
      identified-IsDecided (ltb now (jwt.numeric_date (issued + ttl)))
        (record { user_id = user; role = role }) (parse_access_token jwt secret token now)
        (parse_access_token-generate_access_token jwt laws secret user role ttl issued token h now))
