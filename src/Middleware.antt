-- ===== src/Middleware.antt =====
-- pkg/grpcmiddleware/auth.go and ratelimit.go: the interceptors before a handler. An interceptor
-- says with which claims the handler runs, or the status that comes in its place.
pub mod Laws
use text.Mathlib.Text.{starts_with, ◌==◌ as str_eq}
use Prim.Native.String.{len, slice, ◌++◌ as str_append}
use golang_gin.Prelude.{
  ℕ, zero, suc, String, Bool, true, false, Option, none, some, List, [], ◌∷◌, if◌then◌else◌,
}
use golang_gin.Errors.{GoError, Result, ok, err}
use golang_gin.Errors.Grpc.{Code, code_unauthenticated, code_internal, resource_exhausted, Status}
use golang_gin.Auth.{AccessClaims, Jwt, parse_access_token}

-- The status of `status.Error`.
abbrev pub status_error : Code → String → Status
status_error code text = record { code = code; text = text; details = [] }

-- The handler runs, with claims in its context or without, or a status is returned.
pub data Verdict : Type 0 where
  runs : Option AccessClaims → Verdict
  stops : Status → Verdict

-- `strings.TrimPrefix`
unfoldable pub trim_prefix : String → String → String
trim_prefix s p = if starts_with s p then slice s (len p) (len s) else s

-- `AuthInterceptor` by the values of "authorization"; only the first is read.
abbrev pub identified : Result AccessClaims → Verdict
identified (err e) = stops (status_error code_unauthenticated "invalid or expired token")
identified (ok c) = runs (some c)

abbrev pub with_values : (String → Result AccessClaims) → List String → Verdict
with_values tokens [] = stops (status_error code_unauthenticated "missing authorization token")
with_values tokens (value ∷ values) = identified (tokens (trim_prefix value "Bearer "))

-- Without metadata there is none.
abbrev pub with_metadata : (String → Result AccessClaims) → Option (List String) → Verdict
with_metadata tokens none = stops (status_error code_unauthenticated "missing request metadata")
with_metadata tokens (some values) = with_values tokens values

-- `AuthInterceptor`, for whether the method is public, what the tokens of a service parse to at the
-- time of the call, and the metadata.
unfoldable pub auth_interceptor :
    Bool → (String → Result AccessClaims) → Option (List String) → Verdict
unfolding trim_prefix
auth_interceptor public tokens metadata =
    if public then runs none else with_metadata tokens metadata

-- `Check` of pkg/ratelimit by what redis_rate answers: the number of calls that are allowed.
unfoldable pub check_limit : Result ℕ → Result Bool
check_limit (err e) = err e
check_limit (ok zero) = ok false
check_limit (ok (suc n)) = ok true

-- The end of `RateLimitInterceptor`.
abbrev pub limited : Result Bool → Verdict → Verdict
limited (err e) next = stops (status_error code_internal "rate limit service unavailable")
limited (ok false) next =
    stops (status_error resource_exhausted "too many requests, please try again later")
limited (ok true) next = next

-- `RateLimitInterceptor` before the rest of a chain: the limiter answers for a key; a method may
-- have no rule, `limits` is the limit of its rule, and `caller` what the key function makes.
unfoldable pub rate_limit_interceptor {ℓ} :
    {L : Type ℓ} → (String → L → Result ℕ) → Option L → String → String → Verdict → Verdict
unfolding check_limit
rate_limit_interceptor allow none method caller next = next
rate_limit_interceptor allow (some limit) method caller next =
    limited
      (check_limit
        (allow (str_append "ratelimit:" (str_append method (str_append ":" caller))) limit))
      next
