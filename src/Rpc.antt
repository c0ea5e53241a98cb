-- ===== src/Rpc.antt =====
-- A gRPC call from the client to the handler and back: the shape that the handlers of the services
-- share, the interceptors before them, and the network. No code panics in the model, so that the
-- recovery and the logging around a call leave it as it is.
pub mod Laws
use golang_gin.Prelude.{ℕ, String, Bool, Option, List}
use golang_gin.Errors.{Result, ok, err}
use golang_gin.Errors.Grpc.{RemoteError, with_status, from_app_error}
use golang_gin.Auth.{AccessClaims}
use golang_gin.Middleware.{Verdict, runs, stops, rate_limit_interceptor, auth_interceptor}

-- What a gRPC call returns: a message, or an error.
pub data Reply {ℓ} (A : Type ℓ) : Type ℓ where
  replied : A → Reply A
  failed : RemoteError → Reply A

-- How the network treats a call: the answer comes back, the call does not arrive, or it arrives and
-- its answer is lost. The errors are those that the client then gets.
pub data Link : Type 0 where
  through : Link
  unreached unanswered : RemoteError → Link

-- The surroundings of the interceptors: what the limiter answers for a key and a limit, the text
-- that stands for the caller, what a token parses to at that time, and whether details attach.
pub record CallEnv : Type 0 where
  pub allow : String → ℕ → Result ℕ
  pub caller : String
  pub tokens : String → Result AccessClaims
  pub details_ok : Bool

module _ {ℓ κ} {W : Type ℓ} {A : Type κ} where
  -- The end of a handler: the error of the service as a status of its domain.
  unfoldable pub handled : Bool → String → W × Result A → W × Reply A
  unfolding from_app_error
  handled details_ok domain (w, ok a) = (w, replied a)
  handled details_ok domain (w, err e) =
      (w, failed (with_status (from_app_error details_ok e domain)))

  -- What the interceptors decide, before the handler.
  unfoldable pub decided : Verdict → W → (Option AccessClaims → W × Reply A) → W × Reply A
  decided (stops st) w handler = (w, failed (with_status st))
  decided (runs claims) w handler = handler claims

  -- The chain of `NewServer`: the rate limit of the method, then the token. The metadata is that of
  -- "authorization"; a call has some metadata in any case.
  unfoldable pub chain :
      CallEnv
      → String
      → Bool
      → Option ℕ
      → List String
      → W
      → (Option AccessClaims → W × Reply A)
      → W × Reply A
  unfolding rate_limit_interceptor auth_interceptor decided
  chain env method public limit values w handler =
      decided
        (rate_limit_interceptor env.allow limit method env.caller
          (auth_interceptor public env.tokens (Option.some values)))
        w handler

  unfoldable pub transmit : Link → W → W × Reply A → W × Reply A
  transmit through w answer = answer
  transmit (unreached e) w answer = (w, failed e)
  transmit (unanswered e) w (w', reply) = (w', failed e)
