-- ===== src/Gateway/Calls.antt =====
-- A gRPC call as its client sees it: what it can do to the service, and when it fails.
use Prim.Native.String.{◌++◌ as str_append}
use golang_gin.Prelude.{
  ◌≡◌, ◌≢◌, refl, ◌∙◌, String, Bool, true, false, ◌⊎◌, inl, inr, Option, some, List, [], arith,
}
use golang_gin.Errors.{GoError, Result, ok, err}
use golang_gin.Errors.Grpc.{Status, RemoteError, with_status, no_status, code_unauthenticated}
use golang_gin.Errors.Http.{respond, http_status_from_code}
use golang_gin.Auth.{AccessClaims}
use golang_gin.Middleware.{
  Verdict, stops, status_error, limited, check_limit, rate_limit_interceptor, auth_interceptor,
}
use golang_gin.Rpc.{Reply, replied, CallEnv, handled, decided, chain}
use golang_gin.Rpc.Laws.{
  IsFailed, decided-IsFailed, decided-eq-replied, decided-state, handled-IsFailed,
  handled-eq-replied, handled-state,
}
use golang_gin.User.Service.{World}
use golang_gin.User.Server.{
  Method, logout, full_name, public_methods, rate_limit_rules, domain, call,
}

-- No error is answered with 200.
pub respond-IsError : (e : RemoteError) → (respond e).0 ≢ 200
unfolding respond http_status_from_code
respond-IsError (with_status st) h = ground arith
respond-IsError (no_status e) h = ground arith

module _ {κ} {A : Type κ} (m : Method) (env : CallEnv) (values : List String) (w : World)
    (service : Option AccessClaims → World × Result A) where
  abbrev verdict : Verdict
  verdict =
      rate_limit_interceptor env.allow (rate_limit_rules m) (full_name m) env.caller
        (auth_interceptor (public_methods m) env.tokens (some values))

  abbrev handler : Option AccessClaims → World × Reply A
  handler c = handled env.details_ok domain (service c)

  -- A call fails if the service does, whatever the interceptors decide.
  pub call-IsFailed :
      ((c : Option AccessClaims) → (e : GoError) × (service c ≡ (w, err e)))
      → IsFailed w (call m env values w service)
  unfolding call chain
  call-IsFailed f =
      decided-IsFailed verdict w handler
        (λ c. handled-IsFailed env.details_ok "user-service" w (service c) (f c).0 (f c).1)

  -- A reply is one of the service.
  pub call-eq-replied :
      (w' : World) (a : A)
      → call m env values w service ≡ (w', replied a)
      → (c : Option AccessClaims) × (service c ≡ (w', ok a))
  unfolding call chain
  call-eq-replied w' a h =
      let (c, is) = decided-eq-replied verdict w w' handler a h in
      (c, handled-eq-replied env.details_ok "user-service" w' (service c) a is)

  -- A call does nothing to the service or what the service does.
  pub call-state :
      ((call m env values w service).0 ≡ w)
      ⊎ ((c : Option AccessClaims) × ((call m env values w service).0 ≡ (service c).0))
  unfolding call chain
  call-state = elim (decided-state verdict w handler) [
    | inl is ↦ inl is
    | inr (c, is) ↦ inr (c, is ∙ handled-state env.details_ok "user-service" (service c))
  ]

-- What stops is stopped behind a limit, too.
limited-stops :
    (r : Result Bool) (st : Status) → (st' : Status) × (limited r (stops st) ≡ stops st')
limited-stops (err e) st = (_, refl)
limited-stops (ok true) st = (_, refl)
limited-stops (ok false) st = (_, refl)

-- A method that is not public fails without a token.
pub logout-IsFailed {κ} :
    {A : Type κ} (env : CallEnv) (w : World) (service : Option AccessClaims → World × Result A)
    → IsFailed w (call logout env [] w service)
unfolding call chain rate_limit_interceptor auth_interceptor decided
logout-IsFailed env w service =
    let (st, is) =
      limited-stops
        (check_limit (
          env.allow
            (str_append "ratelimit:"
              (str_append "/user.UserService/Logout" (str_append ":" env.caller)))
            10))
        (status_error code_unauthenticated "missing authorization token") in
    (with_status st, rw is refl)
