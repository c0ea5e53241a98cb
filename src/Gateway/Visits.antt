-- ===== src/Gateway/Visits.antt =====
-- Sequences of requests to the gateway, and the calls of the user service that they make.
use golang_gin.Prelude.{
  ◌≡◌, refl, ◌∙◌, String, Bool, true, false, Option, none, some, List, [], ◌∷◌, inl, inr,
  if◌then◌else◌, ℕ,
}
use text.Mathlib.Text.{◌==◌ as str_eq}
use golang_gin.Errors.{Fault, Result, ok, err}
use golang_gin.Auth.{AccessClaims}
use golang_gin.Rpc.{Reply, replied, failed, Link, CallEnv, transmit}
use golang_gin.User.Table.{Lookup}
use golang_gin.User.Service.{Deps, World, IssueEnv}
use golang_gin.User.Login.{RegisterRequest}
use golang_gin.User.Otp.{OtpEnv, VerifyEnv}
use golang_gin.User.Session.{RefreshEnv}
use golang_gin.User.Server.{
  Method, registration, call, serve_register, serve_password_login, serve_otp_login,
  serve_verify_otp, serve_refresh_token, serve_get_user, serve_logout,
}
use golang_gin.User.Server
use golang_gin.User.Calls.{
  Call, registers, logs_in, asks_for_code, verifies, refreshes, logs_out, serve, run,
}
use golang_gin.Gateway.Auth.{
  Answer, Cookie, Config, answer, rate_limit, forward_auth, register, password_login, otp_login,
  verify_otp, refresh_token, logout, get_user,
}
use golang_gin.Rpc.Laws.{transmit-state}
use golang_gin.Gateway.Calls.{call-state}

-- A request with its surroundings; those of the group `/auth` have the answer of its limiter.
pub data Visit : Type 0 where
  posts_register :
      Result Bool → Link → CallEnv → Fault → ℕ → IssueEnv → Option RegisterRequest → Visit
  posts_password :
      Result Bool → Link → CallEnv → Lookup → IssueEnv → Option (String × String) → Visit
  posts_otp : Result Bool → Link → CallEnv → OtpEnv → Option String → Visit
  posts_verify :
      Result Bool → Link → CallEnv → VerifyEnv → IssueEnv → Option (String × String) → Visit
  posts_refresh : Result Bool → Link → CallEnv → RefreshEnv → IssueEnv → Option String → Visit
  posts_logout : Result Bool → Link → CallEnv → Fault → Fault → Option String → Visit
  gets_user : Link → CallEnv → Fault → String → String → Visit

module _ (deps : Deps) (cfg : Config) where
  -- The routes of the router.
  unfoldable pub visit : Visit → World → World × Answer
  unfolding rate_limit register password_login otp_login verify_otp refresh_token logout get_user
  visit (posts_register gate link env insert fresh issue body) w =
      rate_limit gate w (register deps cfg link env insert fresh issue body w)
  visit (posts_password gate link env select issue body) w =
      rate_limit gate w (password_login deps cfg link env select issue body w)
  visit (posts_otp gate link env otp body) w =
      rate_limit gate w (otp_login deps cfg link env otp body w)
  visit (posts_verify gate link env verify issue body) w =
      rate_limit gate w (verify_otp deps cfg link env verify issue body w)
  visit (posts_refresh gate link env refresh issue cookie) w =
      rate_limit gate w (refresh_token deps cfg link env refresh issue cookie w)
  visit (posts_logout gate link env get fault cookie) w =
      rate_limit gate w (logout deps cfg link env get fault cookie w)
  visit (gets_user link env select header id) w = get_user deps cfg link env select header id w

  abbrev pub visit_all : List Visit → World → World
  visit_all [] w = w
  visit_all (v ∷ vs) w = visit_all vs (visit v w).0

  -- A state that calls of the user service lead to.
  abbrev pub IsCalled : World → World → Type 0
  IsCalled w w' = (cs : List Call) × (w' ≡ run deps cs w)

  pub answer-state {κ} :
      {A : Type κ} (cookies : List Cookie) (f : A → Answer) (r : World × Reply A)
      → (answer cookies f r).0 ≡ r.0
  answer-state cookies f (w, replied a) = refl
  answer-state cookies f (w, failed e) = refl

  -- What a transmitted call of a method does to the state.
  pub sent-IsCalled {κ} :
      {A : Type κ} (link : Link) (m : Method) (env : CallEnv) (values : List String) (w : World)
      (service : Option AccessClaims → World × Result A) (c : List Call)
      → ((claims : Option AccessClaims) → (service claims).0 ≡ run deps c w)
      → IsCalled w (transmit link w (call m env values w service)).0
  sent-IsCalled link m env values w service c same =
      elim (transmit-state link w (call m env values w service)) [
        | inl is ↦ ([], is)
        | inr is ↦ elim (call-state m env values w service) [
          | inl still ↦ ([], is ∙ still)
          | inr (claims, done) ↦ (c, is ∙ (done ∙ same claims))
        ]
      ]

  pub limited-IsCalled :
      (gate : Result Bool) (w : World) (r : World × Answer)
      → IsCalled w r.0
      → IsCalled w (rate_limit gate w r).0
  unfolding rate_limit
  limited-IsCalled (err e) w r h = h
  limited-IsCalled (ok false) w r h = ([], refl)
  limited-IsCalled (ok true) w r h = h

  -- The answer to a transmitted call keeps the state that the call leaves.
  answered-IsCalled {κ} :
      {A : Type κ} (cookies : List Cookie) (f : A → Answer) (w : World) (r : World × Reply A)
      → IsCalled w r.0
      → IsCalled w (answer cookies f r).0
  answered-IsCalled cookies f w r (cs, is) = (cs, answer-state cookies f r ∙ is)

  either-IsCalled :
      (b : Bool) (w : World) (x y : World × Answer)
      → IsCalled w x.0
      → IsCalled w y.0
      → IsCalled w (if b then x else y).0
  either-IsCalled true w x y h k = h
  either-IsCalled false w x y h k = k

  refresh_token-IsCalled :
      (link : Link) (env : CallEnv) (refresh : RefreshEnv) (issue : IssueEnv)
      (cookie : Option String) (w : World)
      → IsCalled w (refresh_token deps cfg link env refresh issue cookie w).0
  unfolding refresh_token serve_refresh_token serve
  refresh_token-IsCalled link env refresh issue none w = ([], refl)
  refresh_token-IsCalled link env refresh issue (some token) w =
      either-IsCalled (str_eq token "") w _ _ ([], refl)
        (answered-IsCalled _ _ w _ (
          sent-IsCalled link Server.refresh_token env [] w _
            (refreshes refresh issue (some token) ∷ []) (λ c. refl)))

  logout-IsCalled :
      (link : Link) (env : CallEnv) (get fault : Fault) (cookie : Option String) (w : World)
      → IsCalled w (logout deps cfg link env get fault cookie w).0
  unfolding logout serve_logout serve
  logout-IsCalled link env get fault none w = ([], refl)
  logout-IsCalled link env get fault (some token) w =
      either-IsCalled (str_eq token "") w _ _ ([], refl)
        (answered-IsCalled _ _ w _ (
          sent-IsCalled link Server.logout env [] w _ (logs_out get fault (some token) ∷ [])
            (λ c. refl)))

  -- Every request leads to a state that calls of the user service lead to.
  pub visit-IsCalled : (v : Visit) (w : World) → IsCalled w (visit v w).0
  unfolding visit register password_login otp_login verify_otp get_user serve_register
      serve_password_login serve_otp_login serve_verify_otp serve_get_user serve
  visit-IsCalled (posts_register gate link env insert fresh issue none) w =
      limited-IsCalled gate w _ ([], refl)
  visit-IsCalled (posts_register gate link env insert fresh issue (some body)) w =
      limited-IsCalled gate w _ (
        answered-IsCalled _ _ w _ (
          sent-IsCalled link Server.registration env [] w _
            (registers insert fresh issue (some body) ∷ []) (λ c. refl)))
  visit-IsCalled (posts_password gate link env select issue none) w =
      limited-IsCalled gate w _ ([], refl)
  visit-IsCalled (posts_password gate link env select issue (some body)) w =
      limited-IsCalled gate w _ (
        answered-IsCalled _ _ w _ (
          sent-IsCalled link Server.password_login env [] w _
            (logs_in select issue (some body) ∷ []) (λ c. refl)))
  visit-IsCalled (posts_otp gate link env otp none) w = limited-IsCalled gate w _ ([], refl)
  visit-IsCalled (posts_otp gate link env otp (some body)) w = limited-IsCalled gate w _ (
      answered-IsCalled _ _ w _ (
        sent-IsCalled link Server.otp_login env [] w _ (asks_for_code otp (some body) ∷ [])
          (λ c. refl)))
  visit-IsCalled (posts_verify gate link env verify issue none) w =
      limited-IsCalled gate w _ ([], refl)
  visit-IsCalled (posts_verify gate link env verify issue (some body)) w =
      limited-IsCalled gate w _ (
        answered-IsCalled _ _ w _ (
          sent-IsCalled link Server.verify_otp env [] w _ (verifies verify issue (some body) ∷ [])
            (λ c. refl)))
  visit-IsCalled (posts_refresh gate link env refresh issue cookie) w =
      limited-IsCalled gate w _ (refresh_token-IsCalled link env refresh issue cookie w)
  visit-IsCalled (posts_logout gate link env get fault cookie) w =
      limited-IsCalled gate w _ (logout-IsCalled link env get fault cookie w)
  visit-IsCalled (gets_user link env select header id) w =
      answered-IsCalled _ _ w _
        (sent-IsCalled link Server.get_user env (forward_auth header) w _ [] (λ c. refl))
