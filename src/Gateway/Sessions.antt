-- ===== src/Gateway/Sessions.antt =====
-- The refresh cookie at the gateway: what its rotation and its logout come to.
use text.Mathlib.Text.{◌==◌ as str_eq}
use golang_gin.Prelude.{
  ◌≡◌, ◌≢◌, refl, ap, ◌∙◌, String, Bool, true, false, some, List, [], ◌∷◌, ◌++◌, All, arith,
  if◌then◌else◌,
}
use golang_gin.Errors.{GoError, Fault, Result, ok, err}
use golang_gin.Rpc.{Reply, replied, failed, Link, CallEnv, transmit}
use golang_gin.User.Service.{Deps, World, AuthResponse, IssueEnv}
use golang_gin.User.Session.{RefreshEnv}
use golang_gin.User.Session
use golang_gin.User.Server.{serve_refresh_token, serve_logout, call}
use golang_gin.User.Server
use golang_gin.User.Calls.{Call, run}
use golang_gin.User.Replay.{refresh_token-refresh_token}
use golang_gin.Gateway.Auth.{
  Answer, Cookie, Config, plain, error_text, answer, error_answer, rate_limit, respond_with_auth,
  clear_refresh_cookie, refresh_with, refresh_token, logged_out, logout,
}
use golang_gin.Rpc.Laws.{IsFailed, transmit-IsFailed, transmit-eq-replied}
use golang_gin.Gateway.Calls.{respond-IsError, call-IsFailed, call-eq-replied, logout-IsFailed}
use golang_gin.Gateway.Visits.{
  Visit, posts_refresh, posts_logout, visit, visit_all, IsCalled, visit-IsCalled,
}

-- The answer is no success and gives out no token, and the user service is as it was.
abbrev pub IsTurnedAway : World → World × Answer → Type 0
IsTurnedAway w (w', a) = (w' ≡ w) × (a.status ≢ 200) × All (λ (c : Cookie). c.value ≡ "") a.cookies

limited-IsTurnedAway :
    (gate : Result Bool) (w : World) (r : World × Answer)
    → IsTurnedAway w r
    → IsTurnedAway w (rate_limit gate w r)
unfolding rate_limit
limited-IsTurnedAway (err e) w r h = h
limited-IsTurnedAway (ok true) w r h = h
limited-IsTurnedAway (ok false) w r h = (refl, λ is. ground arith, tt)

failed-IsTurnedAway {κ} :
    {A : Type κ} (cfg : Config) (f : A → Answer) (w : World) (r : World × Reply A)
    → IsFailed w r
    → IsTurnedAway w (answer (clear_refresh_cookie cfg ∷ []) f r)
unfolding error_answer clear_refresh_cookie
failed-IsTurnedAway cfg f w r (e, is) = rw is (refl, respond-IsError e, (refl, tt))

replied-eq-200 {κ} :
    {A : Type κ} (cookies : List Cookie) (f : A → Answer) (w : World) (a : Answer)
    (r : World × Reply A)
    → answer cookies f r ≡ (w, a)
    → a.status ≡ 200
    → (x : A) × (r ≡ (w, replied x))
unfolding error_answer
replied-eq-200 cookies f w a (v, replied x) h is = (x, ap (λ y. (y.0, replied x)) h)
replied-eq-200 cookies f w a (v, failed e) h is =
    absurd (respond-IsError e (ap (λ y. y.1.status) h ∙ is))

limited-eq-200 :
    (gate : Result Bool) (w w' : World) (r : World × Answer) (a : Answer)
    → rate_limit gate w r ≡ (w', a)
    → a.status ≡ 200
    → r ≡ (w', a)
unfolding rate_limit
limited-eq-200 (err e) w w' r a h is = h
limited-eq-200 (ok true) w w' r a h is = h
limited-eq-200 (ok false) w w' r a h is = absurd (ground arith)

-- Without a cookie the answer is 401.
given-eq-200 :
    (b : Bool) (w w' : World) (r : World × Answer) (a : Answer)
    → (if b then (w, plain 401 (error_text "missing refresh token")) else r) ≡ (w', a)
    → a.status ≡ 200
    → r ≡ (w', a)
given-eq-200 true w w' r a h is = absurd (ground arith)
given-eq-200 false w w' r a h is = h

given-IsTurnedAway :
    (b : Bool) (w : World) (x y : World × Answer)
    → b ≡ false
    → IsTurnedAway w y
    → IsTurnedAway w (if b then x else y)
given-IsTurnedAway true w x y is h = absurd (ground arith)
given-IsTurnedAway false w x y is h = h

run-append :
    (deps : Deps) (cs ds : List Call) (w : World)
    → run deps ds (run deps cs w) ≡ run deps (cs ++ ds) w
run-append deps [] ds w = refl
run-append deps (c ∷ cs) ds w = run-append deps cs ds _

module _ (deps : Deps) (cfg : Config) where
  visit_all-IsCalled : (vs : List Visit) (w : World) → IsCalled deps cfg w (visit_all deps cfg vs w)
  visit_all-IsCalled [] w = ([], refl)
  visit_all-IsCalled (v ∷ vs) w =
      let (cs, first) = visit-IsCalled deps cfg v w in
      let (ds, rest) = visit_all-IsCalled vs (visit deps cfg v w).0 in
      (cs ++ ds, rest ∙ (ap (run deps ds) first ∙ run-append deps cs ds w))

  -- A refresh that the gateway answers with 200 is one of the service.
  refresh-eq-200 :
      (gate : Result Bool) (link : Link) (env : CallEnv) (refresh : RefreshEnv) (issue : IssueEnv)
      (token : String) (w w' : World) (a : Answer)
      → visit deps cfg (posts_refresh gate link env refresh issue (some token)) w ≡ (w', a)
      → a.status ≡ 200
      → (x : AuthResponse) × (Session.refresh_token deps refresh issue (some token) w ≡ (w', ok x))
  unfolding visit refresh_token serve_refresh_token
  refresh-eq-200 gate link env refresh issue token w w' a h is =
      let passed = limited-eq-200 gate w w' _ a h is in
      let (x, sent) =
        replied-eq-200 (clear_refresh_cookie cfg ∷ []) (respond_with_auth cfg) w' a
          (transmit link w (serve_refresh_token deps env [] refresh issue token w))
          (given-eq-200 (str_eq token "") w w' _ a passed is) is in
      let arrived = transmit-eq-replied link w w' _ x sent in
      let (c, served) =
        call-eq-replied Server.refresh_token env [] w
          (λ claims. Session.refresh_token deps refresh issue (some token) w) w' x arrived in
      (x, served)

  refresh-IsTurnedAway :
      (gate : Result Bool) (link : Link) (env : CallEnv) (refresh : RefreshEnv) (issue : IssueEnv)
      (token : String) (w : World) (e : GoError)
      → Session.refresh_token deps refresh issue (some token) w ≡ (w, err e)
      → IsTurnedAway w (visit deps cfg (posts_refresh gate link env refresh issue (some token)) w)
  unfolding visit refresh_token serve_refresh_token
  refresh-IsTurnedAway gate link env refresh issue token w e h = limited-IsTurnedAway gate w _ (
      either (str_eq token "") (
        failed-IsTurnedAway cfg (respond_with_auth cfg) w _ (
          transmit-IsFailed link w _
            (call-IsFailed Server.refresh_token env [] w _ (λ c. (e, h))))))
    where
      either :
          (b : Bool)
          → IsTurnedAway w (refresh_with deps cfg link env refresh issue token w)
          → IsTurnedAway w (
              if b
              then (w, plain 401 (error_text "missing refresh token"))
              else refresh_with deps cfg link env refresh issue token w)
      either true r = (refl, λ is. ground arith, tt)
      either false r = r

  -- From end to end, a refresh cookie is good for one answer: once the gateway has answered a refresh
  -- with 200, every later refresh with the same token is turned away, whatever requests to the
  -- gateway come in between, whatever fails in them or in the network, and whatever the limiters say:
  -- its answer is not 200 and gives out no token, and the user service stays as it was.
  pub visit_refresh-IsTurnedAway :
      (gate gate' : Result Bool) (link link' : Link) (env env' : CallEnv)
      (refresh refresh' : RefreshEnv) (issue issue' : IssueEnv) (token : String) (w w' : World)
      (a : Answer)
      → visit deps cfg (posts_refresh gate link env refresh issue (some token)) w ≡ (w', a)
      → a.status ≡ 200
      → (vs : List Visit)
      → IsTurnedAway (visit_all deps cfg vs w') (
          visit deps cfg
            (posts_refresh gate' link' env' refresh' issue' (some token))
            (visit_all deps cfg vs w'))
  visit_refresh-IsTurnedAway gate gate' link link' env env' refresh refresh' issue issue' token w w'
        a h is vs =
      let (x, served) = refresh-eq-200 gate link env refresh issue token w w' a h is in
      let (cs, reached) = visit_all-IsCalled vs w' in
      let (e, refused) =
        refresh_token-refresh_token deps refresh issue token w w' x served cs refresh' issue' in
      refresh-IsTurnedAway gate' link' env' refresh' issue' token (visit_all deps cfg vs w') e
        (rw (← reached) at refused)

  -- `Logout` at the gateway logs nobody out: with a cookie in the request the call is made without a
  -- token, for a method that is not public, so that whatever the network and the limiters do, the
  -- answer is not 200 and the user service stays as it was, with the refresh token as good as before.
  pub visit_logout-IsTurnedAway :
      (gate : Result Bool) (link : Link) (env : CallEnv) (get fault : Fault) (token : String)
      (w : World)
      → str_eq token "" ≡ false
      → IsTurnedAway w (visit deps cfg (posts_logout gate link env get fault (some token)) w)
  unfolding visit logout serve_logout
  visit_logout-IsTurnedAway gate link env get fault token w full = limited-IsTurnedAway gate w _ (
      given-IsTurnedAway (str_eq token "") w _ _ full (
        failed-IsTurnedAway cfg (λ _. logged_out deps cfg) w _
          (transmit-IsFailed link w _
            (logout-IsFailed env w (λ claims. Session.logout deps get fault (some token) w)))))
