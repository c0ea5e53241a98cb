-- ===== src/Gateway/Answers.antt =====
-- The form of what the gateway answers.
use text.Mathlib.Text.{◌==◌ as str_eq}
use golang_gin.Prelude.{
  ℕ, ◌≡◌, refl, Bool, true, false, ◌⊎◌, inl, inr, none, some, List, [], ◌∷◌, All, contains,
  if◌then◌else◌, arith,
}
use golang_gin.Errors.{Result, ok, err}
use golang_gin.Errors.Grpc.{RemoteError, with_status, no_status}
use golang_gin.Errors.Http.{respond, http_status_from_code}
use golang_gin.Rpc.{Reply, replied, failed}
use golang_gin.User.Service.{Deps, World, AuthResponse}
use golang_gin.Gateway.Auth.{
  Cookie, Content, error_text, error_body, Answer, Config, refresh_cookie_name, refresh_cookie_path,
  plain, error_answer, rate_limit, answer, respond_with_auth, set_refresh_cookie,
  clear_refresh_cookie, logged_out, register, password_login, otp_login, verify_otp, refresh_token,
  logout, get_user,
}
use golang_gin.Gateway.Visits.{
  Visit, posts_register, posts_password, posts_otp, posts_verify, posts_refresh, posts_logout,
  gets_user, visit,
}

abbrev pub error_statuses : List ℕ
error_statuses = 400 ∷ 401 ∷ 403 ∷ 404 ∷ 409 ∷ 429 ∷ 500 ∷ []

abbrev pub is_error : Content → Bool
is_error (error_text text) = true
is_error (error_body body) = true
is_error _ = false

-- A cookie is the refresh cookie, restricted to its path.
abbrev pub IsRefreshCookie : Cookie → Type 0
IsRefreshCookie c = (c.name ≡ refresh_cookie_name) × (c.path ≡ refresh_cookie_path)

-- A success with a body of its own, or an error with a body that is one and without a token.
abbrev pub IsFormed : Answer → Type 0
IsFormed a =
    All IsRefreshCookie a.cookies
    × (((a.status ≡ 200) × (is_error a.content ≡ false))
        ⊎ ((contains a.status error_statuses ≡ true)
            × (is_error a.content ≡ true)
            × All (λ (c : Cookie). c.value ≡ "") a.cookies))

respond-status : (e : RemoteError) → contains (respond e).0 error_statuses ≡ true
unfolding respond http_status_from_code
respond-status (with_status st) = ground arith
respond-status (no_status e) = refl

-- The cookies that are set before an error.
abbrev AreCleared : List Cookie → Type 0
AreCleared cookies = All IsRefreshCookie cookies × All (λ (c : Cookie). c.value ≡ "") cookies

answer-IsFormed {κ} :
    {A : Type κ} (cookies : List Cookie) (f : A → Answer) (r : World × Reply A)
    → AreCleared cookies
    → ((a : A) → IsFormed (f a))
    → IsFormed (answer cookies f r).1
unfolding error_answer
answer-IsFormed cookies f (w, replied a) cleared good = good a
answer-IsFormed cookies f (w, failed e) cleared good =
    (cleared.0, inr (respond-status e, refl, cleared.1))

limited-IsFormed :
    (gate : Result Bool) (w : World) (r : World × Answer)
    → IsFormed r.1
    → IsFormed (rate_limit gate w r).1
unfolding rate_limit
limited-IsFormed (err e) w r h = h
limited-IsFormed (ok true) w r h = h
limited-IsFormed (ok false) w r h = (tt, inr (refl, refl, tt))

either-IsFormed :
    (b : Bool) (x y : World × Answer)
    → IsFormed x.1
    → IsFormed y.1
    → IsFormed (if b then x else y).1
either-IsFormed true x y h k = h
either-IsFormed false x y h k = k

invalid : (w : World) → IsFormed (plain 400 (error_text "invalid request body"))
invalid w = (tt, inr (refl, refl, tt))

module _ (deps : Deps) (cfg : Config) where
  session-IsFormed : (a : AuthResponse) → IsFormed (respond_with_auth cfg a)
  unfolding respond_with_auth set_refresh_cookie
  session-IsFormed a = (((refl, refl), tt), inl (refl, refl))

  cleared : AreCleared (clear_refresh_cookie cfg ∷ [])
  unfolding clear_refresh_cookie
  cleared = (((refl, refl), tt), (refl, tt))

  logged_out-IsFormed : IsFormed (logged_out deps cfg)
  unfolding logged_out clear_refresh_cookie
  logged_out-IsFormed = (((refl, refl), tt), inl (refl, refl))

  -- Every request to an endpoint for users, whatever happens to it, is answered in one of two forms:
  -- with status 200 and a body that is no error, or with one of the statuses 400, 401, 403, 404, 409,
  -- 429 and 500 and a body that is an error, giving out no token. The only cookie that is ever set is
  -- the refresh cookie, restricted to its path.
  pub visit-IsFormed : (v : Visit) (w : World) → IsFormed (visit deps cfg v w).1
  unfolding visit register password_login otp_login verify_otp refresh_token logout get_user
  visit-IsFormed (posts_register gate link env insert fresh issue none) w =
      limited-IsFormed gate w _ (invalid w)
  visit-IsFormed (posts_register gate link env insert fresh issue (some body)) w =
      limited-IsFormed gate w _ (answer-IsFormed _ _ _ (tt, tt) session-IsFormed)
  visit-IsFormed (posts_password gate link env select issue none) w =
      limited-IsFormed gate w _ (invalid w)
  visit-IsFormed (posts_password gate link env select issue (some body)) w =
      limited-IsFormed gate w _ (answer-IsFormed _ _ _ (tt, tt) session-IsFormed)
  visit-IsFormed (posts_otp gate link env otp none) w = limited-IsFormed gate w _ (invalid w)
  visit-IsFormed (posts_otp gate link env otp (some body)) w =
      limited-IsFormed gate w _ (answer-IsFormed _ _ _ (tt, tt) (λ a. (tt, inl (refl, refl))))
  visit-IsFormed (posts_verify gate link env verify issue none) w =
      limited-IsFormed gate w _ (invalid w)
  visit-IsFormed (posts_verify gate link env verify issue (some body)) w =
      limited-IsFormed gate w _ (answer-IsFormed _ _ _ (tt, tt) session-IsFormed)
  visit-IsFormed (posts_refresh gate link env refresh issue none) w =
      limited-IsFormed gate w _ (tt, inr (refl, refl, tt))
  visit-IsFormed (posts_refresh gate link env refresh issue (some token)) w =
      limited-IsFormed gate w _ (
        either-IsFormed (str_eq token "") _ _ (tt, inr (refl, refl, tt))
          (answer-IsFormed _ _ _ cleared session-IsFormed))
  visit-IsFormed (posts_logout gate link env get fault none) w =
      limited-IsFormed gate w _ logged_out-IsFormed
  visit-IsFormed (posts_logout gate link env get fault (some token)) w = limited-IsFormed gate w _ (
      either-IsFormed (str_eq token "") _ _ logged_out-IsFormed
        (answer-IsFormed _ _ _ cleared (λ a. logged_out-IsFormed)))
  visit-IsFormed (gets_user link env select header id) w =
      answer-IsFormed _ _ _ (tt, tt) (λ a. (tt, inl (refl, refl)))
