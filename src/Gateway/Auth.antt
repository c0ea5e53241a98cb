-- ===== src/Gateway/Auth.antt =====
-- api/internal: the HTTP endpoints for users (handler/auth, client/forward.go), with the rate limit
-- of their group (middleware/ratelimit.go, router/router.go). A body that does not bind is none; the
-- bodies that do have their required fields, which is gin's part.
use text.Mathlib.Text.{◌==◌ as str_eq}
use golang_gin.Prelude.{
  ℕ, String, Bool, true, false, Option, none, some, List, [], ◌∷◌, if◌then◌else◌,
}
use golang_gin.Prelude.Int.{ℤ, negsuc}
use golang_gin.Errors.{Fault, Result, ok, err}
use golang_gin.Errors.Grpc.{RemoteError}
use golang_gin.Errors.Http.{Body, respond}
use golang_gin.Rpc.{Reply, replied, failed, Link, CallEnv, transmit}
use golang_gin.User.{Role}
use golang_gin.User.Table.{Lookup}
use golang_gin.User.Service.{Deps, World, ProtoUser, AuthResponse, IssueEnv}
use golang_gin.User.Login.{RegisterRequest}
use golang_gin.User.Otp.{OtpEnv, VerifyEnv}
use golang_gin.User.Session.{RefreshEnv}
use golang_gin.User.Server.{
  serve_register, serve_password_login, serve_otp_login, serve_verify_otp, serve_refresh_token,
  serve_get_user, serve_logout,
}

-- A cookie that an answer sets; it is `HttpOnly` and `SameSite=Strict` in any case.
pub record Cookie : Type 0 where
  pub name : String
  pub value : String
  pub max_age : ℤ
  pub path : String
  pub domain : String
  pub secure : Bool

-- `userBody`, without its times.
pub record UserBody : Type 0 where
  pub id : String
  pub email : String
  pub phone_number : String
  pub full_name : String
  pub role : String

-- The JSON bodies.
pub data Content : Type 0 where
  error_text : String → Content
  error_body : Body → Content
  auth_body : String → ℕ → UserBody → Content
  otp_body : String → ℕ → Content
  message_text : String → Content
  user_body : UserBody → Content

pub record Answer : Type 0 where
  pub status : ℕ
  pub content : Content
  pub cookies : List Cookie

-- `CookieConfig`, and the names that the generated code gives to roles.
pub record Config : Type 0 where
  pub refresh_max_age_seconds : ℤ
  pub domain : String
  pub secure : Bool
  pub role_name : Role → String

-- `refreshCookieName` and `refreshCookiePath`
abbrev pub refresh_cookie_name : String
refresh_cookie_name = "refresh_token"

abbrev pub refresh_cookie_path : String
refresh_cookie_path = "/api/v1/auth"

-- An answer without cookies.
abbrev pub plain : ℕ → Content → Answer
plain status content = record { status = status; content = content; cookies = [] }

-- `httperrors.Respond` as an answer.
unfoldable pub error_answer : List Cookie → RemoteError → Answer
unfolding respond
error_answer cookies e =
    let (status, body) = respond e in
    record { status = status; content = error_body body; cookies = cookies }

-- The values of "authorization" that `ForwardAuth` sends on.
unfoldable pub forward_auth : String → List String
forward_auth header = if str_eq header "" then [] else header ∷ []

-- `RateLimit`: an error of the limiter lets the call go on.
unfoldable pub rate_limit {ℓ} : {W : Type ℓ} → Result Bool → W → W × Answer → W × Answer
rate_limit (err e) w next = next
rate_limit (ok false) w next =
    (w, plain 429 (error_text "too many requests, please try again later"))
rate_limit (ok true) w next = next

-- `toUserBody` of a user that is not nil.
unfoldable pub to_user_body : Config → ProtoUser → UserBody
to_user_body cfg u = record {
  id = u.id;
  email = u.email;
  phone_number = u.phone_number;
  full_name = u.full_name;
  role = cfg.role_name u.role;
}

-- `setRefreshCookie` and `clearRefreshCookie`
unfoldable pub set_refresh_cookie : Config → String → Cookie
set_refresh_cookie cfg token = record {
  name = refresh_cookie_name;
  value = token;
  max_age = cfg.refresh_max_age_seconds;
  path = refresh_cookie_path;
  domain = cfg.domain;
  secure = cfg.secure;
}

unfoldable pub clear_refresh_cookie : Config → Cookie
clear_refresh_cookie cfg = record {
  name = refresh_cookie_name;
  value = "";
  max_age = negsuc 0;
  path = refresh_cookie_path;
  domain = cfg.domain;
  secure = cfg.secure;
}

-- `respondWithAuth`
unfoldable pub respond_with_auth : Config → AuthResponse → Answer
unfolding set_refresh_cookie to_user_body
respond_with_auth cfg a = record {
  status = 200;
  content = auth_body a.access_token a.expires_in (to_user_body cfg a.user);
  cookies = set_refresh_cookie cfg a.refresh_token ∷ [];
}

-- The answer to a reply; on an error the cookies are those that were set before.
abbrev pub answer {ℓ} : {A : Type ℓ} → List Cookie → (A → Answer) → World × Reply A → World × Answer
answer cookies f (w, replied a) = (w, f a)
answer cookies f (w, failed e) = (w, error_answer cookies e)

abbrev pub invalid_body : Answer
invalid_body = plain 400 (error_text "invalid request body")

module _ (deps : Deps) (cfg : Config) where
  unfoldable pub register :
      Link → CallEnv → Fault → ℕ → IssueEnv → Option RegisterRequest → World → World × Answer
  unfolding serve_register transmit respond_with_auth error_answer
  register link env insert fresh issue none w = (w, invalid_body)
  register link env insert fresh issue (some body) w =
      answer [] (respond_with_auth cfg)
        (transmit link w (serve_register deps env [] insert fresh issue body w))

  unfoldable pub password_login :
      Link → CallEnv → Lookup → IssueEnv → Option (String × String) → World → World × Answer
  unfolding serve_password_login transmit respond_with_auth error_answer
  password_login link env select issue none w = (w, invalid_body)
  password_login link env select issue (some body) w =
      answer [] (respond_with_auth cfg)
        (transmit link w (serve_password_login deps env [] select issue body w))

  unfoldable pub otp_login : Link → CallEnv → OtpEnv → Option String → World → World × Answer
  unfolding serve_otp_login transmit error_answer
  otp_login link env otp none w = (w, invalid_body)
  otp_login link env otp (some phone) w =
      answer [] (λ (id, seconds). plain 200 (otp_body id seconds))
        (transmit link w (serve_otp_login deps env [] otp phone w))

  unfoldable pub verify_otp :
      Link → CallEnv → VerifyEnv → IssueEnv → Option (String × String) → World → World × Answer
  unfolding serve_verify_otp transmit respond_with_auth error_answer
  verify_otp link env verify issue none w = (w, invalid_body)
  verify_otp link env verify issue (some body) w =
      answer [] (respond_with_auth cfg)
        (transmit link w (serve_verify_otp deps env [] verify issue body w))

  -- `RefreshToken`; the cookie may be missing.
  abbrev pub refresh_with : Link → CallEnv → RefreshEnv → IssueEnv → String → World → World × Answer
  refresh_with link env refresh issue token w =
      answer (clear_refresh_cookie cfg ∷ []) (respond_with_auth cfg)
        (transmit link w (serve_refresh_token deps env [] refresh issue token w))

  unfoldable pub refresh_token :
      Link → CallEnv → RefreshEnv → IssueEnv → Option String → World → World × Answer
  unfolding serve_refresh_token transmit respond_with_auth clear_refresh_cookie error_answer
  refresh_token link env refresh issue none w = (w, plain 401 (error_text "missing refresh token"))
  refresh_token link env refresh issue (some token) w =
      let done = refresh_with link env refresh issue token w in
      if str_eq token "" then (w, plain 401 (error_text "missing refresh token")) else done

  -- The end of `Logout` without an error.
  unfoldable pub logged_out : Answer
  unfolding clear_refresh_cookie
  logged_out = record {
    status = 200;
    content = message_text "logged out";
    cookies = clear_refresh_cookie cfg ∷ [];
  }

  unfoldable pub logout : Link → CallEnv → Fault → Fault → Option String → World → World × Answer
  unfolding serve_logout transmit logged_out clear_refresh_cookie error_answer
  logout link env get fault none w = (w, logged_out)
  logout link env get fault (some token) w =
      let done =
        answer (clear_refresh_cookie cfg ∷ []) (λ _. logged_out)
          (transmit link w (serve_logout deps env [] get fault token w)) in
      if str_eq token "" then (w, logged_out) else done

  -- `GetUser`, with the header "Authorization" of the request.
  unfoldable pub get_user : Link → CallEnv → Fault → String → String → World → World × Answer
  unfolding serve_get_user transmit forward_auth to_user_body error_answer
  get_user link env select header id w =
      answer [] (λ u. plain 200 (user_body (to_user_body cfg u)))
        (transmit link w (serve_get_user deps env (forward_auth header) select id w))
