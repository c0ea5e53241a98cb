-- ===== src/User/Server.antt =====
-- services/user-service/internal/handler and the chain of internal/server/grpc.go: the calls of the
-- user service as gRPC methods.
use golang_gin.Prelude.{ℕ, String, Bool, true, false, Option, some, List}
use golang_gin.Errors.{Fault, Result}
use golang_gin.Auth.{AccessClaims}
use golang_gin.Rpc.{Reply, CallEnv, handled, chain}
use golang_gin.User.Table.{Lookup}
use golang_gin.User.Service.{Deps, World, ProtoUser, AuthResponse, IssueEnv}
use golang_gin.User.Login.{RegisterRequest}
use golang_gin.User.Login
use golang_gin.User.Otp.{OtpEnv, VerifyEnv}
use golang_gin.User.Otp
use golang_gin.User.Session.{RefreshEnv}
use golang_gin.User.Session

pub data Method : Type 0 where
  registration password_login otp_login verify_otp refresh_token get_user logout : Method

abbrev pub full_name : Method → String
full_name registration = "/user.UserService/Register"
full_name password_login = "/user.UserService/PasswordLogin"
full_name otp_login = "/user.UserService/OTPLogin"
full_name verify_otp = "/user.UserService/VerifyOTP"
full_name refresh_token = "/user.UserService/RefreshToken"
full_name get_user = "/user.UserService/GetUser"
full_name logout = "/user.UserService/Logout"

-- `PublicMethods`
abbrev pub public_methods : Method → Bool
public_methods registration = true
public_methods password_login = true
public_methods otp_login = true
public_methods verify_otp = true
public_methods refresh_token = true
public_methods get_user = false
public_methods logout = false

-- `RateLimitRules`, per minute.
abbrev pub rate_limit_rules : Method → Option ℕ
rate_limit_rules registration = some 5
rate_limit_rules password_login = some 5
rate_limit_rules otp_login = some 3
rate_limit_rules verify_otp = some 5
rate_limit_rules refresh_token = some 10
rate_limit_rules get_user = some 60
rate_limit_rules logout = some 10

abbrev pub domain : String
domain = "user-service"

-- A method behind the interceptors, with the values of "authorization".
unfoldable pub call {κ} :
    {A : Type κ}
    → Method
    → CallEnv
    → List String
    → World
    → (Option AccessClaims → World × Result A)
    → World × Reply A
unfolding chain handled
call m env values w service =
    chain env (full_name m) (public_methods m) (rate_limit_rules m) values w
      (λ claims. handled env.details_ok domain (service claims))

module _ (deps : Deps) where
  unfoldable pub serve_register :
      CallEnv
      → List String
      → Fault
      → ℕ
      → IssueEnv
      → RegisterRequest
      → World
      → World × Reply AuthResponse
  unfolding call Login.register
  serve_register env values insert fresh issue r w =
      call registration env values w (λ claims. Login.register deps insert fresh issue (some r) w)

  unfoldable pub serve_password_login :
      CallEnv
      → List String
      → Lookup
      → IssueEnv
      → String × String
      → World
      → World × Reply AuthResponse
  unfolding call Login.password_login
  serve_password_login env values select issue r w =
      call password_login env values w (λ claims. Login.password_login deps select issue (some r) w)

  unfoldable pub serve_otp_login :
      CallEnv → List String → OtpEnv → String → World → World × Reply (String × ℕ)
  unfolding call Otp.otp_login
  serve_otp_login env values otp r w =
      call otp_login env values w (λ claims. Otp.otp_login deps otp (some r) w)

  unfoldable pub serve_verify_otp :
      CallEnv
      → List String
      → VerifyEnv
      → IssueEnv
      → String × String
      → World
      → World × Reply AuthResponse
  unfolding call Otp.verify_otp
  serve_verify_otp env values verify issue r w =
      call verify_otp env values w (λ claims. Otp.verify_otp deps verify issue (some r) w)

  unfoldable pub serve_refresh_token :
      CallEnv → List String → RefreshEnv → IssueEnv → String → World → World × Reply AuthResponse
  unfolding call Session.refresh_token
  serve_refresh_token env values refresh issue token w =
      call refresh_token env values w
        (λ claims. Session.refresh_token deps refresh issue (some token) w)

  unfoldable pub serve_get_user :
      CallEnv → List String → Fault → String → World → World × Reply ProtoUser
  unfolding call Session.get_user
  serve_get_user env values select id w =
      call get_user env values w
        (λ claims. (w, Session.get_user deps select claims (some id) w.users))

  unfoldable pub serve_logout :
      CallEnv → List String → Fault → Fault → String → World → World × Reply (Unit {0})
  unfolding call Session.logout
  serve_logout env values get fault token w =
      call logout env values w (λ claims. Session.logout deps get fault (some token) w)
