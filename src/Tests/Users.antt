-- ===== src/Tests/Users.antt =====
-- The theorems on accounts and tokens, with a toy JWT library and a toy bcrypt.
use text.Mathlib.Text.{◌==◌ as str_eq}
use text.Mathlib.TextPositions.{eq_refl}
use Prim.Native.String.{◌++◌ as str_append}
use golang_gin.Prelude.{ℕ, ◌≡◌, refl, ◌⊎◌, String, true, false, none, some, [], ◌∷◌, ◌==◌, arith}
use golang_gin.Errors.{GoError, ok, err}
use golang_gin.Auth.{AccessClaims, matches, generate_access_token, parse_access_token}
use golang_gin.Middleware.{runs, auth_interceptor}
use golang_gin.Db.{find_where}
use golang_gin.User.{User}
use golang_gin.User.Table.{choose, answers_to}
use golang_gin.User.Challenges.{Entry, is_live}
use golang_gin.User.Service.{World, ProtoUser, to_proto_user}
use golang_gin.User.Login.{RegisterRequest, register, authenticate, password_login}
use golang_gin.User.Otp.{VerifyEnv, verify_otp}
use golang_gin.User.Session.{refresh_token, logout, get_user}
use golang_gin.User.Calls.{run}
use golang_gin.User.Replay.{refresh_token-refresh_token, refresh_token-logout}
use golang_gin.User.Logins.{IsIn, IsIssued, password_login-IsIssued, password_login-unknown}
use golang_gin.User.Accounts.{authenticate-register, get_user-IsAllowed}
use golang_gin.User.Codes.{verify_otp-verify_otp}
use golang_gin.Prelude.{inr, if◌then◌else◌}
use golang_gin.Errors.{Result}
use golang_gin.Prelude.Int.{pos}
use golang_gin.Config.Env.{Env, string, int, duration, require}
use golang_gin.Config.Services.{UserConfig, load_users}
use golang_gin.Config.Secrets.{auth_interceptor-load}
use golang_gin.Tests.Toys.{
  toy_jwt-IsJwt, toy_jwt, claims_for, toy_bcrypt, toy_deps, alice, first_token, start, issue,
  refresh, answer, after_refresh, query, calls,
}

refresh_token-refresh_token_example :
    (e : GoError) × (refresh_token toy_deps refresh issue
        (some "r0")
        (run toy_deps calls after_refresh)
      ≡ (run toy_deps calls after_refresh, err e))
unfolding refresh_token
refresh_token-refresh_token_example =
    refresh_token-refresh_token toy_deps refresh issue "r0" start after_refresh answer refl calls
      refresh issue

refresh_token-logout_example :
    let after = run toy_deps calls (logout toy_deps none none (some "r0") start).0 in
    (e : GoError) × (refresh_token toy_deps refresh issue (some "r0") after ≡ (after, err e))
refresh_token-logout_example =
    refresh_token-logout toy_deps "r0" start first_token refl refl refl refl calls refresh issue

abbrev after_login : World
unfolding password_login
after_login = (password_login toy_deps query issue (some ("0912", "secret12")) start).0

password_login-IsIssued_example :
    (u : User) × IsIn u start.users
    × (answers_to str_eq "0912" u ≡ true)
    × (toy_bcrypt.compare u.password_hash "secret12" ≡ matches)
    × IsIssued toy_deps u start after_login answer
unfolding password_login
password_login-IsIssued_example =
    password_login-IsIssued toy_deps query issue "0912" "secret12" start after_login answer refl

password_login-unknown_example :
    let wrong = password_login toy_deps query issue (some ("a@x", "guess")) start in
    let unknown = password_login toy_deps query issue (some ("nobody", "guess")) start in
    (wrong.1 ≡ unknown.1) × (wrong.0 ≡ start) × (unknown.0 ≡ start)
unfolding choose
password_login-unknown_example =
    password_login-unknown toy_deps 0 0 issue issue "a@x" "nobody" "guess" "guess" start start alice
      refl refl refl refl refl (ground arith) refl

abbrev elsewhere : User
elsewhere = record alice { id = 7; email = "e@x"; phone_number = "0935" }

abbrev before : World
before = record start { users = elsewhere ∷ []; tokens = [] }

abbrev request : RegisterRequest
request = record {
  email = "a@x";
  phone_number = "0912";
  full_name = "Alice";
  password = "secret12";
}

abbrev registration : World
unfolding register
registration = (register toy_deps none 1 issue (some request) before).0

toy_hashes : (p h : String) → toy_bcrypt.hash p ≡ ok h → toy_bcrypt.compare h p ≡ matches
toy_hashes p h is =
    let here : str_append "h:" p ≡ h = ground arith in rw (← here, eq_refl (str_append "h:" p)) refl

authenticate-register_example :
    (u : User) × (registration.users ≡ u ∷ before.users)
    × (u.id ≡ 1)
    × (u.email ≡ "a@x")
    × (authenticate toy_deps query (some ("a@x", "secret12")) registration.users ≡ ok u)
unfolding register
authenticate-register_example =
    authenticate-register toy_deps none 1 0 issue request before registration answer toy_hashes
      eq_refl refl refl

abbrev profile : ProtoUser
profile = answer.user

abbrev own : AccessClaims
own = claims_for "1" "member"

get_user-IsAllowed_example :
    (c : AccessClaims) × (some own ≡ some c)
    × ((c.user_id ≡ "1") ⊎ (c.role ≡ "admin"))
    × (id : ℕ) × (toy_deps.parse "1" ≡ some id)
    × (u : User) × (find_where (λ v. v.id == id) start.users ≡ some u)
    × (profile ≡ to_proto_user toy_deps u)
unfolding get_user
get_user-IsAllowed_example =
    get_user-IsAllowed toy_deps none (some own) "1" start.users profile refl

abbrev verify : VerifyEnv
verify = record { read = 5; get = none; deleted = 6; delete = none; select = none }

abbrev verified : World
unfolding verify_otp
verified = (verify_otp toy_deps verify issue (some ("7", "54321")) start).0

verify_otp-verify_otp_example :
    ((e : Entry) × (find_where (is_live 5 7) start.challenges ≡ some e)
      × (e.challenge.code ≡ "54321"))
    × ((x : GoError) × (verify_otp toy_deps verify issue
            (some ("7", "54321"))
            (run toy_deps calls verified)
          ≡ (run toy_deps calls verified, err x)))
unfolding verify_otp
verify_otp-verify_otp_example =
    verify_otp-verify_otp toy_deps verify issue "7" "54321" start verified answer refl 7 refl calls
      (tt, (tt, (tt, tt))) verify issue "54321"

abbrev surroundings : Env
surroundings = record {
  getenv = λ key. if str_eq key "JWT_SECRET" then "k" else "x";
  atoi = λ text. ok (pos 1);
  parse_bool = λ text. ok true;
  parse_duration = λ text. ok (pos 10);
}

-- A configuration that is loaded.
abbrev loaded {ℓ} : {A : Type ℓ} → A → Result A → A
loaded old (ok a) = a
loaded old (err e) = old

abbrev no_config : UserConfig
no_config = record {
  grpc_port = "";
  postgres = record { host = ""; port = ""; user = ""; password = ""; db_name = ""; ssl_mode = "" };
  redis = record {
    addr = "";
    password = "";
    db = pos 0;
    pool_size = pos 0;
    min_idle_conns = pos 0;
    conn_max_idle = pos 0;
  };
  rabbit_mq = record { host = ""; port = ""; user = ""; password = ""; vhost = "" };
  jwt = record { secret = ""; access_token_ttl = pos 0 };
  refresh_ttl = pos 0;
}

auth_interceptor-load_example :
    auth_interceptor false (λ t. parse_access_token toy_jwt "k" t 14) (some ("Bearer t" ∷ []))
    ≡ runs (some (claims_for "1" "member"))
unfolding load_users string int duration require generate_access_token
auth_interceptor-load_example =
    auth_interceptor-load toy_jwt toy_jwt-IsJwt surroundings surroundings
      (loaded no_config (load_users surroundings)) "k" 10 refl
      (inr (inr (inr (loaded no_config (load_users surroundings), refl, refl)))) refl refl "1"
      "member" 5 "t" refl 14 []
