-- ===== src/User/Service.antt =====
-- services/user-service/internal/service: what the service is made with, and the tokens that every
-- login issues.
use golang_gin.Prelude.{ℕ, ◌+◌, ◌/◌, String, Bool, false, Option, some, List}
use golang_gin.Errors.{Result, ok, err, ◌>>=◌, Fault}
use golang_gin.Auth.{Jwt, Bcrypt, generate_access_token, generate_refresh_token}
use golang_gin.User.{Role, role_text, User, RefreshToken}
use golang_gin.User.Tokens
use golang_gin.User.Tokens.{get_by_token_hash, revoke}
use golang_gin.User.Challenges.{Cache}

-- What the service is made with, and what it needs of libraries: UUIDs as texts, the equality of
-- emails, the hash of refresh tokens, JWT and bcrypt, and the text of five digits of a number.
pub record Deps : Type 0 where
  pub parse : String → Option ℕ
  pub format : ℕ → String
  pub same_email : String → String → Bool
  pub hash_token : String → String
  pub jwt : Jwt
  pub bcrypt : Bcrypt
  pub digits : ℕ → String
  pub secret : String
  pub access_ttl : ℕ
  pub refresh_ttl : ℕ

-- `otpTTL`, two minutes.
abbrev pub otp_ttl : ℕ
otp_ttl = 120000000000

abbrev pub dummy_password_hash : String
dummy_password_hash = "$2a$10$e8T.A0N1E8a1O5r.O4M6e.J9V2O1K1E8a1O5r.O4M6e.J9V2O1K1E"

-- The state of the service.
pub record World : Type 0 where
  pub users : List User
  pub tokens : List RefreshToken
  pub challenges : Cache
  pub sent : List (ℕ × String × String × Fault)

-- `pb.User`, without the time of creation.
pub record ProtoUser : Type 0 where
  pub id : String
  pub email : String
  pub phone_number : String
  pub full_name : String
  pub role : Role

-- `pb.AuthResponse`
pub record AuthResponse : Type 0 where
  pub access_token : String
  pub refresh_token : String
  pub expires_in : ℕ
  pub user : ProtoUser

-- The surroundings of one `issueTokens`: the times of its parts, the random text, the insertion.
pub record IssueEnv : Type 0 where
  pub signed : ℕ
  pub random : Result String
  pub issued : ℕ
  pub created : ℕ
  pub insert : Fault
  pub fresh : ℕ

module _ (deps : Deps) where
  open deps use {
    parse, format, same_email, hash_token, jwt, bcrypt, secret, access_ttl, refresh_ttl,
  }

  -- `toProtoUser` of a user, with `toProtoRole`, which keeps the four roles apart.
  unfoldable pub to_proto_user : User → ProtoUser
  to_proto_user u = record {
    id = format u.id;
    email = u.email;
    phone_number = u.phone_number;
    full_name = u.full_name;
    role = u.role;
  }

  -- `toProtoAuth`
  unfoldable pub to_proto_auth : User → String × String × ℕ → AuthResponse
  unfolding to_proto_user
  to_proto_auth u (access, refresh, expires) = record {
    access_token = access;
    refresh_token = refresh;
    expires_in = expires;
    user = to_proto_user u;
  }

  -- The row that `issueTokens` stores for a refresh token.
  abbrev pub token_row : ℕ → User → String → RefreshToken
  token_row issued u refresh = record {
    id = 0;
    user_id = u.id;
    token_hash = hash_token refresh;
    expires_at = issued + refresh_ttl;
    revoked = false;
  }

  -- `issueTokens`: the table, and the tokens with the seconds that the access token lives.
  unfoldable pub issue_tokens :
      IssueEnv
      → List User
      → User
      → List RefreshToken
      → Result (List RefreshToken × (String × String × ℕ))
  unfolding generate_access_token generate_refresh_token Tokens.create
  issue_tokens env users u rows = do
    access ← generate_access_token jwt secret (format u.id) (role_text u.role) access_ttl env.signed
    refresh ← generate_refresh_token env.random
    rows' ←
        Tokens.create env.insert env.created env.fresh users (some (token_row env.issued u refresh))
          rows
    ok (rows', (access, refresh, access_ttl / 1000000000))

  -- The end of every login: the outcome of `issueTokens` for a user.
  unfoldable pub answered :
      World
      → User
      → Result (List RefreshToken × (String × String × ℕ))
      → World × Result AuthResponse
  unfolding to_proto_auth
  answered w u (err e) = (w, err e)
  answered w u (ok (rows, issued)) = (record w { tokens = rows }, ok (to_proto_auth u issued))

  unfoldable pub log_in : IssueEnv → World → Result User → World × Result AuthResponse
  unfolding issue_tokens answered
  log_in env w (err e) = (w, err e)
  log_in env w (ok u) = answered w u (issue_tokens env w.users u w.tokens)
