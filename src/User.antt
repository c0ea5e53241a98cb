-- ===== src/User.antt =====
-- services/user-service/internal/model: users, refresh tokens and one-time codes. A time is a
-- number of nanoseconds, its zero value is 0; the times of creation and update are left out.
pub mod Table
pub mod Tokens
pub mod Challenges
pub mod Service
pub mod Login
pub mod Otp
pub mod Session
pub mod Rotation
pub mod Calls
pub mod Replay
pub mod Logins
pub mod Accounts
pub mod Gone
pub mod Codes
pub mod Server
use golang_gin.Prelude.{ℕ, String, Bool, true, false, ◌&&◌, not, ltb}

pub data Role : Type 0 where
  admin member viewer unspecified : Role

-- `Role.String`
abbrev pub role_text : Role → String
role_text admin = "admin"
role_text member = "member"
role_text viewer = "viewer"
role_text unspecified = "unspecified"

pub record User : Type 0 where
  pub id : ℕ
  pub email : String
  pub phone_number : String
  pub full_name : String
  pub password_hash : String
  pub role : Role

pub record RefreshToken : Type 0 where
  pub id : ℕ
  pub user_id : ℕ
  pub token_hash : String
  pub expires_at : ℕ
  pub revoked : Bool

-- `RefreshToken.IsValid` at the time `now`.
unfoldable pub is_valid : ℕ → RefreshToken → Bool
is_valid now t = not t.revoked && ltb now t.expires_at

pub record OtpChallenge : Type 0 where
  pub id : ℕ
  pub user_id : ℕ
  pub phone_number : String
  pub code : String
  pub expires_at : ℕ
