-- ===== src/User/Challenges.antt =====
-- services/user-service/internal/repository/otp.go: the one-time codes in Redis, each under the key
-- of its id up to a deadline. JSON gives a challenge back as it was.
use text.Mathlib.Text.{◌==◌ as str_eq}
use golang_gin.Prelude.{
  ℕ, ◌+◌, Bool, ◌&&◌, not, Option, none, some, List, [], ◌∷◌, if◌then◌else◌, ◌==◌, ltb,
}
use golang_gin.Errors.{
  not_found, invalid_input, internal, new, Result, ok, err, ◌>>◌, guard, Fault, check,
}
use golang_gin.Db.{is_some, find_where}
use golang_gin.User.{OtpChallenge}

-- A key of Redis with its value.
pub record Entry : Type 0 where
  pub challenge : OtpChallenge
  pub deadline : ℕ

abbrev pub Cache : Type 0
Cache = List Entry

-- Whether an entry is there at the time `now`, under the key of an id.
abbrev pub is_live : ℕ → ℕ → Entry → Bool
is_live now id e = (e.challenge.id == id) && ltb now e.deadline

-- `DEL` of the key.
abbrev pub removed : ℕ → Cache → Cache
removed id [] = []
removed id (e ∷ es) = if e.challenge.id == id then removed id es else e ∷ removed id es

unfoldable pub save_challenge : Fault → ℕ → Option OtpChallenge → ℕ → Cache → Result Cache
save_challenge fault now none ttl cache = err (new invalid_input "challenge cannot be nil")
save_challenge fault now (some c) ttl cache = do
  guard (not (c.id == 0)) invalid_input "challenge id cannot be empty"
  guard (not (str_eq c.phone_number "")) invalid_input "phone number cannot be empty"
  guard (not (c.user_id == 0)) invalid_input "user id cannot be empty"
  guard (not (str_eq c.code "")) invalid_input "otp code cannot be empty"
  guard (ltb 0 ttl) invalid_input "TTL must be greater than zero"
  check fault internal "failed to save OTP challenge in Redis"
  ok (record { challenge = c; deadline = now + ttl } ∷ removed c.id cache)

-- The end of `GetChallenge`.
abbrev pub selected : Option Entry → Result OtpChallenge
selected none = err (new not_found "OTP challenge not found or expired")
selected (some e) = ok e.challenge

unfoldable pub get_challenge : Fault → ℕ → ℕ → Cache → Result OtpChallenge
get_challenge fault now id cache = do
  guard (not (id == 0)) invalid_input "challenge id cannot be empty"
  check fault internal "failed to get OTP challenge from Redis"
  selected (find_where (is_live now id) cache)

-- `DeleteChallenge`: an error if the key was not there.
unfoldable pub delete_challenge : Fault → ℕ → ℕ → Cache → Result Cache
delete_challenge fault now id cache = do
  guard (not (id == 0)) invalid_input "challenge id cannot be empty"
  check fault internal "failed to consume otp challenge"
  guard (is_some (find_where (is_live now id) cache)) invalid_input
      "otp challenge is invalid, expired, or already consumed"
  ok (removed id cache)
