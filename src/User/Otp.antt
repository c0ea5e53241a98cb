-- ===== src/User/Otp.antt =====
-- services/user-service/internal/service/user.go: `OTPLogin` and `VerifyOTP`. The codes that are
-- sent out go into a list, the latest first.
use text.Mathlib.Text.{◌==◌ as str_eq}
use golang_gin.Prelude.{ℕ, ◌+◌, ◌/◌, String, not, Option, none, some, List, ◌∷◌}
use golang_gin.Errors.{
  unauthenticated, invalid_input, new, Result, ok, err, ◌>>=◌, ◌>>◌, guard, Fault,
}
use golang_gin.Auth.{generate_otp}
use golang_gin.User.{User, OtpChallenge}
use golang_gin.User.Table.{Lookup, get_by_id, get_by_email_or_phone}
use golang_gin.User.Challenges.{Cache, save_challenge, get_challenge, delete_challenge}
use golang_gin.User.Service.{Deps, World, AuthResponse, IssueEnv, otp_ttl, log_in}
use golang_gin.User.Login.{known}

-- The surroundings of one `OTPLogin`: the random number, the id of the challenge, the times.
pub record OtpEnv : Type 0 where
  pub select : Lookup
  pub random : Result ℕ
  pub fresh : ℕ
  pub started : ℕ
  pub saved : ℕ
  pub save : Fault
  pub broker : Fault

-- The surroundings of `VerifyOTP` up to the tokens.
pub record VerifyEnv : Type 0 where
  pub read : ℕ
  pub get : Fault
  pub deleted : ℕ
  pub delete : Fault
  pub select : Fault

module _ (deps : Deps) where
  open deps use {parse, format, same_email}

  -- The user of `OTPLogin`.
  unfoldable pub otp_user : Lookup → Option String → List User → Result User
  unfolding get_by_email_or_phone
  otp_user select none users = err (new invalid_input "login request cannot be nil")
  otp_user select (some phone) users = do
    guard (not (str_eq phone "")) invalid_input "phone number is required"
    o ← known deps (get_by_email_or_phone same_email select phone users)
    elim o [ none ↦ err (new unauthenticated "invalid phone number or email") | some u ↦ ok u ]

  abbrev pub challenge_for : OtpEnv → User → String → OtpChallenge
  challenge_for env u code = record {
    id = env.fresh;
    user_id = u.id;
    phone_number = u.phone_number;
    code = code;
    expires_at = env.started + otp_ttl;
  }

  -- What `OTPLogin` stores: the challenges, and the user and the code to be sent.
  unfoldable pub challenged : OtpEnv → Option String → World → Result (Cache × User × String)
  unfolding otp_user generate_otp save_challenge
  challenged env request w = do
    u ← otp_user env.select request w.users
    code ← generate_otp deps.digits env.random
    cache ← save_challenge env.save env.saved (some (challenge_for env u code)) otp_ttl w.challenges
    ok (cache, u, code)

  -- The end of `OTPLogin`: a publication that fails is only logged. The answer is the id of the
  -- challenge and its seconds.
  unfoldable pub sent_out :
      OtpEnv → World → Result (Cache × User × String) → World × Result (String × ℕ)
  sent_out env w (err e) = (w, err e)
  sent_out env w (ok (cache, u, code)) = (
    record w { challenges = cache; sent = (u.id, u.phone_number, code, env.broker) ∷ w.sent },
    ok (format env.fresh, otp_ttl / 1000000000),
  )

  unfoldable pub otp_login : OtpEnv → Option String → World → World × Result (String × ℕ)
  unfolding challenged sent_out
  otp_login env request w = sent_out env w (challenged env request w)

  -- `VerifyOTP` up to the deletion: the challenges and the user's id. The request is nil or the
  -- texts of the challenge's id and of the code.
  unfoldable pub consume : VerifyEnv → Option (String × String) → Cache → Result (Cache × ℕ)
  unfolding get_challenge delete_challenge
  consume env none cache = err (new invalid_input "verify otp request cannot be nil")
  consume env (some (id_text, code)) cache = do
    guard (not (str_eq id_text "")) invalid_input "challenge id is required"
    guard (not (str_eq code "")) invalid_input "code is required"
    elim (parse id_text) [
      | none ↦ err (new invalid_input "invalid challenge id format")
      | some id ↦ do
        c ← get_challenge env.get env.read id cache
        guard (str_eq c.code code) invalid_input "invalid otp code"
        cache' ← delete_challenge env.delete env.deleted id cache
        ok (cache', c.user_id)
    ]

  -- `VerifyOTP` from the deletion on.
  unfoldable pub consumed :
      VerifyEnv → IssueEnv → World → Result (Cache × ℕ) → World × Result AuthResponse
  unfolding get_by_id log_in
  consumed env issue w (err e) = (w, err e)
  consumed env issue w (ok (cache, user)) =
      log_in deps issue (record w { challenges = cache }) (get_by_id env.select user w.users)

  unfoldable pub verify_otp :
      VerifyEnv → IssueEnv → Option (String × String) → World → World × Result AuthResponse
  unfolding consume consumed
  verify_otp env issue request w = consumed env issue w (consume env request w.challenges)
