-- ===== src/User/Calls.antt =====
-- Sequences of calls of the user service, and the refresh tokens that they spend.
use golang_gin.Prelude.{ℕ, ◌≡◌, refl, String, false, Option, some, List, [], ◌∷◌, inl, inr, arith}
use golang_gin.Errors.{Result, ok, err, Fault, Result-cases}
use golang_gin.Auth.{generate_refresh_token}
use golang_gin.User.{User, RefreshToken, is_valid}
use golang_gin.User.Table.{Lookup, get_by_id}
use golang_gin.User.Tokens
use golang_gin.User.Tokens.{has_hash, get_by_token_hash, revoke}
use golang_gin.User.Challenges.{Cache}
use golang_gin.User.Service.{Deps, World, IssueEnv, token_row, issue_tokens, answered, log_in}
use golang_gin.User.Login.{RegisterRequest, registered, register, password_login}
use golang_gin.User.Otp.{OtpEnv, VerifyEnv, sent_out, otp_login, consumed, verify_otp}
use golang_gin.User.Session.{RefreshEnv, redeem, redeemed, refresh_token, logout}
use golang_gin.User.Rotation.{IsSpent, create-IsSpent}

-- A call of the service that may change its state, with its surroundings.
pub data Call : Type 0 where
  registers : Fault → ℕ → IssueEnv → Option RegisterRequest → Call
  logs_in : Lookup → IssueEnv → Option (String × String) → Call
  asks_for_code : OtpEnv → Option String → Call
  verifies : VerifyEnv → IssueEnv → Option (String × String) → Call
  refreshes : RefreshEnv → IssueEnv → Option String → Call
  logs_out : Fault → Fault → Option String → Call

module _ (deps : Deps) where
  open deps use {hash_token}

  unfoldable pub serve : Call → World → World
  unfolding register password_login otp_login verify_otp refresh_token logout
  serve (registers insert fresh env request) w = (register deps insert fresh env request w).0
  serve (logs_in select env request) w = (password_login deps select env request w).0
  serve (asks_for_code env request) w = (otp_login deps env request w).0
  serve (verifies env issue request) w = (verify_otp deps env issue request w).0
  serve (refreshes env issue request) w = (refresh_token deps env issue request w).0
  serve (logs_out get fault request) w = (logout deps get fault request w).0

  abbrev pub run : List Call → World → World
  run [] w = w
  run (c ∷ cs) w = run cs (serve c w)

  issue_tokens-eq-ok :
      (env : IssueEnv) (users : List User) (u : User) (rows rows' : List RefreshToken)
      (x : String × String × ℕ)
      → issue_tokens deps env users u rows ≡ ok (rows', x)
      → (refresh : String) × (Tokens.create env.insert env.created env.fresh users
            (some (token_row deps env.issued u refresh))
            rows
          ≡ ok rows')
  unfolding issue_tokens
  issue_tokens-eq-ok env users u rows rows' x h =
      elim (Result-cases (generate_refresh_token env.random)) [
        | inl (e, is) ↦ absurd (ground (arith, is))
        | inr (refresh, is) ↦ (refresh, ground (arith, is))
      ]

  pub log_in-IsSpent :
      (env : IssueEnv) (hash : String) (w : World) (r : Result User)
      → IsSpent hash w.tokens
      → IsSpent hash (log_in deps env w r).0.tokens
  unfolding log_in answered
  log_in-IsSpent env hash w (err e) s = s
  log_in-IsSpent env hash w (ok u) s =
      elim (Result-cases (issue_tokens deps env w.users u w.tokens)) [
        | inl (e, is) ↦ rw is s
        | inr ((rows, x), is) ↦
            let (refresh, made) = issue_tokens-eq-ok env w.users u w.tokens rows x is in
            rw is (
              create-IsSpent env.insert env.created env.fresh w.users
                (token_row deps env.issued u refresh) hash w.tokens rows s made)
      ]

  pub registered-IsSpent :
      (env : IssueEnv) (hash : String) (w : World) (r : Result (List User × User))
      → IsSpent hash w.tokens
      → IsSpent hash (registered deps env w r).0.tokens
  unfolding registered
  registered-IsSpent env hash w (err e) s = s
  registered-IsSpent env hash w (ok (users, u)) s =
      log_in-IsSpent env hash (record w { users = users }) (ok u) s

  pub sent_out-tokens :
      (env : OtpEnv) (w : World) (r : Result (Cache × User × String))
      → (sent_out deps env w r).0.tokens ≡ w.tokens
  unfolding sent_out
  sent_out-tokens env w (err e) = refl
  sent_out-tokens env w (ok (cache, u, code)) = refl

  pub consumed-IsSpent :
      (env : VerifyEnv) (issue : IssueEnv) (hash : String) (w : World) (r : Result (Cache × ℕ))
      → IsSpent hash w.tokens
      → IsSpent hash (consumed deps env issue w r).0.tokens
  unfolding consumed
  consumed-IsSpent env issue hash w (err e) s = s
  consumed-IsSpent env issue hash w (ok (cache, user)) s =
      log_in-IsSpent issue hash (record w { challenges = cache })
        (get_by_id env.select user w.users) s

  -- What `RefreshToken` redeems, it takes from a row that was found and not revoked.
  pub redeem-eq-ok :
      (env : RefreshEnv) (token : String) (rows rows' : List RefreshToken) (user : ℕ)
      → redeem deps env (some token) rows ≡ ok (rows', user)
      → (t : RefreshToken) × (get_by_token_hash env.get (hash_token token) rows ≡ ok t)
        × (t.revoked ≡ false)
        × (revoke env.revoke t.id rows ≡ ok rows')
  unfolding redeem is_valid
  redeem-eq-ok env token rows rows' user h =
      elim (Result-cases (get_by_token_hash env.get (hash_token token) rows)) [
        | inl (e, is) ↦ absurd (ground (arith, is))
        | inr (t, is) ↦ (t, is, ground (arith, is), ground (arith, is))
      ]

  pub redeemed-IsSpent :
      (env : RefreshEnv) (issue : IssueEnv) (hash : String) (w : World)
      (r : Result (List RefreshToken × ℕ))
      → ((rows : List RefreshToken) (user : ℕ) → r ≡ ok (rows, user) → IsSpent hash rows)
      → IsSpent hash w.tokens
      → IsSpent hash (redeemed deps env issue w r).0.tokens
  unfolding redeemed
  redeemed-IsSpent env issue hash w (err e) f s = s
  redeemed-IsSpent env issue hash w (ok (rows, user)) f s =
      log_in-IsSpent issue hash (record w { tokens = rows }) (get_by_id env.select user w.users)
        (f rows user refl)
