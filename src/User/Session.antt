-- ===== src/User/Session.antt =====
-- services/user-service/internal/service: the rotation of refresh tokens, `Logout` and `GetUser`.
use text.Mathlib.Text.{◌==◌ as str_eq}
use golang_gin.Prelude.{ℕ, String, ◌||◌, not, Option, none, some, List, if◌then◌else◌}
use golang_gin.Errors.{
  unauthenticated, permission_denied, not_found, invalid_input, new, get_kind, kind_eq, Result, ok,
  err, ◌>>=◌, ◌>>◌, guard, Fault,
}
use golang_gin.Auth.{AccessClaims}
use golang_gin.User.{User, RefreshToken, is_valid}
use golang_gin.User.Table.{get_by_id}
use golang_gin.User.Tokens.{get_by_token_hash, revoke}
use golang_gin.User.Service.{Deps, World, ProtoUser, AuthResponse, IssueEnv, to_proto_user, log_in}

-- The surroundings of `RefreshToken` up to the tokens.
pub record RefreshEnv : Type 0 where
  pub get : Fault
  pub checked : ℕ
  pub revoke : Fault
  pub select : Fault

module _ (deps : Deps) where
  open deps use {parse, hash_token}

  -- The row of `RefreshToken`, if it may be used.
  abbrev pub usable : ℕ → Result RefreshToken → Result RefreshToken
  usable now (err e) =
      if kind_eq (get_kind e) not_found
      then err (new unauthenticated "refresh token is invalid, expired, or already used")
      else err e
  usable now (ok t) =
      if not (is_valid now t)
      then err (new unauthenticated "refresh token is invalid, expired, or revoked")
      else ok t

  -- `RefreshToken` up to the revocation: the tokens, and the id of the user. The request is nil or
  -- its token.
  unfoldable pub redeem :
      RefreshEnv → Option String → List RefreshToken → Result (List RefreshToken × ℕ)
  unfolding get_by_token_hash is_valid revoke
  redeem env none rows = err (new invalid_input "refresh token request cannot be nil")
  redeem env (some token) rows = do
    guard (not (str_eq token "")) invalid_input "refresh token is required"
    t ← usable env.checked (get_by_token_hash env.get (hash_token token) rows)
    rows' ← revoke env.revoke t.id rows
    ok (rows', t.user_id)

  -- `RefreshToken` from the revocation on.
  unfoldable pub redeemed :
      RefreshEnv → IssueEnv → World → Result (List RefreshToken × ℕ) → World × Result AuthResponse
  unfolding get_by_id log_in
  redeemed env issue w (err e) = (w, err e)
  redeemed env issue w (ok (rows, user)) =
      log_in deps issue (record w { tokens = rows }) (get_by_id env.select user w.users)

  unfoldable pub refresh_token :
      RefreshEnv → IssueEnv → Option String → World → World × Result AuthResponse
  unfolding redeem redeemed
  refresh_token env issue request w = redeemed env issue w (redeem env request w.tokens)

  -- The rows after a revocation whose error is ignored.
  abbrev pub revoked : Result (List RefreshToken) → List RefreshToken → List RefreshToken
  revoked (ok rows) old = rows
  revoked (err e) old = old

  -- `Logout` by the row that it finds.
  unfoldable pub logged_out : Fault → World → Result RefreshToken → World × Result (Unit {0})
  unfolding revoke
  logged_out fault w (err e) = if kind_eq (get_kind e) not_found then (w, ok tt) else (w, err e)
  logged_out fault w (ok t) =
      (record w { tokens = revoked (revoke fault t.id w.tokens) w.tokens }, ok tt)

  unfoldable pub logout : Fault → Fault → Option String → World → World × Result (Unit {0})
  unfolding get_by_token_hash logged_out
  logout get fault none w = (w, ok tt)
  logout get fault (some token) w =
      let done = logged_out fault w (get_by_token_hash get (hash_token token) w.tokens) in
      if str_eq token "" then (w, ok tt) else done

  -- `GetUser`; the request is nil or its id.
  unfoldable pub get_user :
      Fault → Option AccessClaims → Option String → List User → Result ProtoUser
  unfolding get_by_id to_proto_user
  get_user select claims none users = err (new invalid_input "user id is required")
  get_user select claims (some id_text) users = do
    guard (not (str_eq id_text "")) invalid_input "user id is required"
    elim (parse id_text) [
      | none ↦ err (new invalid_input "invalid user id format")
      | some id ↦ elim claims [
        | none ↦ err (new unauthenticated "authentication required")
        | some c ↦ do
          guard (str_eq c.user_id id_text || str_eq c.role "admin") permission_denied
              "you are not allowed to view this user's profile"
          u ← get_by_id select id users
          ok (to_proto_user deps u)
      ]
    ]
