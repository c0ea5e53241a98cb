-- ===== src/User/Tokens.antt =====
-- services/user-service/internal/repository/refresh_token.go, with the constraints of
-- migrations/000002_create_refresh_tokens_table.up.sql.
use text.Mathlib.Text.{◌==◌ as str_eq}
use golang_gin.Prelude.{
  ℕ, zero, suc, String, Bool, true, false, ◌&&◌, ◌||◌, not, Option, none, some, List, ◌==◌, ltb,
}
use golang_gin.Errors.{
  not_found, already_exists, invalid_input, internal, new, caused, foreign, Result, ok, err, ◌>>◌,
  guard, Fault, check,
}
use golang_gin.Db.{
  is_some, update_where, count_where, find_where, exec_insert, done, duplicate, Inserted,
}
use golang_gin.User.{User, RefreshToken}

abbrev pub Table : Type 0
Table = List RefreshToken

-- The row that `Create` inserts: its id is the database's, and it is not revoked.
abbrev pub inserted : ℕ → RefreshToken → RefreshToken
inserted fresh t = record t { id = fresh; revoked = false }

-- The end of `Create`; the foreign key is checked after the unique indexes.
abbrev pub created : Bool → Inserted Table → Result Table
created true (done rows) = ok rows
created false (done rows) =
    err (
      caused internal "failed to create refresh token in database"
        (foreign "foreign key violation"))
created known duplicate = err (new already_exists "refresh token already exists")
created known (Inserted.failed e) =
    err (caused internal "failed to create refresh token in database" e)

-- `Create` at the time `now`, with the users that the foreign key refers to.
unfoldable pub create : Fault → ℕ → ℕ → List User → Option RefreshToken → Table → Result Table
unfolding exec_insert
create fault now fresh users none rows = err (new invalid_input "refresh token cannot be nil")
create fault now fresh users (some t) rows = do
  guard (not (t.user_id == 0)) invalid_input "user id cannot be empty"
  guard (not (str_eq t.token_hash "")) invalid_input "token hash cannot be empty"
  guard (not (t.expires_at == 0 || ltb t.expires_at now)) invalid_input
      "token expiration time must be in the future"
  created (is_some (find_where (λ u. u.id == t.user_id) users)) (
      exec_insert (foreign "check constraint") (λ r. true) fault
        (λ r. r.id == fresh || str_eq r.token_hash t.token_hash) (inserted fresh t) rows)

-- The end of `GetByTokenHash`.
abbrev pub selected : Option RefreshToken → Result RefreshToken
selected none = err (new not_found "refresh token not found")
selected (some t) = ok t

abbrev pub has_hash : String → RefreshToken → Bool
has_hash hash t = str_eq t.token_hash hash

unfoldable pub get_by_token_hash : Fault → String → Table → Result RefreshToken
get_by_token_hash fault hash rows = do
  guard (not (str_eq hash "")) invalid_input "token hash cannot be empty"
  check fault internal "failed to get refresh token by hash"
  selected (find_where (has_hash hash) rows)

abbrev pub revoked_row : RefreshToken → RefreshToken
revoked_row t = record t { revoked = true }

abbrev pub is_open : ℕ → RefreshToken → Bool
is_open id t = (t.id == id) && not t.revoked

-- The end of `Revoke`, by the number of rows affected.
abbrev pub affected : Table → ℕ → Result Table
affected rows zero = err (new not_found "refresh token not found or already revoked")
affected rows (suc n) = ok rows

unfoldable pub revoke : Fault → ℕ → Table → Result Table
revoke fault id rows = do
  guard (not (id == 0)) invalid_input "token id cannot be empty"
  check fault internal "failed to revoke refresh token"
  affected (update_where (is_open id) revoked_row rows) (count_where (is_open id) rows)
