-- ===== src/User/Table.antt =====
-- services/user-service/internal/repository/user.go, with the unique columns of
-- migrations/000001_create_users_table.up.sql. The equality of emails, which are CITEXT and ignore
-- case, is a parameter.
use text.Mathlib.Text.{◌==◌ as str_eq}
use golang_gin.Prelude.{
  ℕ, zero, suc, String, Bool, true, false, ◌&&◌, ◌||◌, not, Option, none, some, List, [], ◌∷◌, ◌==◌,
}
use golang_gin.Errors.{
  not_found, already_exists, invalid_input, internal, new, caused, foreign, Result, ok, err, ◌>>=◌,
  ◌>>◌, guard, Fault, check,
}
use golang_gin.Db.{
  is_some, update_where, count_where, find_where, select_where, exec_insert, done, duplicate,
  Inserted,
}
use golang_gin.User.{User}

abbrev pub Table : Type 0
Table = List User

-- How a query for one row goes: its fault, and which of the rows comes first.
pub record Lookup : Type 0 where
  pub fault : Fault
  pub choice : ℕ

-- One of the rows, if there is one.
unfoldable pub choose : ℕ → Table → Option User
choose k [] = none
choose k (u ∷ []) = some u
choose zero (u ∷ v ∷ rest) = some u
choose (suc k) (u ∷ v ∷ rest) = choose k (v ∷ rest)

-- The end of `Create`.
abbrev pub created : User → Inserted Table → Result (Table × User)
created u (done rows) = ok (rows, u)
created u duplicate = err (new already_exists "user with this email or phone number already exists")
created u (Inserted.failed e) = err (caused internal "failed to create user in database" e)

-- The end of a query for one user.
abbrev pub selected : Option User → Result User
selected none = err (new not_found "user not found")
selected (some u) = ok u

-- `GetByID`, which does not read the hash of the password.
unfoldable pub get_by_id : Fault → ℕ → Table → Result User
get_by_id fault id rows = do
  guard (not (id == 0)) invalid_input "user id cannot be empty"
  check fault internal "failed to get user by id"
  u ← selected (find_where (λ u. u.id == id) rows)
  ok (record u { password_hash = "" })

module _ (same_email : String → String → Bool) where
  -- Whether two rows collide on the email or on the phone number.
  abbrev pub collides : User → User → Bool
  collides u v = same_email u.email v.email || str_eq u.phone_number v.phone_number

  -- `Create`: the table, and the user with the id that the database makes.
  unfoldable pub create : Fault → ℕ → Option User → Table → Result (Table × User)
  unfolding exec_insert
  create fault fresh none rows = err (new invalid_input "user cannot be nil")
  create fault fresh (some u) rows = do
    guard (not (str_eq u.phone_number "")) invalid_input "phone number is required"
    created (record u { id = fresh })
        (exec_insert (foreign "check constraint") (λ v. true) fault
          (λ v. v.id == fresh || collides u v) (record u { id = fresh }) rows)

  -- Whether a row has an email or a phone number.
  abbrev pub answers_to : String → User → Bool
  answers_to identifier u = same_email u.email identifier || str_eq u.phone_number identifier

  -- `GetByEmailOrPhone`: the first row of the answer, which is in no order.
  unfoldable pub get_by_email_or_phone : Lookup → String → Table → Result User
  unfolding choose
  get_by_email_or_phone lookup identifier rows = do
    guard (not (str_eq identifier "")) invalid_input "email or phone number cannot be empty"
    check lookup.fault internal "failed to get user by email or phone"
    selected (choose lookup.choice (select_where (answers_to identifier) rows))

  -- The assignments of `Update`.
  abbrev pub edited : User → User → User
  edited u v = record v {
    email = u.email;
    phone_number = u.phone_number;
    full_name = u.full_name;
    role = u.role;
  }

  -- `Update` by the number of rows that meet its condition, and whether another row collides.
  abbrev pub updated : Table → ℕ → Bool → Result Table
  updated rows zero clash = err (new not_found "user not found")
  updated rows (suc n) true =
      err (new already_exists "user with this email or phone number already exists")
  updated rows (suc n) false = ok rows

  unfoldable pub update : Fault → Option User → Table → Result Table
  update fault none rows = err (new invalid_input "user cannot be nil")
  update fault (some u) rows = do
    guard (not (u.id == 0)) invalid_input "user id is required for update"
    check fault internal "failed to update user"
    updated (update_where (λ v. v.id == u.id) (edited u) rows)
        (count_where (λ v. v.id == u.id) rows)
        (is_some (find_where (λ v. not (v.id == u.id) && collides u v) rows))
