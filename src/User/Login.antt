-- ===== src/User/Login.antt =====
-- services/user-service/internal/service/user.go: `Register` and `PasswordLogin`.
use text.Mathlib.Text.{◌==◌ as str_eq}
use golang_gin.Prelude.{ℕ, String, ◌||◌, not, Option, none, some, List, if◌then◌else◌}
use golang_gin.Errors.{
  unauthenticated, not_found, invalid_input, new, get_kind, kind_eq, Result, ok, err, ◌>>=◌, ◌>>◌,
  guard, Fault,
}
use golang_gin.Db.{is_some}
use golang_gin.Auth.{hash_password, compare_password}
use golang_gin.User.{member, User}
use golang_gin.User.Table.{Lookup, get_by_id, get_by_email_or_phone}
use golang_gin.User.Table
use golang_gin.User.Service.{Deps, World, AuthResponse, IssueEnv, dummy_password_hash, log_in}

-- The request of `Register`; nil is `none`.
pub record RegisterRequest : Type 0 where
  pub email : String
  pub phone_number : String
  pub full_name : String
  pub password : String

module _ (deps : Deps) where
  open deps use {same_email, bcrypt}

  -- `Register`: the user that it makes, and what follows the repository's `Create`.
  abbrev pub new_user : String → String → String → String → User
  new_user email phone name hashed = record {
    id = 0;
    email = email;
    phone_number = phone;
    full_name = name;
    password_hash = hashed;
    role = member;
  }

  unfoldable pub registered :
      IssueEnv → World → Result (List User × User) → World × Result AuthResponse
  unfolding log_in
  registered env w (err e) = (w, err e)
  registered env w (ok (users, u)) = log_in deps env (record w { users = users }) (ok u)

  -- What `Register` does before it issues tokens; the id is the one that the database makes.
  unfoldable pub new_account :
      Fault → ℕ → Option RegisterRequest → List User → Result (List User × User)
  unfolding hash_password Table.create
  new_account insert fresh none users = err (new invalid_input "register request is nil")
  new_account insert fresh (some r) users = do
    guard (not (str_eq r.email "" || (str_eq r.phone_number "" || str_eq r.password "")))
        invalid_input "email, phone number, and password are required"
    hashed ← hash_password bcrypt r.password
    Table.create same_email insert fresh (some (new_user r.email r.phone_number r.full_name hashed))
        users

  unfoldable pub register :
      Fault → ℕ → IssueEnv → Option RegisterRequest → World → World × Result AuthResponse
  unfolding new_account registered
  register insert fresh env request w = registered env w (new_account insert fresh request w.users)

  -- A user that was looked for: none if the error says that there is none.
  abbrev pub known : Result User → Result (Option User)
  known (ok u) = ok (some u)
  known (err e) = if kind_eq (get_kind e) not_found then ok none else err e

  abbrev pub hash_of : Option User → String
  hash_of none = dummy_password_hash
  hash_of (some u) = u.password_hash

  -- The check of the password, which compares with some hash in any case.
  unfoldable pub admitted : String → Option User → Result User
  unfolding compare_password
  admitted password o =
      let wrong = is_some (compare_password bcrypt (hash_of o) password) in
      elim o [
        | none ↦ err (new unauthenticated "invalid phone number, email, or password")
        | some u ↦
            if wrong
            then err (new unauthenticated "invalid phone number, email, or password")
            else ok u
      ]

  -- `PasswordLogin` up to the tokens; the request is nil or its identifier and password.
  unfoldable pub authenticate : Lookup → Option (String × String) → List User → Result User
  unfolding get_by_email_or_phone admitted
  authenticate select none users = err (new invalid_input "login request cannot be nil")
  authenticate select (some (identifier, password)) users = do
    guard (not (str_eq identifier "")) invalid_input "phone number or email address is required"
    guard (not (str_eq password "")) invalid_input "password is required"
    o ← known (get_by_email_or_phone same_email select identifier users)
    admitted password o

  unfoldable pub password_login :
      Lookup → IssueEnv → Option (String × String) → World → World × Result AuthResponse
  unfolding authenticate log_in
  password_login select env request w = log_in deps env w (authenticate select request w.users)
