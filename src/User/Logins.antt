-- ===== src/User/Logins.antt =====
-- Who is logged in: passwords, and what every login issues.
use text.Mathlib.Text.{◌==◌ as str_eq}
use golang_gin.Prelude.{
  ℕ, zero, suc, ◌≡◌, refl, ◌∙◌, String, Bool, true, false, Option, none, some, List, [], ◌∷◌, ◌≢◌,
  ◌⊎◌, All, Bool-cases, inl, inr, arith,
}
use mathlib.Core.Path.{subst}
use golang_gin.Errors.{GoError, Result, ok, err, get_kind, kind_eq, Fault, Result-cases}
use golang_gin.Db.{is_some, select_where, exec_insert}
use golang_gin.Auth.{
  Comparison, matches, mismatch, too_short, broken, generate_refresh_token, compare_password,
  compared,
}
use golang_gin.User.{User, RefreshToken}
use golang_gin.User.Table.{Lookup, choose, answers_to, get_by_email_or_phone}
use golang_gin.User.Tokens
use golang_gin.User.Service.{
  Deps, World, AuthResponse, IssueEnv, to_proto_user, to_proto_auth, token_row, issue_tokens,
  answered, log_in,
}
use golang_gin.User.Login.{known, admitted, authenticate, password_login}

abbrev pub IsIn : User → List User → Type 0
IsIn u [] = ⊥
IsIn u (x ∷ xs) = (u ≡ x) ⊎ IsIn u xs

select_where-IsIn :
    (p : User → Bool) (all rows : List User)
    → ((u : User) → IsIn u rows → IsIn u all)
    → All (λ u. (p u ≡ true) × IsIn u all) (select_where p rows)
select_where-IsIn p all [] f = tt
select_where-IsIn p all (x ∷ xs) f = elim (Bool-cases (p x)) [
  | inl e ↦ rw e ((e, f x (inl refl)), select_where-IsIn p all xs (λ u h. f u (inr h)))
  | inr e ↦ rw e (select_where-IsIn p all xs (λ u h. f u (inr h)))
]

choose-All :
    (P : User → Type 0) (k : ℕ) (rows : List User) (u : User)
    → All P rows
    → choose k rows ≡ some u
    → P u
unfolding choose
choose-All P k [] u all h = absurd (ground arith)
choose-All P k (x ∷ []) u all h = let is : x ≡ u = ground arith in subst P is all.0
choose-All P zero (x ∷ y ∷ rest) u all h = let is : x ≡ u = ground arith in subst P is all.0
choose-All P (suc k) (x ∷ y ∷ rest) u all h = choose-All P k (y ∷ rest) u all.1 h

module _ (deps : Deps) where
  open deps use {same_email, bcrypt, hash_token}

  get_by_email_or_phone-eq-ok :
      (lookup : Lookup) (identifier : String) (rows : List User) (u : User)
      → get_by_email_or_phone same_email lookup identifier rows ≡ ok u
      → (answers_to same_email identifier u ≡ true) × IsIn u rows
  unfolding get_by_email_or_phone
  get_by_email_or_phone-eq-ok lookup identifier rows u h =
      let p = answers_to same_email identifier in
      let is : choose lookup.choice (select_where p rows) ≡ some u = ground arith in
      choose-All (λ u. (p u ≡ true) × IsIn u rows) lookup.choice (select_where p rows) u
        (select_where-IsIn p rows rows (λ v k. k)) is

  known-eq-ok : (r : Result User) (u : User) → known deps r ≡ ok (some u) → r ≡ ok u
  unfolding kind_eq
  known-eq-ok r u h = ground arith

  admitted-eq-ok :
      (password : String) (o : Option User) (u : User)
      → admitted deps password o ≡ ok u
      → (o ≡ some u) × (bcrypt.compare u.password_hash password ≡ matches)
  unfolding admitted compare_password compared
  admitted-eq-ok password none u h = absurd (ground arith)
  admitted-eq-ok password (some v) u h = ground arith

  authenticate-eq-ok :
      (lookup : Lookup) (identifier password : String) (users : List User) (u : User)
      → authenticate deps lookup (some (identifier, password)) users ≡ ok u
      → (get_by_email_or_phone same_email lookup identifier users ≡ ok u)
        × (bcrypt.compare u.password_hash password ≡ matches)
  unfolding authenticate
  authenticate-eq-ok lookup identifier password users u h =
      elim (Result-cases (known deps (get_by_email_or_phone same_email lookup identifier users))) [
        | inl (e, is) ↦ absurd (ground (arith, is))
        | inr (o, is) ↦
            let there : admitted deps password o ≡ ok u = ground (arith, is) in
            let (some_user, right) = admitted-eq-ok password o u there in
            (
              known-eq-ok (get_by_email_or_phone same_email lookup identifier users) u
                  (is ∙ rw some_user refl),
              right,
            )
      ]

  -- What a login for a user leaves: one new refresh token, of that user, whose hash is that of the
  -- token in the answer; the rest is as it was.
  abbrev pub IsIssued : User → World → World → AuthResponse → Type 0
  IsIssued u w w' r =
      (r.user ≡ to_proto_user deps u)
      × ((t : RefreshToken) × (w'.tokens ≡ t ∷ w.tokens)
          × (t.user_id ≡ u.id)
          × (t.token_hash ≡ hash_token r.refresh_token)
          × (t.revoked ≡ false))
      × (w'.users ≡ w.users)
      × (w'.challenges ≡ w.challenges)
      × (w'.sent ≡ w.sent)

  create-row :
      (fault : Fault) (now fresh : ℕ) (users : List User) (t : RefreshToken)
      (rows rows' : List RefreshToken)
      → Tokens.create fault now fresh users (some t) rows ≡ ok rows'
      → rows' ≡ Tokens.inserted fresh t ∷ rows
  unfolding Tokens.create exec_insert
  create-row fault now fresh users t rows rows' h = ground arith

  issue_tokens-row :
      (env : IssueEnv) (users : List User) (u : User) (rows rows' : List RefreshToken)
      (access refresh : String) (seconds : ℕ)
      → issue_tokens deps env users u rows ≡ ok (rows', (access, refresh, seconds))
      → Tokens.create env.insert env.created env.fresh users
          (some (token_row deps env.issued u refresh))
          rows
        ≡ ok rows'
  unfolding issue_tokens
  issue_tokens-row env users u rows rows' access refresh seconds h =
      elim (Result-cases (generate_refresh_token env.random)) [
        | inl (e, is) ↦ absurd (ground (arith, is))
        | inr (made, is) ↦
            let same : made ≡ refresh = ground (arith, is) in
            let done : Tokens.create env.insert env.created env.fresh users
                  (some (token_row deps env.issued u made)) rows
                ≡ ok rows' =
              ground (arith, is) in
            rw same at done
      ]

  log_in-IsIssued :
      (env : IssueEnv) (u : User) (w w' : World) (r : AuthResponse)
      → log_in deps env w (ok u) ≡ (w', ok r)
      → IsIssued u w w' r
  unfolding log_in answered to_proto_auth
  log_in-IsIssued env u w w' r h = elim (Result-cases (issue_tokens deps env w.users u w.tokens)) [
    | inl (e, is) ↦ absurd (ground (arith, is))
    | inr ((rows, (access, refresh, seconds)), is) ↦
        let made = issue_tokens-row env w.users u w.tokens rows access refresh seconds is in
        let row =
          create-row env.insert env.created env.fresh w.users (token_row deps env.issued u refresh)
            w.tokens rows made in
        (
          ground (arith, is),
          (
            Tokens.inserted env.fresh (token_row deps env.issued u refresh),
            ground (arith, is, row),
            refl,
            ground (arith, is),
            refl,
          ),
          ground (arith, is),
          ground (arith, is),
          ground (arith, is),
        )
  ]

  log_in_fails :
      (env : IssueEnv) (w w' : World) (e : GoError) (r : AuthResponse)
      → log_in deps env w (err e) ≡ (w', ok r)
      → ⊥
  unfolding log_in
  log_in_fails env w w' e r h = ground arith

  -- `PasswordLogin` answers with tokens only for a user of the table whose email or phone number is
  -- the identifier of the request and whose stored hash matches its password. It then adds one
  -- refresh token of that user, whose hash is that of the token in the answer, and changes nothing
  -- else.
  pub password_login-IsIssued :
      (lookup : Lookup) (env : IssueEnv) (identifier password : String) (w w' : World)
      (r : AuthResponse)
      → password_login deps lookup env (some (identifier, password)) w ≡ (w', ok r)
      → (u : User) × IsIn u w.users
        × (answers_to same_email identifier u ≡ true)
        × (bcrypt.compare u.password_hash password ≡ matches)
        × IsIssued u w w' r
  unfolding password_login
  password_login-IsIssued lookup env identifier password w w' r h =
      elim (Result-cases (authenticate deps lookup (some (identifier, password)) w.users)) [
        | inl (e, is) ↦ absurd (log_in_fails env w w' e r (rw is at h))
        | inr (u, is) ↦
            let (found, right) = authenticate-eq-ok lookup identifier password w.users u is in
            let (answers, there) = get_by_email_or_phone-eq-ok lookup identifier w.users u found in
            (u, there, answers, right, log_in-IsIssued env u w w' r (rw is at h))
      ]

  wrong-rejected : (c : Comparison) → c ≢ matches → is_some (compared c) ≡ true
  unfolding compared
  wrong-rejected matches h = absurd (h refl)
  wrong-rejected mismatch h = refl
  wrong-rejected too_short h = refl
  wrong-rejected (broken e) h = refl

  -- A wrong password and an unknown identifier cannot be told apart: where the query does not fail,
  -- the answer of `PasswordLogin` for a user whose hash does not match the password is the one for
  -- an identifier that no user has, and neither changes the state.
  pub password_login-unknown :
      (k k' : ℕ) (env env' : IssueEnv) (identifier identifier' password password' : String)
      (w w' : World) (u : User)
      → str_eq identifier "" ≡ false
      → str_eq password "" ≡ false
      → str_eq identifier' "" ≡ false
      → str_eq password' "" ≡ false
      → choose k (select_where (answers_to same_email identifier) w.users) ≡ some u
      → bcrypt.compare u.password_hash password ≢ matches
      → select_where (answers_to same_email identifier') w'.users ≡ []
      → let wrong =
          password_login deps
            (record { fault = none; choice = k })
            env
            (some (identifier, password))
            w in
        let unknown =
          password_login deps
            (record { fault = none; choice = k' })
            env'
            (some (identifier', password'))
            w' in
        (wrong.1 ≡ unknown.1) × (wrong.0 ≡ w) × (unknown.0 ≡ w')
  unfolding password_login authenticate get_by_email_or_phone admitted compare_password compared
      log_in choose kind_eq get_kind
  password_login-unknown k k' env env' identifier identifier' password password' w w' u a b c d
        found wrong unknown =
      rw
        (a, b, c, d, found, unknown, wrong-rejected (bcrypt.compare u.password_hash password) wrong)
        (refl, refl, refl)
