-- ===== src/User/Accounts.antt =====
-- From the registration to the first login, and who sees a profile.
use text.Mathlib.Text.{◌==◌ as str_eq}
use text.Mathlib.TextEquality.{eq_iff}
use golang_gin.Prelude.{
  ℕ, ◌≡◌, refl, sym, ap, ◌∙◌, String, true, false, Option, none, some, List, [], ◌∷◌, ◌==◌, ◌⊎◌,
  Bool-cases, Option-cases, inl, inr, arith,
}
use golang_gin.Errors.{Result, ok, err, Fault, Result-cases}
use golang_gin.Db.{find_where, select_where, exec_insert}
use golang_gin.Auth.{AccessClaims, matches, hash_password, compare_password, compared}
use golang_gin.User.{User}
use golang_gin.User.Table.{
  Lookup, choose, selected, answers_to, collides, get_by_email_or_phone, get_by_id,
}
use golang_gin.User.Table
use golang_gin.User.Service.{
  Deps, World, ProtoUser, AuthResponse, IssueEnv, to_proto_user, issue_tokens, answered, log_in,
}
use golang_gin.User.Login.{
  RegisterRequest, new_user, new_account, registered, register, admitted, authenticate,
}
use golang_gin.User.Session.{get_user}

module _ (deps : Deps) where
  open deps use {parse, same_email, bcrypt}

  -- The user that a registration stores.
  abbrev pub account : RegisterRequest → ℕ → String → User
  account r fresh hashed = record (new_user deps r.email r.phone_number r.full_name hashed) {
    id = fresh;
  }

  new_account-eq-ok :
      (insert : Fault) (fresh : ℕ) (r : RegisterRequest) (users users' : List User) (u : User)
      → new_account deps insert fresh (some r) users ≡ ok (users', u)
      → (hashed : String) × (bcrypt.hash r.password ≡ ok hashed)
        × (users' ≡ account r fresh hashed ∷ users)
        × (str_eq r.email "" ≡ false)
        × (str_eq r.password "" ≡ false)
  unfolding new_account hash_password Table.create exec_insert
  new_account-eq-ok insert fresh r users users' u h = elim (Result-cases (bcrypt.hash r.password)) [
    | inl (e, is) ↦ absurd (ground (arith, is))
    | inr (hashed, is) ↦ (hashed, is, ground (arith, is), ground (arith, is), ground (arith, is))
  ]

  log_in-users :
      (env : IssueEnv) (w : World) (r : Result User) → (log_in deps env w r).0.users ≡ w.users
  unfolding log_in answered
  log_in-users env w (err e) = refl
  log_in-users env w (ok u) = elim (Result-cases (issue_tokens deps env w.users u w.tokens)) [
    | inl (e, is) ↦ rw is refl
    | inr ((rows, x), is) ↦ rw is refl
  ]

  register-account :
      (insert : Fault) (fresh : ℕ) (env : IssueEnv) (r : RegisterRequest) (w w' : World)
      (a : AuthResponse)
      → register deps insert fresh env (some r) w ≡ (w', ok a)
      → (hashed : String) × (bcrypt.hash r.password ≡ ok hashed)
        × (w'.users ≡ account r fresh hashed ∷ w.users)
        × (str_eq r.email "" ≡ false)
        × (str_eq r.password "" ≡ false)
  unfolding register registered
  register-account insert fresh env r w w' a h =
      elim (Result-cases (new_account deps insert fresh (some r) w.users)) [
        | inl (e, is) ↦ absurd (ground (arith, is))
        | inr ((users, u), is) ↦
            let (hashed, made, stored, mail, word) =
              new_account-eq-ok insert fresh r w.users users u is in
            let kept = log_in-users env (record w { users = users }) (ok u) in
            let now : w'.users ≡ users = ap (λ x. x.0.users) (sym (rw is at h)) ∙ kept in
            (hashed, made, now ∙ stored, mail, word)
      ]

  -- Who registered can log in: after a `Register` that answered, the identifier and the password of
  -- its request are accepted by `PasswordLogin`'s check, where the query does not fail, and give the
  -- user that was stored, if bcrypt accepts what it hashed, an email equals itself, and no user of
  -- before answers to that email, be it as a phone number.
  pub authenticate-register :
      (insert : Fault) (fresh k : ℕ) (env : IssueEnv) (r : RegisterRequest) (w w' : World)
      (a : AuthResponse)
      → ((p h : String) → bcrypt.hash p ≡ ok h → bcrypt.compare h p ≡ matches)
      → ((e : String) → same_email e e ≡ true)
      → select_where (answers_to same_email r.email) w.users ≡ []
      → register deps insert fresh env (some r) w ≡ (w', ok a)
      → (u : User) × (w'.users ≡ u ∷ w.users)
        × (u.id ≡ fresh)
        × (u.email ≡ r.email)
        × (authenticate deps
              (record { fault = none; choice = k })
              (some (r.email, r.password))
              w'.users
            ≡ ok u)
  unfolding authenticate get_by_email_or_phone choose admitted compare_password compared
  authenticate-register insert fresh k env r w w' a hashes mails alone h =
      let (hashed, made, stored, mail, word) = register-account insert fresh env r w w' a h in
      (
        account r fresh hashed,
        stored,
        refl,
        refl,
        rw (stored, mail, word, mails r.email, alone, hashes r.password hashed made) refl,
      )

  -- `GetUser` shows a profile only to a caller with claims that are of the same id, as a text, or of
  -- the role admin; the profile is that of a user of the table with this id.
  pub get_user-IsAllowed :
      (select : Fault) (claims : Option AccessClaims) (id_text : String) (users : List User)
      (p : ProtoUser)
      → get_user deps select claims (some id_text) users ≡ ok p
      → (c : AccessClaims) × (claims ≡ some c)
        × ((c.user_id ≡ id_text) ⊎ (c.role ≡ "admin"))
        × (id : ℕ) × (parse id_text ≡ some id)
        × (u : User) × (find_where (λ v. v.id == id) users ≡ some u)
        × (p ≡ to_proto_user deps u)
  unfolding get_user get_by_id to_proto_user
  get_user-IsAllowed select claims id_text users p h = elim (Option-cases claims) [
    | inl is ↦ absurd (ground (arith, is))
    | inr (c, is) ↦ elim (Option-cases (parse id_text)) [
      | inl bad ↦ absurd (ground (arith, is, bad))
      | inr (id, parsed) ↦ elim (Option-cases (find_where (λ v. v.id == id) users)) [
        | inl missing ↦ absurd (ground (arith, is, parsed, missing))
        | inr (u, found) ↦ (
          c,
          is,
          allowed c id u is parsed found,
          id,
          parsed,
          u,
          found,
          ground (arith, is, parsed, found),
        )
      ]
    ]
  ]
    where
      allowed :
          (c : AccessClaims) (id : ℕ) (u : User)
          → claims ≡ some c
          → parse id_text ≡ some id
          → find_where (λ v. v.id == id) users ≡ some u
          → (c.user_id ≡ id_text) ⊎ (c.role ≡ "admin")
      allowed c id u is parsed found = elim (Bool-cases (str_eq c.user_id id_text)) [
        | inl own ↦ inl ((eq_iff c.user_id id_text).0 own)
        | inr other ↦ elim (Bool-cases (str_eq c.role "admin")) [
          | inl boss ↦ inr ((eq_iff c.role "admin").0 boss)
          | inr neither ↦ absurd (ground (arith, is, parsed, found, other, neither))
        ]
      ]
