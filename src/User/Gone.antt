-- ===== src/User/Gone.antt =====
-- What the calls of the user service leave of the one-time codes under an id.
use text.Mathlib.Text.{◌==◌ as str_eq}
use golang_gin.Prelude.{
  ℕ, ◌+◌, ◌≡◌, refl, ◌∙◌, String, true, false, Option, none, some, List, [], ◌∷◌, ◌==◌, All,
  Bool-cases, Option-cases, inl, inr, arith,
}
use golang_gin.Errors.{Result, ok, err, Fault, Result-cases}
use golang_gin.Db.{find_where}
use golang_gin.Auth.{generate_otp}
use golang_gin.User.{User, RefreshToken, OtpChallenge}
use golang_gin.User.Tokens.{get_by_token_hash}
use golang_gin.User.Table.{get_by_id}
use golang_gin.User.Challenges.{
  Entry, Cache, is_live, removed, save_challenge, get_challenge, delete_challenge,
}
use golang_gin.User.Service.{Deps, World, IssueEnv, otp_ttl, issue_tokens, answered, log_in}
use golang_gin.User.Login.{new_account, registered, register, authenticate, password_login}
use golang_gin.User.Otp.{
  OtpEnv, VerifyEnv, challenge_for, otp_user, challenged, sent_out, otp_login, consume, consumed,
  verify_otp,
}
use golang_gin.User.Session.{RefreshEnv, redeem, redeemed, refresh_token, logged_out, logout}
use golang_gin.User.Calls.{
  Call, registers, logs_in, asks_for_code, verifies, refreshes, logs_out, serve, run,
}

-- There is nothing under the key of an id.
abbrev pub IsGone : ℕ → Cache → Type 0
IsGone id cache = All (λ e. (e.challenge.id == id) ≡ false) cache

removed-All : (P : Entry → Type 0) (id : ℕ) (cache : Cache) → All P cache → All P (removed id cache)
removed-All P id [] all = tt
removed-All P id (e ∷ es) all = elim (Bool-cases (e.challenge.id == id)) [
  | inl is ↦ rw is (removed-All P id es all.1)
  | inr is ↦ rw is (all.0, removed-All P id es all.1)
]

pub removed-IsGone : (id : ℕ) (cache : Cache) → IsGone id (removed id cache)
removed-IsGone id [] = tt
removed-IsGone id (e ∷ es) = elim (Bool-cases (e.challenge.id == id)) [
  | inl is ↦ rw is (removed-IsGone id es)
  | inr is ↦ rw is (is, removed-IsGone id es)
]

save_challenge-eq-ok :
    (fault : Fault) (now ttl : ℕ) (c : OtpChallenge) (cache cache' : Cache)
    → save_challenge fault now (some c) ttl cache ≡ ok cache'
    → cache' ≡ record { challenge = c; deadline = now + ttl } ∷ removed c.id cache
unfolding save_challenge
save_challenge-eq-ok fault now ttl c cache cache' h = ground arith

pub find_where-IsGone :
    (now id : ℕ) (cache : Cache) → IsGone id cache → find_where (is_live now id) cache ≡ none
find_where-IsGone now id [] gone = refl
find_where-IsGone now id (e ∷ es) gone = rw (gone.0) (find_where-IsGone now id es gone.1)

module _ (deps : Deps) where
  open deps use {parse}

  pub consume-eq-ok :
      (env : VerifyEnv) (id_text code : String) (cache cache' : Cache) (user : ℕ)
      → consume deps env (some (id_text, code)) cache ≡ ok (cache', user)
      → (id : ℕ) × (parse id_text ≡ some id)
        × (e : Entry) × (find_where (is_live env.read id) cache ≡ some e)
        × (str_eq e.challenge.code code ≡ true)
        × (e.challenge.user_id ≡ user)
        × (cache' ≡ removed id cache)
  unfolding consume get_challenge delete_challenge
  consume-eq-ok env id_text code cache cache' user h = elim (Option-cases (parse id_text)) [
    | inl is ↦ absurd (ground (arith, is))
    | inr (id, is) ↦ elim (Option-cases (find_where (is_live env.read id) cache)) [
      | inl missing ↦ absurd (ground (arith, is, missing))
      | inr (e, found) ↦ (
        id,
        is,
        e,
        found,
        ground (arith, is, found),
        ground (arith, is, found),
        ground (arith, is, found),
      )
    ]
  ]

  consume-IsGone :
      (env : VerifyEnv) (request : Option (String × String)) (id : ℕ) (cache cache' : Cache)
      (user : ℕ)
      → IsGone id cache
      → consume deps env request cache ≡ ok (cache', user)
      → IsGone id cache'
  unfolding consume
  consume-IsGone env none id cache cache' user gone h = absurd (ground arith)
  consume-IsGone env (some (id_text, code)) id cache cache' user gone h =
      let (key, parsed, e, found, right, whose, is) =
        consume-eq-ok env id_text code cache cache' user h in
      rw is (removed-All (λ e. (e.challenge.id == id) ≡ false) key cache gone)

  pub log_in-challenges :
      (env : IssueEnv) (w : World) (r : Result User)
      → (log_in deps env w r).0.challenges ≡ w.challenges
  unfolding log_in answered
  log_in-challenges env w (err e) = refl
  log_in-challenges env w (ok u) = elim (Result-cases (issue_tokens deps env w.users u w.tokens)) [
    | inl (e, is) ↦ rw is refl
    | inr ((rows, x), is) ↦ rw is refl
  ]

  -- The call makes no challenge of an id; the service takes a new UUID for each.
  abbrev pub Avoids : ℕ → Call → Type 0
  Avoids id (asks_for_code env request) = (env.fresh == id) ≡ false
  Avoids id _ = Unit {0}

  challenged-IsGone :
      (env : OtpEnv) (request : Option String) (w : World) (id : ℕ)
      → (env.fresh == id) ≡ false
      → IsGone id w.challenges
      → (cache : Cache) (u : User) (code : String)
      → challenged deps env request w ≡ ok (cache, u, code)
      → IsGone id cache
  unfolding challenged
  challenged-IsGone env request w id other gone cache u code h =
      elim (Result-cases (otp_user deps env.select request w.users)) [
        | inl (e, is) ↦ absurd (ground (arith, is))
        | inr (v, is) ↦ elim (Result-cases (generate_otp deps.digits env.random)) [
          | inl (e, bad) ↦ absurd (ground (arith, is, bad))
          | inr (digits, made) ↦
              elim (Result-cases (
                save_challenge env.save env.saved (some (challenge_for deps env v digits)) otp_ttl
                  w.challenges)) [
                    | inl (e, bad) ↦ absurd (ground (arith, is, made, bad))
                    | inr (stored, saved) ↦
                        let same : cache ≡ stored = ground (arith, is, made, saved) in
                        let row =
                          save_challenge-eq-ok env.save env.saved otp_ttl
                            (challenge_for deps env v digits) w.challenges stored saved in
                        rw (same ∙ row) (
                          other,
                          removed-All (λ e. (e.challenge.id == id) ≡ false) env.fresh w.challenges
                              gone,
                        )
                  ]
        ]
      ]

  sent_out-IsGone :
      (env : OtpEnv) (w : World) (id : ℕ) (r : Result (Cache × User × String))
      → IsGone id w.challenges
      → ((cache : Cache) (u : User) (code : String) → r ≡ ok (cache, u, code) → IsGone id cache)
      → IsGone id (sent_out deps env w r).0.challenges
  unfolding sent_out
  sent_out-IsGone env w id (err e) gone f = gone
  sent_out-IsGone env w id (ok (cache, u, code)) gone f = f cache u code refl

  consumed-IsGone :
      (env : VerifyEnv) (issue : IssueEnv) (w : World) (id : ℕ) (r : Result (Cache × ℕ))
      → IsGone id w.challenges
      → ((cache : Cache) (user : ℕ) → r ≡ ok (cache, user) → IsGone id cache)
      → IsGone id (consumed deps env issue w r).0.challenges
  unfolding consumed
  consumed-IsGone env issue w id (err e) gone f = gone
  consumed-IsGone env issue w id (ok (cache, user)) gone f =
      rw
        (log_in-challenges issue (record w { challenges = cache })
          (get_by_id env.select user w.users))
        (f cache user refl)

  registered-challenges :
      (env : IssueEnv) (w : World) (r : Result (List User × User))
      → (registered deps env w r).0.challenges ≡ w.challenges
  unfolding registered
  registered-challenges env w (err e) = refl
  registered-challenges env w (ok (users, u)) =
      log_in-challenges env (record w { users = users }) (ok u)

  redeemed-challenges :
      (env : RefreshEnv) (issue : IssueEnv) (w : World) (r : Result (List RefreshToken × ℕ))
      → (redeemed deps env issue w r).0.challenges ≡ w.challenges
  unfolding redeemed
  redeemed-challenges env issue w (err e) = refl
  redeemed-challenges env issue w (ok (rows, user)) =
      log_in-challenges issue (record w { tokens = rows }) (get_by_id env.select user w.users)

  logged_out-challenges :
      (fault : Fault) (w : World) (r : Result RefreshToken)
      → (logged_out deps fault w r).0.challenges ≡ w.challenges
  unfolding logged_out
  logged_out-challenges fault w (err e) = ground arith
  logged_out-challenges fault w (ok t) = refl

  logout-challenges :
      (get fault : Fault) (request : Option String) (w : World)
      → (logout deps get fault request w).0.challenges ≡ w.challenges
  unfolding logout
  logout-challenges get fault none w = refl
  logout-challenges get fault (some token) w = elim (Bool-cases (str_eq token "")) [
    | inl is ↦ rw is refl
    | inr is ↦
        rw is
          (logged_out-challenges fault w (get_by_token_hash get (deps.hash_token token) w.tokens))
  ]

  serve-IsGone :
      (c : Call) (id : ℕ) (w : World)
      → Avoids id c
      → IsGone id w.challenges
      → IsGone id (serve deps c w).challenges
  unfolding serve register password_login otp_login verify_otp refresh_token
  serve-IsGone (registers insert fresh env request) id w avoids gone =
      rw (registered-challenges env w (new_account deps insert fresh request w.users)) gone
  serve-IsGone (logs_in select env request) id w avoids gone =
      rw (log_in-challenges env w (authenticate deps select request w.users)) gone
  serve-IsGone (asks_for_code env request) id w avoids gone =
      sent_out-IsGone env w id (challenged deps env request w) gone
        (challenged-IsGone env request w id avoids gone)
  serve-IsGone (verifies env issue request) id w avoids gone =
      consumed-IsGone env issue w id (consume deps env request w.challenges) gone
        (λ cache user. consume-IsGone env request id w.challenges cache user gone)
  serve-IsGone (refreshes env issue request) id w avoids gone =
      rw (redeemed-challenges env issue w (redeem deps env request w.tokens)) gone
  serve-IsGone (logs_out get fault request) id w avoids gone =
      rw (logout-challenges get fault request w) gone

  pub run-IsGone :
      (cs : List Call) (id : ℕ) (w : World)
      → All (Avoids id) cs
      → IsGone id w.challenges
      → IsGone id (run deps cs w).challenges
  run-IsGone [] id w avoids gone = gone
  run-IsGone (c ∷ cs) id w avoids gone =
      run-IsGone cs id (serve deps c w) avoids.1 (serve-IsGone c id w avoids.0 gone)
