-- ===== src/User/Replay.antt =====
-- Refresh tokens are for one use: after it, and after a logout, they are refused for ever.
use text.Mathlib.Text.{◌==◌ as str_eq}
use golang_gin.Prelude.{
  ℕ, ◌≡◌, refl, String, true, false, Option, none, some, List, [], ◌∷◌, ◌==◌, ==-refl, Bool-cases,
  inl, inr, arith,
}
use golang_gin.Errors.{not_found, GoError, Result, ok, err, get_kind, kind_eq, Fault, Result-cases}
use mathlib.Core.Path.{subst}
use golang_gin.Db.{find_where}
use golang_gin.Db.Finds.{count_where-find_where}
use golang_gin.User.{RefreshToken}
use golang_gin.User.Table.{get_by_id}
use golang_gin.User.Tokens.{has_hash, is_open, get_by_token_hash, revoke}
use golang_gin.User.Service.{Deps, World, AuthResponse, IssueEnv}
use golang_gin.User.Login.{register, new_account, password_login, authenticate}
use golang_gin.User.Otp.{otp_login, challenged, verify_otp, consume}
use golang_gin.User.Session.{
  RefreshEnv, redeem, redeemed, refresh_token, revoked, logged_out, logout,
}
use golang_gin.User.Rotation.{
  IsSpent, get_by_token_hash-eq-ok, revoke-spends, revoke-IsSpent, redeemed_before,
}
use golang_gin.User.Calls.{
  Call, registers, logs_in, asks_for_code, verifies, refreshes, logs_out, serve, run,
  log_in-IsSpent, registered-IsSpent, sent_out-tokens, consumed-IsSpent, redeem-eq-ok,
  redeemed-IsSpent,
}

module _ (deps : Deps) where
  open deps use {hash_token}

  redeem-IsSpent :
      (env : RefreshEnv) (request : Option String) (hash : String) (rows rows' : List RefreshToken)
      (user : ℕ)
      → IsSpent hash rows
      → redeem deps env request rows ≡ ok (rows', user)
      → IsSpent hash rows'
  unfolding redeem
  redeem-IsSpent env none hash rows rows' user s h = absurd (ground arith)
  redeem-IsSpent env (some token) hash rows rows' user s h =
      let (t, got, open_now, done) = redeem-eq-ok deps env token rows rows' user h in
      revoke-IsSpent env.revoke t.id hash rows rows' s done

  -- A revocation whose error is ignored.
  ignored-IsSpent :
      (hash : String) (rows : List RefreshToken) (r : Result (List RefreshToken))
      → IsSpent hash rows
      → ((rows' : List RefreshToken) → r ≡ ok rows' → IsSpent hash rows')
      → IsSpent hash (revoked deps r rows)
  ignored-IsSpent hash rows (err e) s f = s
  ignored-IsSpent hash rows (ok rows') s f = f rows' refl

  logged_out-IsSpent :
      (fault : Fault) (hash : String) (w : World) (r : Result RefreshToken)
      → IsSpent hash w.tokens
      → IsSpent hash (logged_out deps fault w r).0.tokens
  unfolding logged_out
  logged_out-IsSpent fault hash w (err e) s = elim (Bool-cases (kind_eq (get_kind e) not_found)) [
    | inl is ↦ rw is s
    | inr is ↦ rw is s
  ]
  logged_out-IsSpent fault hash w (ok t) s =
      ignored-IsSpent hash w.tokens (revoke fault t.id w.tokens) s
        (λ rows'. revoke-IsSpent fault t.id hash w.tokens rows' s)

  logout-IsSpent :
      (get fault : Fault) (request : Option String) (hash : String) (w : World)
      → IsSpent hash w.tokens
      → IsSpent hash (logout deps get fault request w).0.tokens
  unfolding logout
  logout-IsSpent get fault none hash w s = s
  logout-IsSpent get fault (some token) hash w s = elim (Bool-cases (str_eq token "")) [
    | inl is ↦ rw is s
    | inr is ↦
        rw is
          (logged_out-IsSpent fault hash w (get_by_token_hash get (hash_token token) w.tokens) s)
  ]

  serve-IsSpent :
      (c : Call) (hash : String) (w : World)
      → IsSpent hash w.tokens
      → IsSpent hash (serve deps c w).tokens
  unfolding serve register password_login otp_login verify_otp refresh_token
  serve-IsSpent (registers insert fresh env request) hash w s =
      registered-IsSpent deps env hash w (new_account deps insert fresh request w.users) s
  serve-IsSpent (logs_in select env request) hash w s =
      log_in-IsSpent deps env hash w (authenticate deps select request w.users) s
  serve-IsSpent (asks_for_code env request) hash w s =
      rw (sent_out-tokens deps env w (challenged deps env request w)) s
  serve-IsSpent (verifies env issue request) hash w s =
      consumed-IsSpent deps env issue hash w (consume deps env request w.challenges) s
  serve-IsSpent (refreshes env issue request) hash w s =
      redeemed-IsSpent deps env issue hash w (redeem deps env request w.tokens)
        (λ rows user. redeem-IsSpent env request hash w.tokens rows user s) s
  serve-IsSpent (logs_out get fault request) hash w s = logout-IsSpent get fault request hash w s

  run-IsSpent :
      (cs : List Call) (hash : String) (w : World)
      → IsSpent hash w.tokens
      → IsSpent hash (run deps cs w).tokens
  run-IsSpent [] hash w s = s
  run-IsSpent (c ∷ cs) hash w s = run-IsSpent cs hash (serve deps c w) (serve-IsSpent c hash w s)

  -- A spent token is refused, and nothing changes.
  refresh_token-refused :
      (env : RefreshEnv) (issue : IssueEnv) (token : String) (w : World)
      → IsSpent (hash_token token) w.tokens
      → (e : GoError) × (refresh_token deps env issue (some token) w ≡ (w, err e))
  unfolding refresh_token redeemed
  refresh_token-refused env issue token w s =
      elim (Result-cases (redeem deps env (some token) w.tokens)) [
        | inl (e, is) ↦ (e, rw is refl)
        | inr ((rows, user), is) ↦
            let (t, got, open_now, done) = redeem-eq-ok deps env token w.tokens rows user is in
            let closed = redeemed_before env.get (hash_token token) w.tokens t s got in
            absurd (ground arith)
      ]

  redeemed_fails :
      (env : RefreshEnv) (issue : IssueEnv) (w w' : World) (e : GoError) (r : AuthResponse)
      → redeemed deps env issue w (err e) ≡ (w', ok r)
      → ⊥
  unfolding redeemed
  redeemed_fails env issue w w' e r k = ground arith

  refresh_token-spends :
      (env : RefreshEnv) (issue : IssueEnv) (token : String) (w w' : World) (r : AuthResponse)
      → refresh_token deps env issue (some token) w ≡ (w', ok r)
      → IsSpent (hash_token token) w'.tokens
  unfolding refresh_token
  refresh_token-spends env issue token w w' r h =
      elim (Result-cases (redeem deps env (some token) w.tokens)) [
        | inl (e, is) ↦ absurd (redeemed_fails env issue w w' e r (rw is at h))
        | inr ((rows, user), is) ↦
            let (t, got, open_now, done) = redeem-eq-ok deps env token w.tokens rows user is in
            let found = get_by_token_hash-eq-ok env.get (hash_token token) w.tokens t got in
            let spent = revoke-spends env.revoke (hash_token token) w.tokens rows t found done in
            let after =
              log_in-IsSpent deps issue (hash_token token) (record w { tokens = rows })
                (get_by_id env.select user w.users) spent in
            subst (λ x. IsSpent (hash_token token) x.0.tokens) (rw is at h) after
      ]

  -- Rotation: once `RefreshToken` has answered with new tokens, the token that it was called with is
  -- refused by every later `RefreshToken`, whatever calls of the service come in between and
  -- whatever fails in them; the refused call changes nothing.
  pub refresh_token-refresh_token :
      (env : RefreshEnv) (issue : IssueEnv) (token : String) (w w' : World) (r : AuthResponse)
      → refresh_token deps env issue (some token) w ≡ (w', ok r)
      → (cs : List Call) (env' : RefreshEnv) (issue' : IssueEnv)
      → (e : GoError) × (refresh_token deps env' issue' (some token) (run deps cs w')
          ≡ (run deps cs w', err e))
  refresh_token-refresh_token env issue token w w' r h cs env' issue' =
      refresh_token-refused env' issue' token (run deps cs w')
        (run-IsSpent cs (hash_token token) w' (refresh_token-spends env issue token w w' r h))

  revoke-refused :
      (hash : String) (rows : List RefreshToken) (t : RefreshToken)
      → find_where (has_hash hash) rows ≡ some t
      → t.id == 0 ≡ false
      → (e : GoError) → revoke none t.id rows ≡ err e
      → t.revoked ≡ true
  unfolding revoke
  revoke-refused hash rows t found nonzero e is = elim (Bool-cases t.revoked) [
    | inl done ↦ done
    | inr still ↦
        let (n, counted) =
          count_where-find_where (has_hash hash) (is_open t.id) rows t found
            (ground (arith, ==-refl t.id)) in
        absurd (ground (arith, counted))
  ]

  revoke-found :
      (hash : String) (rows : List RefreshToken) (t : RefreshToken)
      → find_where (has_hash hash) rows ≡ some t
      → t.id == 0 ≡ false
      → IsSpent hash (revoked deps (revoke none t.id rows) rows)
  revoke-found hash rows t found nonzero = elim (Result-cases (revoke none t.id rows)) [
    | inr (rows', is) ↦ rw is (revoke-spends none hash rows rows' t found is)
    | inl (e, is) ↦ rw is (t, found, revoke-refused hash rows t found nonzero e is)
  ]

  logout-spends :
      (token : String) (w : World) (t : RefreshToken)
      → str_eq token "" ≡ false
      → str_eq (hash_token token) "" ≡ false
      → find_where (has_hash (hash_token token)) w.tokens ≡ some t
      → t.id == 0 ≡ false
      → IsSpent (hash_token token) (logout deps none none (some token) w).0.tokens
  unfolding logout get_by_token_hash logged_out
  logout-spends token w t full hashed found nonzero =
      rw (full, hashed, found) (revoke-found (hash_token token) w.tokens t found nonzero)

  -- After a `Logout` that reaches the database, with a token of the table, that token is refused by
  -- every later `RefreshToken`, whatever calls of the service come in between.
  pub refresh_token-logout :
      (token : String) (w : World) (t : RefreshToken)
      → str_eq token "" ≡ false
      → str_eq (hash_token token) "" ≡ false
      → find_where (has_hash (hash_token token)) w.tokens ≡ some t
      → t.id == 0 ≡ false
      → (cs : List Call) (env : RefreshEnv) (issue : IssueEnv)
      → let later = run deps cs (logout deps none none (some token) w).0 in
        (e : GoError) × (refresh_token deps env issue (some token) later ≡ (later, err e))
  refresh_token-logout token w t full hashed found nonzero cs env issue =
      let here = logout-spends token w t full hashed found nonzero in
      refresh_token-refused env issue token (run deps cs (logout deps none none (some token) w).0)
        (run-IsSpent cs (hash_token token) (logout deps none none (some token) w).0 here)
