-- ===== src/User/Codes.antt =====
-- One-time codes: what `VerifyOTP` accepts, and that it accepts it once.
use text.Mathlib.TextEquality.{eq_iff}
use golang_gin.Prelude.{ℕ, ◌≡◌, refl, sym, ap, ◌∙◌, String, some, List, All, inl, inr, arith}
use golang_gin.Errors.{GoError, ok, err, Result-cases}
use golang_gin.Db.{find_where}
use golang_gin.User.Table.{get_by_id}
use golang_gin.User.Challenges.{Entry, Cache, is_live, removed}
use golang_gin.User.Service.{Deps, World, AuthResponse, IssueEnv}
use golang_gin.User.Otp.{VerifyEnv, consume, consumed, verify_otp}
use golang_gin.User.Calls.{Call, run}
use golang_gin.User.Gone.{
  IsGone, removed-IsGone, find_where-IsGone, consume-eq-ok, log_in-challenges, Avoids, run-IsGone,
}

module _ (deps : Deps) where
  open deps use {parse}

  consume-refused :
      (env : VerifyEnv) (id_text code : String) (id : ℕ) (cache : Cache)
      → parse id_text ≡ some id
      → IsGone id cache
      → (e : GoError) × (consume deps env (some (id_text, code)) cache ≡ err e)
  consume-refused env id_text code id cache parsed gone =
      elim (Result-cases (consume deps env (some (id_text, code)) cache)) [
        | inl (e, is) ↦ (e, is)
        | inr ((cache', user), is) ↦
            let (key, parsed', entry, found, right, whose, left) =
              consume-eq-ok deps env id_text code cache cache' user is in
            let same : key ≡ id = ground arith in
            let nothing = find_where-IsGone env.read id cache gone in absurd (ground arith)
      ]

  consumed_fails :
      (env : VerifyEnv) (issue : IssueEnv) (w w' : World) (e : GoError) (r : AuthResponse)
      → consumed deps env issue w (err e) ≡ (w', ok r)
      → ⊥
  unfolding consumed
  consumed_fails env issue w w' e r h = ground arith

  -- `VerifyOTP` answers with tokens only for a challenge that is stored under the id of the request
  -- and has not passed its deadline, and for its code. Then the challenge is gone: whatever calls of
  -- the service follow that make no challenge of the same id, a later `VerifyOTP` with that id fails
  -- and changes nothing, whatever code it has.
  pub verify_otp-verify_otp :
      (env : VerifyEnv) (issue : IssueEnv) (id_text code : String) (w w' : World) (r : AuthResponse)
      → verify_otp deps env issue (some (id_text, code)) w ≡ (w', ok r)
      → (id : ℕ) → parse id_text ≡ some id
      → (cs : List Call) → All (Avoids deps id) cs
      → (env' : VerifyEnv) (issue' : IssueEnv) (code' : String)
      → ((e : Entry) × (find_where (is_live env.read id) w.challenges ≡ some e)
          × (e.challenge.code ≡ code))
        × ((x : GoError) × (verify_otp deps env' issue' (some (id_text, code')) (run deps cs w')
              ≡ (run deps cs w', err x)))
  unfolding verify_otp consumed
  verify_otp-verify_otp env issue id_text code w w' r h id parsed cs avoids env' issue' code' =
      elim (Result-cases (consume deps env (some (id_text, code)) w.challenges)) [
        | inl (e, is) ↦ absurd (consumed_fails env issue w w' e r (rw is at h))
        | inr ((cache, user), is) ↦
            let (key, parsed', entry, found, right, whose, left) =
              consume-eq-ok deps env id_text code w.challenges cache user is in
            let same : key ≡ id = ground arith in
            let kept =
              log_in-challenges deps issue (record w { challenges = cache })
                (get_by_id env.select user w.users) in
            let after : w'.challenges ≡ removed id w.challenges =
              ap (λ x. x.0.challenges) (sym (rw is at h)) ∙ (kept ∙ (rw same at left)) in
            let gone : IsGone id w'.challenges = rw after (removed-IsGone id w.challenges) in
            let (x, refused) =
              consume-refused env' id_text code' id (run deps cs w').challenges parsed
                (run-IsGone deps cs id w' avoids gone) in
            (
              (entry, rw same at found, (eq_iff entry.challenge.code code).0 right),
              (x, rw refused refl),
            )
      ]
