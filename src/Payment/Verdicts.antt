-- ===== src/Payment/Verdicts.antt =====
-- VerifyPayment of the payment service with the answers of the Zarinpal client: what a callback comes
-- to when the client decodes the body of the answer twice.
use golang_gin.Prelude.{◌≡◌, refl, String, Bool, true, some, ◌∷◌, ◌⊎◌, inl, inr, Bool-cases, arith}
use text.Mathlib.Text.{◌==◌ as str_eq}
use golang_gin.Errors.{GoError, message, Result, ok, err}
use golang_gin.Payment.{
  Payment, PaymentStatus, pending, completed, failed, can_transition_to, mark_failed,
}
use golang_gin.Payment.Table.{get_by_authority, update}
use golang_gin.Payment.Service.{
  World, CallbackEnv, payment_failed, stored, with_payments, fail_payment, verified, found,
  verify_payment,
}
use golang_gin.Payment.Zarinpal as Zarinpal
use golang_gin.Payment.Zarinpal.{Response, Wire, PaymentVerifyOutput, HoldsOne, verify_payment-errs}

-- What the service reads of the client's answer.
abbrev pub verdict : Result PaymentVerifyOutput → Result (Bool × String)
verdict (err e) = err e
verdict (ok out) = ok (out.success, out.ref_id)

-- The payment with its failure.
abbrev pub as_failed : String → Payment → Payment
as_failed reason p = record p { status = failed; failure_reason = some reason }

-- The world after a pending payment failed: the row is stored if the statement succeeds, and
-- payment.failed is published if the broker takes it.
abbrev pub after_failure : CallbackEnv → String → Payment → World → World
after_failure env reason p w =
    let rows = w.store.payments in
    record (with_payments (stored (update env.update (some (as_failed reason p)) rows) rows) w) {
      trace = (payment_failed p.id p.order_id reason, env.broker) ∷ w.trace;
    }

-- Nothing happened, or the pending payment of the authority failed.
abbrev pub IsUnpaid : CallbackEnv → String → World → World → Type 0
IsUnpaid env authority w w' =
    (w' ≡ w)
    ⊎ ((p : Payment) × (reason : String) × (get_by_authority env.select authority w.store.payments
          ≡ ok p)
        × (p.status ≡ pending)
        × (w' ≡ after_failure env reason p w))

only_pending : (s : PaymentStatus) → can_transition_to s completed ≡ true → s ≡ pending
unfolding can_transition_to
only_pending s h = ground arith

fail_payment-eq :
    (env : CallbackEnv) (reason : String) (p : Payment) (w : World)
    → p.status ≡ pending
    → fail_payment (λ p' rows. update env.update (some p') rows) env.broker reason p w
      ≡ after_failure env reason p w
unfolding fail_payment mark_failed can_transition_to
fail_payment-eq env reason p w h = rw h refl

found-IsUnpaid :
    (env : CallbackEnv) (authority status : String) (w : World) (x : GoError)
    → env.verify ≡ err x
    → (r : Result Payment) → get_by_authority env.select authority w.store.payments ≡ r
    → IsUnpaid env authority w (found env status w r).0
unfolding found verified
found-IsUnpaid env authority status w x v (err e) g = inl refl
found-IsUnpaid env authority status w x v (ok p) g =
    elim (Bool-cases (can_transition_to p.status completed)) [
      | inr settled ↦ rw settled (inl refl)
      | inl waiting ↦
          let waits = only_pending p.status waiting in
          elim (Bool-cases (str_eq status "OK")) [
            | inr other ↦
                rw (waiting, other) (inr (p, _, g, waits, fail_payment-eq env _ p w waits))
            | inl good ↦
                rw (waiting, good, v)
                  (inr (p, message x, g, waits, fail_payment-eq env (message x) p w waits))
          ]
    ]

-- A callback whose verification is the client's, over any table of payments and whatever the gateway
-- answers, also a success with code 100, in a body that holds one JSON value at most: the client
-- returns an error. The callback changes nothing, or it finds the pending payment of the authority,
-- sets it to failed if that statement succeeds, and tries to publish payment.failed for it. So no
-- callback completes a payment or publishes payment.completed.
pub verify_payment-IsUnpaid :
    {B : Type 0} (wire : Wire B) (outcome : Result (Response B))
    → HoldsOne wire outcome
    → (env : CallbackEnv) → env.verify ≡ verdict (Zarinpal.verify_payment wire outcome)
    → (authority status : String) (w : World)
    → ((x : GoError) × (Zarinpal.verify_payment wire outcome ≡ err x))
      × IsUnpaid env authority w (verify_payment env authority status w).0
unfolding verify_payment
verify_payment-IsUnpaid wire outcome one env v authority status w =
    let (x, bad) = verify_payment-errs wire outcome one in
    (
      (x, bad),
      found-IsUnpaid env authority status w x (rw bad at v)
          (get_by_authority env.select authority w.store.payments) refl,
    )
