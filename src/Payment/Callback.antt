-- ===== src/Payment/Callback.antt =====
-- The payments that the service can bring about: no sequence of its events and callbacks links a
-- payment to the gateway, so that no callback finds one.
use golang_gin.Prelude.{
  ◌≡◌, refl, sym, String, ◌||◌, List, [], ◌∷◌, ◌==◌, inl, inr, All, Bool-cases,
}
use mathlib.Core.Path.{subst}
use golang_gin.Errors.{GoError, Result, ok, err}
use golang_gin.Payment.Service.{
  World, OrderCreatedEnv, OrderCreated, CallbackEnv, handle, found, verify_payment,
}
use golang_gin.Payment.Unlinked.{IsUnlinked, get_by_authority-errs}
use golang_gin.Payment.Intake.{handle_order_created-Keeps}

handle-IsUnlinked :
    (env : OrderCreatedEnv) (body : Result OrderCreated) (w : World)
    → All IsUnlinked w.store.payments
    → All IsUnlinked (handle env body w).0.store.payments
unfolding handle
handle-IsUnlinked env (err e) w all = all
handle-IsUnlinked env (ok e) w all = elim (Bool-cases ((e.event_id == 0) || (e.order_id == 0))) [
  | inl h ↦ rw h all
  | inr h ↦
      rw h (handle_order_created-Keeps env e.event_id e.order_id e.user_id e.total_amount w all)
]

verify_payment-errs :
    (env : CallbackEnv) (authority status : String) (w : World)
    → All IsUnlinked w.store.payments
    → (e : GoError) × (verify_payment env authority status w ≡ (w, err e))
unfolding verify_payment found
verify_payment-errs env authority status w all =
    let (e, h) = get_by_authority-errs env.select authority w.store.payments all in (e, rw h refl)

-- What reaches the service: an order.created event, or a callback with an authority and a status.
pub data Call : Type 0 where
  order_created : OrderCreatedEnv → Result OrderCreated → Call
  callback : CallbackEnv → String → String → Call

unfoldable pub serve : Call → World → World
unfolding handle verify_payment
serve (order_created env body) w = (handle env body w).0
serve (callback env authority status) w = (verify_payment env authority status w).0

abbrev pub run_calls : List Call → World → World
run_calls [] w = w
run_calls (c ∷ cs) w = run_calls cs (serve c w)

serve-IsUnlinked :
    (c : Call) (w : World)
    → All IsUnlinked w.store.payments
    → All IsUnlinked (serve c w).store.payments
unfolding serve
serve-IsUnlinked (order_created env body) w all = handle-IsUnlinked env body w all
serve-IsUnlinked (callback env authority status) w all =
    let (e, h) = verify_payment-errs env authority status w all in
    subst (λ r. All IsUnlinked r.0.store.payments) (sym h) all

pub run_calls-IsUnlinked :
    (cs : List Call) (w : World)
    → All IsUnlinked w.store.payments
    → All IsUnlinked (run_calls cs w).store.payments
run_calls-IsUnlinked [] w all = all
run_calls-IsUnlinked (c ∷ cs) w all = run_calls-IsUnlinked cs (serve c w) (serve-IsUnlinked c w all)

-- From payments without an authority that are pending or failed, as there are at the start, no
-- sequence of order.created events and callbacks, whatever the gateway, the database and the broker
-- answer, leads to another kind of payment; in particular none is ever completed. A callback that
-- comes after them, with any authority and status, fails and changes nothing.
pub verify_payment-fails :
    (cs : List Call) (w : World)
    → All IsUnlinked w.store.payments
    → (env : CallbackEnv) (authority status : String)
    → All IsUnlinked (run_calls cs w).store.payments
      × (e : GoError) × (verify_payment env authority status (run_calls cs w)
          ≡ (run_calls cs w, err e))
verify_payment-fails cs w all env authority status =
    let still = run_calls-IsUnlinked cs w all in
    let (e, h) = verify_payment-errs env authority status (run_calls cs w) still in (still, e, h)
