-- ===== src/Payment/Service.antt =====
-- services/payment-service/internal/service/payment.go and the consumer of
-- messaging/order_created_consumer.go, with repository/event.go and messaging/publisher.go.
use text.Mathlib.Text.{◌==◌ as str_eq}
use Prim.Native.String.{◌++◌ as str_append}
use golang_gin.Prelude.{
  ℕ, String, Bool, true, false, ◌||◌, not, Option, none, some, List, ◌∷◌, if◌then◌else◌, ◌==◌,
}
use golang_gin.Prelude.Int.{ℤ}
use golang_gin.Errors.{
  invalid_input, internal, wrap, message, Result, ok, err, ◌>>=◌, ◌>>◌, Fault, check,
}
use golang_gin.Db.{is_some, find_where, Commit, with_tx}
use golang_gin.Payment.{
  Payment, completed, new_pending_payment, can_transition_to, mark_awaiting_payment, mark_completed,
  mark_failed,
}
use golang_gin.Payment.Table.{Table, create, get_by_authority, update_from_pending, update}

-- `events.PaymentCompleted` and `events.PaymentFailed`, without their event ids and times.
pub data Message : Type 0 where
  payment_completed : ℕ → ℕ → String → String → Message
  payment_failed : ℕ → ℕ → String → Message

-- The database of the service.
pub record Store : Type 0 where
  pub payments : Table
  pub processed : List ℕ  -- the event ids of `processed_events`

-- The database, and the publications that were tried with their outcomes, the latest first.
pub record World : Type 0 where
  pub store : Store
  pub trace : List (Message × Fault)

-- `MarkProcessed`
unfoldable pub mark_processed : Fault → ℕ → List ℕ → Result (List ℕ × Bool)
mark_processed fault event rows = do
  check fault internal "failed to record processed event"
  if is_some (find_where (λ e. e == event) rows) then ok (rows, true) else ok (event ∷ rows, false)

-- The surroundings of one order.created event: the database, the gateway and the broker.
pub record OrderCreatedEnv : Type 0 where
  pub fresh : ℕ
  pub begin : Fault
  pub mark : Fault
  pub insert : Fault
  pub commit : Commit
  pub request : Result (String × String)  -- the authority and its link
  pub update : Fault
  pub broker : Fault

-- The payment as a method leaves it, when the method's error is ignored.
abbrev pub marked : Result Payment → Payment → Payment
marked (ok p) old = p
marked (err e) old = old

-- The table after a statement whose error is ignored.
abbrev pub stored : Result Table → Table → Table
stored (ok rows) old = rows
stored (err e) old = old

abbrev pub with_payments : Table → World → World
with_payments rows w = record w {
  store = record { payments = rows; processed = w.store.processed };
}

-- The callback of the transaction from the outcome of `MarkProcessed` on; no payment is returned
-- for an event that was handled before.
unfoldable pub store_payment :
    OrderCreatedEnv → Payment → Store → Result (List ℕ × Bool) → Result (Store × Option Payment)
unfolding create
store_payment env p s (err e) = err e
store_payment env p s (ok (rows, true)) =
    ok (record { payments = s.payments; processed = rows }, none)
store_payment env p s (ok (rows, false)) = do
  (payments, p') ← create env.insert (some p) s.payments
  ok (record { payments = payments; processed = rows }, some p')

unfoldable pub record_order :
    OrderCreatedEnv → ℕ → Payment → Store → Result (Store × Option Payment)
unfolding mark_processed store_payment
record_order env event p s = store_payment env p s (mark_processed env.mark event s.processed)

-- The end of `HandleOrderCreated`: the payment waits at the gateway.
unfoldable pub awaited : World → Result Table → World × Result (Unit {0})
awaited w (err e) = (w, err e)
awaited w (ok rows) = (with_payments rows w, ok tt)

unfoldable pub initiated : OrderCreatedEnv → World → Result Payment → World × Result (Unit {0})
unfolding awaited update_from_pending
initiated env w (err e) = (w, err e)
initiated env w (ok p) = awaited w (update_from_pending env.update (some p) w.store.payments)

-- What a failed payment leaves: its status stored and its event published, each as far as it goes.
unfoldable pub fail_payment :
    (Payment → Table → Result Table) → Fault → String → Payment → World → World
unfolding mark_failed
fail_payment store broker reason p w =
    let p' = marked (mark_failed reason p) p in
    record (with_payments (stored (store p' w.store.payments) w.store.payments) w) {
      trace = (payment_failed p'.id p'.order_id reason, broker) ∷ w.trace;
    }

-- `HandleOrderCreated` from the gateway's answer on.
unfoldable pub requested :
    OrderCreatedEnv → World → Payment → Result (String × String) → World × Result (Unit {0})
unfolding fail_payment update_from_pending mark_awaiting_payment initiated
requested env w p (err e) = (
  fail_payment (λ p' rows. update_from_pending env.update (some p') rows) env.broker
      (str_append "failed to get authority from zarinpal: " (message e)) p w,
  ok tt,
)
requested env w p (ok (authority, url)) =
    initiated env w (mark_awaiting_payment "zarinpal" authority url p)

-- `HandleOrderCreated` from the transaction's outcome on.
unfoldable pub recorded :
    OrderCreatedEnv → World → Store × Result (Option Payment) → World × Result (Unit {0})
unfolding requested
recorded env w (s, err e) = (record w { store = s }, err e)
recorded env w (s, ok none) = (record w { store = s }, ok tt)
recorded env w (s, ok (some p)) = requested env (record w { store = s }) p env.request

unfoldable pub handle_order_created :
    OrderCreatedEnv → ℕ → ℕ → ℕ → ℤ → World → World × Result (Unit {0})
unfolding new_pending_payment record_order recorded with_tx
handle_order_created env event order user amount w = recorded env w (
    with_tx env.begin env.commit
      (record_order env event (new_pending_payment env.fresh order user amount)) w.store)

-- `events.OrderCreated`, as far as it is read.
pub record OrderCreated : Type 0 where
  pub event_id : ℕ
  pub order_id : ℕ
  pub user_id : ℕ
  pub total_amount : ℤ

-- `Handle` of OrderCreatedConsumer, behind the decoding of the body.
unfoldable pub handle : OrderCreatedEnv → Result OrderCreated → World → World × Result (Unit {0})
unfolding handle_order_created
handle env (err e) w = (w, ok tt)
handle env (ok e) w =
    if (e.event_id == 0) || (e.order_id == 0)
    then (w, ok tt)
    else handle_order_created env e.event_id e.order_id e.user_id e.total_amount w

-- The surroundings of one callback; the gateway says whether the payment succeeded, and its
-- reference.
pub record CallbackEnv : Type 0 where
  pub select : Fault
  pub verify : Result (Bool × String)
  pub update : Fault
  pub broker : Fault

-- The last step of `VerifyPayment`: the publication, whose error is only logged.
unfoldable pub completed_payment :
    CallbackEnv → String → Payment → World → Result Table → World × Result Payment
completed_payment env ref p w (err e) = (w, err e)
completed_payment env ref p w (ok rows) = (
  record (with_payments rows w) {
    trace = (payment_completed p.id p.order_id "zarinpal" ref, env.broker) ∷ w.trace;
  },
  ok p,
)

unfoldable pub complete : CallbackEnv → String → World → Result Payment → World × Result Payment
unfolding completed_payment update
complete env ref w (err e) = (w, err e)
complete env ref w (ok p) =
    completed_payment env ref p w (update env.update (some p) w.store.payments)

-- `VerifyPayment` from the gateway's answer on. With an error the code returns the payment as well.
unfoldable pub verified :
    CallbackEnv → World → Payment → Result (Bool × String) → World × Result Payment
unfolding fail_payment update complete mark_completed wrap
verified env w p (err e) = (
  fail_payment (λ p' rows. update env.update (some p') rows) env.broker (message e) p w,
  err (wrap invalid_input (some e) "payment verification failed"),
)
verified env w p (ok (false, ref)) = (
  fail_payment (λ p' rows. update env.update (some p') rows) env.broker
      "zarinpal payment verification failed" p w,
  err (wrap invalid_input none "payment verification failed"),
)
verified env w p (ok (true, ref)) = complete env ref w (mark_completed "zarinpal" ref p)

-- `VerifyPayment` from the payment on.
unfoldable pub found : CallbackEnv → String → World → Result Payment → World × Result Payment
unfolding verified fail_payment update can_transition_to mark_failed
found env status w (err e) = (w, err e)
found env status w (ok p) =
    let reason : String = "payment canceled by user or rejected by bank" in
    if not (can_transition_to p.status completed)
    then (w, ok p)
    else if not (str_eq status "OK")
    then (
      fail_payment (λ p' rows. update env.update (some p') rows) env.broker reason p w,
      ok (marked (mark_failed reason p) p),
    )
    else verified env w p env.verify

unfoldable pub verify_payment : CallbackEnv → String → String → World → World × Result Payment
unfolding get_by_authority found
verify_payment env authority status w =
    found env status w (get_by_authority env.select authority w.store.payments)
