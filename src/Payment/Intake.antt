-- ===== src/Payment/Intake.antt =====
-- `HandleOrderCreated` on payments that the gateway does not know.
use golang_gin.Prelude.{
  ℕ, ◌≡◌, refl, String, Bool, true, false, Option, none, some, List, inl, inr, All, arith,
}
use Prim.Native.String.{◌++◌ as str_append}
use golang_gin.Prelude.Int.{ℤ}
use golang_gin.Errors.{message, Result, ok, err, Fault, Result-cases}
use golang_gin.Db.{with_tx, Commit}
use golang_gin.Db.Laws.{Outcome, with_tx-Outcome, with_tx-eq-ok}
use golang_gin.Payment.{
  pending, Payment, new_pending_payment, mark_awaiting_payment, mark_failed, can_transition_to,
}
use golang_gin.Payment.Table.{Table, create, update_from_pending}
use golang_gin.Payment.Service.{
  Store, World, OrderCreatedEnv, mark_processed, store_payment, marked, stored, record_order,
  awaited, initiated, fail_payment, requested, recorded, handle_order_created,
}
use golang_gin.Payment.Unlinked.{IsUnlinked, IsOpen, update_from_pending-All, create-IsUnlinked}

-- What the transaction leaves: rows without authorities, and a payment that is pending.
abbrev Recorded : Store × Option Payment → Type 0
Recorded (s, none) = All IsUnlinked s.payments
Recorded (s, some p) = All IsUnlinked s.payments × (p.status ≡ pending)

abbrev OfOk : Result (Store × Option Payment) → Type 0
OfOk (err e) = Unit
OfOk (ok r) = Recorded r

store_payment-Recorded :
    (env : OrderCreatedEnv) (p : Payment) (s : Store)
    → p.status ≡ pending
    → All IsUnlinked s.payments
    → (r : Result (List ℕ × Bool)) → OfOk (store_payment env p s r)
unfolding store_payment
store_payment-Recorded env p s starts all (err e) = tt
store_payment-Recorded env p s starts all (ok (rows, true)) = all
store_payment-Recorded env p s starts all (ok (rows, false)) =
    elim (Result-cases (create env.insert (some p) s.payments)) [
      | inl (e, h) ↦ rw h tt
      | inr ((rows', p'), h) ↦
          rw h (create-IsUnlinked env.insert p p' s.payments rows' starts all h)
    ]

-- What the transaction with its commit leaves.
abbrev Left : Store × Result (Option Payment) → Type 0
Left (s, err e) = All IsUnlinked s.payments
Left (s, ok none) = All IsUnlinked s.payments
Left (s, ok (some p)) = All IsUnlinked s.payments × (p.status ≡ pending)

Recorded-payments : (s : Store) (o : Option Payment) → Recorded (s, o) → All IsUnlinked s.payments
Recorded-payments s none h = h
Recorded-payments s (some p) h = h.0

Recorded-Left : (s : Store) (o : Option Payment) → Recorded (s, o) → Left (s, ok o)
Recorded-Left s none h = h
Recorded-Left s (some p) h = h

Outcome-Left :
    (fn : Store → Result (Store × Option Payment)) (s : Store)
    → All IsUnlinked s.payments
    → OfOk (fn s)
    → (r : Store × Result (Option Payment)) → Outcome fn s r
    → ((o : Option Payment) → r.1 ≡ ok o → fn s ≡ ok (r.0, o))
    → Left r
Outcome-Left fn s all h (s', ok o) out f = let is = f o refl in Recorded-Left s' o (rw is at h)
Outcome-Left fn s all h (s', err e) (inl (same, x, is)) f = rw same all
Outcome-Left fn s all h (s', err e) (inr (s'', o, is, same)) f =
    rw same (Recorded-payments s'' o (rw is at h))

with_tx-Left :
    (begin : Fault) (commit : Commit) (fn : Store → Result (Store × Option Payment)) (s : Store)
    → All IsUnlinked s.payments
    → OfOk (fn s)
    → Left (with_tx begin commit fn s)
with_tx-Left begin commit fn s all h =
    Outcome-Left fn s all h (with_tx begin commit fn s) (with_tx-Outcome fn s begin commit)
      (λ o is. with_tx-eq-ok fn s begin commit is)

-- A call keeps the payments unlinked, and completes none.
abbrev pub Keeps {ℓ} : {A : Type ℓ} → World → World × Result A → Type 0
Keeps w (w', r) = All IsUnlinked w'.store.payments

awaited-Keeps :
    (w : World) (r : Result Table)
    → All IsUnlinked (stored r w.store.payments)
    → Keeps w (awaited w r)
unfolding awaited
awaited-Keeps w (err e) h = h
awaited-Keeps w (ok rows) h = h

initiated-Keeps :
    (env : OrderCreatedEnv) (w : World) (p : Payment)
    → IsOpen p
    → All IsUnlinked w.store.payments
    → Keeps w (initiated env w (ok p))
unfolding initiated
initiated-Keeps env w p waits all =
    awaited-Keeps w (update_from_pending env.update (some p) w.store.payments)
      (update_from_pending-All env.update p waits w.store.payments all)

awaiting-IsOpen :
    (gateway authority url : String) (p p' : Payment)
    → mark_awaiting_payment gateway authority url p ≡ ok p'
    → IsOpen p'
unfolding mark_awaiting_payment
awaiting-IsOpen gateway authority url p p' h = ground arith

failed-IsOpen :
    (reason : String) (p : Payment) → p.status ≡ pending → IsOpen (marked (mark_failed reason p) p)
unfolding mark_failed can_transition_to
failed-IsOpen reason p starts = rw starts (inr (inr refl))

requested-Keeps :
    (env : OrderCreatedEnv) (w : World) (p : Payment)
    → p.status ≡ pending
    → All IsUnlinked w.store.payments
    → (r : Result (String × String)) → Keeps w (requested env w p r)
unfolding requested fail_payment initiated
requested-Keeps env w p starts all (ok (authority, url)) =
    elim (Result-cases (mark_awaiting_payment "zarinpal" authority url p)) [
      | inl (e, h) ↦ rw h all
      | inr (p', h) ↦
          rw h (initiated-Keeps env w p' (awaiting-IsOpen "zarinpal" authority url p p' h) all)
    ]
requested-Keeps env w p starts all (err e) =
    let reason : String = str_append "failed to get authority from zarinpal: " (message e) in
    update_from_pending-All env.update (marked (mark_failed reason p) p)
      (failed-IsOpen reason p starts) w.store.payments all

recorded-Keeps :
    (env : OrderCreatedEnv) (w : World) (r : Store × Result (Option Payment))
    → Left r
    → Keeps w (recorded env w r)
unfolding recorded
recorded-Keeps env w (s, err e) h = h
recorded-Keeps env w (s, ok none) h = h
recorded-Keeps env w (s, ok (some p)) (all, starts) =
    requested-Keeps env (record w { store = s }) p starts all env.request

pub handle_order_created-Keeps :
    (env : OrderCreatedEnv) (event order user : ℕ) (amount : ℤ) (w : World)
    → All IsUnlinked w.store.payments
    → Keeps w (handle_order_created env event order user amount w)
unfolding handle_order_created record_order new_pending_payment
handle_order_created-Keeps env event order user amount w all =
    let p = new_pending_payment env.fresh order user amount in
    recorded-Keeps env w (with_tx env.begin env.commit (record_order env event p) w.store) (
      with_tx-Left env.begin env.commit (record_order env event p) w.store all (
        store_payment-Recorded env p w.store refl all
          (mark_processed env.mark event w.store.processed)))
