-- ===== src/Payment/Marks.antt =====
-- The status of a payment under the methods of the model, in any order.
use golang_gin.Prelude.{◌≡◌, ◌≢◌, refl, String, List, [], ◌∷◌, arith}
use golang_gin.Errors.{Result}
use golang_gin.Payment.{
  pending, Payment, can_transition_to, mark_awaiting_payment, mark_completed, mark_failed,
  mark_expired,
}
use golang_gin.Payment.Service.{marked}

-- A call of one of the four methods that set the status.
pub data Mark : Type 0 where
  awaits : String → String → String → Mark
  completes : String → String → Mark
  fails : String → Mark
  expires : Mark

unfoldable pub apply : Mark → Payment → Result Payment
unfolding mark_awaiting_payment mark_completed mark_failed mark_expired
apply (awaits gateway authority url) p = mark_awaiting_payment gateway authority url p
apply (completes gateway ref) p = mark_completed gateway ref p
apply (fails reason) p = mark_failed reason p
apply expires p = mark_expired p

-- A sequence of calls, whichever of them fail.
abbrev pub run : List Mark → Payment → Payment
run [] p = p
run (m ∷ ms) p = run ms (marked (apply m p) p)

apply_settled : (m : Mark) (p : Payment) → p.status ≢ pending → marked (apply m p) p ≡ p
unfolding apply can_transition_to mark_awaiting_payment mark_completed mark_failed mark_expired
apply_settled (awaits gateway authority url) p h = ground arith
apply_settled (completes gateway ref) p h = ground arith
apply_settled (fails reason) p h = ground arith
apply_settled expires p h = ground arith

-- A payment that is no longer pending is final under the methods of the model: whichever of
-- `MarkAwaitingPayment`, `MarkCompleted`, `MarkFailed` and `MarkExpired` are called on it, in any
-- order, it stays as it is. So a payment that awaits the gateway never becomes completed.
pub run-settled : (ms : List Mark) (p : Payment) → p.status ≢ pending → run ms p ≡ p
run-settled [] p h = refl
run-settled (m ∷ ms) p h = rw (apply_settled m p h) (run-settled ms p h)
