-- ===== src/Payment.antt =====
-- services/payment-service/internal/model/payment.go: a payment and its status. The times are left
-- out, and so is the metadata, which is always the empty map.
pub mod Table
pub mod Service
pub mod Server
pub mod Verdicts
pub mod Zarinpal
pub mod Marks
pub mod Unlinked
pub mod Intake
pub mod Callback
use golang_gin.Prelude.{
  ℕ, ◌≡◌, String, Bool, true, false, ◌||◌, not, Option, none, some, if◌then◌else◌, ◌==◌,
}
use Prim.Native.String.{◌++◌ as str_append}
use golang_gin.Prelude.Int.{ℤ, pos, ltb_ℤ}
use golang_gin.Errors.{invalid_input, new, Result, ok, err, ◌>>=◌, ◌>>◌, guard}

pub data PaymentStatus : Type 0 where
  pending completed failed canceled refunded expired awaiting : PaymentStatus

-- The currencies of the code: `CurrencyIRR` and the empty one.
pub data Currency : Type 0 where
  irr no_currency : Currency

pub record Payment : Type 0 where
  pub id : ℕ
  pub order_id : ℕ
  pub user_id : ℕ
  pub currency : Currency
  pub amount : ℤ  -- int64
  pub status : PaymentStatus
  pub gateway_name : Option String
  pub gateway_ref_id : Option String
  pub authority : Option String
  pub redirect_url : Option String
  pub failure_reason : Option String

-- `string(p.Status)`
abbrev pub status_text : PaymentStatus → String
status_text pending = "pending"
status_text completed = "completed"
status_text failed = "failed"
status_text canceled = "canceled"
status_text refunded = "refunded"
status_text expired = "expired"
status_text awaiting = "awaiting"

-- `NewPendingPayment`, with the id that `uuid.New` makes.
unfoldable pub new_pending_payment : ℕ → ℕ → ℕ → ℤ → Payment
new_pending_payment fresh order user amount = record {
  id = fresh;
  order_id = order;
  user_id = user;
  currency = irr;
  amount = amount;
  status = pending;
  gateway_name = none;
  gateway_ref_id = none;
  authority = none;
  redirect_url = none;
  failure_reason = none;
}

-- `Validate`, and the payment that it leaves: an empty currency is set.
unfoldable pub validate : Payment → Result Payment
validate p = do
  guard (not (p.order_id == 0)) invalid_input "payment must reference an order"
  guard (not (p.user_id == 0)) invalid_input "payment must reference a user"
  guard (ltb_ℤ (pos 0) p.amount) invalid_input "payment amount must be greater than zero"
  ok (record p { currency = irr })

-- `CanTransitionTo`, on the status.
unfoldable pub can_transition_to : PaymentStatus → PaymentStatus → Bool
can_transition_to completed refunded = true
can_transition_to pending completed = true
can_transition_to pending failed = true
can_transition_to pending canceled = true
can_transition_to pending expired = true
can_transition_to _ _ = false

unfoldable pub mark_awaiting_payment : String → String → String → Payment → Result Payment
mark_awaiting_payment gateway authority url p = elim p.status [
  | pending ↦ ok (record p {
    gateway_name = some gateway;
    authority = some authority;
    redirect_url = some url;
    status = awaiting;
  })
  | _ ↦ err (new invalid_input "only pending payments can transition to awaiting payment")
]

unfoldable pub mark_completed : String → String → Payment → Result Payment
unfolding can_transition_to
mark_completed gateway ref p =
    if not (can_transition_to p.status completed)
    then err (
        new invalid_input
          (str_append "payment cannot transition to completed from " (status_text p.status)))
    else ok (record p {
      status = completed;
      gateway_name = some gateway;
      gateway_ref_id = some ref;
      failure_reason = none;
    })

unfoldable pub mark_failed : String → Payment → Result Payment
unfolding can_transition_to
mark_failed reason p =
    if not (can_transition_to p.status failed)
    then err (
        new invalid_input
          (str_append "payment cannot transition to failed from " (status_text p.status)))
    else ok (record p { status = failed; failure_reason = some reason })

unfoldable pub mark_expired : Payment → Result Payment
unfolding can_transition_to
mark_expired p =
    if not (can_transition_to p.status expired)
    then err (
        new invalid_input
          (str_append "payment cannot transition to expired from " (status_text p.status)))
    else ok (record p { status = expired })
