-- ===== src/Payment/Server.antt =====
-- services/payment-service/internal/handler with requireAdmin (service/helper.go), service/mapper.go
-- and the read for admins of service/payment.go: the calls of the payment service as gRPC methods.
use text.Mathlib.Text.{◌==◌ as str_eq}
use golang_gin.Prelude.{ℕ, String, Bool, true, false, Option, none, some, List}
use golang_gin.Prelude.Int.{ℤ}
use golang_gin.Errors.{
  unauthenticated, permission_denied, invalid_input, new, Result, ok, err, ◌>>=◌, ◌>>◌, guard,
  Fault,
}
use golang_gin.Auth.{AccessClaims}
use golang_gin.Rpc.{Reply, CallEnv, handled, chain}
use golang_gin.Payment.{Payment, Currency, irr, no_currency, status_text}
use golang_gin.Payment.Table.{Table, get_by_order_id}
use golang_gin.Payment.Service.{World, CallbackEnv}
use golang_gin.Payment.Service

-- `pb.Payment`, without its times and the metadata.
pub record ProtoPayment : Type 0 where
  pub id : String
  pub order_id : String
  pub user_id : String
  pub currency : String
  pub amount : ℤ
  pub status : String
  pub gateway_name : String
  pub gateway_ref_id : String
  pub failure_reason : String

-- `pb.VerifyPaymentResponse`
pub record VerifyPaymentResponse : Type 0 where
  pub order_id : String
  pub status : String
  pub ref_id : String

-- `string(p.Currency)`
abbrev pub currency_text : Currency → String
currency_text irr = "IRR"
currency_text no_currency = ""

-- A pointer to a text, with the empty text for nil.
abbrev pub text_or_empty : Option String → String
text_or_empty none = ""
text_or_empty (some text) = text

unfoldable pub require_admin : Option AccessClaims → Result (Unit {0})
require_admin none = err (new unauthenticated "authentication required")
require_admin (some c) =
    guard (str_eq c.role "admin") permission_denied "only admins can perform this action"

pub data Method : Type 0 where
  get_payment_by_order_id verify_payment : Method

abbrev pub full_name : Method → String
full_name get_payment_by_order_id = "/payment.PaymentService/GetPaymentByOrderID"
full_name verify_payment = "/payment.PaymentService/VerifyPayment"

-- `PublicMethods`
abbrev pub public_methods : Method → Bool
public_methods get_payment_by_order_id = false
public_methods verify_payment = true

-- `RateLimitRules`, per minute.
abbrev pub rate_limit_rules : Method → Option ℕ
rate_limit_rules get_payment_by_order_id = some 30
rate_limit_rules verify_payment = some 60

-- A method behind the interceptors, with the values of "authorization".
unfoldable pub call {κ} :
    {A : Type κ}
    → Method
    → CallEnv
    → List String
    → World
    → (Option AccessClaims → World × Result A)
    → World × Reply A
unfolding chain handled
call m env values w service =
    chain env (full_name m) (public_methods m) (rate_limit_rules m) values w
      (λ claims. handled env.details_ok "payment-service" (service claims))

module _ (parse : String → Option ℕ) (format : ℕ → String) where
  unfoldable pub to_proto_payment : Payment → ProtoPayment
  to_proto_payment p = record {
    id = format p.id;
    order_id = format p.order_id;
    user_id = format p.user_id;
    currency = currency_text p.currency;
    amount = p.amount;
    status = status_text p.status;
    gateway_name = text_or_empty p.gateway_name;
    gateway_ref_id = text_or_empty p.gateway_ref_id;
    failure_reason = text_or_empty p.failure_reason;
  }

  -- `GetPaymentByOrderID`; the request is nil or its order id.
  unfoldable pub get_payment :
      Fault → Option AccessClaims → Option String → Table → Result ProtoPayment
  unfolding require_admin get_by_order_id to_proto_payment
  get_payment select claims none rows =
      err (new invalid_input "get payment by order id request is nil")
  get_payment select claims (some text) rows = do
    require_admin claims
    elim (parse text) [
      | none ↦ err (new invalid_input "invalid order id")
      | some order ↦ do p ← get_by_order_id select order rows; ok (to_proto_payment p)
    ]

  -- What the handler of `VerifyPayment` answers.
  abbrev pub to_verify_response : Payment → VerifyPaymentResponse
  to_verify_response p = record {
    order_id = format p.order_id;
    status = status_text p.status;
    ref_id = text_or_empty p.gateway_ref_id;
  }

  abbrev pub answered : World × Result Payment → World × Result VerifyPaymentResponse
  answered (w, err e) = (w, err e)
  answered (w, ok p) = (w, ok (to_verify_response p))

  unfoldable pub serve_get_payment_by_order_id :
      CallEnv → List String → Fault → String → World → World × Reply ProtoPayment
  unfolding call get_payment
  serve_get_payment_by_order_id env values select order w =
      call get_payment_by_order_id env values w
        (λ claims. (w, get_payment select claims (some order) w.store.payments))

  unfoldable pub serve_verify_payment :
      CallEnv
      → List String
      → CallbackEnv
      → String × String
      → World
      → World × Reply VerifyPaymentResponse
  unfolding call Service.verify_payment
  serve_verify_payment env values callback (authority, status) w =
      call verify_payment env values w
        (λ claims. answered (Service.verify_payment callback authority status w))
