-- ===== src/Payment/Table.antt =====
-- services/payment-service/internal/repository/payment.go, with the constraints and unique indexes
-- of migrations/000001_create_payments_table.up.sql.
use text.Mathlib.Text.{◌==◌ as str_eq}
use golang_gin.Prelude.{
  ℕ, zero, suc, String, Bool, true, false, ◌&&◌, ◌||◌, not, Option, none, some, List, ◌==◌,
}
use golang_gin.Prelude.Int.{pos, leb_ℤ}
use golang_gin.Errors.{
  not_found, already_exists, invalid_input, internal, GoError, new, caused, foreign, Result, ok,
  err, ◌>>=◌, ◌>>◌, guard, Fault, check,
}
use golang_gin.Db.{is_some, find_where, exec_update, exec_insert, done, duplicate, Inserted}
use golang_gin.Payment.{
  PaymentStatus, pending, completed, awaiting, Currency, irr, no_currency, Payment, validate,
}

-- The newest row first.
abbrev pub Table : Type 0
Table = List Payment

-- The statuses that the constraint of the column lists.
abbrev pub is_listed : PaymentStatus → Bool
is_listed awaiting = false
is_listed _ = true

abbrev pub is_irr : Currency → Bool
is_irr irr = true
is_irr no_currency = false

-- The CHECK constraints of a row.
unfoldable pub row_checks : Payment → Bool
row_checks p = leb_ℤ (pos 0) p.amount && (is_irr p.currency && is_listed p.status)

abbrev pub is_active : PaymentStatus → Bool
is_active pending = true
is_active completed = true
is_active _ = false

abbrev pub is_pending : PaymentStatus → Bool
is_pending pending = true
is_pending _ = false

-- Equality in SQL: NULL equals nothing.
abbrev pub text_eq : Option String → Option String → Bool
text_eq none _ = false
text_eq (some a) none = false
text_eq (some a) (some b) = str_eq a b

-- Whether two rows collide on `uq_payments_single_active_order` or on `uq_payments_gateway_ref`.
unfoldable pub collides : Payment → Payment → Bool
collides p q =
    (is_active p.status && (is_active q.status && p.order_id == q.order_id))
    || (text_eq p.gateway_name q.gateway_name && text_eq p.gateway_ref_id q.gateway_ref_id)

-- Whether a row may be written next to the other rows.
unfoldable pub fits : Table → Payment → Bool
unfolding collides row_checks
fits rows p =
    row_checks p && not (is_some (find_where (λ q. not (q.id == p.id) && collides p q) rows))

abbrev pub violation : GoError
violation = foreign "constraint violation"

-- The row that `Create` inserts: seven columns, the others NULL.
abbrev pub inserted : Payment → Payment
inserted p = record p {
  gateway_name = none;
  gateway_ref_id = none;
  authority = none;
  redirect_url = none;
  failure_reason = none;
}

-- `Create` by the outcome of its statement.
abbrev pub created : Payment → Inserted Table → Result (Table × Payment)
created p (done rows) = ok (rows, p)
created p duplicate = err (new already_exists "an active payment already exists for this order")
created p (Inserted.failed e) = err (caused internal "failed to create payment in database" e)

-- `Create`: the table, and the payment as `Validate` leaves it.
unfoldable pub create : Fault → Option Payment → Table → Result (Table × Payment)
unfolding validate exec_insert collides row_checks
create fault none rows = err (new invalid_input "payment cannot be nil")
create fault (some p) rows = validate p >>= λ v. created v (
    exec_insert violation row_checks fault (λ q. q.id == v.id || collides (inserted v) q)
      (inserted v) rows)

-- `GetByOrderID`
unfoldable pub get_by_order_id : Fault → ℕ → Table → Result Payment
get_by_order_id fault order rows = do
  check fault internal "failed to get payment by order id"
  elim (find_where (λ p. p.order_id == order) rows) [
    | none ↦ err (new not_found "payment not found for this order")
    | some p ↦ ok (record p { authority = none; redirect_url = none })
  ]

-- `GetByAuthority` by what its query finds.
abbrev pub selected : Option Payment → Result Payment
selected none = err (new not_found "payment not found for this authority")
selected (some p) = ok p

unfoldable pub get_by_authority : Fault → String → Table → Result Payment
get_by_authority fault authority rows = do
  guard (not (str_eq authority "")) invalid_input "authority cannot be empty"
  check fault internal "failed to get payment by authority"
  selected (find_where (λ p. text_eq p.authority (some authority)) rows)

-- The end of an update, by the rows that it affected.
abbrev pub affected : Result (Table × ℕ) → String → GoError → Result Table
affected (err e) text missing = err (caused internal text e)
affected (ok (rows, zero)) text missing = err missing
affected (ok (rows, suc n)) text missing = ok rows

-- The assignments of `UpdateFromPending`; the authority and its link are not among them.
abbrev pub settled : Payment → Payment → Payment
settled p r = record r {
  status = p.status;
  gateway_name = p.gateway_name;
  gateway_ref_id = p.gateway_ref_id;
  failure_reason = p.failure_reason;
}

unfoldable pub update_from_pending : Fault → Option Payment → Table → Result Table
unfolding validate exec_update fits
update_from_pending fault none rows = err (new invalid_input "payment cannot be nil")
update_from_pending fault (some p) rows = validate p >>= λ v.
    affected
      (exec_update violation (fits rows) fault (λ r. (r.id == v.id) && is_pending r.status)
        (settled v) rows)
      "failed to update payment status" (new already_exists "payment is not in a pending state")

-- The assignments of `Update`.
abbrev pub replaced : Payment → Payment → Payment
replaced p r = record (settled p r) { authority = p.authority; redirect_url = p.redirect_url }

unfoldable pub update : Fault → Option Payment → Table → Result Table
unfolding exec_update fits
update fault none rows = err (new invalid_input "payment cannot be nil")
update fault (some p) rows =
    affected (exec_update violation (fits rows) fault (λ r. r.id == p.id) (replaced p) rows)
      "failed to update payment" (new not_found "payment record not found")
