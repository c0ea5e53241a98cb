-- ===== src/Order.antt =====
-- services/order-service/internal/model/order.go: orders, their items and totals. The ids and
-- timestamps of items are left out: no branch reads them.
pub mod Table
pub mod Saga
pub mod Server
pub mod Client
pub mod Bookings
pub mod Checkout
pub mod Lost
pub mod Service
pub mod Compensation
pub mod Acceptance
pub mod Totals
pub mod Items
pub mod Status
pub mod Settlement
pub mod Redelivery
pub mod Consumer
use golang_gin.Prelude.{
  ℕ, ◌≡◌, String, Bool, true, false, ◌&&◌, ◌||◌, not, Option, none, some, List, [], ◌∷◌,
  if◌then◌else◌,
}
use golang_gin.Prelude.Int.{ℤ, pos, ◌+ℤ◌, ◌*ℤ◌, leb_ℤ, ltb_ℤ, eqb_ℤ}
use golang_gin.Prelude.Words.{wrap64}
use golang_gin.Errors.{invalid_input, Result, ok, err, ◌>>=◌, ◌>>◌, guard}

pub data OrderStatus : Type 0 where
  pending confirmed cancelled failed : OrderStatus

pub record OrderItem : Type 0 where
  pub order_id : ℕ
  pub product_id : ℕ
  pub product_name : String
  pub unit_price : ℤ  -- int64
  pub quantity : ℤ  -- int32
  pub subtotal : ℤ  -- int64

pub record Order : Type 0 where
  pub id : ℕ
  pub user_id : ℕ
  pub status : OrderStatus
  pub total_amount : ℤ  -- int64
  pub items : List OrderItem

-- `CalculateSubtotal`
unfoldable pub calculate_subtotal : OrderItem → ℤ
calculate_subtotal item = wrap64 (item.unit_price *ℤ item.quantity)

-- One round of `CalculateTotal`: a subtotal that is 0 is computed and stored in the item.
unfoldable pub fill_subtotal : OrderItem → OrderItem
unfolding calculate_subtotal
fill_subtotal item =
    if eqb_ℤ item.subtotal (pos 0) && ltb_ℤ (pos 0) item.quantity
    then record item { subtotal = calculate_subtotal item }
    else item

-- The loop of `CalculateTotal`: the items as it leaves them, and the total.
unfoldable pub sum_items : ℤ → List OrderItem → List OrderItem × ℤ
unfolding fill_subtotal
sum_items total [] = ([], total)
sum_items total (item ∷ items) =
    let item' = fill_subtotal item in
    let (rest, sum) = sum_items (wrap64 (total +ℤ item'.subtotal)) items in (item' ∷ rest, sum)

-- `CalculateTotal`
unfoldable pub calculate_total : Order → Order × ℤ
unfolding sum_items
calculate_total o =
    let (items, sum) = sum_items (pos 0) o.items in (record o { items = items }, sum)

-- The loop of `Validate` over the items.
unfoldable pub validate_items : List OrderItem → Result (Unit {0})
validate_items [] = ok tt
validate_items (item ∷ items) = do
  guard (ltb_ℤ (pos 0) item.quantity) invalid_input "item quantity must be positive"
  guard (leb_ℤ (pos 0) item.unit_price) invalid_input "item unit price cannot be negative"
  validate_items items

abbrev pub is_empty {ℓ} : {A : Type ℓ} → List A → Bool
is_empty [] = true
is_empty (x ∷ xs) = false

-- `Validate`; it returns the order with the subtotals that its call of `CalculateTotal` stores.
unfoldable pub validate : Order → Result Order
unfolding validate_items calculate_total
validate o = do
  guard (not (is_empty o.items)) invalid_input "order must contain at least one item"
  validate_items o.items
  let (o', sum) = calculate_total o
  guard (eqb_ℤ o.total_amount sum) invalid_input "total amount does not match sum of items"
  ok o'

-- Whether two statuses are one.
abbrev pub status_eq : OrderStatus → OrderStatus → Bool
status_eq pending pending = true
status_eq confirmed confirmed = true
status_eq cancelled cancelled = true
status_eq failed failed = true
status_eq _ _ = false

-- `CanTransitionTo`
unfoldable pub can_transition_to : Order → OrderStatus → Bool
can_transition_to o next =
    if not (status_eq o.status pending)
    then false
    else status_eq next confirmed || status_eq next cancelled
