-- ===== src/Order/Saga.antt =====
-- services/order-service/internal/service: the order service's part of the saga. Its surroundings
-- are a product service, reached over gRPC, and a message broker; every reservation that succeeds
-- and every publication that is tried goes into a trace, the latest first.
use golang_gin.Prelude.{
  ℕ, ◌+◌, String, Bool, not, Option, none, some, List, [], ◌∷◌, ◌++◌, if◌then◌else◌, map,
}
use text.Mathlib.Text.{◌==◌ as str_eq}
use Prim.Native.String.{◌++◌ as str_append}
use golang_gin.Prelude.Int.{ℤ, pos, ◌*ℤ◌, ltb_ℤ}
use golang_gin.Prelude.Words.{wrap64}
use golang_gin.Errors.{
  not_found, invalid_input, internal, new, Result, ok, err, ◌>>=◌, ◌>>◌, guard, Fault,
}
use golang_gin.Order.{OrderStatus, OrderItem, Order, is_empty}

-- `auth.AccessClaims`
pub record AccessClaims : Type 0 where
  pub user_id : String
  pub role : String

-- What the service reads of a product that the product service sends.
pub record ProtoProduct : Type 0 where
  pub id : String
  pub name : String
  pub price : ℤ  -- int64
  pub is_active : Bool

-- `pb.CreateOrderItemRequest`
pub record ItemRequest : Type 0 where
  pub product_id : String
  pub quantity : ℤ  -- int32

pub record ProtoOrderItem : Type 0 where
  pub product_id : String
  pub product_name : String
  pub unit_price : ℤ
  pub quantity : ℤ
  pub subtotal : ℤ

pub record ProtoOrder : Type 0 where
  pub id : String
  pub user_id : String
  pub status : OrderStatus
  pub total_amount : ℤ
  pub items : List ProtoOrderItem

-- The messages that the service publishes; each gets a new event id.
pub data Message : Type 0 where
  order_created : Order → Message
  stock_release : ℕ → ℤ → String → Message
  stock_confirm : ℕ → ℕ → ℤ → Message

-- What the service does to the others: a reservation that succeeded, or the publication of a message
-- under a new event id, with its outcome.
pub data Effect : Type 0 where
  reserved : ℕ → ℤ → Effect
  published : ℕ → Message → Fault → Effect

-- What the service needs of the others: UUIDs as texts, the product service with its state `S`, and
-- the broker's answer to the n-th publication, with the event id made for it.
pub record Outside (S : Type 0) : Type 0 where
  pub parse : String → Option ℕ
  pub format : ℕ → String
  pub get_products_by_ids : List String → S → Result (List ProtoProduct)
  pub reserve_stock : String → ℤ → S → S × Result (Unit {0})
  pub event_id : ℕ → ℕ
  pub broker : ℕ → Fault

-- The state: the product service's, how many publications were tried, and the trace.
pub record Net (S : Type 0) : Type 0 where
  pub stock : S
  pub tries : ℕ
  pub trace : List Effect

module _ {S : Type 0} (out : Outside S) where
  open out use {parse, format}

  -- `Publish` of one event.
  unfoldable pub publish : Message → Net S → Net S × Fault
  publish m n = (
    record n {
      tries = n.tries + 1;
      trace = published (out.event_id n.tries) m (out.broker n.tries) ∷ n.trace;
    },
    out.broker n.tries,
  )

  -- The first loop of `buildOrderItems`: no request is nil, and each is well formed.
  unfoldable pub check_requests : List (Option ItemRequest) → Result (List ItemRequest)
  check_requests [] = ok []
  check_requests (none ∷ rs) = err (new invalid_input "order item is nil")
  check_requests (some r ∷ rs) =
      let rest = check_requests rs >>= λ checked. ok (r ∷ checked) in
      if not (ltb_ℤ (pos 0) r.quantity)
      then err (new invalid_input "item quantity must be greater than zero")
      else elim (parse r.product_id) [
        | none ↦ err (new invalid_input (str_append "invalid product id: " r.product_id))
        | some _ ↦ rest
      ]

  -- `productMap[id]`: a later product of the same id replaces an earlier one.
  unfoldable pub product_map : String → List ProtoProduct → Option ProtoProduct
  product_map id [] = none
  product_map id (p ∷ ps) = elim (product_map id ps) [
    | some q ↦ some q
    | none ↦ if str_eq p.id id then some p else none
  ]

  -- The item that the second loop makes. `MustParse` panics on a text that is no UUID.
  unfoldable pub build_item : List ProtoProduct → ItemRequest → Result OrderItem
  unfolding product_map
  build_item products r = elim (product_map r.product_id products) [
    | none ↦ err (new not_found (str_append "product not found: " r.product_id))
    | some p ↦
        if not p.is_active
        then err (new invalid_input (str_append "product is not active: " p.name))
        else elim (parse r.product_id) [
          | none ↦ err (new internal "panic: uuid: Parse")
          | some uuid ↦ ok (record {
            order_id = 0;
            product_id = uuid;
            product_name = p.name;
            unit_price = p.price;
            quantity = r.quantity;
            subtotal = wrap64 (r.quantity *ℤ p.price);
          })
        ]
  ]

  -- The second loop of `buildOrderItems`.
  unfoldable pub build_items : List ProtoProduct → List ItemRequest → Result (List OrderItem)
  unfolding build_item
  build_items products [] = ok []
  build_items products (r ∷ rs) = do
    item ← build_item products r
    items ← build_items products rs
    ok (item ∷ items)

  -- `buildOrderItems`
  unfoldable pub build_order_items : List (Option ItemRequest) → S → Result (List OrderItem)
  unfolding check_requests build_items
  build_order_items requests stock = do
    guard (not (is_empty requests)) invalid_input "order must contain at least one item"
    rs ← check_requests requests
    products ← out.get_products_by_ids (map (λ r. r.product_id) rs) stock
    build_items products rs

  -- The loop of `compensateReservations`: a release that is not published is only logged.
  unfoldable pub compensate_reservations : String → List OrderItem → Net S → Net S
  unfolding publish
  compensate_reservations reason [] n = n
  compensate_reservations reason (i ∷ is) n =
      compensate_reservations reason is (publish (stock_release i.product_id i.quantity reason) n).0

  -- One reservation.
  unfoldable pub reserve_item : OrderItem → Net S → Net S × Result (Unit {0})
  reserve_item i n =
      let (stock, result) = out.reserve_stock (format i.product_id) i.quantity n.stock in
      elim result [
        | err e ↦ (record n { stock = stock }, err e)
        | ok _ ↦
            (record n { stock = stock; trace = reserved i.product_id i.quantity ∷ n.trace }, ok tt)
      ]

  -- The loop of `reserveItems`; `done` are the items reserved so far.
  unfoldable pub reserve_items :
      List OrderItem → List OrderItem → Net S → Net S × Result (List OrderItem)
  unfolding reserve_item compensate_reservations
  reserve_items done [] n = (n, ok done)
  reserve_items done (i ∷ is) n =
      let next = reserve_items (done ++ i ∷ []) is (reserve_item i n).0 in
      elim (reserve_item i n).1 [
        | err e ↦ (compensate_reservations "reservation_failed" done (reserve_item i n).0, err e)
        | ok _ ↦ next
      ]
