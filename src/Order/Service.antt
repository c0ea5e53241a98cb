-- ===== src/Order/Service.antt =====
-- services/order-service/internal/service/order.go, mapper.go and helper.go: the three calls that
-- the order service answers.
use golang_gin.Prelude.{ℕ, String, ◌&&◌, not, Option, none, some, List, [], ◌∷◌, if◌then◌else◌}
use text.Mathlib.Text.{◌==◌ as str_eq}
use golang_gin.Prelude.Int.{ℤ, pos, ltb_ℤ}
use golang_gin.Errors.{
  invalid_input, unauthenticated, permission_denied, internal, new, Result, ok, err, ◌>>=◌, ◌>>◌,
  guard, Fault,
}
use golang_gin.Db.{RowsFault}
use golang_gin.Order.{failed, pending, OrderItem, Order, calculate_total, is_empty}
use golang_gin.Order.Table.{Table, CreateEnv, create, get_by_id, list_by_user, update_status}
use golang_gin.Order.Saga.{
  AccessClaims, ItemRequest, ProtoOrderItem, ProtoOrder, order_created, Outside, Net, publish,
  build_order_items, compensate_reservations, reserve_items,
}

-- `requireAuthenticated`
unfoldable pub require_authenticated : Option AccessClaims → Result AccessClaims
require_authenticated none = err (new unauthenticated "authentication required")
require_authenticated (some claims) = ok claims

-- The database of the service and its surroundings.
pub record World (S : Type 0) : Type 0 where
  pub net : Net S
  pub orders : Table

-- The faults of one `CreateOrder`.
pub record OrderEnv : Type 0 where
  pub insert : CreateEnv
  pub update : Fault

module _ {S : Type 0} (out : Outside S) where
  open out use {parse, format}

  unfoldable pub to_proto_order_items : List OrderItem → List ProtoOrderItem
  to_proto_order_items [] = []
  to_proto_order_items (i ∷ is) =
      record {
        product_id = format i.product_id;
        product_name = i.product_name;
        unit_price = i.unit_price;
        quantity = i.quantity;
        subtotal = i.subtotal;
      }
      ∷ to_proto_order_items is

  unfoldable pub to_proto_order : Order → ProtoOrder
  unfolding to_proto_order_items
  to_proto_order o = record {
    id = format o.id;
    user_id = format o.user_id;
    status = o.status;
    total_amount = o.total_amount;
    items = to_proto_order_items o.items;
  }

  unfoldable pub to_proto_order_list : List Order → List ProtoOrder
  unfolding to_proto_order
  to_proto_order_list [] = []
  to_proto_order_list (o ∷ os) = to_proto_order o ∷ to_proto_order_list os

  -- The update whose error `CreateOrder` only logs.
  abbrev pub updated : Result Table → Table → Table
  updated (ok rows) old = rows
  updated (err e) old = old

  -- The end of `CreateOrder`, by the outcome of its publication.
  unfoldable pub finish_order :
      OrderEnv → List OrderItem → Order → World S → Net S × Fault → World S × Result ProtoOrder
  unfolding compensate_reservations update_status to_proto_order
  finish_order env reserved o w (n, none) = (record w { net = n }, ok (to_proto_order o))
  finish_order env reserved o w (n, some e) = (
    record {
      net = compensate_reservations out "publish_failed" reserved n;
      orders = updated (update_status env.update o.id failed w.orders) w.orders;
    },
    err (new internal "failed to start order processing"),
  )

  -- `CreateOrder` from the outcome of the repository's `Create` on.
  unfoldable pub start_payment :
      OrderEnv → List OrderItem → Net S → Table × Result Order → World S × Result ProtoOrder
  unfolding compensate_reservations publish finish_order
  start_payment env reserved n (orders, err e) = (
    record { net = compensate_reservations out "order_persist_failed" reserved n; orders = orders },
    err e,
  )
  start_payment env reserved n (orders, ok o) =
      finish_order env reserved o (record { net = n; orders = orders })
        (publish out (order_created o) n)

  -- The order that `CreateOrder` makes of the items. Its id and status are not set yet.
  unfoldable pub new_order : ℕ → List OrderItem → Order
  unfolding calculate_total
  new_order user items =
      let (o, total) = calculate_total (record {
        id = 0;
        user_id = user;
        status = pending;
        total_amount = pos 0;
        items = items;
      }) in
      record o { total_amount = total }

  -- `CreateOrder` from the outcome of the reservations on.
  unfoldable pub store_order :
      OrderEnv
      → ℕ
      → List OrderItem
      → Table
      → Net S × Result (List OrderItem)
      → World S × Result ProtoOrder
  unfolding new_order create start_payment
  store_order env user items rows (n, err e) = (record { net = n; orders = rows }, err e)
  store_order env user items rows (n, ok reserved) =
      start_payment env reserved n (create env.insert (some (new_order user items)) rows)

  -- What `CreateOrder` does before it reserves: the user and the items.
  unfoldable pub prepare_order :
      Option (List (Option ItemRequest)) → Option AccessClaims → S → Result (ℕ × List OrderItem)
  unfolding require_authenticated build_order_items
  prepare_order none claims stock = err (new invalid_input "order must contain at least one item")
  prepare_order (some requests) claims stock = do
    guard (not (is_empty requests)) invalid_input "order must contain at least one item"
    c ← require_authenticated claims
    elim (parse c.user_id) [
      | none ↦ err (new internal "invalid user id in token claims")
      | some user ↦ do items ← build_order_items out requests stock; ok (user, items)
    ]

  -- `CreateOrder` from the user and the items on.
  unfoldable pub reserve_order :
      OrderEnv → World S → Result (ℕ × List OrderItem) → World S × Result ProtoOrder
  unfolding reserve_items store_order
  reserve_order env w (err e) = (w, err e)
  reserve_order env w (ok (user, items)) =
      store_order env user items w.orders (reserve_items out [] items w.net)

  -- `CreateOrder`; the request is nil or its items.
  unfoldable pub create_order :
      OrderEnv
      → Option AccessClaims
      → Option (List (Option ItemRequest))
      → World S
      → World S × Result ProtoOrder
  unfolding prepare_order reserve_order
  create_order env claims request w = reserve_order env w (prepare_order request claims w.net.stock)

  -- `GetOrder`; the request is nil or the text of an id.
  unfoldable pub get_order :
      Fault → RowsFault → Option AccessClaims → Option String → Table → Result ProtoOrder
  unfolding require_authenticated get_by_id to_proto_order
  get_order fault items claims none rows = err (new invalid_input "get order request is nil")
  get_order fault items claims (some text) rows = do
    c ← require_authenticated claims
    elim (parse text) [
      | none ↦ err (new invalid_input "invalid order id")
      | some id ↦ do
        o ← get_by_id fault items id rows
        if not (str_eq (format o.user_id) c.user_id) && not (str_eq c.role "admin")
            then err (new permission_denied "you cannot view this order")
            else ok (to_proto_order o)
    ]

  -- `ListMyOrders`; the request is nil or its limit and offset.
  unfoldable pub list_my_orders :
      RowsFault → Option AccessClaims → Option (ℤ × ℤ) → Table → Result (List ProtoOrder)
  unfolding require_authenticated list_by_user to_proto_order_list
  list_my_orders fault claims request rows = do
    c ← require_authenticated claims
    elim (parse c.user_id) [
      | none ↦ err (new internal "invalid user id in token claims")
      | some user ↦
          let limit : ℤ = elim request [
            | none ↦ pos 20
            | some (l, o) ↦ if ltb_ℤ (pos 0) l then l else pos 20
          ] in
          let offset : ℤ = elim request [ none ↦ pos 0 | some (l, o) ↦ o ] in
          do os ← list_by_user fault user limit offset rows; ok (to_proto_order_list os)
    ]
