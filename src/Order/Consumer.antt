-- ===== src/Order/Consumer.antt =====
-- services/order-service/internal/messaging/consumer.go: what the order service does when a payment
-- completed or failed. The two handlers differ in the status, the messages and two texts.
use golang_gin.Prelude.{ℕ, String, none, some, List, [], ◌∷◌, if◌then◌else◌}
use golang_gin.Errors.{already_exists, internal, caused, get_kind, kind_eq, Result, ok, err, Fault}
use golang_gin.Db.{RowsFault}
use golang_gin.Order.{OrderStatus, confirmed, cancelled, OrderItem, Order}
use golang_gin.Order.Table.{Table, get_by_id, update_status}
use golang_gin.Order.Saga.{Message, stock_release, stock_confirm, Outside, Net, publish}
use golang_gin.Order.Service.{World}

-- The faults of one delivery.
pub record PaymentEnv : Type 0 where
  pub update : Fault
  pub select : Fault
  pub items : RowsFault

module _ {S : Type 0} (out : Outside S) where
  -- A round of the loop below, by the outcome of its publication and what the later rounds do.
  abbrev pub round : String → Net S × Fault → Net S × Result (Unit {0}) → Net S × Result (Unit {0})
  round text (n, some e) later = (n, err (caused internal text e))
  round text (n, none) later = later

  -- The loop that publishes a message for each item, up to the first failure.
  unfoldable pub publish_items :
      (OrderItem → Message) → String → List OrderItem → Net S → Net S × Result (Unit {0})
  unfolding publish
  publish_items message text [] n = (n, ok tt)
  publish_items message text (i ∷ is) n =
      let later = publish_items message text is (publish out (message i) n).0 in
      round text (publish out (message i) n) later

  -- The second half of a handler, by the outcome of `GetByID`: a message for each item.
  unfoldable pub publish_found :
      String
      → (Order → OrderItem → Message)
      → String
      → World S
      → Result Order
      → World S × Result (Unit {0})
  unfolding publish_items
  publish_found fetch message text w (err e) = (w, err (caused internal fetch e))
  publish_found fetch message text w (ok o) = (
    record w { net = (publish_items (message o) text o.items w.net).0 },
    (publish_items (message o) text o.items w.net).1,
  )

  unfoldable pub publish_order :
      PaymentEnv
      → String
      → (Order → OrderItem → Message)
      → String
      → ℕ
      → World S
      → World S × Result (Unit {0})
  unfolding get_by_id publish_found
  publish_order env fetch message text id w =
      publish_found fetch message text w (get_by_id env.select env.items id w.orders)

  -- The first half, by the outcome of `UpdateStatus`. An order that is not pending goes on to the
  -- second half.
  unfoldable pub settled : String → World S → Result Table → World S × Result (Unit {0})
  unfolding get_kind kind_eq
  settled text w (ok rows) = (record w { orders = rows }, ok tt)
  settled text w (err e) =
      if kind_eq (get_kind e) already_exists then (w, ok tt) else (w, err (caused internal text e))

  unfoldable pub settle :
      PaymentEnv → OrderStatus → String → ℕ → World S → World S × Result (Unit {0})
  unfolding update_status settled
  settle env next text id w = settled text w (update_status env.update id next w.orders)

  -- The two halves, one after the other.
  abbrev pub after_settling :
      World S × Result (Unit {0})
      → (World S → World S × Result (Unit {0}))
      → World S × Result (Unit {0})
  after_settling (w, err e) rest = (w, err e)
  after_settling (w, ok _) rest = rest w

  -- `handlePaymentSucceeded`
  unfoldable pub handle_payment_succeeded : PaymentEnv → ℕ → World S → World S × Result (Unit {0})
  unfolding settle publish_order
  handle_payment_succeeded env id w =
      after_settling (settle env confirmed "failed to update order status to confirmed" id w) (
        publish_order env "failed to fetch order details for stock confirmation"
          (λ o i. stock_confirm o.id i.product_id i.quantity)
          "failed to publish stock confirm requested event" id)

  -- `handlePaymentFailed`
  unfoldable pub handle_payment_failed : PaymentEnv → ℕ → World S → World S × Result (Unit {0})
  unfolding settle publish_order
  handle_payment_failed env id w =
      after_settling (settle env cancelled "failed to update order status to cancelled" id w) (
        publish_order env "failed to fetch order details for stock release"
          (λ o i. stock_release i.product_id i.quantity "payment_failed")
          "failed to publish stock release requested event" id)
