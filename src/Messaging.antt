-- ===== src/Messaging.antt =====
-- How the services meet at the broker: the routing keys of pkg/events, the publishers, and what each
-- service declares when it starts (internal/messaging/module.go of the order, product, payment and
-- user service). The services start and publish in any order.
pub mod Routes
pub mod Arrivals
pub mod Strays
pub mod Outcomes
pub mod Starts
pub mod Delivery
use golang_gin.Prelude.{String, Bool, true, Option, none, some, List, [], ◌∷◌}
use golang_gin.Errors.{internal, Result, ok, err}
use golang_gin.Broker.{End, waiting, returned}
use golang_gin.Broker.Script.{Script, ◌>>=◌, ◌>>◌, pure, wrapping}
use golang_gin.Broker.Amqp.{Amqp}
use golang_gin.Broker.Channels.{
  Publisher, payment_events, channel, new_consumer, new_consumer_provider, new_publisher_provider,
  bind_queue, publish,
}

pub data Service : Type 0 where
  orders products payments users : Service

-- What the services publish.
pub data Notice : Type 0 where
  order_created stock_release_requested stock_confirm_requested : Notice
  payment_completed payment_failed : Notice
  user_otp_requested : Notice

abbrev pub routing_key : Notice → String
routing_key order_created = "order.created"
routing_key stock_release_requested = "stock.release.requested"
routing_key stock_confirm_requested = "stock.confirm.requested"
routing_key payment_completed = "payment.completed"
routing_key payment_failed = "payment.failed"
routing_key user_otp_requested = "user.otp.requested"

-- Whose publisher has the method.
abbrev pub sender : Notice → Service
sender order_created = orders
sender stock_release_requested = orders
sender stock_confirm_requested = orders
sender payment_completed = payments
sender payment_failed = payments
sender user_otp_requested = users

-- `paymentCompletedQueue`, `paymentFailedQueue`, `paymentExchange`
abbrev pub completed_queue : String
completed_queue = "order.payment_completed.queue"

abbrev pub failed_queue : String
failed_queue = "order.payment_failed.queue"

abbrev pub payment_exchange : String
payment_exchange = "payment_events"

-- The exchange and the queues of the product service.
abbrev pub order_exchange : String
order_exchange = "order_events"

abbrev pub release_queue : String
release_queue = "product_service_stock_release_queue"

abbrev pub confirm_queue : String
confirm_queue = "product_service_stock_confirm_queue"

-- The publishers that the running services have.
pub record Publishers : Type 0 where
  pub of_orders : Option Publisher
  pub of_payments : Option Publisher
  pub of_users : Option Publisher

abbrev pub publisher_of : Service → Publishers → Option Publisher
publisher_of orders ps = ps.of_orders
publisher_of products ps = none
publisher_of payments ps = ps.of_payments
publisher_of users ps = ps.of_users

-- The publisher of a service after its start: a failed start ends the process.
abbrev pub built : Result Publisher → Option Publisher
built (err e) = none
built (ok p) = some p

-- The services start, restart and publish; the payload is what `json.Marshal` makes of the event.
pub data Event : Type 0 where
  starts : Service → Event
  publishes : Notice → Result String → Event

module _ {ℓ} {B : Type ℓ} (amqp : Amqp B) where
  -- `NewPaymentEventConsumer`
  unfoldable pub new_payment_event_consumer : Script B (Unit {0})
  unfolding channel new_consumer bind_queue
  new_payment_event_consumer = do
    wrapping internal "failed to open channel for payment consumer" (channel amqp true)
    wrapping internal "failed to initialize rabbitmq consumer" (new_consumer amqp true)
    wrapping internal "failed to bind queue to payment succeeded routing key"
        (bind_queue amqp completed_queue payment_exchange (routing_key payment_completed))
    wrapping internal "failed to bind queue to payment failed routing key"
        (bind_queue amqp failed_queue payment_exchange (routing_key payment_failed))

  -- The order service: the publisher of the broker's module, then the consumer.
  unfoldable pub start_orders : Script B Publisher
  unfolding new_publisher_provider new_payment_event_consumer
  start_orders = do p ← new_publisher_provider amqp true; new_payment_event_consumer; pure (ok p)

  -- `RegisterConsumers` of the product service, after its consumer is made.
  unfoldable pub start_products : Script B (Unit {0})
  unfolding new_consumer_provider bind_queue
  start_products = do
    new_consumer_provider amqp true
    bind_queue amqp release_queue order_exchange (routing_key stock_release_requested)
    bind_queue amqp confirm_queue order_exchange (routing_key stock_confirm_requested)

  -- The payment service: its consumer declares nothing, and its subscription to the queue
  -- "order.created" runs apart, its error ignored.
  unfoldable pub start_payments : Script B Publisher
  unfolding new_publisher_provider new_consumer_provider
  start_payments = do
    p ← new_publisher_provider amqp true
    new_consumer_provider amqp true
    pure (ok p)

  unfoldable pub start_users : Script B Publisher
  unfolding new_publisher_provider
  start_users = new_publisher_provider amqp true

  -- A publication by the publisher of its service.
  unfoldable pub publish_notice : Notice → Result String → Publishers → B → B × End
  unfolding publish
  publish_notice notice payload ps =
      publish amqp (publisher_of (sender notice) ps) (routing_key notice) payload

  abbrev pub started_orders : Publishers → B × Result Publisher → B × Publishers
  started_orders ps (b, r) =
      (b, record { of_orders = built r; of_payments = ps.of_payments; of_users = ps.of_users })

  abbrev pub started_payments : Publishers → B × Result Publisher → B × Publishers
  started_payments ps (b, r) =
      (b, record { of_orders = ps.of_orders; of_payments = built r; of_users = ps.of_users })

  abbrev pub started_users : Publishers → B × Result Publisher → B × Publishers
  started_users ps (b, r) =
      (b, record { of_orders = ps.of_orders; of_payments = ps.of_payments; of_users = built r })

  unfoldable pub step : Event → B × Publishers → B × Publishers
  unfolding start_orders start_products start_payments start_users publish_notice
  step (starts orders) (b, ps) = started_orders ps (start_orders b)
  step (starts products) (b, ps) = ((start_products b).0, ps)
  step (starts payments) (b, ps) = started_payments ps (start_payments b)
  step (starts users) (b, ps) = started_users ps (start_users b)
  step (publishes notice payload) (b, ps) = ((publish_notice notice payload ps b).0, ps)

  abbrev pub run : List Event → B × Publishers → B × Publishers
  run [] s = s
  run (e ∷ es) s = run es (step e s)
