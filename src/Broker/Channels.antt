-- ===== src/Broker/Channels.antt =====
-- pkg/rabbitmq: channels, publishers and queues (connection.go, publisher.go, module.go, and
-- `NewConsumer`, `BindQueue` and `Close` of consumer.go) over the AMQP library.
use text.Mathlib.Text.{◌==◌ as str_eq}
use golang_gin.Prelude.{String, Bool, true, not, Option, none, some, if◌then◌else◌}
use golang_gin.Errors.{invalid_input, internal, new, Result, ok, err, guard, check, caused, Fault}
use golang_gin.Broker.{End, waiting, returned}
use golang_gin.Broker.Script.{Script, ◌>>◌, pure, observe, attempt}
use golang_gin.Broker.Amqp.{Confirmation, unsent, acked, nacked, silent, Amqp}

-- `Publisher`: its channel is left out, its exchange is what it was made with.
pub record Publisher : Type 0 where
  pub exchange : String

-- The exchange of `NewPublisherProvider`.
abbrev pub payment_events : String
payment_events = "payment_events"

-- `Connect`, by what the dialling reports.
unfoldable pub connect : String → Fault → Result (Unit {0})
connect url dial =
    if str_eq url ""
    then err (new invalid_input "rabbitmq url is empty")
    else check dial internal "failed to connect to rabbitmq"

-- What an acknowledgement says, or that none comes and `Publish` waits.
abbrev pub confirmed : Confirmation → End
confirmed (unsent e) = returned (err (caused internal "failed to publish event" e))
confirmed acked = returned (ok tt)
confirmed nacked = returned (err (new internal "rabbitmq rejected published message"))
confirmed silent = waiting

-- The exchange and the body of a publication, once its checks are passed. The publisher may be
-- nil, and the payload is what `json.Marshal` makes of it.
unfoldable pub prepared : Option Publisher → String → Result String → Result (String × String)
prepared none key payload = err (new internal "rabbitmq publisher is not initialized")
prepared (some p) key payload =
    if str_eq key ""
    then err (new invalid_input "rabbitmq routing key is empty")
    else elim payload [
      | err e ↦ err (caused internal "failed to marshal event payload" e)
      | ok body ↦ ok (p.exchange, body)
    ]

module _ {ℓ} {B : Type ℓ} (amqp : Amqp B) where
  -- `Connection.Channel`; the connection may be nil.
  unfoldable pub channel : Bool → Script B (Unit {0})
  channel connection = do
    pure (guard connection internal "rabbitmq connection is nil")
    observe (λ b. guard (not (amqp.is_closed b)) internal "rabbitmq connection is closed")
    attempt amqp.open_channel internal "failed to open rabbitmq channel"

  -- `NewConsumer`; the channel may be nil.
  unfoldable pub new_consumer : Bool → Script B (Unit {0})
  new_consumer channel = pure (guard channel internal "rabbitmq channel is nil")

  -- `NewPublisher`; the channel may be nil.
  unfoldable pub new_publisher : Bool → String → Script B Publisher
  new_publisher channel exchange = do
    pure (guard channel internal "rabbitmq channel is nil")
    pure (guard (not (str_eq exchange "")) invalid_input "rabbitmq exchange is empty")
    attempt (amqp.exchange_declare exchange) internal "failed to declare exchange"
    attempt amqp.confirm internal "failed to enable publisher confirms"
    pure (ok (record { exchange = exchange }))

  -- `NewPublisherProvider` and `NewConsumerProvider`
  unfoldable pub new_publisher_provider : Bool → Script B Publisher
  unfolding channel new_publisher
  new_publisher_provider connection = do channel connection; new_publisher true payment_events

  unfoldable pub new_consumer_provider : Bool → Script B (Unit {0})
  unfolding channel new_consumer
  new_consumer_provider connection = do channel connection; new_consumer true

  unfoldable pub bind_queue : String → String → String → Script B (Unit {0})
  bind_queue queue exchange key = do
    pure (guard (not (str_eq queue "")) invalid_input "queue name is empty")
    pure (guard (not (str_eq exchange "")) invalid_input "exchange name is empty")
    pure (guard (not (str_eq key "")) invalid_input "routing key is empty")
    attempt (amqp.queue_declare queue) internal "failed to declare rabbitmq queue"
    attempt (amqp.queue_bind (queue, key, exchange)) internal "failed to bind rabbitmq queue"

  abbrev pub send : Result (String × String) → String → B → B × End
  send (err e) key b = (b, returned (err e))
  send (ok (exchange, body)) key b =
      let (b', confirmation) = amqp.publish exchange key body b in (b', confirmed confirmation)

  unfoldable pub publish : Option Publisher → String → Result String → B → B × End
  unfolding prepared
  publish publisher key payload b = send (prepared publisher key payload) key b
