-- ===== src/Messaging/Routes.antt =====
-- What every start and every publication keeps of the state of the broker.
use golang_gin.Prelude.{◌≡◌, refl, ◌⊎◌, inl, inr, String, Bool, true, List, [], ◌∷◌}
use golang_gin.Errors.{Kind, Result, ok, err, Fault}
use golang_gin.Broker.Script.{Script, ◌>>=◌, go_on, pure, observe, attempt, wrapping}
use golang_gin.Broker.Amqp.{Binding, Amqp, Same, IsAmqp}
use golang_gin.Broker.Channels.{
  payment_events, channel, new_consumer, new_consumer_provider, new_publisher,
  new_publisher_provider, bind_queue, publish, prepared, send,
}
use golang_gin.Messaging.{
  orders, products, payments, users, Publishers, publisher_of, sender, routing_key, completed_queue,
  failed_queue, order_exchange, Event, starts, publishes, new_payment_event_consumer, start_orders,
  start_products, start_payments, start_users, publish_notice, step, run,
}

-- The bindings of the order service.
abbrev pub completed_binding : Binding
completed_binding = (completed_queue, "payment.completed", payment_events)

abbrev pub failed_binding : Binding
failed_binding = (failed_queue, "payment.failed", payment_events)

abbrev pub IsPaymentBinding : Binding → Type 0
IsPaymentBinding x = (x ≡ completed_binding) ⊎ (x ≡ failed_binding)

module _ {ℓ} {B : Type ℓ} (amqp : Amqp B) where
  -- A property of the state that the calls of the services keep.
  pub record IsKept (P : B → Type 0) : Type ℓ where
    pub same : (b b' : B) → Same amqp b b' → P b → P b'
    pub declared : (b : B) → P b → P (amqp.exchange_declare payment_events b).0
    pub bound : (x : Binding) (b : B) → IsPaymentBinding x → P b → P (amqp.queue_bind x b).0
    pub stray : (q k : String) (b : B) → P b → P (amqp.queue_bind (q, k, order_exchange) b).0
    pub published :
        (exchange key body : String) (b : B) → P b → P (amqp.publish exchange key body b).0

module _ {ℓ} {B : Type ℓ} (P : B → Type 0) where
  -- A script that keeps a property of the state.
  pub record Keeps {κ} {A : Type κ} (script : Script B A) : Type ℓ where
    pub keeps : (b : B) → P b → P (script b).0

  go_on-Keeps {κ μ} :
      {A : Type κ} {C : Type μ} (r : B × Result A) (next : A → Script B C)
      → ((a : A) → Keeps (next a))
      → P r.0
      → P (go_on r next).0
  go_on-Keeps (b, err e) next k p = p
  go_on-Keeps (b, ok a) next k p = (k a).keeps b p

  pub then-Keeps {κ μ} :
      {A : Type κ} {C : Type μ} (first : Script B A) (next : A → Script B C)
      → Keeps first
      → ((a : A) → Keeps (next a))
      → Keeps (first >>= next)
  unfolding ◌>>=◌
  then-Keeps first next k l = record { keeps = λ b p. go_on-Keeps (first b) next l (k.keeps b p) }

module _ {ℓ} {B : Type ℓ} (amqp : Amqp B) (laws : IsAmqp amqp) (P : B → Type 0)
    (kept : IsKept amqp P) where
  pub pure-Keeps {κ} : {A : Type κ} (r : Result A) → Keeps P (pure {B = B} r)
  unfolding pure
  pure-Keeps r = record { keeps = λ b p. p }

  pub observe-Keeps {κ} : {A : Type κ} (look : B → Result A) → Keeps P (observe look)
  unfolding observe
  observe-Keeps look = record { keeps = λ b p. p }

  pub attempt-Keeps :
      (call : B → B × Fault) (kind : Kind) (text : String)
      → ((b : B) → P b → P (call b).0)
      → Keeps P (attempt call kind text)
  unfolding attempt
  attempt-Keeps call kind text k = record { keeps = k }

  pub wrapping-Keeps {κ} :
      {A : Type κ} (kind : Kind) (text : String) (script : Script B A)
      → Keeps P script
      → Keeps P (wrapping kind text script)
  unfolding wrapping
  wrapping-Keeps kind text script k = record { keeps = k.keeps }

  pub channel-Keeps : (connection : Bool) → Keeps P (channel amqp connection)
  unfolding channel
  channel-Keeps connection = then-Keeps P _ _ (pure-Keeps _) λ _.
      then-Keeps P _ _ (observe-Keeps _)
        λ _. attempt-Keeps _ _ _ (λ b. kept.same b _ (laws.open_same b))

  pub new_publisher-Keeps : Keeps P (new_publisher amqp true payment_events)
  unfolding new_publisher
  new_publisher-Keeps = then-Keeps P _ _ (pure-Keeps _) λ _. then-Keeps P _ _ (pure-Keeps _) λ _.
      then-Keeps P _ _ (attempt-Keeps _ _ _ kept.declared) λ _.
        then-Keeps P _ _ (attempt-Keeps _ _ _ (λ b. kept.same b _ (laws.confirm_same b)))
          λ _. pure-Keeps _

  pub new_publisher_provider-Keeps : Keeps P (new_publisher_provider amqp true)
  unfolding new_publisher_provider
  new_publisher_provider-Keeps = then-Keeps P _ _ (channel-Keeps true) λ _. new_publisher-Keeps

  new_consumer-Keeps : Keeps P (new_consumer amqp true)
  unfolding new_consumer
  new_consumer-Keeps = pure-Keeps _

  pub new_consumer_provider-Keeps : Keeps P (new_consumer_provider amqp true)
  unfolding new_consumer_provider
  new_consumer_provider-Keeps = then-Keeps P _ _ (channel-Keeps true) λ _. new_consumer-Keeps

  pub bind_queue-Keeps :
      (queue exchange key : String)
      → ((b : B) → P b → P (amqp.queue_bind (queue, key, exchange) b).0)
      → Keeps P (bind_queue amqp queue exchange key)
  unfolding bind_queue
  bind_queue-Keeps queue exchange key bind = then-Keeps P _ _ (pure-Keeps _) λ _.
      then-Keeps P _ _ (pure-Keeps _) λ _. then-Keeps P _ _ (pure-Keeps _) λ _.
        then-Keeps P _ _ (attempt-Keeps _ _ _ (λ b. kept.same b _ (laws.queue_same queue b)))
          λ _. attempt-Keeps _ _ _ bind

  pub new_payment_event_consumer-Keeps : Keeps P (new_payment_event_consumer amqp)
  unfolding new_payment_event_consumer
  new_payment_event_consumer-Keeps =
      then-Keeps P _ _ (wrapping-Keeps _ _ _ (channel-Keeps true)) λ _.
        then-Keeps P _ _ (wrapping-Keeps _ _ _ new_consumer-Keeps) λ _.
          then-Keeps P _ _
            (wrapping-Keeps _ _ _
              (bind_queue-Keeps _ _ _ (λ b. kept.bound completed_binding b (inl refl))))
            λ _.
              wrapping-Keeps _ _ _
                (bind_queue-Keeps _ _ _ (λ b. kept.bound failed_binding b (inr refl)))

  start_orders-Keeps : Keeps P (start_orders amqp)
  unfolding start_orders
  start_orders-Keeps =
      then-Keeps P _ _ new_publisher_provider-Keeps
        λ x. then-Keeps P _ _ new_payment_event_consumer-Keeps λ _. pure-Keeps _

  start_products-Keeps : Keeps P (start_products amqp)
  unfolding start_products
  start_products-Keeps = then-Keeps P _ _ new_consumer_provider-Keeps λ _.
      then-Keeps P _ _ (bind_queue-Keeps _ _ _ (λ b. kept.stray _ _ b))
        λ _. bind_queue-Keeps _ _ _ (λ b. kept.stray _ _ b)

  start_payments-Keeps : Keeps P (start_payments amqp)
  unfolding start_payments
  start_payments-Keeps =
      then-Keeps P _ _ new_publisher_provider-Keeps
        λ x. then-Keeps P _ _ new_consumer_provider-Keeps λ _. pure-Keeps _

  start_users-Keeps : Keeps P (start_users amqp)
  unfolding start_users
  start_users-Keeps = new_publisher_provider-Keeps

  send-Keeps : (r : Result (String × String)) (key : String) (b : B) → P b → P (send amqp r key b).0
  send-Keeps (err e) key b p = p
  send-Keeps (ok (exchange, body)) key b p = kept.published exchange key body b p

  step-Keeps : (e : Event) (s : B × Publishers) → P s.0 → P (step amqp e s).0
  unfolding step publish_notice publish
  step-Keeps (starts orders) (b, ps) p = start_orders-Keeps.keeps b p
  step-Keeps (starts products) (b, ps) p = start_products-Keeps.keeps b p
  step-Keeps (starts payments) (b, ps) p = start_payments-Keeps.keeps b p
  step-Keeps (starts users) (b, ps) p = start_users-Keeps.keeps b p
  step-Keeps (publishes notice payload) (b, ps) p =
      send-Keeps (prepared (publisher_of (sender notice) ps) (routing_key notice) payload)
        (routing_key notice) b p

  -- What the calls keep, every sequence of starts and publications keeps.
  pub run-Keeps : (es : List Event) (s : B × Publishers) → P s.0 → P (run amqp es s).0
  run-Keeps [] s p = p
  run-Keeps (e ∷ es) s p = run-Keeps es (step amqp e s) (step-Keeps e s p)
