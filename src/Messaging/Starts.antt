-- ===== src/Messaging/Starts.antt =====
-- What the starts of the services lead to: the bindings of the order service, and publishers to one
-- exchange.
use golang_gin.Prelude.{
  ◌≡◌, refl, ap, ◌∙◌, inl, inr, String, true, Option, none, some, List, [], ◌∷◌,
}
use golang_gin.Errors.{Result, ok, err}
use golang_gin.Broker.Amqp.{Binding, Amqp, IsAmqp}
use golang_gin.Broker.Channels.{
  Publisher, payment_events, new_publisher, new_publisher_provider, bind_queue,
}
use golang_gin.Messaging.{
  Service, orders, products, payments, users, Publishers, publisher_of, built, Event, starts,
  publishes, new_payment_event_consumer, start_orders, start_payments, start_users, step, run,
}
use golang_gin.Messaging.Routes.{
  failed_binding, IsPaymentBinding, IsKept, wrapping-Keeps, bind_queue-Keeps, pure-Keeps,
}
use golang_gin.Messaging.Outcomes.{
  Leads, then-Leads, with-Leads, kept-Leads, pure-Leads, attempt-Leads, wrapping-Leads,
}

-- No service runs.
abbrev pub nobody : Publishers
nobody = record { of_orders = none; of_payments = none; of_users = none }

-- A publisher, if there is one, is one to the exchange of payments.
abbrev pub IsForPayments : Option Publisher → Type 0
IsForPayments none = Unit
IsForPayments (some p) = p.exchange ≡ payment_events

abbrev pub AreForPayments : Publishers → Type 0
AreForPayments ps =
    IsForPayments ps.of_orders × IsForPayments ps.of_payments × IsForPayments ps.of_users

pub publisher_of-IsForPayments :
    (s : Service) (ps : Publishers) → AreForPayments ps → IsForPayments (publisher_of s ps)
publisher_of-IsForPayments orders ps h = h.0
publisher_of-IsForPayments products ps h = tt
publisher_of-IsForPayments payments ps h = h.1
publisher_of-IsForPayments users ps h = h.2

module _ {ℓ} {B : Type ℓ} (amqp : Amqp B) (laws : IsAmqp amqp) where
  abbrev pub IsBound : Binding → B → Type 0
  IsBound x b = amqp.is_bound b x ≡ true

  pub IsBound-IsKept : (x : Binding) → IsKept amqp (IsBound x)
  IsBound-IsKept x = record {
    same = λ b b' s h. s.bindings x ∙ h;
    declared = λ b h. laws.declare_bindings payment_events b x ∙ h;
    bound = λ y b is h. laws.bind_keeps y b x h;
    stray = λ q k b h. laws.bind_keeps _ b x h;
    published = λ exchange key body b h. laws.publish_bindings exchange key body b x ∙ h;
  }

  bind_queue-Leads :
      (queue exchange key : String)
      → Leads (bind_queue amqp queue exchange key) (λ _. IsBound (queue, key, exchange))
  unfolding bind_queue
  bind_queue-Leads queue exchange key = then-Leads _ _ _ λ _. then-Leads _ _ _ λ _.
      then-Leads _ _ _
        λ _. then-Leads _ _ _ λ _. attempt-Leads _ _ _ _ (laws.bind_binds (queue, key, exchange))

  -- The consumer of the order service is made with both of its queues bound.
  new_payment_event_consumer-Leads :
      (x : Binding) → IsPaymentBinding x → Leads (new_payment_event_consumer amqp) (λ _. IsBound x)
  unfolding new_payment_event_consumer
  new_payment_event_consumer-Leads x (inl is) = then-Leads _ _ _ λ _. then-Leads _ _ _ λ _.
      kept-Leads _ _ _ (wrapping-Leads _ _ _ _ (rw is (bind_queue-Leads _ _ _))) λ _.
        let kept = IsBound-IsKept x in
        wrapping-Keeps amqp laws _ kept _ _ _
          (bind_queue-Keeps amqp laws _ kept _ _ _ (λ b. kept.bound failed_binding b (inr refl)))
  new_payment_event_consumer-Leads x (inr is) = then-Leads _ _ _ λ _.
      then-Leads _ _ _
        λ _. then-Leads _ _ _ λ _. wrapping-Leads _ _ _ _ (rw is (bind_queue-Leads _ _ _))

  start_orders-Leads :
      (x : Binding) → IsPaymentBinding x → Leads (start_orders amqp) (λ _. IsBound x)
  unfolding start_orders
  start_orders-Leads x is = then-Leads _ _ _ λ p.
      kept-Leads _ _ _ (new_payment_event_consumer-Leads x is)
        λ _. pure-Keeps amqp laws _ (IsBound-IsKept x) _

  new_publisher_provider-Leads :
      Leads (new_publisher_provider amqp true) (λ p _. p.exchange ≡ payment_events)
  unfolding new_publisher_provider new_publisher
  new_publisher_provider-Leads = then-Leads _ _ _ λ _. then-Leads _ _ _ λ _. then-Leads _ _ _ λ _.
      then-Leads _ _ _
        λ _. then-Leads _ _ _ λ _. pure-Leads _ (λ p. p.exchange ≡ payment_events) refl

  built-IsForPayments :
      (r : B × Result Publisher)
      → ((b : B) (p : Publisher) → r ≡ (b, ok p) → p.exchange ≡ payment_events)
      → IsForPayments (built r.1)
  built-IsForPayments (b, err e) h = tt
  built-IsForPayments (b, ok p) h = h b p refl

  start_orders-exchange : Leads (start_orders amqp) (λ p _. p.exchange ≡ payment_events)
  unfolding start_orders
  start_orders-exchange =
      with-Leads _ _ (λ p. p.exchange ≡ payment_events) _ new_publisher_provider-Leads
        λ p is. then-Leads _ _ _ λ _. pure-Leads p (λ x. x.exchange ≡ payment_events) is

  start_payments-exchange : Leads (start_payments amqp) (λ p _. p.exchange ≡ payment_events)
  unfolding start_payments
  start_payments-exchange =
      with-Leads _ _ (λ p. p.exchange ≡ payment_events) _ new_publisher_provider-Leads
        λ p is. then-Leads _ _ _ λ _. pure-Leads p (λ x. x.exchange ≡ payment_events) is

  step-AreForPayments :
      (e : Event) (s : B × Publishers) → AreForPayments s.1 → AreForPayments (step amqp e s).1
  unfolding step start_users
  step-AreForPayments (starts orders) (b, ps) h = (
    built-IsForPayments (start_orders amqp b) (λ b' p. start_orders-exchange.leads b b' p),
    h.1,
    h.2,
  )
  step-AreForPayments (starts products) (b, ps) h = h
  step-AreForPayments (starts payments) (b, ps) h = (
    h.0,
    built-IsForPayments (start_payments amqp b) (λ b' p. start_payments-exchange.leads b b' p),
    h.2,
  )
  step-AreForPayments (starts users) (b, ps) h = (
    h.0,
    h.1,
    built-IsForPayments (new_publisher_provider amqp true b)
        (λ b' p. new_publisher_provider-Leads.leads b b' p),
  )
  step-AreForPayments (publishes notice payload) (b, ps) h = h

  pub run-AreForPayments :
      (es : List Event) (s : B × Publishers) → AreForPayments s.1 → AreForPayments (run amqp es s).1
  run-AreForPayments [] s h = h
  run-AreForPayments (e ∷ es) s h = run-AreForPayments es _ (step-AreForPayments e s h)

  pub first-IsBound :
      (s : B × Publishers) (b1 : B) (p : Publisher) (x : Binding)
      → IsPaymentBinding x
      → start_orders amqp s.0 ≡ (b1, ok p)
      → IsBound x (step amqp (starts orders) s).0
  unfolding step
  first-IsBound (b, ps) b1 p x allowed h =
      let is : (start_orders amqp b).0 ≡ b1 = ap (λ r. r.0) h in
      rw is ((start_orders-Leads x allowed).leads b b1 p h)
