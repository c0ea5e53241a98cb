-- ===== src/Tests/Messaging.antt =====
-- The theorems on the broker, with a toy broker.
use text.Mathlib.Text.{◌==◌ as str_eq}
use text.Mathlib.TextEquality.{eq_iff}
use text.Mathlib.TextPositions.{eq_refl}
use golang_gin.Prelude.{
  ◌≡◌, refl, ◌⊎◌, inl, inr, String, Bool, true, false, ◌||◌, ◌&&◌, none, some, List, [], ◌∷◌, ◌++◌,
  All, if◌then◌else◌, arith, Bool-cases,
}
use golang_gin.Errors.{GoError, ok, err, foreign}
use golang_gin.Broker.Script.{◌>>=◌, pure, observe, attempt, wrapping}
use golang_gin.Broker.Channels.{
  channel, new_publisher, bind_queue, new_consumer, new_publisher_provider, new_consumer_provider,
  publish, prepared,
}
use golang_gin.Broker.Amqp.{Binding, acked, Amqp, Same, IsRouted, IsAmqp}
use golang_gin.Messaging.{
  Event, starts, publishes, orders, products, payments, payment_completed, stock_confirm_requested,
  order_created, completed_queue, start_products, start_orders, publish_notice, run, Publishers,
  step, new_payment_event_consumer,
}
use golang_gin.Messaging.Arrivals.{IsPaymentResult, IsFresh}
use golang_gin.Messaging.Starts.{nobody}
use golang_gin.Messaging.Strays.{run-IsPaymentResult}
use golang_gin.Messaging.Delivery.{publish_notice-arrived}

record Toy : Type 0 where
  exchanges : String → Bool
  bindings : Binding → Bool
  inbox : String → List (String × String)

abbrev binding_eq : Binding → Binding → Bool
binding_eq (q, k, e) (q', k', e') = str_eq q q' && (str_eq k k' && str_eq e e')

abbrev bind_to : Binding → Toy → Toy
bind_to x b = record {
  exchanges = b.exchanges;
  bindings = λ y. binding_eq x y || b.bindings y;
  inbox = b.inbox;
}

abbrev delivery : Bool → String → String → List (String × String) → List (String × String)
delivery true key body ms = ms ++ ((key, body) ∷ [])
delivery false key body ms = ms

abbrev toy : Amqp Toy
toy = record {
  is_closed = λ b. false;
  open_channel = λ b. (b, none);
  confirm = λ b. (b, none);
  exchange_declare = λ e b. (
    record { exchanges = λ x. str_eq x e || b.exchanges x; bindings = b.bindings; inbox = b.inbox },
    none,
  );
  queue_declare = λ q b. (b, none);
  queue_bind = λ x b.
      if b.exchanges x.2
      then (bind_to x b, none)
      else (b, some (foreign "NOT_FOUND - no exchange"));
  publish = λ e key body b. (
    record {
      exchanges = b.exchanges;
      bindings = b.bindings;
      inbox = λ q. delivery (b.bindings (q, key, e)) key body (b.inbox q);
    },
    acked,
  );
  matches = str_eq;
  has_exchange = λ b. b.exchanges;
  is_bound = λ b. b.bindings;
  arrived = λ b. b.inbox;
}

binding_eq-eq : (x y : Binding) → binding_eq x y ≡ true → y ≡ x
binding_eq-eq (q, k, e) (q', k', e') h =
    let a = (eq_iff q q').0 (ground arith) in
    let b = (eq_iff k k').0 (ground arith) in
    let c = (eq_iff e e').0 (ground arith) in rw (a, b, c) refl

binding_eq_refl : (x : Binding) → binding_eq x x ≡ true
binding_eq_refl (q, k, e) = rw (eq_refl q, eq_refl k, eq_refl e) refl

same : (b : Toy) → Same toy b b
same b = record { exchanges = λ x. refl; bindings = λ x. refl; queues = λ q. refl }

declare_adds :
    (e x : String) (b : Toy)
    → (str_eq x e || b.exchanges x) ≡ true
    → (b.exchanges x ≡ true) ⊎ (x ≡ e)
declare_adds e x b h = elim (Bool-cases (str_eq x e)) [
  | inl is ↦ inr ((eq_iff x e).0 is)
  | inr is ↦ inl (rw is at h)
]

bind_adds :
    (x y : Binding) (b : Toy)
    → toy.is_bound (toy.queue_bind x b).0 y ≡ true
    → (b.bindings y ≡ true) ⊎ ((y ≡ x) × (b.exchanges x.2 ≡ true))
bind_adds x y b h = elim (Bool-cases (b.exchanges x.2)) [
  | inl has ↦ elim (Bool-cases (binding_eq x y)) [
    | inl is ↦ inr (binding_eq-eq x y is, has)
    | inr is ↦ inl (ground arith)
  ]
  | inr hasnt ↦ inl (rw hasnt at h)
]

delivered :
    (e key body : String) (b : Toy) (q : String)
    → (delivery (b.bindings (q, key, e)) key body (b.inbox q) ≡ b.inbox q)
      ⊎ (IsRouted toy e key b q
          × (delivery (b.bindings (q, key, e)) key body (b.inbox q)
              ≡ b.inbox q ++ ((key, body) ∷ [])))
delivered e key body b q = elim (Bool-cases (b.bindings (q, key, e))) [
  | inl is ↦ inr (record { pattern_key = key; by_binding = is; by_key = eq_refl key }, rw is refl)
  | inr is ↦ inl (rw is refl)
]

reached :
    (e key body : String) (b : Toy) (q : String)
    → IsRouted toy e key b q
    → delivery (b.bindings (q, key, e)) key body (b.inbox q) ≡ b.inbox q ++ ((key, body) ∷ [])
reached e key body b q route =
    let is = (eq_iff route.pattern_key key).0 route.by_key in
    let bound : b.bindings (q, key, e) ≡ true = rw (← is) route.by_binding in rw bound refl

toy-IsAmqp : IsAmqp toy
toy-IsAmqp = record {
  open_same = same;
  confirm_same = same;
  queue_same = λ q. same;
  declare_adds = λ e b x. declare_adds e x b;
  declare_bindings = λ e b x. refl;
  declare_queues = λ e b q. refl;
  bind_exchanges = λ x b y. ground arith;
  bind_adds = λ x b y. bind_adds x y b;
  bind_keeps = λ x b y h. ground arith;
  bind_binds = λ x b h. let is = binding_eq_refl x in ground arith;
  bind_queues = λ x b q. ground arith;
  bind_missing = λ x b h. (foreign "NOT_FOUND - no exchange", rw h refl);
  publish_exchanges = λ e key body b x. refl;
  publish_bindings = λ e key body b x. refl;
  publish_puts = delivered;
  publish_reaches = λ e key body b q h. reached e key body b q;
  matches_plain = λ p key h. refl;
}

abbrev empty : Toy
empty = record { exchanges = λ x. false; bindings = λ x. false; inbox = λ q. [] }

empty-IsFresh : IsFresh toy empty
empty-IsFresh = record { no_exchange = λ x. refl; no_binding = λ x. refl; no_message = λ q. refl }

-- The services start, and an order and its payment are published.
abbrev day : List Event
day =
    starts payments
    ∷ starts orders
    ∷ starts products
    ∷ publishes order_created (ok "{}")
    ∷ publishes payment_completed (ok "{}")
    ∷ publishes stock_confirm_requested (ok "{}")
    ∷ []

run-IsPaymentResult_example :
    let after = (run toy day (empty, nobody)).0 in
    ((q : String) → All (IsPaymentResult q) (after.inbox q))
    × ((e : GoError) × ((start_products toy after).1 ≡ err e))
run-IsPaymentResult_example = run-IsPaymentResult toy toy-IsAmqp empty empty-IsFresh nobody day

abbrev before : Toy × Publishers
before = run toy (starts payments ∷ []) (empty, nobody)

abbrev after : Toy × Publishers
after = run toy (starts orders ∷ publishes order_created (ok "{}") ∷ []) before

publish_notice-arrived_example :
    (body : String) × (ok "{}" ≡ ok body)
    × ((publish_notice toy payment_completed (ok "{}") after.1 after.0).0.inbox completed_queue
        ≡ after.0.inbox completed_queue ++ (("payment.completed", body) ∷ []))
unfolding start_orders publish_notice step ◌>>=◌ pure observe attempt wrapping channel new_publisher
    bind_queue new_consumer new_publisher_provider new_consumer_provider new_payment_event_consumer
    publish prepared
publish_notice-arrived_example =
    publish_notice-arrived toy toy-IsAmqp empty (start_orders toy before.0).0
      (publish_notice toy payment_completed (ok "{}") after.1 after.0).0
      (record { exchange = "payment_events" }) (starts payments ∷ [])
      (publishes order_created (ok "{}") ∷ []) refl payment_completed (ok "{}") completed_queue refl
      (λ body. inl (refl, refl))
