-- ===== src/Messaging/Arrivals.antt =====
-- What reaches the queues at all, whatever the services publish.
use text.Mathlib.TextEquality.{eq_iff}
use golang_gin.Prelude.{
  ◌≡◌, refl, ap, sym, ◌∙◌, ◌⊎◌, inl, inr, String, true, false, [], ◌∷◌, All, All-append, Bool-cases,
  arith,
}
use golang_gin.Broker.Amqp.{Binding, Amqp, Arrives, IsAmqp}
use golang_gin.Broker.Channels.{payment_events}
use golang_gin.Messaging.{completed_queue, failed_queue, order_exchange}
use golang_gin.Messaging.Routes.{IsPaymentBinding, IsKept}

-- The results of payments in the two queues of the order service; a message is a key and a body.
abbrev pub IsPaymentResult : String → String × String → Type 0
IsPaymentResult q m =
    ((q ≡ completed_queue) × (m.0 ≡ "payment.completed"))
    ⊎ ((q ≡ failed_queue) × (m.0 ≡ "payment.failed"))

module _ {ℓ} {B : Type ℓ} (amqp : Amqp B) where
  -- Nothing has been declared, bound or published.
  pub record IsFresh (b : B) : Type 0 where
    pub no_exchange : (x : String) → amqp.has_exchange b x ≡ false
    pub no_binding : (x : Binding) → amqp.is_bound b x ≡ false
    pub no_message : (q : String) → amqp.arrived b q ≡ []

  pub record IsWired (b : B) : Type 0 where
    pub missing : amqp.has_exchange b order_exchange ≡ false
    pub bindings : (x : Binding) → amqp.is_bound b x ≡ true → IsPaymentBinding x
    pub queues : (q : String) → All (IsPaymentResult q) (amqp.arrived b q)

  pub fresh-IsWired : (b : B) → IsFresh b → IsWired b
  fresh-IsWired b fresh = record {
    missing = fresh.no_exchange order_exchange;
    bindings = λ x is. absurd (let no = fresh.no_binding x in ground arith);
    queues = λ q. rw (fresh.no_message q) tt;
  }

  module _ (laws : IsAmqp amqp) where
    -- What a binding of the order service lets through.
    plain-IsPaymentResult :
        (q p exchange key body : String)
        → IsPaymentBinding (q, p, exchange)
        → amqp.matches p key ≡ true
        → IsPaymentResult q (key, body)
    plain-IsPaymentResult q p exchange key body (inl is) h =
        let same : p ≡ "payment.completed" = ap (λ x. x.1) is in
        let plain = laws.matches_plain "payment.completed" key refl in
        inl (ap (λ x. x.0) is, sym ((eq_iff "payment.completed" key).0 (sym plain ∙ rw same at h)))
    plain-IsPaymentResult q p exchange key body (inr is) h =
        let same : p ≡ "payment.failed" = ap (λ x. x.1) is in
        let plain = laws.matches_plain "payment.failed" key refl in
        inr (ap (λ x. x.0) is, sym ((eq_iff "payment.failed" key).0 (sym plain ∙ rw same at h)))

    declared-missing :
        (b : B)
        → amqp.has_exchange b order_exchange ≡ false
        → amqp.has_exchange (amqp.exchange_declare payment_events b).0 order_exchange ≡ false
    declared-missing b none_yet =
        elim (Bool-cases
          (amqp.has_exchange (amqp.exchange_declare payment_events b).0 order_exchange)) [
            | inl is ↦ elim (laws.declare_adds payment_events b order_exchange is) [
              | inl was ↦ absurd (ground arith)
              | inr same ↦
                  absurd (let eq = (eq_iff order_exchange payment_events).1 same in ground arith)
            ]
            | inr is ↦ is
          ]

    bound-IsWired :
        (x : Binding) (b : B)
        → ((amqp.has_exchange b x.2 ≡ true) → IsPaymentBinding x)
        → IsWired b
        → IsWired (amqp.queue_bind x b).0
    bound-IsWired x b allowed w = record {
      missing = laws.bind_exchanges x b order_exchange ∙ w.missing;
      bindings = λ y is. elim (laws.bind_adds x b y is) [
        | inl was ↦ w.bindings y was
        | inr (same, has) ↦ rw same (allowed has)
      ];
      queues = λ q. rw (laws.bind_queues x b q) (w.queues q);
    }

    arrived-IsWired :
        (exchange key body : String) (b : B) (q : String)
        → IsWired b
        → (amqp.arrived (amqp.publish exchange key body b).0 q ≡ amqp.arrived b q)
          ⊎ Arrives amqp exchange key body b (amqp.publish exchange key body b).0 q
        → All (IsPaymentResult q) (amqp.arrived (amqp.publish exchange key body b).0 q)
    arrived-IsWired exchange key body b q w (inl same) = rw same (w.queues q)
    arrived-IsWired exchange key body b q w (inr (route, put)) =
        let here =
          plain-IsPaymentResult q route.pattern_key exchange key body
            (w.bindings (q, route.pattern_key, exchange) route.by_binding) route.by_key in
        rw put (
          All-append (IsPaymentResult q) (amqp.arrived b q) ((key, body) ∷ []) (w.queues q)
            (here, tt))

    pub IsWired-IsKept : IsKept amqp IsWired
    IsWired-IsKept = record {
      same = λ b b' s w. record {
        missing = s.exchanges order_exchange ∙ w.missing;
        bindings = λ x is. w.bindings x (sym (s.bindings x) ∙ is);
        queues = λ q. rw (s.queues q) (w.queues q);
      };
      declared = λ b w. record {
        missing = declared-missing b w.missing;
        bindings = λ x is. w.bindings x (sym (laws.declare_bindings payment_events b x) ∙ is);
        queues = λ q. rw (laws.declare_queues payment_events b q) (w.queues q);
      };
      bound = λ x b is w. bound-IsWired x b (λ _. is) w;
      stray = λ q k b w.
          bound-IsWired (q, k, order_exchange) b
            (λ has. absurd (let no = w.missing in ground arith)) w;
      published = λ exchange key body b w. record {
        missing = laws.publish_exchanges exchange key body b order_exchange ∙ w.missing;
        bindings = λ x is. w.bindings x (sym (laws.publish_bindings exchange key body b x) ∙ is);
        queues =
            λ q. arrived-IsWired exchange key body b q w (laws.publish_puts exchange key body b q);
      };
    }
