-- ===== src/Messaging/Delivery.antt =====
-- What does reach the order service.
use golang_gin.Prelude.{
  ◌≡◌, refl, ap, inl, inr, String, Option, none, some, List, [], ◌∷◌, ◌++◌, arith,
}
use golang_gin.Errors.{Result, ok, err}
use golang_gin.Broker.{returned}
use golang_gin.Broker.Amqp.{
  Binding, Confirmation, unsent, acked, nacked, silent, Amqp, IsRouted, IsAmqp,
}
use golang_gin.Broker.Channels.{Publisher, payment_events, publish, prepared, send, confirmed}
use golang_gin.Messaging.{
  orders, Notice, sender, routing_key, Event, starts, start_orders, publish_notice, run,
}
use golang_gin.Messaging.Routes.{IsPaymentBinding, run-Keeps}
use golang_gin.Messaging.Arrivals.{IsPaymentResult}
use golang_gin.Messaging.Starts.{
  nobody, IsForPayments, publisher_of-IsForPayments, IsBound, IsBound-IsKept, run-AreForPayments,
  first-IsBound,
}

module _ {ℓ} {B : Type ℓ} (amqp : Amqp B) (laws : IsAmqp amqp) where
  -- A publication that returns without an error is one that the broker acknowledged.
  send-eq-returned :
      (r : Result (String × String)) (key : String) (b b' : B)
      → send amqp r key b ≡ (b', returned (ok tt))
      → (exchange body : String) × (r ≡ ok (exchange, body))
        × ((amqp.publish exchange key body b).0 ≡ b')
        × ((amqp.publish exchange key body b).1 ≡ acked)
  send-eq-returned (err e) key b b' h = absurd (ground arith)
  send-eq-returned (ok (exchange, body)) key b b' h =
      (exchange, body, refl, ap (λ r. r.0) h, acknowledged _ (ap (λ r. r.1) h))
    where
      acknowledged : (c : Confirmation) → confirmed c ≡ returned (ok tt) → c ≡ acked
      acknowledged (unsent e) is = absurd (ground arith)
      acknowledged acked is = refl
      acknowledged nacked is = absurd (ground arith)
      acknowledged silent is = absurd (ground arith)

  prepared-eq-ok :
      (p : Option Publisher) (key : String) (payload : Result String) (exchange body : String)
      → IsForPayments p
      → prepared p key payload ≡ ok (exchange, body)
      → (exchange ≡ payment_events) × (payload ≡ ok body)
  unfolding prepared
  prepared-eq-ok none key payload exchange body h is = absurd (ground arith)
  prepared-eq-ok (some p) key (err e) exchange body h is = absurd (ground arith)
  prepared-eq-ok (some p) key (ok b) exchange body h is = ground arith

  routed :
      (q key body : String) (b : B)
      → ((x : Binding) → IsPaymentBinding x → IsBound amqp laws x b)
      → IsPaymentResult q (key, body)
      → IsRouted amqp payment_events key b q
  routed q key body b h (inl (here, is)) = record {
    pattern_key = "payment.completed";
    by_binding = h (q, "payment.completed", payment_events) (inl (rw here refl));
    by_key = rw is (laws.matches_plain "payment.completed" "payment.completed" refl);
  }
  routed q key body b h (inr (here, is)) = record {
    pattern_key = "payment.failed";
    by_binding = h (q, "payment.failed", payment_events) (inr (rw here refl));
    by_key = rw is (laws.matches_plain "payment.failed" "payment.failed" refl);
  }

  -- After a start of the order service that returned no error, whatever the services start and
  -- publish before and after it: a result of a payment whose publication returns no error has been
  -- put into its queue of the order service, once, at the end, as it was marshalled. The services
  -- did not run before.
  pub publish_notice-arrived :
      (b b1 b' : B) (p : Publisher) (es es' : List Event)
      → let before = run amqp es (b, nobody) in
        start_orders amqp before.0 ≡ (b1, ok p)
        → let after = run amqp (starts orders ∷ es') before in
          (notice : Notice) (payload : Result String) (q : String)
          → publish_notice amqp notice payload after.1 after.0 ≡ (b', returned (ok tt))
          → ((body : String) → IsPaymentResult q (routing_key notice, body))
          → (body : String) × (payload ≡ ok body)
            × (amqp.arrived b' q ≡ amqp.arrived after.0 q ++ ((routing_key notice, body) ∷ []))
  unfolding publish_notice publish
  publish_notice-arrived b b1 b' p es es' h notice payload q published is =
      let before = run amqp es (b, nobody) in
      let s = run amqp (starts orders ∷ es') before in
      let (exchange, body, ready, reached, confirmation) = send-eq-returned _ _ s.0 b' published in
      let fine =
        run-AreForPayments amqp laws (starts orders ∷ es') before
          (run-AreForPayments amqp laws es (b, nobody) (tt, tt, tt)) in
      let (to_payments, marshalled) =
        prepared-eq-ok _ _ payload exchange body
          (publisher_of-IsForPayments (sender notice) s.1 fine) ready in
      let bound : (x : Binding) → IsPaymentBinding x → IsBound amqp laws x s.0 = λ x allowed.
        run-Keeps amqp laws (IsBound amqp laws x) (IsBound-IsKept amqp laws x) es' _
          (first-IsBound amqp laws before b1 p x allowed h) in
      let put =
        laws.publish_reaches exchange (routing_key notice) body s.0 q confirmation
          (rw to_payments (routed q (routing_key notice) body s.0 bound (is body))) in
      (body, marshalled, rw (← reached) put)
