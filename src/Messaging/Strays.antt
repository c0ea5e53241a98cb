-- ===== src/Messaging/Strays.antt =====
-- What no queue gets, and the start of the product service.
use golang_gin.Prelude.{◌≡◌, refl, String, some, List, All, ap, arith}
use golang_gin.Errors.{GoError, Kind, Result, ok, err, Fault, check}
use golang_gin.Broker.Script.{Script, ◌>>=◌, go_on, attempt}
use golang_gin.Broker.Amqp.{Amqp, IsAmqp}
use golang_gin.Broker.Channels.{bind_queue}
use golang_gin.Messaging.{Publishers, order_exchange, Event, start_products, run}
use golang_gin.Messaging.Routes.{
  Keeps, run-Keeps, pure-Keeps, attempt-Keeps, new_consumer_provider-Keeps,
}
use golang_gin.Messaging.Arrivals.{IsPaymentResult, IsFresh, IsWired, fresh-IsWired, IsWired-IsKept}

module _ {ℓ} {B : Type ℓ} (P : B → Type 0) where
  -- A script that returns an error where a property holds.
  pub record Fails {κ} {A : Type κ} (script : Script B A) : Type (ℓ ⊔ κ) where
    pub fails : (b : B) → P b → (e : GoError) × ((script b).1 ≡ err e)

  go_on-Fails {κ μ} :
      {A : Type κ} {C : Type μ} (r : B × Result A) (next : A → Script B C)
      → ((a : A) → Fails (next a))
      → P r.0
      → (e : GoError) × ((go_on r next).1 ≡ err e)
  go_on-Fails (b, err e) next k p = (e, refl)
  go_on-Fails (b, ok a) next k p = (k a).fails b p

  then-Fails {κ μ} :
      {A : Type κ} {C : Type μ} (first : Script B A) (next : A → Script B C)
      → Keeps P first
      → ((a : A) → Fails (next a))
      → Fails (first >>= next)
  unfolding ◌>>=◌
  then-Fails first next k l = record { fails = λ b p. go_on-Fails (first b) next l (k.keeps b p) }

  error-Fails {κ μ} :
      {A : Type κ} {C : Type μ} (r : B × Result A) (next : A → Script B C) (e : GoError)
      → r.1 ≡ err e
      → (e' : GoError) × ((go_on r next).1 ≡ err e')
  error-Fails (b, err e') next e is = (e', refl)
  error-Fails (b, ok a) next e is = absurd (ground arith)

  first-Fails {κ μ} :
      {A : Type κ} {C : Type μ} (first : Script B A) (next : A → Script B C)
      → Fails first
      → Fails (first >>= next)
  unfolding ◌>>=◌
  first-Fails first next k = record {
    fails = λ b p. let (e, is) = k.fails b p in error-Fails (first b) next e is;
  }

  attempt-Fails :
      (call : B → B × Fault) (kind : Kind) (text : String)
      → ((b : B) → P b → (e : GoError) × ((call b).1 ≡ some e))
      → Fails (attempt call kind text)
  unfolding attempt
  attempt-Fails call kind text k = record {
    fails = λ b p. let (e, is) = k b p in (_, ap (λ f. check f kind text) is);
  }

module _ {ℓ} {B : Type ℓ} (amqp : Amqp B) (laws : IsAmqp amqp) where
  bind_queue-Fails :
      (queue key : String) → Fails (IsWired amqp) (bind_queue amqp queue order_exchange key)
  unfolding bind_queue
  bind_queue-Fails queue key =
      let kept = IsWired-IsKept amqp laws in
      then-Fails _ _ _ (pure-Keeps amqp laws _ kept _) λ _.
        then-Fails _ _ _ (pure-Keeps amqp laws _ kept _) λ _.
          then-Fails _ _ _ (pure-Keeps amqp laws _ kept _) λ _.
            then-Fails _ _ _
              (attempt-Keeps amqp laws _ kept _ _ _ (λ b. kept.same b _ (laws.queue_same queue b)))
              λ _.
                attempt-Fails _ _ _ _
                  (λ b w. laws.bind_missing (queue, key, order_exchange) b w.missing)

  start_products-Fails : Fails (IsWired amqp) (start_products amqp)
  unfolding start_products
  start_products-Fails =
      then-Fails _ _ _ (new_consumer_provider-Keeps amqp laws _ (IsWired-IsKept amqp laws))
        λ _. first-Fails _ _ _ (bind_queue-Fails _ _)

  -- On a broker where nothing is declared before, whatever the services start, restart and publish
  -- and whatever the broker refuses: only results of payments ever reach a queue, `payment.completed`
  -- and `payment.failed` in their queue of the order service, so that no stock event, no
  -- `order.created` and no one-time code does, and the product service cannot start, since it binds
  -- its queues to an exchange that no service declares.
  pub run-IsPaymentResult :
      (b : B)
      → IsFresh amqp b
      → (ps : Publishers) (es : List Event)
      → let after = (run amqp es (b, ps)).0 in
        ((q : String) → All (IsPaymentResult q) (amqp.arrived after q))
        × ((e : GoError) × ((start_products amqp after).1 ≡ err e))
  run-IsPaymentResult b fresh ps es =
      let wired =
        run-Keeps amqp laws (IsWired amqp) (IsWired-IsKept amqp laws) es (b, ps)
          (fresh-IsWired amqp b fresh) in
      (wired.queues, start_products-Fails.fails _ wired)
