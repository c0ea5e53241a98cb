-- ===== src/Order/Redelivery.antt =====
-- Payment events that come again or too late: the handlers answer nil and publish once more.
use golang_gin.Prelude.{
  ℕ, ◌≡◌, refl, false, none, some, List, [], ◌∷◌, ==-refl, arith, String, map, inl, inr,
}
use golang_gin.Errors.{Result, ok, err, kind_eq}
use golang_gin.Db.{smooth}
use golang_gin.Db.Laws.{Keyed}
use golang_gin.Order.{OrderStatus, confirmed, cancelled, OrderItem, Order}
use golang_gin.Order.Table.{Table, get_by_id, update_status}
use golang_gin.Order.Saga.{Message, stock_confirm, stock_release, Outside, Net, publish}
use golang_gin.Order.Service.{World}
use golang_gin.Order.Consumer.{
  PaymentEnv, publish_items, publish_found, publish_order, settled, settle, after_settling,
  handle_payment_succeeded, handle_payment_failed,
}
use golang_gin.Order.Status.{is_pending, view, with_status, Updated, update_status-Updated}
use golang_gin.Order.Settlement.{
  Settled, announced, handle_payment_succeeded-Settled, handle_payment_failed-Settled,
}

-- A delivery without a fault.
abbrev pub sound : PaymentEnv
sound = record { update = none; select = none; items = smooth }

module _ {S : Type 0} (out : Outside S) where
  publish_items-returns :
      ((n : ℕ) → out.broker n ≡ none)
      → (message : OrderItem → Message) (text : String) (is : List OrderItem) (n : Net S)
      → (publish_items out message text is n).1 ≡ ok tt
  unfolding publish_items publish
  publish_items-returns good message text [] n = refl
  publish_items-returns good message text (i ∷ is) n =
      rw (good n.tries) (publish_items-returns good message text is _)

  abbrev Ready : ℕ → World S × Result (Unit {0}) → Type 0
  Ready id (w, r) = (r ≡ ok tt) × (o : Order) × (view w.orders id ≡ some o)

  settled-Ready :
      (next : OrderStatus) (text : String) (id : ℕ) (w : World S) (o : Order)
      → view w.orders id ≡ some o
      → (r : Result Table) → Updated id next w.orders r
      → Ready id (settled out text w r)
  unfolding settled kind_eq
  settled-Ready next text id w o h (ok rows') (x, e, p, all) =
      let here = all id in (refl, with_status next x, rw (==-refl id) at here)
  settled-Ready next text id w o h (err e) (k, f) = rw k (refl, o, h)

  published-returns :
      ((n : ℕ) → out.broker n ≡ none)
      → (fetch : String) (message : Order → OrderItem → Message) (text : String) (id : ℕ)
        (r : World S × Result (Unit {0}))
      → Ready id r
      → (after_settling out r (publish_order out sound fetch message text id)).1 ≡ ok tt
  unfolding publish_order publish_found get_by_id
  published-returns good fetch message text id (w, err e) (h, o, there) = ground arith
  published-returns good fetch message text id (w, ok _) (h, o, there) =
      rw there (publish_items-returns good (message o) text o.items w.net)

  -- Without a fault, `handlePaymentSucceeded` returns nil for every order in the table, whatever its
  -- status, and so does `handlePaymentFailed`.
  pub handle_payment-returns :
      ((n : ℕ) → out.broker n ≡ none)
      → (id : ℕ) (w : World S) → Keyed (λ o. o.id) w.orders
      → (o : Order) → view w.orders id ≡ some o
      → ((handle_payment_succeeded out sound id w).1 ≡ ok tt)
        × ((handle_payment_failed out sound id w).1 ≡ ok tt)
  unfolding handle_payment_succeeded handle_payment_failed settle
  handle_payment-returns good id w k o h = (
    published-returns good _ _ _ id _ (
        settled-Ready confirmed _ id w o h (update_status none id confirmed w.orders)
          (update_status-Updated id confirmed w.orders k)),
    published-returns good _ _ _ id _ (
        settled-Ready cancelled _ id w o h (update_status none id cancelled w.orders)
          (update_status-Updated id cancelled w.orders k)),
  )

  again :
      (id : ℕ) (w : World S) (o : Order)
      → view w.orders id ≡ some o
      → is_pending o ≡ false
      → (next : OrderStatus) (message : Order → OrderItem → Message)
        (r : World S × Result (Unit {0}))
      → Settled out next message id w r
      → r.1 ≡ ok tt
      → r.0.net.trace ≡ announced out w.net.tries (map (message o) o.items) w.net.trace
  again id w o h p next message (w', err e) s is = ground arith
  again id w o h p next message (w', ok _) (x, o', there, inl (q, how), all, trace) is =
      ground arith
  again id w o h p next message (w', ok _) (x, o', there, inr (q, same), all, trace) is =
      let same' : o' ≡ o = ground arith in rw same' at trace

  -- A completed payment of an order that is no longer pending, cancelled or confirmed before,
  -- publishes a stock confirmation of each of its items all the same, under event ids of new
  -- publications, where no fault comes in; the handler returns nil.
  pub handle_payment_succeeded-again :
      ((n : ℕ) → out.broker n ≡ none)
      → (id : ℕ) (w : World S) → Keyed (λ o. o.id) w.orders
      → (o : Order) → view w.orders id ≡ some o
      → is_pending o ≡ false
      → ((handle_payment_succeeded out sound id w).1 ≡ ok tt)
        × ((handle_payment_succeeded out sound id w).0.net.trace
            ≡ announced out w.net.tries
                (map (λ i. stock_confirm o.id i.product_id i.quantity) o.items)
                w.net.trace)
  handle_payment_succeeded-again good id w k o h p =
      let done = (handle_payment-returns good id w k o h).0 in
      (
        done,
        again id w o h p _ _ (handle_payment_succeeded out sound id w)
            (handle_payment_succeeded-Settled out sound id w k) done,
      )

  -- A payment.failed of an order that is no longer pending, such as a second delivery of one,
  -- publishes a stock release of each of its items all the same, under event ids of new
  -- publications, where no fault comes in; the handler returns nil.
  handle_payment_failed-again :
      ((n : ℕ) → out.broker n ≡ none)
      → (id : ℕ) (w : World S) → Keyed (λ o. o.id) w.orders
      → (o : Order) → view w.orders id ≡ some o
      → is_pending o ≡ false
      → ((handle_payment_failed out sound id w).1 ≡ ok tt)
        × ((handle_payment_failed out sound id w).0.net.trace
            ≡ announced out w.net.tries
                (map (λ i. stock_release i.product_id i.quantity "payment_failed") o.items)
                w.net.trace)
  handle_payment_failed-again good id w k o h p =
      let done = (handle_payment-returns good id w k o h).1 in
      (
        done,
        again id w o h p _ _ (handle_payment_failed out sound id w)
            (handle_payment_failed-Settled out sound id w k) done,
      )
