-- ===== src/Order/Settlement.antt =====
-- The handlers of payment events: how an order is settled, and which messages follow.
use golang_gin.Prelude.{
  ℕ, ◌+◌, ◌≡◌, refl, true, false, none, some, List, [], ◌∷◌, map, if◌then◌else◌, ◌==◌, ==_iff,
  ==-refl, Bool-cases, Option-cases, ◌⊎◌, inl, inr, arith, String,
}
use golang_gin.Errors.{internal, Result, ok, err, get_kind, kind_eq, Fault}
use golang_gin.Db.{RowsFault}
use golang_gin.Db.Laws.{Keyed}
use golang_gin.Order.{OrderStatus, confirmed, cancelled, OrderItem, Order}
use golang_gin.Order.Table.{Table, get_by_id, update_status}
use golang_gin.Order.Saga.{
  Message, stock_release, stock_confirm, Effect, published, Outside, Net, publish,
}
use golang_gin.Order.Service.{World}
use golang_gin.Order.Consumer.{
  PaymentEnv, round, publish_items, publish_found, publish_order, settled, settle, after_settling,
  handle_payment_succeeded, handle_payment_failed,
}
use golang_gin.Order.Status.{is_pending, view, with_status, Updated, update_status-Updated}

module _ {S : Type 0} (out : Outside S) where
  -- The trace after the messages were published one after the other, from the k-th publication on.
  abbrev pub announced : ℕ → List Message → List Effect → List Effect
  announced k [] t = t
  announced k (m ∷ ms) t = announced (k + 1) ms (published (out.event_id k) m none ∷ t)

  -- What the loop over the items comes to.
  abbrev ItemsAnnounced :
      (OrderItem → Message) → List OrderItem → Net S → Net S × Result (Unit {0}) → Type 0
  ItemsAnnounced message is n (n', ok _) = n'.trace ≡ announced n.tries (map message is) n.trace
  ItemsAnnounced message is n (n', err e) = get_kind e ≡ internal

  round-ItemsAnnounced :
      (message : OrderItem → Message) (text : String) (i : OrderItem) (is : List OrderItem)
      (n : Net S) (f : Fault)
      → out.broker n.tries ≡ f
      → (r : Net S × Result (Unit {0})) → ItemsAnnounced message is (publish out (message i) n).0 r
      → ItemsAnnounced message (i ∷ is) n (round out text ((publish out (message i) n).0, f) r)
  unfolding publish get_kind
  round-ItemsAnnounced message text i is n none h (n', ok _) a = rw h at a
  round-ItemsAnnounced message text i is n none h (n', err e) a = a
  round-ItemsAnnounced message text i is n (some e) h r a = refl

  publish_items-ItemsAnnounced :
      (message : OrderItem → Message) (text : String) (is : List OrderItem) (n : Net S)
      → ItemsAnnounced message is n (publish_items out message text is n)
  unfolding publish_items publish
  publish_items-ItemsAnnounced message text [] n = refl
  publish_items-ItemsAnnounced message text (i ∷ is) n =
      let after = (publish out (message i) n).0 in
      round-ItemsAnnounced message text i is n (out.broker n.tries) refl
        (publish_items out message text is after)
        (publish_items-ItemsAnnounced message text is after)

  -- What a handler's answer means, by the status and the message that it is for. An answer of nil:
  -- the order exists, it had that status set if it was pending and is as it was if not, the other
  -- orders are as they were, and the message of each of its items was published, in order and
  -- successfully. Any other answer is an internal error.
  abbrev pub Settled :
      OrderStatus
      → (Order → OrderItem → Message)
      → ℕ
      → World S
      → World S × Result (Unit {0})
      → Type 0
  Settled next message id w (w', ok _) =
      (o o' : Order) × (view w.orders id ≡ some o)
      × (((is_pending o ≡ true) × (o' ≡ with_status next o)) ⊎ ((is_pending o ≡ false) × (o' ≡ o)))
      × ((j : ℕ) → view w'.orders j ≡ (if j == id then some o' else view w.orders j))
      × (w'.net.trace ≡ announced w.net.tries (map (message o') o'.items) w.net.trace)
  Settled next message id w (w', err e) = get_kind e ≡ internal

  -- What the first half leaves, if there is the order: it is changed or not.
  abbrev Changed : OrderStatus → ℕ → Table → Table → Type 0
  Changed next id rows rows' =
      (view rows' id ≡ none)
      ⊎ ((o o' : Order) × (view rows id ≡ some o)
          × (((is_pending o ≡ true) × (o' ≡ with_status next o))
              ⊎ ((is_pending o ≡ false) × (o' ≡ o)))
          × ((j : ℕ) → view rows' j ≡ (if j == id then some o' else view rows j)))

  itself :
      (id : ℕ) (rows : Table) (o : Order)
      → view rows id ≡ some o
      → (j : ℕ) → view rows j ≡ (if j == id then some o else view rows j)
  itself id rows o e j = elim (Bool-cases (j == id)) [
    | inl h ↦ rw (h, (==_iff j id).0 h) e
    | inr h ↦ rw h refl
  ]

  unchanged :
      (next : OrderStatus) (id : ℕ) (rows : Table)
      → ((o : Order) → view rows id ≡ some o → is_pending o ≡ false)
      → Changed next id rows rows
  unchanged next id rows f = elim (Option-cases (view rows id)) [
    | inl h ↦ inl h
    | inr (o, h) ↦ inr (o, o, h, inr (f o h, refl), itself id rows o h)
  ]

  abbrev FirstHalf : OrderStatus → ℕ → World S → World S × Result (Unit {0}) → Type 0
  FirstHalf next id w (w', ok _) = (w'.net ≡ w.net) × Changed next id w.orders w'.orders
  FirstHalf next id w (w', err e) = get_kind e ≡ internal

  settled-FirstHalf :
      (next : OrderStatus) (text : String) (id : ℕ) (w : World S) (r : Result Table)
      → Updated id next w.orders r
      → FirstHalf next id w (settled out text w r)
  unfolding settled kind_eq
  settled-FirstHalf next text id w (ok rows') (o, e, p, all) =
      (refl, inr (o, with_status next o, e, inl (p, refl), all))
  settled-FirstHalf next text id w (err e) (k, f) = rw k (refl, unchanged next id w.orders f)

  settle-FirstHalf :
      (env : PaymentEnv) (fault : Fault)
      → env.update ≡ fault
      → (next : OrderStatus) (text : String) (id : ℕ) (w : World S) → Keyed (λ o. o.id) w.orders
      → FirstHalf next id w (settle out env next text id w)
  unfolding settle update_status
  settle-FirstHalf env none h next text id w k = rw h (
      settled-FirstHalf next text id w (update_status none id next w.orders)
        (update_status-Updated id next w.orders k))
  settle-FirstHalf env (some e) h next text id w k = rw h refl

  -- What `GetByID` returns is in the table.
  Found : ℕ → Table → Result Order → Type 0
  Found id rows r = (o : Order) → r ≡ ok o → view rows id ≡ some o

  get_by_id-Found :
      (fault : Fault) (items : RowsFault) (id : ℕ) (rows : Table)
      → Found id rows (get_by_id fault items id rows)
  unfolding get_by_id Found
  get_by_id-Found fault items id rows o h = ground arith

  items-Settled :
      (message : Order → OrderItem → Message) (id : ℕ) (next : OrderStatus) (w w' : World S)
      → w'.net ≡ w.net
      → (o o' x : Order) → view w.orders id ≡ some o
      → ((is_pending o ≡ true) × (o' ≡ with_status next o)) ⊎ ((is_pending o ≡ false) × (o' ≡ o))
      → ((j : ℕ) → view w'.orders j ≡ (if j == id then some o' else view w.orders j))
      → x ≡ o'
      → (r : Net S × Result (Unit {0})) → ItemsAnnounced (message x) x.items w'.net r
      → Settled next message id w (record w' { net = r.0 }, r.1)
  items-Settled message id next w w' same o o' x h how all is (n, ok _) a =
      (o, o', h, how, all, rw (← is, ← same) a)
  items-Settled message id next w w' same o o' x h how all is (n, err e) a = a

  publish_found-Settled :
      (fetch : String) (message : Order → OrderItem → Message) (text : String) (id : ℕ)
      (next : OrderStatus) (w w' : World S)
      → w'.net ≡ w.net
      → Changed next id w.orders w'.orders
      → (r : Result Order) → Found id w'.orders r
      → Settled next message id w (publish_found out fetch message text w' r)
  unfolding publish_found Found get_kind
  publish_found-Settled fetch message text id next w w' same c (err e) f = refl
  publish_found-Settled fetch message text id next w w' same (inl none_there) (ok x) f =
      let there = f x refl in absurd (ground arith)
  publish_found-Settled fetch message text id next w w' same (inr (o, o', h, how, all)) (ok x) f =
      let there = f x refl in
      let here = all id in
      let is : x ≡ o' = ground (arith, ==-refl id) in
      items-Settled message id next w w' same o o' x h how all is
        (publish_items out (message x) text x.items w'.net)
        (publish_items-ItemsAnnounced (message x) text x.items w'.net)

  handled-Settled :
      (env : PaymentEnv) (fetch : String) (message : Order → OrderItem → Message) (text : String)
      (id : ℕ) (next : OrderStatus) (w : World S) (r : World S × Result (Unit {0}))
      → FirstHalf next id w r
      → Settled next message id w
          (after_settling out r (publish_order out env fetch message text id))
  unfolding publish_order
  handled-Settled env fetch message text id next w (w', err e) h = h
  handled-Settled env fetch message text id next w (w', ok _) (same, c) =
      publish_found-Settled fetch message text id next w w' same c
        (get_by_id env.select env.items id w'.orders)
        (get_by_id-Found env.select env.items id w'.orders)

  -- On a table without two orders of one id, `handlePaymentSucceeded` returns nil only if the order
  -- exists; then the order is confirmed if it was pending and is as it was if not, every other order
  -- is as it was, and a stock confirmation of each of the order's items was published, in order and
  -- successfully. Otherwise its error is internal, whatever failed.
  pub handle_payment_succeeded-Settled :
      (env : PaymentEnv) (id : ℕ) (w : World S)
      → Keyed (λ o. o.id) w.orders
      → Settled confirmed
          (λ o i. stock_confirm o.id i.product_id i.quantity)
          id
          w
          (handle_payment_succeeded out env id w)
  unfolding handle_payment_succeeded
  handle_payment_succeeded-Settled env id w k =
      handled-Settled env _ _ _ id confirmed w _
        (settle-FirstHalf env env.update refl confirmed _ id w k)

  -- On a table without two orders of one id, `handlePaymentFailed` returns nil only if the order
  -- exists; then the order is cancelled if it was pending and is as it was if not, every other order
  -- is as it was, and a stock release of each of the order's items was published, in order and
  -- successfully. That is so for an order that is no longer pending too: a redelivered payment.failed
  -- publishes the releases again. Otherwise its error is internal, whatever failed.
  pub handle_payment_failed-Settled :
      (env : PaymentEnv) (id : ℕ) (w : World S)
      → Keyed (λ o. o.id) w.orders
      → Settled cancelled
          (λ o i. stock_release i.product_id i.quantity "payment_failed")
          id
          w
          (handle_payment_failed out env id w)
  unfolding handle_payment_failed
  handle_payment_failed-Settled env id w k =
      handled-Settled env _ _ _ id cancelled w _
        (settle-FirstHalf env env.update refl cancelled _ id w k)
