-- ===== src/Order/Checkout.antt =====
-- `CreateOrder` with the product service behind its client: the stock after it.
use mathlib.Core.List.{append_assoc, append_cancel_right}
use golang_gin.Prelude.{
  ℕ, ◌≡◌, refl, sym, ap, ◌∙◌, inl, inr, String, Option, none, some, List, [], ◌∷◌, ◌++◌,
}
use golang_gin.Prelude.Int.{ℤ}
use golang_gin.Errors.{Result, ok, err, Fault, Result-cases}
use golang_gin.Errors.Grpc.{Status}
use golang_gin.Product.{Table}
use golang_gin.Product.Stock.{IsValid}
use golang_gin.Product.Cached.{Deps}
use golang_gin.Order.{OrderItem, Order}
use golang_gin.Order.Client.{reserve_stock, Trip, Shop, shop}
use golang_gin.Order.Bookings.{
  IsTaken, IsTaken-nil, IsTaken-append, reservation-IsTaken, IsHeard, Told-err, Told-ok,
  client-Told,
}
use golang_gin.Order.Saga.{
  ProtoProduct, ItemRequest, AccessClaims, ProtoOrder, Message, order_created, stock_release,
  Outside, Net, publish, compensate_reservations, reserve_item, reserve_items,
}
use golang_gin.Order.Service.{
  World, OrderEnv, to_proto_order, finish_order, start_payment, new_order, store_order,
  reserve_order, prepare_order, create_order,
}
use golang_gin.Order.Table.{Table as Orders, create}
use golang_gin.Order.Compensation.{
  pairs, reservations, releases, rev_onto, rev_onto_split, reserve_items_stop, reserve_items_go,
}
use golang_gin.Order.Acceptance.{Answered, create_order-Answered}

abbrev pub rows_of : Net Shop → Table
rows_of n = n.stock.world.rows

-- The stock moves with the reservations that are added to the trace.
abbrev pub Moved : Net Shop → Net Shop → Type 0
Moved n n' =
    (ts : List (ℕ × ℤ)) × (reservations n'.trace ≡ ts ++ reservations n.trace)
    × IsTaken ts (rows_of n) (rows_of n')

Moved-trans : (a b c : Net Shop) → Moved a b → Moved b c → Moved a c
Moved-trans a b c (us, e, first) (ts, e', second) = (
  ts ++ us,
  e' ∙ (ap (λ l. ts ++ l) e ∙ sym (append_assoc ts us (reservations a.trace))),
  IsTaken-append ts us (rows_of a) (rows_of b) (rows_of c) first second,
)

Moved-IsValid : (n n' : Net Shop) → Moved n n' → IsValid (rows_of n')
Moved-IsValid n n' (ts, e, (v, rest)) = v

module _ (render : Status → String) (deps : Deps) (parse : String → Option ℕ) (format : ℕ → String)
    (trips : ℕ → Trip) (reads : List String → Shop → Result (List ProtoProduct)) (event_id : ℕ → ℕ)
    (broker : ℕ → Fault) where
  abbrev out : Outside Shop
  out = shop render deps parse format trips reads event_id broker

  publish-Moved :
      (m : Message) (n : Net Shop)
      → reservations (publish out m n).0.trace ≡ reservations n.trace
      → IsValid (rows_of n)
      → Moved n (publish out m n).0
  unfolding publish
  publish-Moved m n same v = ([], same, IsTaken-nil (rows_of n) v)

  compensate_reservations-Moved :
      (reason : String) (is : List OrderItem) (n : Net Shop)
      → IsValid (rows_of n)
      → Moved n (compensate_reservations out reason is n)
  unfolding compensate_reservations publish
  compensate_reservations-Moved reason [] n v = ([], refl, IsTaken-nil (rows_of n) v)
  compensate_reservations-Moved reason (i ∷ is) n v =
      compensate_reservations-Moved reason is
        (publish out (stock_release i.product_id i.quantity reason) n).0 v

  module _ (uuid : (id : ℕ) → parse (format id) ≡ some id)
      (heard : (k : ℕ) → IsHeard (trips k).link) where
    reserve_item-Moved :
        (i : OrderItem) (n : Net Shop) → IsValid (rows_of n) → Moved n (reserve_item out i n).0
    unfolding reserve_item
    reserve_item-Moved i n v =
        let trip = trips n.stock.asked in
        let reply =
          reserve_stock render deps parse trip.link trip.env trip.exec trip.del
            (format i.product_id) i.quantity n.stock.world in
        let told =
          client-Told trip.exec i.product_id i.quantity n.stock.world render deps parse
            (format i.product_id) trip.link trip.env trip.del (heard n.stock.asked)
            (uuid i.product_id) in
        elim (Result-cases reply.1) [
          | inl (e, h) ↦
              let same = Told-err trip.exec i.product_id i.quantity n.stock.world reply e h told in
              rw (h, reserve_item) ([], refl, rw same (IsTaken-nil (rows_of n) v))
          | inr (u, h) ↦
              let went = Told-ok trip.exec i.product_id i.quantity n.stock.world reply u h told in
              rw (h, reserve_item)
                (
                  ((i.product_id, i.quantity) ∷ []),
                  refl,
                  reservation-IsTaken trip.exec i.product_id i.quantity (rows_of n) reply.0.rows v
                      went,
                )
        ]

    reserve_items-Moved :
        (done is : List OrderItem) (n : Net Shop)
        → IsValid (rows_of n)
        → Moved n (reserve_items out done is n).0
    unfolding reserve_items
    reserve_items-Moved done [] n v = ([], refl, IsTaken-nil (rows_of n) v)
    reserve_items-Moved done (i ∷ is) n v =
        let n1 = (reserve_item out i n).0 in
        let step = reserve_item-Moved i n v in
        let more = reserve_items-Moved (done ++ i ∷ []) is n1 (Moved-IsValid n n1 step) in
        elim (Result-cases (reserve_item out i n).1) [
          | inl (e, h) ↦ rw (reserve_items_stop out done i is n e h) (
              Moved-trans n n1 (compensate_reservations out "reservation_failed" done n1) step (
                compensate_reservations-Moved "reservation_failed" done n1
                  (Moved-IsValid n n1 step)))
          | inr (u, h) ↦
              rw (reserve_items_go out done i is n h)
                (Moved-trans n n1 (reserve_items out (done ++ i ∷ []) is n1).0 step more)
        ]

    finish_order-Moved :
        (env : OrderEnv) (items : List OrderItem) (o : Order) (w : World Shop)
        (r : Net Shop × Fault)
        → IsValid (rows_of r.0)
        → Moved r.0 (finish_order out env items o w r).0.net
    unfolding finish_order
    finish_order-Moved env items o w (n, none) v = ([], refl, IsTaken-nil (rows_of n) v)
    finish_order-Moved env items o w (n, some e) v =
        compensate_reservations-Moved "publish_failed" items n v

    start_payment-Moved :
        (env : OrderEnv) (items : List OrderItem) (n : Net Shop) (r : Orders × Result Order)
        → IsValid (rows_of n)
        → Moved n (start_payment out env items n r).0.net
    unfolding start_payment publish
    start_payment-Moved env items n (orders, err e) v =
        compensate_reservations-Moved "order_persist_failed" items n v
    start_payment-Moved env items n (orders, ok o) v =
        let sent = publish out (order_created o) n in
        let w : World Shop = record { net = n; orders = orders } in
        Moved-trans n sent.0 (finish_order out env items o w sent).0.net
          (publish-Moved (order_created o) n refl v) (finish_order-Moved env items o w sent v)

    store_order-Moved :
        (env : OrderEnv) (user : ℕ) (items : List OrderItem) (rows : Orders) (n : Net Shop)
        (r : Net Shop × Result (List OrderItem))
        → Moved n r.0
        → Moved n (store_order out env user items rows r).0.net
    unfolding store_order
    store_order-Moved env user items rows n (n', err e) m = m
    store_order-Moved env user items rows n (n', ok all) m =
        let created = create env.insert (some (new_order out user items)) rows in
        Moved-trans n n' (start_payment out env all n' created).0.net m
          (start_payment-Moved env all n' created (Moved-IsValid n n' m))

    reserve_order-Moved :
        (env : OrderEnv) (w : World Shop) (r : Result (ℕ × List OrderItem))
        → IsValid (rows_of w.net)
        → Moved w.net (reserve_order out env w r).0.net
    unfolding reserve_order
    reserve_order-Moved env w (err e) v = ([], refl, IsTaken-nil (rows_of w.net) v)
    reserve_order-Moved env w (ok (user, items)) v =
        store_order-Moved env user items w.orders w.net (reserve_items out [] items w.net)
          (reserve_items-Moved [] items w.net v)

    create_order-Moved :
        (env : OrderEnv) (claims : Option AccessClaims)
        (request : Option (List (Option ItemRequest))) (w : World Shop)
        → IsValid (rows_of w.net)
        → Moved w.net (create_order out env claims request w).0.net
    unfolding create_order
    create_order-Moved env claims request w v =
        reserve_order-Moved env w (prepare_order out request claims w.net.stock) v

    -- What the answer of `CreateOrder` says of the stock: the items of the order were taken, or what
    -- the releases ask to give back.
    abbrev pub IsSettled : Net Shop → World Shop × Result ProtoOrder → Type 0
    IsSettled n (w', ok p) =
        (o : Order) × (p ≡ to_proto_order out o)
        × IsTaken (rev_onto (pairs o.items) []) (rows_of n) (rows_of w'.net)
    IsSettled n (w', err e) =
        (ts : List (ℕ × ℤ)) × (releases w'.net.trace ≡ ts ++ releases n.trace)
        × IsTaken ts (rows_of n) (rows_of w'.net)

    settled :
        (n : Net Shop) (rows : Orders) (r : World Shop × Result ProtoOrder)
        → Answered out n rows r
        → Moved n r.0.net
        → IsSettled n r
    settled n rows (w', ok p) (o, at, status, is, all, none_given, id, t, last) (ts, e, taken) =
        let same =
          append_cancel_right ts (rev_onto (pairs o.items) []) (reservations n.trace)
            (sym e ∙ (all ∙ rev_onto_split (pairs o.items) (reservations n.trace))) in
        (o, is, rw (← same) taken)
    settled n rows (w', err e') (given, all, released) (ts, e, taken) =
        let same = append_cancel_right ts given (reservations n.trace) (sym e ∙ all) in
        (given, released, rw (← same) taken)

    -- `CreateOrder` against the product service itself, behind its client, the network and the
    -- interceptors, with UUIDs that are read back from their texts. As long as no answer to a
    -- reservation is lost on the way, and whatever else fails: after an order that is answered, the
    -- product service has reserved exactly the items of that order, and after an error exactly what
    -- the releases that `CreateOrder` tried to publish ask to give back. No other stock of a product
    -- changes, and the table stays valid.
    pub create_order-IsSettled :
        (env : OrderEnv) (claims : Option AccessClaims)
        (request : Option (List (Option ItemRequest))) (w : World Shop)
        → IsValid (rows_of w.net)
        → IsSettled w.net (create_order out env claims request w)
    create_order-IsSettled env claims request w v =
        settled w.net w.orders (create_order out env claims request w)
          (create_order-Answered out env claims request w)
          (create_order-Moved env claims request w v)
