-- ===== src/Order/Lost.antt =====
-- A reservation whose answer is lost on the way to the order service.
use golang_gin.Prelude.{ℕ, ◌≡◌, refl, ap, ◌∙◌, String, Option, some, List, [], ◌∷◌}
use golang_gin.Prelude.Int.{ℤ}
use golang_gin.Errors.{Result, ok, err, Fault}
use golang_gin.Errors.Grpc.{Status, RemoteError, to_app_error}
use golang_gin.Middleware.{rate_limit_interceptor, auth_interceptor}
use golang_gin.Rpc.{CallEnv, Link, unanswered, decided, handled, chain, transmit}
use golang_gin.Product.{Table}
use golang_gin.Product
use golang_gin.Product.Cached.{Deps, changed}
use golang_gin.Product.Cached
use golang_gin.Product.Service
use golang_gin.Product.Server.{serve_reserve_stock, call}
use golang_gin.Order.{OrderItem}
use golang_gin.Order.Client.{reserve_stock, Trip, Shop, shop}
use golang_gin.Order.Saga.{
  ProtoProduct, Outside, Net, publish, compensate_reservations, reserve_item, reserve_items,
}
use golang_gin.Order.Compensation.{
  pairs, reservations, releases, rev_onto, reserve_items_stop, releases-compensate,
  reservations-compensate,
}
use golang_gin.Order.Checkout.{rows_of}

module _ (render : Status → String) (deps : Deps) (parse : String → Option ℕ) (id : ℕ) (q : ℤ)
    (exec del : Fault) (w : Cached.World) (rows : Table) where
  -- The client reports an error, and the product service has reserved.
  reserve_stock-unanswered :
      (link : Link) (env : CallEnv) (text : String) (e : RemoteError)
      → link ≡ unanswered e
      → parse text ≡ some id
      → Product.reserve_stock exec id q w.rows ≡ ok rows
      → ((reserve_stock render deps parse link env exec del text q w).0.rows ≡ rows)
        × ((reserve_stock render deps parse link env exec del text q w).1
            ≡ err (to_app_error render e))
  unfolding reserve_stock serve_reserve_stock call chain transmit rate_limit_interceptor
      auth_interceptor decided handled Service.reserve_stock Service.parse_product_id
      Cached.reserve_stock changed
  reserve_stock-unanswered link env text e lost is h = rw (lost, is, h) (refl, refl)

module _ (render : Status → String) (deps : Deps) (parse : String → Option ℕ) (format : ℕ → String)
    (trips : ℕ → Trip) (reads : List String → Shop → Result (List ProtoProduct)) (event_id : ℕ → ℕ)
    (broker : ℕ → Fault) where
  abbrev out : Outside Shop
  out = shop render deps parse format trips reads event_id broker

  compensate_reservations-stock :
      (reason : String) (is : List OrderItem) (n : Net Shop)
      → (compensate_reservations out reason is n).stock ≡ n.stock
  unfolding compensate_reservations publish
  compensate_reservations-stock reason [] n = refl
  compensate_reservations-stock reason (i ∷ is) n = compensate_reservations-stock reason is _

  -- One reservation that is made, but whose answer is lost.
  reserve_item-unanswered :
      (i : OrderItem) (n : Net Shop) (rows : Table) (e : RemoteError)
      → parse (format i.product_id) ≡ some i.product_id
      → (trips n.stock.asked).link ≡ unanswered e
      → Product.reserve_stock (trips n.stock.asked).exec i.product_id i.quantity (rows_of n)
        ≡ ok rows
      → ((reserve_item out i n).1 ≡ err (to_app_error render e))
        × (rows_of (reserve_item out i n).0 ≡ rows)
        × ((reserve_item out i n).0.trace ≡ n.trace)
  unfolding reserve_item
  reserve_item-unanswered i n rows e uuid lost h =
      let trip = trips n.stock.asked in
      let (made, told) =
        reserve_stock-unanswered render deps parse i.product_id i.quantity trip.exec trip.del
          n.stock.world rows trip.link trip.env (format i.product_id) e lost uuid h in
      rw (told, reserve_item) (refl, made, refl)

  -- A reservation whose answer is lost on the way is never given back: the product service has
  -- reserved the items, while `reserveItems` takes the lost answer for an error, returns it, and asks
  -- for the release of the items before only. The other reservations stay as they are.
  pub reserve_items-unanswered :
      (done is : List OrderItem) (i : OrderItem) (n : Net Shop) (rows : Table) (e : RemoteError)
      → parse (format i.product_id) ≡ some i.product_id
      → (trips n.stock.asked).link ≡ unanswered e
      → Product.reserve_stock (trips n.stock.asked).exec i.product_id i.quantity (rows_of n)
        ≡ ok rows
      → let (n', r) = reserve_items out done (i ∷ is) n in
        (r ≡ err (to_app_error render e))
        × (rows_of n' ≡ rows)
        × (reservations n'.trace ≡ reservations n.trace)
        × (releases n'.trace ≡ rev_onto (pairs done) (releases n.trace))
  reserve_items-unanswered done is i n rows e uuid lost h =
      let (told, made, same) = reserve_item-unanswered i n rows e uuid lost h in
      let n1 = (reserve_item out i n).0 in
      rw (reserve_items_stop out done i is n (to_app_error render e) told) (
        refl,
        ap (λ s. s.world.rows) (compensate_reservations-stock "reservation_failed" done n1) ∙ made,
        reservations-compensate out "reservation_failed" done n1 ∙ ap reservations same,
        releases-compensate out "reservation_failed" done n1
            ∙ ap (λ t. rev_onto (pairs done) (releases t)) same,
      )
