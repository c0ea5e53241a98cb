-- ===== src/Order/Client.antt =====
-- services/order-service/internal/client/product.go: the calls that the order service makes of the
-- product service, without a token. A deadline that passes is an error of the network.
use golang_gin.Prelude.{ℕ, ◌+◌, String, Option, List, [], ◌∷◌}
use golang_gin.Prelude.Int.{ℤ}
use golang_gin.Errors.{Fault, Result, ok, err}
use golang_gin.Errors.Grpc.{Status, to_app_error}
use golang_gin.Db.{RowsFault}
use golang_gin.Rpc.{Reply, replied, failed, Link, CallEnv, transmit}
use golang_gin.Product.Cached.{Deps, World, CacheEnv}
use golang_gin.Product.Service.{ProtoProduct}
use golang_gin.Product.Server.{serve_get_product, serve_get_products_by_ids, serve_reserve_stock}
use golang_gin.Order.Saga
use golang_gin.Order.Saga.{Outside}

-- `if err != nil { return ToAppError(err) }`
abbrev pub received {ℓ κ} :
    {W : Type ℓ} {A : Type κ} → (Status → String) → W × Reply A → W × Result A
received render (w, replied a) = (w, ok a)
received render (w, failed e) = (w, err (to_app_error render e))

module _ (render : Status → String) (deps : Deps) (parse : String → Option ℕ) where
  unfoldable pub get_product :
      Link → CallEnv → CacheEnv → Fault → String → World → World × Result ProtoProduct
  unfolding transmit serve_get_product
  get_product link env cache select id w =
      received render (transmit link w (serve_get_product deps parse env [] cache select id w))

  unfoldable pub get_products_by_ids :
      Link
      → CallEnv
      → (ℕ → CacheEnv)
      → RowsFault
      → List String
      → World
      → World × Result (List ProtoProduct)
  unfolding transmit serve_get_products_by_ids
  get_products_by_ids link env cache fault [] w = (w, ok [])
  get_products_by_ids link env cache fault (id ∷ ids) w =
      received render
        (transmit link w (serve_get_products_by_ids deps parse env [] cache fault (id ∷ ids) w))

  unfoldable pub reserve_stock :
      Link → CallEnv → Fault → Fault → String → ℤ → World → World × Result (Unit {0})
  unfolding transmit serve_reserve_stock
  reserve_stock link env exec del id quantity w =
      received render
        (transmit link w (serve_reserve_stock deps parse env [] exec del (id, quantity) w))

-- What one reservation meets: the network, the interceptors, the statement and the cache.
pub record Trip : Type 0 where
  pub link : Link
  pub env : CallEnv
  pub exec : Fault
  pub del : Fault

-- The product service, and how often it was asked to reserve.
pub record Shop : Type 0 where
  pub world : World
  pub asked : ℕ

-- The surroundings of the order service, with the product service behind its client. What the reads
-- of products return is any function of the texts and the state.
abbrev pub shop :
    (Status → String)
    → Deps
    → (String → Option ℕ)
    → (ℕ → String)
    → (ℕ → Trip)
    → (List String → Shop → Result (List Saga.ProtoProduct))
    → (ℕ → ℕ)
    → (ℕ → Fault)
    → Outside Shop
shop render deps parse format trips reads event_id broker = record {
  parse = parse;
  format = format;
  get_products_by_ids = reads;
  reserve_stock = λ id quantity s.
      let trip = trips s.asked in
      let (w, r) =
        reserve_stock render deps parse trip.link trip.env trip.exec trip.del id quantity s.world in
      (record { world = w; asked = s.asked + 1 }, r);
  event_id = event_id;
  broker = broker;
}
