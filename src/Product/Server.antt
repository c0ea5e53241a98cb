-- ===== src/Product/Server.antt =====
-- services/product-service/internal/handler and the chain of internal/server/grpc.go: the calls of
-- the product service as gRPC methods.
use golang_gin.Prelude.{ℕ, String, Bool, true, false, Option, none, some, List}
use golang_gin.Prelude.Int.{ℤ}
use golang_gin.Errors.{Fault, Result}
use golang_gin.Auth.{AccessClaims}
use golang_gin.Db.{RowsFault}
use golang_gin.Rpc.{Reply, CallEnv, handled, chain}
use golang_gin.Product.Cached.{Deps, World, CacheEnv}
use golang_gin.Product.Service.{
  ProtoProduct, CreateRequest, UpdateRequest, SearchRequest, UpdateEnv,
}
use golang_gin.Product.Service

pub data Method : Type 0 where
  create_product update_product delete_product get_product get_products_by_ids search_products :
      Method
  reserve_stock release_stock confirm_stock : Method

abbrev pub full_name : Method → String
full_name create_product = "/product.ProductService/CreateProduct"
full_name update_product = "/product.ProductService/UpdateProduct"
full_name delete_product = "/product.ProductService/DeleteProduct"
full_name get_product = "/product.ProductService/GetProduct"
full_name get_products_by_ids = "/product.ProductService/GetProductsByIDs"
full_name search_products = "/product.ProductService/SearchProducts"
full_name reserve_stock = "/product.ProductService/ReserveStock"
full_name release_stock = "/product.ProductService/ReleaseStock"
full_name confirm_stock = "/product.ProductService/ConfirmStock"

-- `PublicMethods`
abbrev pub public_methods : Method → Bool
public_methods create_product = false
public_methods update_product = false
public_methods delete_product = false
public_methods get_product = true
public_methods get_products_by_ids = true
public_methods search_products = true
public_methods reserve_stock = true
public_methods release_stock = true
public_methods confirm_stock = true

-- `RateLimitRules`, per minute.
abbrev pub rate_limit_rules : Method → Option ℕ
rate_limit_rules create_product = some 10
rate_limit_rules update_product = some 30
rate_limit_rules delete_product = some 10
rate_limit_rules get_product = some 80
rate_limit_rules get_products_by_ids = none
rate_limit_rules search_products = some 40
rate_limit_rules reserve_stock = none
rate_limit_rules release_stock = none
rate_limit_rules confirm_stock = none

-- A method behind the interceptors, with the values of "authorization".
unfoldable pub call {κ} :
    {A : Type κ}
    → Method
    → CallEnv
    → List String
    → World
    → (Option AccessClaims → World × Result A)
    → World × Reply A
unfolding chain handled
call m env values w service =
    chain env (full_name m) (public_methods m) (rate_limit_rules m) values w
      (λ claims. handled env.details_ok "product-service" (service claims))

module _ (deps : Deps) (parse : String → Option ℕ) where
  unfoldable pub serve_create_product :
      CallEnv → List String → Fault → ℕ → CreateRequest → World → World × Reply ProtoProduct
  unfolding call Service.create_product
  serve_create_product env values insert fresh r w =
      call create_product env values w
        (λ claims. Service.create_product deps parse insert fresh claims (some r) w)

  unfoldable pub serve_update_product :
      CallEnv → List String → UpdateEnv → UpdateRequest → World → World × Reply ProtoProduct
  unfolding call Service.update_product
  serve_update_product env values update r w =
      call update_product env values w
        (λ claims. Service.update_product deps parse update claims (some r) w)

  unfoldable pub serve_delete_product :
      CallEnv → List String → Fault → Fault → String → World → World × Reply Bool
  unfolding call Service.delete_product
  serve_delete_product env values exec del id w =
      call delete_product env values w
        (λ claims. Service.delete_product deps parse exec del claims (some id) w)

  unfoldable pub serve_get_product :
      CallEnv → List String → CacheEnv → Fault → String → World → World × Reply ProtoProduct
  unfolding call Service.get_product
  serve_get_product env values cache select id w =
      call get_product env values w (λ _. Service.get_product deps parse cache select (some id) w)

  unfoldable pub serve_get_products_by_ids :
      CallEnv
      → List String
      → (ℕ → CacheEnv)
      → RowsFault
      → List String
      → World
      → World × Reply (List ProtoProduct)
  unfolding call Service.get_products_by_ids
  serve_get_products_by_ids env values cache fault ids w =
      call get_products_by_ids env values w
        (λ _. Service.get_products_by_ids deps parse cache fault (some ids) w)

  unfoldable pub serve_search_products :
      CallEnv
      → List String
      → CacheEnv
      → RowsFault
      → SearchRequest
      → World
      → World × Reply (List ProtoProduct)
  unfolding call Service.search_products
  serve_search_products env values cache fault r w =
      call search_products env values w
        (λ _. Service.search_products deps parse cache fault (some r) w)

  unfoldable pub serve_reserve_stock :
      CallEnv → List String → Fault → Fault → String × ℤ → World → World × Reply (Unit {0})
  unfolding call Service.reserve_stock
  serve_reserve_stock env values exec del r w =
      call reserve_stock env values w (λ _. Service.reserve_stock deps parse exec del (some r) w)

  unfoldable pub serve_release_stock :
      CallEnv → List String → Fault → Fault → String × ℤ → World → World × Reply (Unit {0})
  unfolding call Service.release_stock
  serve_release_stock env values exec del r w =
      call release_stock env values w (λ _. Service.release_stock deps parse exec del (some r) w)

  unfoldable pub serve_confirm_stock :
      CallEnv → List String → Fault → Fault → String × ℤ → World → World × Reply (Unit {0})
  unfolding call Service.confirm_stock
  serve_confirm_stock env values exec del r w =
      call confirm_stock env values w (λ _. Service.confirm_stock deps parse exec del (some r) w)
