-- ===== src/Order/Server.antt =====
-- services/order-service/internal/handler and the chain of internal/server/grpc.go: the calls of the
-- order service as gRPC methods. None is public.
use golang_gin.Prelude.{ℕ, String, Bool, false, Option, none, some, List}
use golang_gin.Prelude.Int.{ℤ}
use golang_gin.Errors.{Fault, Result}
use golang_gin.Auth
use golang_gin.Db.{RowsFault}
use golang_gin.Rpc.{Reply, CallEnv, handled, chain}
use golang_gin.Order.Saga.{AccessClaims, ItemRequest, ProtoOrder, Outside}
use golang_gin.Order.Service.{World, OrderEnv}
use golang_gin.Order.Service

pub data Method : Type 0 where
  create_order get_order list_my_orders : Method

abbrev pub full_name : Method → String
full_name create_order = "/order.OrderService/CreateOrder"
full_name get_order = "/order.OrderService/GetOrder"
full_name list_my_orders = "/order.OrderService/ListMyOrders"

-- `PublicMethods`
abbrev pub public_methods : Method → Bool
public_methods m = false

-- `RateLimitRules`, per minute.
abbrev pub rate_limit_rules : Method → Option ℕ
rate_limit_rules create_order = some 5
rate_limit_rules get_order = some 30
rate_limit_rules list_my_orders = some 30

-- The claims that the interceptor puts into the context, as the service reads them.
abbrev pub claims_in : Option Auth.AccessClaims → Option AccessClaims
claims_in none = none
claims_in (some c) = some (record { user_id = c.user_id; role = c.role })

module _ {S : Type 0} where
  -- A method behind the interceptors, with the values of "authorization".
  unfoldable pub call {κ} :
      {A : Type κ}
      → Method
      → CallEnv
      → List String
      → World S
      → (Option AccessClaims → World S × Result A)
      → World S × Reply A
  unfolding chain handled
  call m env values w service =
      chain env (full_name m) (public_methods m) (rate_limit_rules m) values w
        (λ claims. handled env.details_ok "order-service" (service (claims_in claims)))

module _ {S : Type 0} (out : Outside S) where
  unfoldable pub serve_create_order :
      CallEnv
      → List String
      → OrderEnv
      → List (Option ItemRequest)
      → World S
      → World S × Reply ProtoOrder
  unfolding call Service.create_order
  serve_create_order env values order items w =
      call create_order env values w
        (λ claims. Service.create_order out order claims (some items) w)

  unfoldable pub serve_get_order :
      CallEnv → List String → Fault → RowsFault → String → World S → World S × Reply ProtoOrder
  unfolding call Service.get_order
  serve_get_order env values fault items id w =
      call get_order env values w
        (λ claims. (w, Service.get_order out fault items claims (some id) w.orders))

  unfoldable pub serve_list_my_orders :
      CallEnv → List String → RowsFault → ℤ × ℤ → World S → World S × Reply (List ProtoOrder)
  unfolding call Service.list_my_orders
  serve_list_my_orders env values fault page w =
      call list_my_orders env values w
        (λ claims. (w, Service.list_my_orders out fault claims (some page) w.orders))
